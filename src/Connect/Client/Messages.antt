-- ===== src/Connect/Client/Messages.antt =====
-- The messages of proto/gpush.proto and proto/session.proto. An optional field that is not set reads
-- as 0 or as the empty string; a handler that asks if it is set has it as an option.
use gpush.Prelude.{ℕ, List, [], ◌∷◌, Option}

pub record Sess : Type 0 where
  pub id : List ℕ
  pub type : ℕ
  pub lasttime : ℕ
  pub sessid : List ℕ
  pub consvid : ℕ
  pub version : List ℕ
  pub kvs : List (List ℕ × List ℕ)

pub record LoginRequest : Type 0 where
  pub id : List ℕ
  pub type : ℕ
  pub version : List ℕ
  pub kvs : List (List ℕ × List ℕ)

pub record LoginResponse : Type 0 where
  pub status : ℕ
  pub sessid : List ℕ

pub record PushRequest : Type 0 where
  pub from_sessid : List ℕ
  pub to_sessid : List ℕ
  pub sn : List ℕ
  pub type : ℕ
  pub payload : List ℕ

pub record PushResponse : Type 0 where
  pub from_sessid : List ℕ
  pub to_sessid : Option (List ℕ)
  pub sn : List ℕ
  pub status : ℕ

-- The texts "NULL" and "null".
abbrev pub null_text : List ℕ
null_text = b'N' ∷ b'U' ∷ b'L' ∷ b'L' ∷ []

abbrev pub null_sn : List ℕ
null_sn = b'n' ∷ b'u' ∷ b'l' ∷ b'l' ∷ []
