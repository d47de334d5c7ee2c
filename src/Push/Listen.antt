-- ===== src/Push/Listen.antt =====
-- push_server/src/listen_conn.{h,cpp}: a connection that was accepted, on which pushes come as JSON.
-- jsoncpp, the session cache and protobuf are parameters.
pub mod Deliver
use gpush.Prelude.{
  ℕ, ◌+◌, List, [], ◌∷◌, ◌++◌, Option, none, some, Bool, true, false, not, if◌then◌else◌, ◌==◌,
  drop,
}
use gpush.Prelude.Int32.{negative, minus}
use gpush.Proto.{
  head_at, sizeof_head, magic_number, logic_construct_packet, json_push_req, json_push_resp,
}
use gpush.Proto.Word.{htonl}
use gpush.Connect.Client.Messages.{Sess, PushRequest}
use gpush.Push.Server.{Svlist, Env, send_to_server}

-- `respv`.
pub record Reply (J : Type 0) : Type 0 where
  pub status : ℕ
  pub sn : Option J
  pub message : List ℕ
  pub count : Option ℕ

-- `parse` of a reader; `[]`, `asInt` and `asString`, which may throw; `toStyledString`; and
-- `getSession` of the session cache, if there is one.
pub record Json (J : Type 0) : Type 0 where
  pub parse : List ℕ → Option J
  pub member : J → List ℕ → Option J
  pub is_string : J → Bool
  pub as_int : J → Option ℕ
  pub as_string : J → Option (List ℕ)
  pub styled : Reply J → List ℕ
  pub sessions : Option (List ℕ → List Sess)

abbrev pub sn_key : List ℕ
sn_key = b's' ∷ b'n' ∷ []

abbrev pub type_key : List ℕ
type_key = b't' ∷ b'y' ∷ b'p' ∷ b'e' ∷ []

abbrev pub payload_key : List ℕ
payload_key = b'p' ∷ b'a' ∷ b'y' ∷ b'l' ∷ b'o' ∷ b'a' ∷ b'd' ∷ []

abbrev pub to_id_key : List ℕ
to_id_key = b't' ∷ b'o' ∷ b'_' ∷ b'i' ∷ b'd' ∷ []

-- The messages "parse req fail", "get sess cache fail", "to_id is empty" and "user offline".
abbrev pub parse_fail : List ℕ
parse_fail =
    b'p' ∷ b'a' ∷ b'r' ∷ b's' ∷ b'e' ∷ b' ' ∷ b'r' ∷ b'e' ∷ b'q' ∷ b' ' ∷ b'f' ∷ b'a' ∷ b'i' ∷ b'l'
    ∷ []

abbrev pub no_cache : List ℕ
no_cache =
    b'g' ∷ b'e' ∷ b't' ∷ b' ' ∷ b's' ∷ b'e' ∷ b's' ∷ b's' ∷ b' ' ∷ b'c' ∷ b'a' ∷ b'c' ∷ b'h' ∷ b'e'
    ∷ b' ' ∷ b'f' ∷ b'a' ∷ b'i' ∷ b'l' ∷ []

abbrev pub no_to_id : List ℕ
no_to_id =
    b't' ∷ b'o' ∷ b'_' ∷ b'i' ∷ b'd' ∷ b' ' ∷ b'i' ∷ b's' ∷ b' ' ∷ b'e' ∷ b'm' ∷ b'p' ∷ b't' ∷ b'y'
    ∷ []

abbrev pub user_offline : List ℕ
user_offline =
    b'u' ∷ b's' ∷ b'e' ∷ b'r' ∷ b' ' ∷ b'o' ∷ b'f' ∷ b'f' ∷ b'l' ∷ b'i' ∷ b'n' ∷ b'e' ∷ []

-- What the handler does: the packets that it gives to this connection's `sendMessage`, and its
-- result; an exception, which nothing catches; or the use of a connection that was destroyed.
pub data Answered : Type 0 where
  returns : Svlist → List (List ℕ) → ℕ → Answered
  throws destroyed : Answered

-- The loop of `handlePushReqeust`: the count of sessions to whose server the request was sent.
unfoldable pub send_all : Env → PushRequest → List Sess → Svlist → Option (Svlist × ℕ)
send_all E preq [] l = some (l, 0)
send_all E preq (s ∷ ss) l =
    elim (send_to_server E s.consvid (record preq { to_sessid = s.sessid }) l) [
      | none ↦ none
      | some (l', ret) ↦ elim (send_all E preq ss l') [
        | none ↦ none
        | some (l'', count) ↦ some (l'', if negative ret then count else count + 1)
      ]
    ]

infixl 10 ◌>>=◌
abbrev ◌>>=◌ : {A : Type 0} → Option A → (A → Answered) → Answered
o >>= f = elim o [ none ↦ throws | some x ↦ f x ]

module _ {J : Type 0} (E : Env) (T : Json J) where
  unfoldable pub field : {A : Type 0} → (J → Option A) → List ℕ → J → Option A
  field read key v = elim (T.member v key) [ none ↦ none | some x ↦ read x ]

  unfoldable pub json_response : Reply J → List ℕ
  json_response v =
      logic_construct_packet (record { magic = magic_number; len = 0; cmd = json_push_resp })
        (T.styled v)

  unfoldable pub refuse : Svlist → ℕ → Option J → List ℕ → Answered
  unfolding json_response
  refuse l status sn message =
      returns l
        (json_response (record { status = status; sn = sn; message = message; count = none }) ∷ [])
        status

  unfoldable pub push_all : Svlist → J → PushRequest → List Sess → Answered
  unfolding refuse json_response
  push_all l sn preq [] = refuse l (minus 3) (some sn) user_offline
  push_all l sn preq (s ∷ ss) = elim (send_all E preq (s ∷ ss) l) [
    | none ↦ destroyed
    | some (l', count) ↦
        returns l'
          (json_response (record { status = 0; sn = some sn; message = []; count = some count })
            ∷ [])
          count
  ]

  -- What follows when the request is filled from `v`.
  unfoldable pub push_to : Svlist → J → J → PushRequest → Answered
  unfolding refuse push_all
  push_to l v sn preq = elim T.sessions [
    | none ↦ refuse l (minus 2) (some sn) no_cache
    | some get_session ↦ do
      to ← T.member v to_id_key
      if not (T.is_string to)
          then refuse l (minus 4) (some sn) no_to_id
          else (do id ← T.as_string to; push_all l sn preq (get_session id))
  ]

  unfoldable pub handle_push_request : Svlist → List ℕ → Answered
  unfolding refuse push_to field
  handle_push_request l req = elim (T.parse req) [
    | none ↦ refuse l (minus 1) none parse_fail
    | some v ↦ do
      sn ← T.member v sn_key
      type ← field T.as_int type_key v
      payload ← field T.as_string payload_key v
      text ← field T.as_string sn_key v
      push_to l v sn
          (record { from_sessid = []; to_sessid = []; sn = text; type = type; payload = payload })
  ]

  unfoldable pub handle_packet : Svlist → List ℕ → Answered
  unfolding handle_push_request
  handle_packet l req =
      if htonl (head_at req).cmd == json_push_req
      then handle_push_request l (drop sizeof_head req)
      else returns l [] 0
