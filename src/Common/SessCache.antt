-- ===== src/Common/SessCache.antt =====
-- common/src/sess_cache.cpp: the sessions of a user, in one Redis hash per cache, and the group that
-- asks several caches. Redis gives a hash as a list of fields and values; protobuf is a parameter,
-- whose parser gives some session for any bytes.
pub mod Entries
pub mod Distinct
mod Tests
use gpush.Prelude.{
  ℕ, ◌+◌, List, [], ◌∷◌, ◌++◌, Bool, true, false, ◌&&◌, ◌||◌, if◌then◌else◌, ◌==◌, ltb,
}
use gpush.Base.Base64.{base64_encode, base64_decode}
use gpush.Connect.Client.Messages.{Sess}

-- What `getSession` makes of the fields of a hash: the sessions that it adds to `m`, and the session
-- ids in `oldsessids`, which are deleted.
pub record Sifted : Type 0 where
  pub sessions : List Sess
  pub old : List (List ℕ)

-- A session that was not seen for `expire` seconds.
unfoldable pub expired : ℕ → ℕ → Sess → Bool
expired expire now s = ltb (s.lasttime + expire) now

module _ (parse : List ℕ → Sess) (expire now : ℕ) where
  unfoldable pub sift : List (List ℕ × List ℕ) → Sifted
  unfolding expired
  sift [] = record { sessions = []; old = [] }
  sift ((field, value) ∷ entries) =
      let s = parse (base64_decode value) in
      let rest = sift entries in
      if expired expire now s
      then record rest { old = s.sessid ∷ rest.old }
      else record rest { sessions = s ∷ rest.sessions }

-- The field and the value that `setSession` writes, at a time.
unfoldable pub entry : (Sess → List ℕ) → ℕ → Sess → List ℕ × List ℕ
entry serialize now s = (s.sessid, base64_encode (serialize (record s { lasttime = now })))

-- Equality of two ids.
abbrev pub same_bytes : List ℕ → List ℕ → Bool
same_bytes [] [] = true
same_bytes [] (y ∷ ys) = false
same_bytes (x ∷ xs) [] = false
same_bytes (x ∷ xs) (y ∷ ys) = (x == y) && same_bytes xs ys

-- `find` in the set of ids.
abbrev pub seen : List ℕ → List (List ℕ) → Bool
seen id [] = false
seen id (x ∷ ids) = same_bytes id x || seen id ids

-- The loop of `SessCacheGrp::getSession` that passes on the first session of each id.
unfoldable pub distinct : List (List ℕ) → List Sess → List Sess
distinct ids [] = []
distinct ids (s ∷ ss) =
    let skipped = distinct ids ss in
    let passed = distinct (s.sessid ∷ ids) ss in if seen s.sessid ids then skipped else s ∷ passed

-- All that the caches add for a key, one after the other.
abbrev pub gather : List (List ℕ → List Sess) → List ℕ → List Sess
gather [] key = []
gather (cache ∷ caches) key = cache key ++ gather caches key

pub get_session : List (List ℕ → List Sess) → List ℕ → List Sess
unfolding distinct
get_session caches key = distinct [] (gather caches key)
