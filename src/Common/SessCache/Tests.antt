-- ===== src/Common/SessCache/Tests.antt =====
-- Sessions of a user in two caches.
use gpush.Prelude.{ℕ, ◌≤◌, ◌≡◌, refl, List, [], ◌∷◌, some, arith}
use gpush.Connect.Client.Messages.{Sess}
use gpush.Common.SessCache.{sift, expired, distinct, get_session}
use gpush.Common.SessCache.Entries.{Writes, entries_of, sift-entry}
use gpush.Common.SessCache.Distinct.{first_with, number_with, get_session-first_with}

-- A session with an id of one byte and a time.
abbrev session : ℕ → ℕ → Sess
session id time = record {
  id = [];
  type = 0;
  lasttime = time;
  sessid = id ∷ [];
  consvid = 0;
  version = [];
  kvs = [];
}

abbrev caches : List (List ℕ → List Sess)
caches =
    (λ key. session 1 100 ∷ session 2 100 ∷ []) ∷ (λ key. session 1 200 ∷ session 3 100 ∷ []) ∷ []

get_session-caches : get_session caches [] ≡ session 1 100 ∷ session 2 100 ∷ session 3 100 ∷ []
unfolding get_session distinct
get_session-caches = refl

first_of_two :
    (first_with (1 ∷ []) (get_session caches []) ≡ some (session 1 100))
    × (number_with (1 ∷ []) (get_session caches []) ≤ 1)
first_of_two = get_session-first_with caches [] (1 ∷ [])

-- A protobuf of sessions of this form: the id and the time.
abbrev serialize : Sess → List ℕ
serialize s = s.lasttime ∷ s.sessid

abbrev parse : List ℕ → Sess
parse [] = session 0 0
parse (time ∷ id) = record (session 0 time) { sessid = id }

abbrev writes : Writes
writes = (10, session 1 0) ∷ (90, session 2 0) ∷ []

sift-entry_example :
    ((sift parse 60 100 (entries_of serialize writes)).sessions ≡ session 2 90 ∷ [])
    × ((sift parse 60 100 (entries_of serialize writes)).old ≡ (1 ∷ []) ∷ [])
unfolding expired
sift-entry_example =
    sift-entry parse serialize 60 100 writes (((omega arith), refl), (((omega arith), refl), tt))
