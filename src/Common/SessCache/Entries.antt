-- ===== src/Common/SessCache/Entries.antt =====
-- Sessions come back from the cache as they were written, until they expire.
use gpush.Prelude.{ℕ, ◌≡◌, refl, ap, ◌∙◌, inl, inr, List, [], ◌∷◌, if◌then◌else◌, Bool-cases}
use gpush.Prelude.Bytes.{AreBytes}
use gpush.Base.Base64.{base64_encode, base64_decode}
use gpush.Base.Base64.RoundTrip.{base64_decode-base64_encode}
use gpush.Connect.Client.Messages.{Sess}
use gpush.Common.SessCache.{expired, sift, entry}

-- Sessions with the times at which they were written.
abbrev pub Writes : Type 0
Writes = List (ℕ × Sess)

abbrev pub written : ℕ × Sess → Sess
written (at, s) = record s { lasttime = at }

abbrev pub entries_of : (Sess → List ℕ) → Writes → List (List ℕ × List ℕ)
entries_of serialize [] = []
entries_of serialize ((at, s) ∷ ws) = entry serialize at s ∷ entries_of serialize ws

-- The sessions that are still good, and the ids of the others.
abbrev pub good : ℕ → ℕ → Writes → List Sess
good expire now [] = []
good expire now (w ∷ ws) =
    let rest = good expire now ws in
    if expired expire now (written w) then rest else written w ∷ rest

abbrev pub gone : ℕ → ℕ → Writes → List (List ℕ)
gone expire now [] = []
gone expire now (w ∷ ws) =
    let rest = gone expire now ws in
    if expired expire now (written w) then (written w).sessid ∷ rest else rest

-- Protobuf parses what it wrote of a session.
abbrev pub Sound : (List ℕ → Sess) → (Sess → List ℕ) → Sess → Type 0
Sound parse serialize s = AreBytes (serialize s) × (parse (serialize s) ≡ s)

abbrev pub AllSound : (List ℕ → Sess) → (Sess → List ℕ) → Writes → Type 0
AllSound parse serialize [] = Unit
AllSound parse serialize (w ∷ ws) = Sound parse serialize (written w) × AllSound parse serialize ws

module _ (parse : List ℕ → Sess) (serialize : Sess → List ℕ) where
  read_back :
      (s : Sess) → Sound parse serialize s → parse (base64_decode (base64_encode (serialize s))) ≡ s
  read_back s sound = ap parse (base64_decode-base64_encode _ sound.0) ∙ sound.1

  -- `getSession` finds each session that `setSession` wrote and that is not expired, with the time of
  -- writing, and deletes the ids of those that are, if protobuf parses what it wrote of them.
  pub sift-entry :
      (expire now : ℕ) (ws : Writes)
      → AllSound parse serialize ws
      → ((sift parse expire now (entries_of serialize ws)).sessions ≡ good expire now ws)
        × ((sift parse expire now (entries_of serialize ws)).old ≡ gone expire now ws)
  unfolding sift entry
  sift-entry expire now [] sound = (refl, refl)
  sift-entry expire now ((at, s) ∷ ws) sound =
      let (ss, ids) = sift-entry expire now ws sound.1 in
      elim (Bool-cases (expired expire now (written (at, s)))) [
        | inl e ↦ rw (read_back (written (at, s)) sound.0) (rw e (ss, ap (◌∷◌ s.sessid) ids))
        | inr e ↦
            rw (read_back (written (at, s)) sound.0) (rw e (ap (◌∷◌ (written (at, s))) ss, ids))
      ]
