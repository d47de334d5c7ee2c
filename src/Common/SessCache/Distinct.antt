-- ===== src/Common/SessCache/Distinct.antt =====
-- A user's sessions from several caches: one for each id, the first.
use gpush.Prelude.{
  ℕ, ◌+◌, ◌≤◌, ◌≡◌, refl, ap, ◌∙◌, inl, inr, List, [], ◌∷◌, Option, none, some, Bool, true, false,
  ◌&&◌, if◌then◌else◌, Bool-cases, ◌==◌, ==_iff, arith,
}
use gpush.Connect.Client.Messages.{Sess}
use gpush.Common.SessCache.{same_bytes, seen, distinct, gather, get_session}

-- The first session with an id, and how many there are.
abbrev pub first_with : List ℕ → List Sess → Option Sess
first_with id [] = none
first_with id (s ∷ ss) = if same_bytes id s.sessid then some s else first_with id ss

abbrev pub number_with : List ℕ → List Sess → ℕ
number_with id [] = 0
number_with id (s ∷ ss) = (if same_bytes id s.sessid then 1 else 0) + number_with id ss

and_both : (a b : Bool) → (a && b) ≡ true → (a ≡ true) × (b ≡ true)
and_both true b e = (refl, e)
and_both false b e = absurd (cc)

same_bytes_eq : (a b : List ℕ) → same_bytes a b ≡ true → a ≡ b
same_bytes_eq [] [] e = refl
same_bytes_eq [] (y ∷ ys) e = absurd (cc)
same_bytes_eq (x ∷ xs) [] e = absurd (cc)
same_bytes_eq (x ∷ xs) (y ∷ ys) e =
    let (h, t) = and_both (x == y) (same_bytes xs ys) e in
    ap (λ n. n ∷ xs) ((==_iff x y).0 h) ∙ ap (◌∷◌ y) (same_bytes_eq xs ys t)

distinct-first_with :
    (ids : List (List ℕ)) (ss : List Sess) (id : List ℕ)
    → first_with id (distinct ids ss) ≡ (if seen id ids then none else first_with id ss)
unfolding distinct
distinct-first_with ids [] id = elim (Bool-cases (seen id ids)) [
  | inl e ↦ rw e refl
  | inr e ↦ rw e refl
]
distinct-first_with ids (s ∷ ss) id = elim (Bool-cases (same_bytes id s.sessid)) [
  | inl e ↦ elim (Bool-cases (seen s.sessid ids)) [
    | inl f ↦
        let g : seen id ids ≡ true = ap (λ i. seen i ids) (same_bytes_eq id s.sessid e) ∙ f in
        rw f (distinct-first_with ids ss id ∙ (rw g refl))
    | inr f ↦
        let g : seen id ids ≡ false = ap (λ i. seen i ids) (same_bytes_eq id s.sessid e) ∙ f in
        rw f (rw (e, g) refl)
  ]
  | inr e ↦ elim (Bool-cases (seen s.sessid ids)) [
    | inl f ↦ rw f (rw e (distinct-first_with ids ss id))
    | inr f ↦ rw f (rw e (distinct-first_with (s.sessid ∷ ids) ss id ∙ (rw e refl)))
  ]
]

none_later : (n : ℕ) → n ≤ 0 → 1 + n ≤ 1
none_later n h = omega arith

zero_more : (n m : ℕ) → n ≤ m → 0 + n ≤ m
zero_more n m h = omega arith

distinct-number_with :
    (ids : List (List ℕ)) (ss : List Sess) (id : List ℕ)
    → number_with id (distinct ids ss) ≤ (if seen id ids then 0 else 1)
unfolding distinct
distinct-number_with ids [] id = omega arith
distinct-number_with ids (s ∷ ss) id = elim (Bool-cases (same_bytes id s.sessid)) [
  | inl e ↦ elim (Bool-cases (seen s.sessid ids)) [
    | inl f ↦ rw f (distinct-number_with ids ss id)
    | inr f ↦
        let g : seen id ids ≡ false = ap (λ i. seen i ids) (same_bytes_eq id s.sessid e) ∙ f in
        let later = distinct-number_with (s.sessid ∷ ids) ss id in
        rw f (rw (e, g) (none_later _ (rw e at later)))
  ]
  | inr e ↦ elim (Bool-cases (seen s.sessid ids)) [
    | inl f ↦ rw f (distinct-number_with ids ss id)
    | inr f ↦
        let later = distinct-number_with (s.sessid ∷ ids) ss id in
        rw f (rw e (zero_more _ _ (rw e at later)))
  ]
]

-- Of the sessions that the caches hold for a key, the group passes on the first of each id, and no
-- two with the same id.
pub get_session-first_with :
    (caches : List (List ℕ → List Sess)) (key id : List ℕ)
    → (first_with id (get_session caches key) ≡ first_with id (gather caches key))
      × (number_with id (get_session caches key) ≤ 1)
unfolding get_session
get_session-first_with caches key id =
    (distinct-first_with [] (gather caches key) id, distinct-number_with [] (gather caches key) id)
