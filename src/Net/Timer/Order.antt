-- ===== src/Net/Timer/Order.antt =====
-- The order of timers, and the set that it keeps.
use gpush.Prelude.{
  ℕ, ◌+◌, ◌*◌, ◌≤◌, ◌<◌, ◌≡◌, refl, ap, ◌⊎◌, List, [], ◌∷◌, true, false, Bool-cases, inl, inr,
  arith,
}
use gpush.Net.Timer.{TimeTv, before, time_after, ms_until, Timer, sooner, add_timer, del_timer}

unfoldable pub IsNormal : TimeTv → Type 0
IsNormal t = t.usec < 1000000

-- Microseconds since the clock's start.
abbrev pub micros : TimeTv → ℕ
micros t = t.sec * 1000000 + t.usec

-- A time is later than another by the milliseconds given, to the microsecond, with less than a second of
-- microseconds.
pub micros-time_after :
    (ms : ℕ) (t : TimeTv)
    → (micros (time_after ms t) ≡ micros t + ms * 1000) × IsNormal (time_after ms t)
unfolding time_after IsNormal
micros-time_after ms t = ((omega arith), (omega arith))

-- A later timer is not waited for less.
pub ms_until-before :
    (a b now : TimeTv)
    → IsNormal a
    → IsNormal b
    → IsNormal now
    → before b a ≡ false
    → ms_until a now ≤ ms_until b now
unfolding before ms_until IsNormal
ms_until-before a b now na nb nn h = ground arith

-- Each timer goes before those behind it.
unfoldable pub Before : Timer → List Timer → Type 0
Before t [] = Unit
Before t (u ∷ us) = (sooner t u ≡ true) × Before t us

unfoldable pub Sorted : List Timer → Type 0
Sorted [] = Unit
Sorted (t ∷ ts) = Before t ts × Sorted ts

sooner_trans : (a b c : Timer) → sooner a b ≡ true → sooner b c ≡ true → sooner a c ≡ true
unfolding sooner before
sooner_trans a b c h k = ground arith

sooner_asym : (a b : Timer) → sooner a b ≡ true → sooner b a ≡ false
unfolding sooner before
sooner_asym a b h = ground arith

pub sooner-before : (a b : Timer) → sooner a b ≡ true → before b.time a.time ≡ false
unfolding sooner before
sooner-before a b h = ground arith

Before-sooner_trans :
    (t u : Timer) (us : List Timer) → sooner t u ≡ true → Before u us → Before t us
unfolding Before
Before-sooner_trans t u [] h b = tt
Before-sooner_trans t u (v ∷ us) h b = (sooner_trans t u v h b.0, Before-sooner_trans t u us h b.1)

Before-add :
    (t u : Timer) (us : List Timer) → sooner t u ≡ true → Before t us → Before t (add_timer u us)
unfolding Before add_timer
Before-add t u [] h b = (h, tt)
Before-add t u (v ∷ us) h b = elim (Bool-cases (sooner u v)) [
  | inl first ↦ rw (first, add_timer, Before) (h, b)
  | inr later ↦ elim (Bool-cases (sooner v u)) [
    | inl behind ↦
        rw (later, add_timer, Before)
          (rw (behind, add_timer, Before) (b.0, Before-add t u us h b.1))
    | inr same ↦ rw (later, add_timer, Before) (rw (same, add_timer, Before) b)
  ]
]

-- Adding a timer keeps the order.
pub add_timer-Sorted : (t : Timer) (ts : List Timer) → Sorted ts → Sorted (add_timer t ts)
unfolding add_timer Sorted Before
add_timer-Sorted t [] s = (tt, tt)
add_timer-Sorted t (u ∷ us) s = elim (Bool-cases (sooner t u)) [
  | inl first ↦ rw (first, add_timer, Sorted) ((first, Before-sooner_trans t u us first s.0), s)
  | inr later ↦ elim (Bool-cases (sooner u t)) [
    | inl behind ↦
        rw (later, add_timer, Sorted)
          (rw (behind, add_timer, Sorted) (Before-add u t us behind s.0, add_timer-Sorted t us s.1))
    | inr same ↦ rw (later, add_timer, Sorted) (rw (same, add_timer, Sorted) s)
  ]
]

Before-del : (t u : Timer) (us : List Timer) → Before t us → Before t (del_timer u us)
unfolding Before del_timer
Before-del t u [] b = tt
Before-del t u (v ∷ us) b = elim (Bool-cases (sooner u v)) [
  | inl first ↦ rw (first, del_timer, Before) b
  | inr later ↦ elim (Bool-cases (sooner v u)) [
    | inl behind ↦
        rw (later, del_timer, Before) (rw (behind, del_timer, Before) (b.0, Before-del t u us b.1))
    | inr same ↦ rw (later, del_timer, Before) (rw (same, del_timer, Before) b.1)
  ]
]

pub del_timer-Sorted : (t : Timer) (ts : List Timer) → Sorted ts → Sorted (del_timer t ts)
unfolding del_timer Sorted Before
del_timer-Sorted t [] s = tt
del_timer-Sorted t (u ∷ us) s = elim (Bool-cases (sooner t u)) [
  | inl first ↦ rw (first, del_timer, Sorted) s
  | inr later ↦ elim (Bool-cases (sooner u t)) [
    | inl behind ↦
        rw (later, del_timer, Sorted)
          (rw (behind, del_timer, Sorted) (Before-del u t us s.0, del_timer-Sorted t us s.1))
    | inr same ↦ rw (later, del_timer, Sorted) (rw (same, del_timer, Sorted) s.1)
  ]
]

-- No timer of the set is the timer.
unfoldable pub Fresh : Timer → List Timer → Type 0
Fresh t [] = Unit
Fresh t (u ∷ us) = ((sooner t u ≡ true) ⊎ (sooner u t ≡ true)) × Fresh t us

same_timer : (t : Timer) → sooner t t ≡ false
unfolding sooner before
same_timer t = ground arith

-- A timer that is added and taken away leaves the set as it was.
pub del_timer-add_timer :
    (t : Timer) (ts : List Timer) → Fresh t ts → del_timer t (add_timer t ts) ≡ ts
unfolding del_timer add_timer Fresh
del_timer-add_timer t [] f = rw (same_timer t, del_timer) refl
del_timer-add_timer t (u ∷ us) (inl first, f) =
    rw (first, del_timer, add_timer) (rw (same_timer t, del_timer) refl)
del_timer-add_timer t (u ∷ us) (inr behind, f) =
    let later = sooner_asym u t behind in
    rw (later, del_timer, add_timer)
      (rw (behind, del_timer, add_timer)
        (rw (later, del_timer)
          (rw (behind, del_timer) (ap (λ rest. u ∷ rest) (del_timer-add_timer t us f)))))
