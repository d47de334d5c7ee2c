-- ===== src/Net/Timer/Due.antt =====
-- Which timers a round of an event loop runs, and how long it then waits.
use gpush.Prelude.{
  ℕ, zero, suc, ◌+◌, ◌≤◌, ◌<◌, ◌≡◌, refl, ap, sym, List, [], ◌∷◌, ◌++◌, length, none, true, false,
  Bool-cases, inl, inr, ltb, arith,
}
use mathlib.Core.Path.{subst}
use gpush.Net.Timer.{TimeTv, ms_until, Timer, process_timers, epoll_wait_ms}
use gpush.Net.Timer.Order.{IsNormal, ms_until-before, sooner-before, Before, Sorted}

-- Every timer's microseconds are below a million.
unfoldable pub AllNormal : List Timer → Type 0
AllNormal [] = Unit
AllNormal (t ∷ ts) = IsNormal t.time × AllNormal ts

-- Every timer is to be waited for at least as long.
pub AllWait : ℕ → TimeTv → List Timer → Type 0
AllWait ms now [] = Unit
AllWait ms now (t ∷ ts) = (ms ≤ ms_until t.time now) × AllWait ms now ts

pub record Good (ts : List Timer) : Type 0 where
  pub sorted : Sorted ts
  pub normal : AllNormal ts

first_waits :
    (t : Timer) (now : TimeTv) (ts : List Timer)
    → IsNormal now
    → IsNormal t.time
    → Before t ts
    → AllNormal ts
    → AllWait (ms_until t.time now) now ts
unfolding AllWait Before AllNormal
first_waits t now [] nn nt b n = tt
first_waits t now (u ∷ us) nn nt b n = (
  ms_until-before t.time u.time now nt n.0 nn (sooner-before t u b.0),
  first_waits t now us nn nt b.1 n.1,
)

pub Good-tail : (t : Timer) (ts : List Timer) → Good (t ∷ ts) → Good ts
unfolding Sorted AllNormal
Good-tail t ts g = record { sorted = g.sorted.1; normal = g.normal.1 }

not_waiting : (n : ℕ) → n ≡ 0 → ltb 0 n ≡ false
not_waiting n e = ground arith

module _ {A : Type 0} (fire : Timer → List Timer × A → List Timer × A) (clock : ℕ → TimeTv) where
  -- From the clock's reading `i` on, so many timers run, one for each reading: each is the first of the
  -- set, is due at the reading, and is taken out.
  pub data Fires : ℕ → ℕ → List Timer × A → List Timer × A → Type 0 where
    stays : (i : ℕ) (s : List Timer × A) → Fires i 0 s s
    runs :
        (i n : ℕ) (t : Timer) (ts : List Timer) (a : A) (s : List Timer × A)
        → ms_until t.time (clock i) ≡ 0
        → Fires (i + 1) n (fire t (ts, a)) s
        → Fires i (suc n) (t ∷ ts, a) s

  -- How a round that had the clock's readings from `i` on ended: no timer is left; or none is due at
  -- the next reading, and the wait is the first one's and not longer than any is waited for; or as many
  -- timers ran as a round may run.
  pub data Ended (budget i ran : ℕ) (s : List Timer × A) (ret : ℕ) : Type 0 where
    empty : s.0 ≡ [] → ret ≡ 0 → Ended budget i ran s ret
    waiting :
        (t : Timer) (ts : List Timer)
        → s.0 ≡ t ∷ ts
        → ret ≡ ms_until t.time (clock (i + ran))
        → 0 < ret
        → AllWait ret (clock (i + ran)) s.0
        → Ended budget i ran s ret
    spent : ran ≡ budget → ret ≡ 0 → Ended budget i ran s ret

  -- A round from a state has run so many timers that were due, left a good set, and ended.
  pub record Round (budget i : ℕ) (s : List Timer × A) (r : (List Timer × A) × ℕ) : Type 0 where
    pub ran : ℕ
    pub bounded : ran ≤ budget
    pub reached : Fires i ran s r.0
    pub good : Good r.0.0
    pub ended : Ended budget i ran r.0 r.1

  later_waits :
      (i j : ℕ) (s : List Timer × A) (ret : ℕ) (t : Timer)
      → i ≡ j
      → (ret ≡ ms_until t.time (clock i)) × AllWait ret (clock i) s.0
      → (ret ≡ ms_until t.time (clock j)) × AllWait ret (clock j) s.0
  later_waits i j s ret t e w =
      subst (λ (k : ℕ). (ret ≡ ms_until t.time (clock k)) × AllWait ret (clock k) s.0) e w

  one_more :
      (n i ran : ℕ) (s : List Timer × A) (ret : ℕ)
      → Ended n (i + 1) ran s ret
      → Ended (suc n) i (suc ran) s ret
  one_more n i ran s ret (empty e z) = empty e z
  one_more n i ran s ret (waiting t ts e first w all) =
      let (first', all') =
        later_waits (i + 1 + ran) (i + suc ran) s ret t (omega arith) (first, all) in
      waiting t ts e first' w all'
  one_more n i ran s ret (spent e z) = spent (ap suc e) z

  module _ (normal : (i : ℕ) → IsNormal (clock i))
      (keeps : (t : Timer) (ts : List Timer) (a : A)
        → Good (t ∷ ts)
        → Good (fire t (ts, a)).0) where
    wait-Round :
        (n i : ℕ) (t : Timer) (ts : List Timer) (a : A)
        → Good (t ∷ ts)
        → ltb 0 (ms_until t.time (clock i)) ≡ true
        → Round (suc n) i (t ∷ ts, a) ((t ∷ ts, a), ms_until t.time (clock i))
    unfolding Sorted AllNormal AllWait
    wait-Round n i t ts a g waits =
        let (first, all) =
          later_waits i (i + 0) (t ∷ ts, a) (ms_until t.time (clock i)) t (omega arith)
            (
              refl,
              (
                (omega arith),
                first_waits t (clock i) ts (normal i) g.normal.0 g.sorted.0 g.normal.1,
              ),
            ) in
        record {
          ran = 0;
          bounded = omega arith;
          reached = stays i (t ∷ ts, a);
          good = g;
          ended = waiting t ts refl first (ground arith) all;
        }

    fire-Round :
        (n i : ℕ) (t : Timer) (ts : List Timer) (a : A) (r : (List Timer × A) × ℕ)
        → ms_until t.time (clock i) ≡ 0
        → Round n (i + 1) (fire t (ts, a)) r
        → Round (suc n) i (t ∷ ts, a) r
    fire-Round n i t ts a r due k = record {
      ran = suc k.ran;
      bounded = omega (arith, k.bounded);
      reached = runs i k.ran t ts a r.0 due k.reached;
      good = k.good;
      ended = one_more n i k.ran r.0 r.1 k.ended;
    }

    -- A round of `processTimers`, on a set in order and with `timeout`s that leave such sets, runs the
    -- first timer of the set while that is due, each at its own reading of the clock. It ends when the
    -- set is empty, and returns 0; or when the first timer is not due, and returns the wait for it,
    -- which is positive and not longer than that for any timer; or when it has run as many as it may,
    -- and returns 0.
    pub process_timers-Round :
        (budget i : ℕ) (s : List Timer × A)
        → Good s.0
        → Round budget i s (process_timers fire clock budget i s)
    unfolding process_timers
    process_timers-Round zero i s g = record {
      ran = 0;
      bounded = omega arith;
      reached = stays i s;
      good = g;
      ended = spent refl refl;
    }
    process_timers-Round (suc n) i ([], a) g = record {
      ran = 0;
      bounded = omega arith;
      reached = stays i ([], a);
      good = g;
      ended = empty refl refl;
    }
    process_timers-Round (suc n) i (t ∷ ts, a) g =
        elim (Bool-cases (ltb 0 (ms_until t.time (clock i)))) [
          | inl waits ↦
              subst (Round (suc n) i (t ∷ ts, a)) (sym (rw (waits, process_timers) refl))
                (wait-Round n i t ts a g waits)
          | inr due ↦ subst (Round (suc n) i (t ∷ ts, a)) (sym (rw (due, process_timers) refl)) (
              fire-Round n i t ts a _ (ground arith)
                (process_timers-Round n (i + 1) (fire t (ts, a)) (keeps t ts a g)))
        ]

  -- Every timer is due at every reading of the clock.
  unfoldable pub AllDue : List Timer → Type 0
  AllDue [] = Unit
  AllDue (t ∷ ts) = ((i : ℕ) → ms_until t.time (clock i) ≡ 0) × AllDue ts

  -- When more timers are due than a round may run, and they leave the others, the round returns 0 and
  -- the loop waits without end, though a timer that is due is left.
  pub process_timers_spent :
      (budget i : ℕ) (ts us : List Timer) (u : Timer) (a : A)
      → ((t : Timer) (rest : List Timer) (b : A) → (fire t (rest, b)).0 ≡ rest)
      → AllDue (ts ++ (u ∷ us))
      → length ts ≡ budget
      → let r = process_timers fire clock budget i (ts ++ (u ∷ us), a) in
        (r.0.0 ≡ u ∷ us) × (epoll_wait_ms r.1 ≡ none)
  unfolding process_timers epoll_wait_ms AllDue
  process_timers_spent zero i [] us u a leaves due n = (refl, refl)
  process_timers_spent zero i (t ∷ ts) us u a leaves due n = absurd (omega arith)
  process_timers_spent (suc n) i [] us u a leaves due k = absurd (omega arith)
  process_timers_spent (suc n) i (t ∷ ts) us u a leaves due k =
      let left = ts ++ (u ∷ us) in
      let b = (fire t (left, a)).1 in
      let is_due : ltb 0 (ms_until t.time (clock i)) ≡ false = not_waiting _ (due.0 i) in
      let fired : fire t (left, a) ≡ (left, b) =
        ap (λ (rest : List Timer). (rest, b)) (leaves t left a) in
      let next : process_timers fire clock (suc n) i (t ∷ left, a)
          ≡ process_timers fire clock n (i + 1) (left, b) =
        rw (is_due, process_timers) (ap (process_timers fire clock n (i + 1)) fired) in
      subst (λ (r : (List Timer × A) × ℕ). (r.0.0 ≡ u ∷ us) × (epoll_wait_ms r.1 ≡ none)) (sym next)
        (process_timers_spent n (i + 1) ts us u b leaves due.1 (omega arith))
