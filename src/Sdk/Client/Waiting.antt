-- ===== src/Sdk/Client/Waiting.antt =====
-- What the client's timers make of the wait in `select`.
use gpush.Prelude.{
  ◌-◌, ◌/◌, ◌%◌, ◌<◌, Bool-cases, inl, inr, ltb, true, false, arith, if◌then◌else◌, ℕ, ◌≡◌, refl,
  ap, ◌∙◌, List, [], ◌∷◌, Option, none, some,
}
use gpush.Net.EventLoop.{ConnectionMap}
use gpush.Sdk.Client.{Env, Timer, CliConn, Io}
use gpush.Sdk.Client.Timeval.{
  pos, negsuc, Timeval, tv_cmp, tv_diff, tv_of, c_tvmax, long_of, ltz, is_zero, ◌-ℤ◌,
}
use gpush.Sdk.Client.Loop.{EventLoop, sooner, split_due, conn_timers, process_timers, before_select}

-- The time from one moment to a later one has seconds that are not negative.
seconds-later :
    (now t : ℕ) → ltb now t ≡ true → (n : ℕ) × ((tv_diff (tv_of t) (tv_of now)).tv_sec ≡ pos n)
unfolding tv_diff tv_of ltz ◌-ℤ◌
seconds-later now t later =
    let forward : now < t = ground arith in
    let secs : ltb (t / 1000000) (now / 1000000) ≡ false = ground arith in
    elim (Bool-cases (ltb (t % 1000000) (now % 1000000))) [
      | inl borrow ↦
          let less : t % 1000000 < now % 1000000 = ground arith in
          let some_left : ltb (t / 1000000 - now / 1000000) 1 ≡ false = ground arith in
          (t / 1000000 - now / 1000000 - 1, rw borrow (rw secs (rw some_left refl)))
      | inr plain ↦ (t / 1000000 - now / 1000000, rw plain (rw secs refl))
    ]

-- `c_tvmax` is below any time whose seconds are not negative.
cmp_least : (n : ℕ) (tv : Timeval) → tv.tv_sec ≡ pos n → tv_cmp c_tvmax tv ≡ negsuc 0
unfolding tv_cmp c_tvmax long_of ltz
cmp_least n tv e = rw e refl

-- The first of the timers that are left is not due.
FirstLater : ℕ → List Timer → Type 0
FirstLater now [] = Unit
FirstLater now (t ∷ ts) = ltb now t.deadline ≡ true

split_due-FirstLater : (now : ℕ) (ts : List Timer) → FirstLater now (split_due now ts).1
unfolding split_due FirstLater
split_due-FirstLater now [] = tt
split_due-FirstLater now (t ∷ ts) = elim (Bool-cases (ltb now t.deadline)) [
  | inl later ↦ rw (later, split_due) later
  | inr due ↦ rw (due, split_due) (split_due-FirstLater now ts)
]

sooner-c_tvmax : (now : ℕ) (ts : List Timer) → FirstLater now ts → sooner now ts c_tvmax ≡ c_tvmax
unfolding sooner ltz FirstLater
sooner-c_tvmax now [] later = refl
sooner-c_tvmax now (t ∷ ts) later =
    let (n, e) = seconds-later now t.deadline later in
    rw (cmp_least n (tv_diff (tv_of t.deadline) (tv_of now)) e) refl

-- A connection is deleted, or its timers are run: neither sets a wait.
timers_either :
    {X : Type 0} (fd : Option ℕ) (gone kept : X × Timeval)
    → gone.1 ≡ c_tvmax
    → kept.1 ≡ c_tvmax
    → (elim fd as (λ _. X × Timeval) [ none ↦ gone | some _ ↦ kept ]).1 ≡ c_tvmax
timers_either none gone kept p q = p
timers_either (some _) gone kept p q = q

module _ (E : Env) where
  conn_timers-c_tvmax : (now : ℕ) (w : CliConn × Io) → (conn_timers E now w c_tvmax).1 ≡ c_tvmax
  unfolding conn_timers
  conn_timers-c_tvmax now (con, io) =
      sooner-c_tvmax now (split_due now con.timers).1 (split_due-FirstLater now con.timers)

  process_timers-c_tvmax :
      (now : ℕ) (conns : ConnectionMap CliConn) (io : Io)
      → (process_timers E now conns io c_tvmax).1 ≡ c_tvmax
  unfolding process_timers
  process_timers-c_tvmax now [] io = refl
  process_timers-c_tvmax now ((cid, con) ∷ rest) io =
      let io' = (conn_timers E now (con, io) c_tvmax).0.1 in
      let r = process_timers E now rest io' (conn_timers E now (con, io) c_tvmax).1 in
      timers_either con.fd (process_timers E now rest io c_tvmax)
        (((cid, (conn_timers E now (con, io) c_tvmax).0.0) ∷ r.0.0, r.0.1), r.1)
        (process_timers-c_tvmax now rest io)
        (ap (λ tv. (process_timers E now rest io' tv).1) (conn_timers-c_tvmax now (con, io))
          ∙ process_timers-c_tvmax now rest io')

  -- Whatever timers the connections wait for, `run` calls `select` without a time to wait: it
  -- wakes up when a socket is readable, and not when a timer is due.
  pub before_select_untimed : (now : ℕ) (l : EventLoop) → (before_select E now l).1 ≡ none
  unfolding before_select is_zero tv_cmp c_tvmax long_of ltz
  before_select_untimed now l =
      ap (λ (tv : Timeval). if is_zero (tv_cmp c_tvmax tv) then none else some tv)
        (process_timers-c_tvmax now l.conns l.io)
