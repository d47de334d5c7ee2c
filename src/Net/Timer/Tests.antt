-- ===== src/Net/Timer/Tests.antt =====
-- Two timers, of which one is due.
use gpush.Prelude.{ℕ, ◌+◌, ◌*◌, ◌≡◌, refl, inl, List, [], ◌∷◌, none, arith}
use gpush.Net.Timer.{
  TimeTv, time_after, ms_until, before, Timer, sooner, add_timer, del_timer, process_timers,
  epoll_wait_ms,
}
use gpush.Net.Timer.Order.{
  IsNormal, micros, micros-time_after, Before, Sorted, Fresh, del_timer-add_timer,
}
use gpush.Net.EventLoop.{get_connection}
use gpush.Net.Timer.Restart.{Timers, start_timer, stop_timer, new_timer, stop_timer-start_timer}
use gpush.Net.Timer.Due.{
  AllNormal, Good, Good-tail, Round, process_timers-Round, AllDue, process_timers_spent,
}

abbrev at : ℕ → ℕ → TimeTv
at sec usec = record { sec = sec; usec = usec }

abbrev timer : ℕ → TimeTv → Timer
timer address time = record { time = time; address = address }

abbrev early : Timer
early = timer 700 (at 5 999500)

abbrev late : Timer
late = timer 600 (at 7 250)

micros-time_after_example :
    (micros (time_after 1700 (at 5 999500)) ≡ micros (at 5 999500) + 1700 * 1000)
    × IsNormal (time_after 1700 (at 5 999500))
micros-time_after_example = micros-time_after 1700 (at 5 999500)

-- The time is carried into the seconds.
time_after-early : time_after 1700 (at 5 999500) ≡ at 7 699500
unfolding time_after
time_after-early = refl

early-Fresh : Fresh early (late ∷ [])
unfolding Fresh sooner before
early-Fresh = (inl refl, tt)

del_timer-add_timer_example : del_timer early (add_timer early (late ∷ [])) ≡ late ∷ []
del_timer-add_timer_example = del_timer-add_timer early (late ∷ []) early-Fresh

-- A timer that runs does nothing.
abbrev nothing : Timer → List Timer × ℕ → List Timer × ℕ
nothing t s = s

abbrev clock : ℕ → TimeTv
clock i = at 6 0

both-Good : Good (early ∷ late ∷ [])
unfolding Sorted Before sooner before AllNormal IsNormal
both-Good = record {
  sorted = ((refl, tt), (tt, tt));
  normal = ((omega arith), ((omega arith), tt));
}

clock-IsNormal : (i : ℕ) → IsNormal (clock i)
unfolding IsNormal
clock-IsNormal i = omega arith

nothing-Good : (t : Timer) (ts : List Timer) (a : ℕ) → Good (t ∷ ts) → Good (nothing t (ts, a)).0
nothing-Good t ts a g = Good-tail t ts g

process_timers-Round_example :
    Round nothing clock 16 0
      (early ∷ late ∷ [], 0)
      (process_timers nothing clock 16 0 (early ∷ late ∷ [], 0))
process_timers-Round_example =
    process_timers-Round nothing clock clock-IsNormal nothing-Good 16 0 (early ∷ late ∷ [], 0)
      both-Good

-- The second timer is waited for.
process_timers-both :
    process_timers nothing clock 16 0 (early ∷ late ∷ [], 0) ≡ ((late ∷ [], 0), 1000)
unfolding process_timers ms_until
process_timers-both = refl

abbrev earlier : Timer
earlier = timer 701 (at 5 0)

early-AllDue : AllDue nothing clock (earlier ∷ early ∷ [])
unfolding AllDue ms_until
early-AllDue = ((λ i. refl), ((λ i. refl), tt))

process_timers_spent_example :
    let r = process_timers nothing clock 1 0 (earlier ∷ early ∷ [], 0) in
    (r.0.0 ≡ early ∷ []) × (epoll_wait_ms r.1 ≡ none)
process_timers_spent_example =
    process_timers_spent nothing clock 1 0 (earlier ∷ []) [] early 0 (λ t rest b. refl) early-AllDue
      refl

abbrev none_own : Timers
none_own = record { set = late ∷ []; own = [] }

new_timer-Fresh : Fresh (new_timer 700 1 500 (at 5 0) none_own) (late ∷ [])
unfolding Fresh sooner before time_after
new_timer-Fresh = (inl refl, tt)

stop_timer-start_timer_example :
    ((stop_timer 1 (start_timer 700 1 500 (at 5 0) none_own)).set ≡ late ∷ [])
    × ((start_timer 800 1 900 (at 5 100) (start_timer 700 1 500 (at 5 0) none_own)).set
        ≡ add_timer (timer 700 (time_after 900 (at 5 100))) (late ∷ []))
unfolding get_connection
stop_timer-start_timer_example =
    stop_timer-start_timer 700 1 500 (at 5 0) none_own 800 900 (at 5 100) refl new_timer-Fresh
