-- ===== src/Net/Timer.antt =====
-- efnfw/net/ef_timer.{h,cpp}, and the timers of an event loop in ef_event_loop.cpp. The set
-- `m_timer_map` is the list of its timers in their order. A timer's address stands for its place in
-- memory; what `timeout` does is a parameter.
pub mod Order
pub mod Due
pub mod Restart
mod Tests
use gpush.Prelude.{
  ℕ, zero, suc, ◌+◌, ◌-◌, ◌*◌, ◌/◌, ◌%◌, List, [], ◌∷◌, Option, none, some, Bool, true, false,
  if◌then◌else◌, ◌&&◌, ◌||◌, ltb, ◌==◌, min,
}

pub record TimeTv : Type 0 where
  pub sec : ℕ
  pub usec : ℕ

unfoldable pub before : TimeTv → TimeTv → Bool
before a b = ltb a.sec b.sec || ((a.sec == b.sec) && ltb a.usec b.usec)

-- The time `ms` milliseconds after another.
unfoldable pub time_after : ℕ → TimeTv → TimeTv
time_after ms t =
    let usec = t.usec + ms % 1000 * 1000 in
    record { sec = t.sec + ms / 1000 + usec / 1000000; usec = usec % 1000000 }

-- `tv_diff_ms` where it is positive, and otherwise 0. Division rounds towards 0.
unfoldable pub ms_until : TimeTv → TimeTv → ℕ
ms_until t now =
    if ltb t.usec now.usec
    then t.sec * 1000 - (now.sec * 1000 + (now.usec - t.usec) / 1000)
    else (t.sec * 1000 + (t.usec - now.usec) / 1000) - now.sec * 1000

pub record Timer : Type 0 where
  pub time : TimeTv
  pub address : ℕ

unfoldable pub sooner : Timer → Timer → Bool
unfolding before
sooner a b =
    if before a.time b.time
    then true
    else if before b.time a.time
    then false
    else ltb a.address b.address

-- `insert`, which does nothing if the timer is there.
unfoldable pub add_timer : Timer → List Timer → List Timer
unfolding sooner
add_timer t [] = t ∷ []
add_timer t (u ∷ us) =
    let rest = add_timer t us in
    if sooner t u then t ∷ u ∷ us else if sooner u t then u ∷ rest else u ∷ us

-- `erase`.
unfoldable pub del_timer : Timer → List Timer → List Timer
unfolding sooner
del_timer t [] = []
del_timer t (u ∷ us) =
    let rest = del_timer t us in if sooner t u then u ∷ us else if sooner u t then u ∷ rest else us

-- `MAX_PROC_TIMER_CNT`, and `procTimerCnt` as it is set at first.
abbrev pub max_proc_timer_cnt : ℕ
max_proc_timer_cnt = 2048

abbrev pub proc_timer_cnt : ℕ
proc_timer_cnt = 16

abbrev pub timers_one_loop : ℕ
timers_one_loop = min max_proc_timer_cnt proc_timer_cnt

-- `processTimers`, with what it may still do, the clock at each reading, and what `timeout` makes of
-- the timers and the rest of the state.
unfoldable pub process_timers :
    {A : Type 0}
    → (Timer → List Timer × A → List Timer × A)
    → (ℕ → TimeTv)
    → ℕ
    → ℕ
    → List Timer × A
    → (List Timer × A) × ℕ
process_timers fire clock zero i s = (s, 0)
process_timers fire clock (suc n) i ([], a) = (([], a), 0)
process_timers fire clock (suc n) i (t ∷ ts, a) =
    let wait = ms_until t.time (clock i) in
    let rest = process_timers fire clock n (i + 1) (fire t (ts, a)) in
    if ltb 0 wait then ((t ∷ ts, a), wait) else rest

-- How long `run` lets `epoll_wait` wait; `none` is without end.
unfoldable pub epoll_wait_ms : ℕ → Option ℕ
epoll_wait_ms t = if ltb 0 t then some t else none
