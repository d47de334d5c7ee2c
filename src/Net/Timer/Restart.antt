-- ===== src/Net/Timer/Restart.antt =====
-- The timers of a connection, efnfw/net/ef_connection.cpp: starting, restarting and stopping one.
use gpush.Prelude.{ℕ, ◌≡◌, refl, ap, ◌∙◌, List, [], ◌∷◌, none, some}
use gpush.Net.EventLoop.{ConnectionMap, get_connection, del_connection}
use gpush.Net.EventLoop.Lookup.{get-cons}
use gpush.Net.Timer.{TimeTv, time_after, Timer, add_timer, del_timer}
use gpush.Net.Timer.Order.{Fresh, del_timer-add_timer}

pub data TimerStatus : Type 0 where
  timer_init timer_start timer_stop : TimerStatus

pub record ConTimer : Type 0 where
  pub timer : Timer
  pub status : TimerStatus

-- The event loop's set, and the connection's timers by their ids.
pub record Timers : Type 0 where
  pub set : List Timer
  pub own : ConnectionMap ConTimer

-- A timer that is started leaves the set.
unfoldable pub unset : ConTimer → List Timer → List Timer
unset t set = elim t.status [
  | timer_init ↦ set
  | timer_start ↦ del_timer t.timer set
  | timer_stop ↦ set
]

unfoldable pub put_timer : ℕ → ConTimer → Timers → Timers
put_timer id t s = record s { own = (id, t) ∷ del_connection id s.own }

unfoldable pub set_timer : ℕ → ConTimer → ℕ → TimeTv → Timers → Timers
unfolding put_timer unset
set_timer id t ms now s =
    let t' : Timer = record { time = time_after ms now; address = t.timer.address } in
    put_timer id (record { timer = t'; status = timer_start })
      (record s { set = add_timer t' (unset t s.set) })

-- `startTimer` at a time; `address` is where `new` would put a timer.
unfoldable pub start_timer : ℕ → ℕ → ℕ → TimeTv → Timers → Timers
unfolding set_timer
start_timer address id ms now s = elim (get_connection id s.own) [
  | none ↦
      let t : Timer = record { time = record { sec = 0; usec = 0 }; address = address } in
      set_timer id (record { timer = t; status = timer_init }) ms now s
  | some t ↦ set_timer id t ms now s
]

unfoldable pub stop_timer : ℕ → Timers → Timers
unfolding put_timer unset
stop_timer id s = elim (get_connection id s.own) [
  | none ↦ s
  | some t ↦ put_timer id (record t { status = timer_stop }) (record s { set = unset t s.set })
]

-- `clearTimer`: every timer leaves the set.
abbrev pub unset_all : ConnectionMap ConTimer → List Timer → List Timer
unset_all [] set = set
unset_all ((id, t) ∷ own) set = unset_all own (del_timer t.timer set)

pub clear_timer : Timers → Timers
clear_timer s = record { set = unset_all s.own s.set; own = [] }

stop_timer-set :
    (id : ℕ) (t : ConTimer) (s : Timers)
    → get_connection id s.own ≡ some t
    → (stop_timer id s).set ≡ unset t s.set
unfolding stop_timer put_timer
stop_timer-set id t s found = rw (found, stop_timer) refl

start_timer-set :
    (address id ms : ℕ) (now : TimeTv) (t : ConTimer) (s : Timers)
    → get_connection id s.own ≡ some t
    → (start_timer address id ms now s).set
      ≡ add_timer (record { time = time_after ms now; address = t.timer.address }) (unset t s.set)
unfolding start_timer set_timer put_timer
start_timer-set address id ms now t s found = rw (found, start_timer) refl

module _ (address id ms : ℕ) (now : TimeTv) (s : Timers) where
  abbrev pub new_timer : Timer
  new_timer = record { time = time_after ms now; address = address }

  abbrev running : ConTimer
  running = record { timer = new_timer; status = timer_start }

  abbrev started : Timers
  started = record {
    set = add_timer new_timer s.set;
    own = (id, running) ∷ del_connection id s.own;
  }

  start_timer-started : get_connection id s.own ≡ none → start_timer address id ms now s ≡ started
  unfolding start_timer set_timer put_timer unset
  start_timer-started none_yet = rw (none_yet, start_timer) refl

  -- A timer that is started and stopped leaves the event loop's set as it was; one that is started
  -- again before it has run is in the set once, with its last time.
  pub stop_timer-start_timer :
      (other ms' : ℕ) (now' : TimeTv)
      → get_connection id s.own ≡ none
      → Fresh new_timer s.set
      → ((stop_timer id (start_timer address id ms now s)).set ≡ s.set)
        × ((start_timer other id ms' now' (start_timer address id ms now s)).set
            ≡ add_timer (record { time = time_after ms' now'; address = address }) s.set)
  unfolding unset
  stop_timer-start_timer other ms' now' none_yet fresh =
      let gone = del_timer-add_timer new_timer s.set fresh in
      let found = get-cons id running (del_connection id s.own) in
      let same = start_timer-started none_yet in
      (
        ap (λ (x : Timers). (stop_timer id x).set) same
            ∙ stop_timer-set id running started found
            ∙ gone,
        ap (λ (x : Timers). (start_timer other id ms' now' x).set) same
            ∙ start_timer-set other id ms' now' running started found
            ∙ ap (add_timer (record { time = time_after ms' now'; address = address })) gone,
      )
