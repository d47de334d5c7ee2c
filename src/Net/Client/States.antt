-- ===== src/Net/Client/States.antt =====
-- The states of a client.
use gpush.Prelude.{◌≡◌, Option, none, some, Bool, true, false, Bool-cases, ◌==◌, ℕ, inl, inr, arith}
use gpush.Prelude.Int32.{negative}
use gpush.Net.Client.{
  ClientStatus, idle, connecting, connected, Notify, no_event, read_event, all_events, Client,
  Hooks, set_notify, connect_to, start_timer, reconnect, on_create, disconnect, on_fail,
  handle_connected, handle_event, handle_timer, ClientEvent, created, failed, readable, writable,
  timeout, after_event, step,
}

abbrev fits : ClientStatus → Bool → Notify → Bool
fits idle false no_event = true
fits idle false read_event = false
fits idle false all_events = false
fits idle true events = false
fits connecting fd events = fd
fits connected fd events = fd

module _ {A : Type 0} where
  -- A client is idle just when it has no descriptor, and then no event is registered.
  unfoldable pub Settled : Client A → Type 0
  Settled c = fits c.status c.fd c.noti ≡ true

  abbrev pub StaysSettled : Option (Client A) → Type 0
  StaysSettled none = Unit
  StaysSettled (some c) = Settled c

  set_notify-Settled : (events : Notify) (c : Client A) → Settled c → Settled (set_notify events c)
  unfolding Settled set_notify
  set_notify-Settled events c h = ground arith

  module _ (H : Hooks A) where
    disconnect-Settled : (c : Client A) → Settled c → Settled (disconnect H c)
    unfolding Settled disconnect set_notify
    disconnect-Settled c h = ground arith

    on_fail-Settled : (c : Client A) → Settled c → StaysSettled (on_fail H c)
    unfolding on_fail
    on_fail-Settled c h = elim (Bool-cases (c.reconnect_span == 0)) [
      | inl none_set ↦ rw (none_set) tt
      | inr some_set ↦ rw (some_set) (disconnect-Settled c h)
    ]

    handle_connected-Settled :
        (asked : Bool) (c : Client A)
        → c.fd ≡ true
        → Settled c
        → Settled (handle_connected H asked c).0
    unfolding handle_connected Settled set_notify disconnect
    handle_connected-Settled asked c opened h = ground arith

    after_event-Settled : (r : Client A × ℕ) → Settled r.0 → StaysSettled (after_event H r)
    unfolding after_event
    after_event-Settled (c, ret) h = elim (Bool-cases (negative ret)) [
      | inl fails ↦ rw (fails) (on_fail-Settled c h)
      | inr goes_on ↦ rw (goes_on) h
    ]

    on_create-Settled : (c : Client A) → Settled c → Settled (on_create c)
    unfolding on_create Settled set_notify start_timer
    on_create-Settled c h = ground arith

    handle_event-Settled :
        (own : A → A × Bool × ℕ) (asked : Bool) (c : Client A)
        → Settled c
        → Settled (handle_event H own asked c).0
    unfolding handle_event Settled set_notify disconnect handle_connected
    handle_event-Settled own asked c h = ground arith

    handle_timer-Settled :
        (connects : Bool) (id : ℕ) (c : Client A)
        → Settled c
        → Settled (handle_timer H connects id c).0
    unfolding handle_timer Settled set_notify start_timer reconnect connect_to
    handle_timer-Settled connects id c h = ground arith

    -- An event leaves a client idle just when it has no descriptor, or recycles it: whether connecting or
    -- asking for the socket's error succeeds, and whatever the derived class does.
    pub step-Settled : (e : ClientEvent) (c : Client A) → Settled c → StaysSettled (step H e c)
    unfolding step
    step-Settled created c h = on_create-Settled c h
    step-Settled failed c h = on_fail-Settled c h
    step-Settled (readable asked) c h =
        after_event-Settled (handle_event H H.read asked c) (handle_event-Settled H.read asked c h)
    step-Settled (writable asked) c h =
        after_event-Settled (handle_event H H.write asked c)
          (handle_event-Settled H.write asked c h)
    step-Settled (timeout connects id) c h = handle_timer-Settled connects id c h
