-- ===== src/Net/Client.antt =====
-- efnfw/net/ef_client.{h,cpp} and the notifications of ef_device.cpp: a connection that this side
-- makes, and makes again when it is lost. What the derived class does is a record of its virtual
-- functions, of which `read` and `write` also say whether they called `disconnect`; epoll takes an open descriptor and refuses any other.
pub mod States
mod Tests
use gpush.Prelude.{
  ℕ, List, [], ◌∷◌, ◌++◌, Option, none, some, Bool, true, false, if◌then◌else◌, ◌==◌,
}
use gpush.Prelude.Int32.{negative, minus}

pub data ClientStatus : Type 0 where
  idle connecting connected : ClientStatus

-- `m_noti`: nothing, `READ_EVENT`, or that and `WRITE_EVENT`.
pub data Notify : Type 0 where
  no_event read_event all_events : Notify

-- `fd` is whether the descriptor is valid; `started` are the timers that were started, with their
-- spans; `part` is the rest of the connection.
pub record Client (A : Type 0) : Type 0 where
  pub status : ClientStatus
  pub fd : Bool
  pub noti : Notify
  pub addr : List ℕ × ℕ
  pub reconnect_span : ℕ
  pub keep_alive_span : ℕ
  pub started : List (ℕ × ℕ)
  pub part : A

pub record Hooks (A : Type 0) : Type 0 where
  pub on_connected : A → A × ℕ
  pub on_disconnected : A → A
  pub keep_alive : A → A × ℕ
  pub clear_bufs : A → A
  pub read : A → A × Bool × ℕ
  pub write : A → A × Bool × ℕ

-- What an event loop does with a client. The arguments are whether `getsockopt` or `tcpNbConnect` succeeds.
pub data ClientEvent : Type 0 where
  created failed : ClientEvent
  readable writable : Bool → ClientEvent
  timeout : Bool → ℕ → ClientEvent

abbrev pub reconnect_timer : ℕ
reconnect_timer = 101

abbrev pub keepalive_timer : ℕ
keepalive_timer = 102

module _ {A : Type 0} where
  -- `addNotify` and `modifyNotify`: they change `m_noti` if epoll does.
  unfoldable pub set_notify : Notify → Client A → Client A
  set_notify events c = if c.fd then record c { noti = events } else c

  -- `connectTo`; `connects` is whether `tcpNbConnect` gives a socket.
  unfoldable pub connect_to : Bool → List ℕ × ℕ → Client A → Client A × ℕ
  connect_to connects addr c =
      if connects
      then (record c { addr = addr; fd = true; status = connecting }, 0)
      else (record c { addr = addr }, minus 1)

  unfoldable pub start_timer : ℕ → ℕ → Client A → Client A
  start_timer id span c = record c { started = c.started ++ ((id, span) ∷ []) }

  unfoldable pub reconnect : Bool → Client A → Client A × ℕ
  unfolding set_notify connect_to
  reconnect connects c = elim c.status [
    | idle ↦ let (c', ret) = connect_to connects c.addr c in (set_notify all_events c', ret)
    | connecting ↦ (c, 0)
    | connected ↦ (c, 0)
  ]

  unfoldable pub on_create : Client A → Client A
  unfolding set_notify start_timer
  on_create c =
      let c1 = set_notify all_events c in
      let c2 : Client A =
        if c.reconnect_span == 0 then c1 else start_timer reconnect_timer c.reconnect_span c1 in
      if c.keep_alive_span == 0 then c2 else start_timer keepalive_timer c.keep_alive_span c2

  module _ (H : Hooks A) where
    -- `clearNotify` works on an open descriptor.
    unfoldable pub disconnect : Client A → Client A
    unfolding set_notify
    disconnect c =
        let c1 = set_notify no_event (record c { part = H.on_disconnected c.part }) in
        record c1 { fd = false; part = H.clear_bufs c1.part; status = idle }

    -- `onFail`; `none` is a client that is recycled.
    unfoldable pub on_fail : Client A → Option (Client A)
    unfolding disconnect
    on_fail c = if c.reconnect_span == 0 then none else some (disconnect c)

    -- `handleConnected`; `asked` is whether `getsockopt` succeeds. The error that it reads is not
    -- looked at.
    unfoldable pub handle_connected : Bool → Client A → Client A × ℕ
    unfolding disconnect set_notify
    handle_connected asked c =
        let c1 = set_notify read_event (record c { status = connected }) in
        let (part, ret) = H.on_connected c1.part in
        if asked then (record c1 { part = part }, ret) else (disconnect c, minus 1)

    -- `handleWrite` and `handleRead`, by the connection's own function.
    unfoldable pub handle_event : (A → A × Bool × ℕ) → Bool → Client A → Client A × ℕ
    unfolding handle_connected disconnect
    handle_event own asked c = elim c.status [
      | idle ↦ (c, 0)
      | connecting ↦ handle_connected asked c
      | connected ↦
          let (part, dropped, ret) = own c.part in
          let c' : Client A = record c { part = part } in
          (if dropped then disconnect c' else c', ret)
    ]

    unfoldable pub handle_timer : Bool → ℕ → Client A → Client A × ℕ
    unfolding start_timer reconnect
    handle_timer connects id c =
        let again = start_timer reconnect_timer c.reconnect_span c in
        let alive = start_timer keepalive_timer c.keep_alive_span c in
        let kept : Client A × ℕ = elim c.status [
          | idle ↦ (alive, 0)
          | connecting ↦ (alive, 0)
          | connected ↦ let (part, ret) = H.keep_alive c.part in (record alive { part = part }, ret)
        ] in
        if id == reconnect_timer
        then reconnect connects again
        else if id == keepalive_timer
        then kept
        else (c, 0)

    unfoldable pub after_event : Client A × ℕ → Option (Client A)
    unfolding on_fail
    after_event (c, ret) = if negative ret then on_fail c else some c

    -- An event whose handler fails is a failure.
    unfoldable pub step : ClientEvent → Client A → Option (Client A)
    unfolding after_event
    step created c = some (on_create c)
    step failed c = on_fail c
    step (readable asked) c = after_event (handle_event H.read asked c)
    step (writable asked) c = after_event (handle_event H.write asked c)
    step (timeout connects id) c = some (handle_timer connects id c).0
