-- ===== src/Sdk/Client.antt =====
-- clientsdk/client: client_conn.{h,cpp}, ops.{h,cpp} and opbase.{h,cpp}, a client's connection, all of
-- which runs in the thread of its event loop. A client's id is a number that stands for its text, which
-- is only compared and sent. An `int32` is its bit pattern, a time a number of microseconds, and
-- `timeval`s are compared as such; spans are not negative. Json and protobuf are parameters, and
-- so are the sockets: what `tcp_connect` gives at its n-th call, and what `tcp_send` returns. The
-- user's message callback answers an event, the newest of those published, with the operators that
-- it posts.
pub mod Packets
pub mod Loop
pub mod Receive
pub mod Round
pub mod Deliver
pub mod Pushed
pub mod Relogin
pub mod Posted
pub mod Sound
pub mod Handlers
pub mod Calls
pub mod Fine
pub mod Steps
pub mod Ended
pub mod Timeval
pub mod Waiting
pub mod SmartOp
mod Tests
mod LoopTests
use gpush.Prelude.{
  ℕ, zero, suc, ◌+◌, ◌*◌, ◌/◌, ◌≡◌, List, [], ◌∷◌, ◌++◌, Option, none, some, Bool, true, false, not,
  ◌||◌, ◌&&◌, if◌then◌else◌, ◌==◌, ltb, leb,
}
use gpush.Prelude.Int32.{negative, positive, minus}
use gpush.Proto.{magic_number, logic_construct_packet, keepalive_req, login_req, push_resp}
use gpush.Connect.Client.Messages.{LoginRequest, LoginResponse, PushRequest, PushResponse}
use gpush.Sdk.RingBuf.{RingBuf, new_ring}

pub data Status : Type 0 where
  do_login logged_in login_fail disconnected : Status

unfoldable pub same_status : Status → Status → Bool
same_status do_login do_login = true
same_status logged_in logged_in = true
same_status login_fail login_fail = true
same_status disconnected disconnected = true
same_status _ _ = false

-- The Json texts that are published.
pub data Event : Type 0 where
  login_ok : ℕ → Event
  login_failed logout : ℕ → ℕ → Event
  pushed : ℕ → List ℕ → List ℕ → Event

pub record AddrItem : Type 0 where
  pub ip : List ℕ
  pub port : ℕ

-- The operators, with the client's id.
pub data Op : Type 0 where
  login_op : ℕ → AddrItem → List ℕ → ℕ → Op
  keepalive_op : ℕ → ℕ → Op
  del_conn_op disconnect_op : ℕ → Op

-- Their serial numbers.
pub data Sn : Type 0 where
  login_sn keepalive_sn del_conn_sn disconnect_sn : Sn

unfoldable pub get_sn : Op → Sn
get_sn (login_op cid a ver span) = login_sn
get_sn (keepalive_op cid span) = keepalive_sn
get_sn (del_conn_op cid) = del_conn_sn
get_sn (disconnect_op cid) = disconnect_sn

unfoldable pub same_sn : Sn → Sn → Bool
same_sn login_sn login_sn = true
same_sn keepalive_sn keepalive_sn = true
same_sn del_conn_sn del_conn_sn = true
same_sn disconnect_sn disconnect_sn = true
same_sn _ _ = false

unfoldable pub get_cid : Op → ℕ
get_cid (login_op cid a ver span) = cid
get_cid (keepalive_op cid span) = cid
get_cid (del_conn_op cid) = cid
get_cid (disconnect_op cid) = cid

abbrev pub op_default_timeout : ℕ
op_default_timeout = 10

-- In seconds.
unfoldable pub get_timeout : Op → ℕ
get_timeout (login_op cid a ver span) = op_default_timeout
get_timeout (keepalive_op cid span) = span
get_timeout (del_conn_op cid) = op_default_timeout
get_timeout (disconnect_op cid) = op_default_timeout

-- An entry of `m_timers`; the key's id is the operator's serial number.
pub record Timer : Type 0 where
  pub deadline : ℕ
  pub op : Op

-- A connection. `svrlist` has the back of the vector first, `timers` the earliest deadline.
pub record CliConn : Type 0 where
  pub fd : Option ℕ
  pub buf : RingBuf
  pub cli_ver : List ℕ
  pub keepalive_timeout : ℕ
  pub cid : ℕ
  pub login_status : Status
  pub login_status_code : ℕ
  pub sessid : List ℕ
  pub login_time : ℕ
  pub active_time : ℕ
  pub svrlist : List AddrItem
  pub timers : List Timer

-- What a connection changes outside of itself: the posted operators, the published events with the
-- newest first, the packets given to sockets, the closed sockets, and the count of `tcp_connect`s.
pub record Io : Type 0 where
  pub ops : List Op
  pub events : List Event
  pub sent : List (ℕ × List ℕ)
  pub closed : List ℕ
  pub connects : ℕ

pub record Env : Type 0 where
  pub text : ℕ → List ℕ
  pub connect : ℕ → AddrItem → Option ℕ
  pub send : ℕ → List ℕ → ℕ
  pub react : List Event → List Op
  pub login_request : LoginRequest → List ℕ
  pub parse_login : List ℕ → Option LoginResponse
  pub parse_push : List ℕ → Option PushRequest
  pub push_response : PushResponse → List ℕ

abbrev pub gim_network_error : ℕ
gim_network_error = minus 9999

abbrev pub gim_probuf_format_error : ℕ
gim_probuf_format_error = minus 9998

abbrev pub gim_timeout : ℕ
gim_timeout = minus 9992

abbrev pub gettime_ms : ℕ → ℕ
gettime_ms now = now / 1000

-- The constructor, with `setCid`, `setCliver`, `setSrvAddr` and `setKeepaliveTimeout`, as `LoginOp`
-- calls them.
unfoldable pub new_conn : ℕ → ℕ → AddrItem → List ℕ → ℕ → CliConn
unfolding new_ring
new_conn now cid a ver span = record {
  fd = none;
  buf = new_ring 1024;
  cli_ver = ver;
  keepalive_timeout = span;
  cid = cid;
  login_status = disconnected;
  login_status_code = 0;
  sessid = [];
  login_time = 0;
  active_time = gettime_ms now;
  svrlist = a ∷ [];
  timers = [];
}

unfoldable pub asyn_add_op : Op → Io → Io
asyn_add_op op io = record io { ops = io.ops ++ (op ∷ []) }

unfoldable pub asyn_destroy : CliConn × Io → CliConn × Io
unfolding asyn_add_op
asyn_destroy (con, io) = (con, asyn_add_op (del_conn_op con.cid) io)

unfoldable pub close_socket : Option ℕ → Io → Io
close_socket none io = io
close_socket (some fd) io = record io { closed = io.closed ++ (fd ∷ []) }

unfoldable pub closefd : CliConn × Io → CliConn × Io
unfolding close_socket
closefd (con, io) = (record con { fd = none }, close_socket con.fd io)

-- `addTimer`: a `map` whose keys are compared by the deadline alone takes no second entry for one.
unfoldable pub insert_timer : Timer → List Timer → List Timer
insert_timer t [] = t ∷ []
insert_timer t (u ∷ us) =
    let rest = insert_timer t us in
    if ltb t.deadline u.deadline
    then t ∷ u ∷ us
    else if t.deadline == u.deadline
    then u ∷ us
    else u ∷ rest

unfoldable pub add_timer : ℕ → Op → CliConn → CliConn
unfolding insert_timer get_timeout
add_timer now op con =
    let t : Timer = record { deadline = now + get_timeout op * 1000000; op = op } in
    record con { timers = insert_timer t con.timers }

unfoldable pub add_keepalive_timer : ℕ → CliConn → CliConn
unfolding add_timer
add_keepalive_timer now con = add_timer now (keepalive_op con.cid con.keepalive_timeout) con

-- The loop of `popTimer` over `m_timers` from its end: takes the last entry with the number.
unfoldable pub pop_last : Sn → List Timer → Option (Op × List Timer)
unfolding same_sn get_sn
pop_last sn [] = none
pop_last sn (t ∷ ts) = elim (pop_last sn ts) [
  | some (op, left) ↦ some (op, t ∷ left)
  | none ↦ if same_sn (get_sn t.op) sn then some (t.op, ts) else none
]

unfoldable pub pop_timer : Sn → CliConn → CliConn × ℕ
unfolding pop_last
pop_timer sn con = elim (pop_last sn con.timers) [
  | none ↦ (con, minus 1)
  | some (op, left) ↦ (record con { timers = left }, 0)
]

unfoldable pub status_event : Status → ℕ → ℕ → Option Event
status_event do_login cid code = none
status_event logged_in cid code = some (login_ok cid)
status_event login_fail cid code = some (login_failed cid code)
status_event disconnected cid code = some (logout cid code)

-- `busy` is whether a login is under way or done.
unfoldable pub busy : Status → Bool
busy do_login = true
busy logged_in = true
busy login_fail = false
busy disconnected = false

module _ (E : Env) where
  -- The callback runs inside `publish`.
  unfoldable pub publish : Event → Io → Io
  publish ev io = record io { events = ev ∷ io.events; ops = io.ops ++ E.react (ev ∷ io.events) }

  unfoldable pub publish_some : Option Event → Io → Io
  unfolding publish
  publish_some none io = io
  publish_some (some ev) io = publish ev io

  unfoldable pub set_status : Status → ℕ → Bool → CliConn × Io → CliConn × Io
  unfolding same_status publish_some status_event
  set_status status code notify (con, io) =
      if same_status status con.login_status then (con, io) else (
        record con { login_status = status; login_status_code = code },
        if notify then publish_some (status_event status con.cid code) io else io,
      )

  unfoldable pub on_login_fail : ℕ → CliConn × Io → CliConn × Io
  unfolding closefd set_status asyn_destroy
  on_login_fail code w = asyn_destroy (set_status login_fail code true (closefd w))

  -- `OnCancel` of every timer's operator does nothing.
  unfoldable pub on_disconnect : ℕ → CliConn × Io → CliConn × Io
  unfolding closefd set_status asyn_destroy
  on_disconnect code w = asyn_destroy (set_status disconnected code true (closefd w))

  -- `send_`: a packet is not empty, as it has a head.
  unfoldable pub send_on : ℕ → List ℕ → CliConn × Io → (CliConn × Io) × ℕ
  unfolding closefd
  send_on fd m (con, io) =
      let w : CliConn × Io = (con, record io { sent = io.sent ++ ((fd, m) ∷ []) }) in
      if positive (E.send fd m) then (w, E.send fd m) else (closefd w, minus 1)

  unfoldable pub send_to : List ℕ → CliConn × Io → (CliConn × Io) × ℕ
  unfolding send_on
  send_to m (con, io) = elim con.fd [
    | none ↦ ((con, io), minus 1)
    | some fd ↦ send_on fd m (con, io)
  ]

  unfoldable pub send_packet : ℕ → List ℕ → CliConn × Io → (CliConn × Io) × ℕ
  unfolding send_to
  send_packet cmd body w =
      send_to (logic_construct_packet (record { magic = magic_number; len = 0; cmd = cmd }) body) w

  -- The loop of `connectServer`: the socket, the servers that are left, and the count of calls.
  unfoldable pub try_servers : List AddrItem → Option ℕ → ℕ → Option ℕ × List AddrItem × ℕ
  try_servers [] fd n = (fd, [], n)
  try_servers (a ∷ rest) fd n =
      let next = try_servers rest none (suc n) in
      elim (E.connect n a) [ none ↦ next | some got ↦ (some got, a ∷ rest, suc n) ]

  unfoldable pub after_tries : Option ℕ × List AddrItem × ℕ → CliConn × Io → (CliConn × Io) × ℕ
  unfolding on_login_fail
  after_tries (none, left, n) (con, io) = (
    on_login_fail gim_network_error
        (record con { fd = none; svrlist = left }, record io { connects = n }),
    minus 1,
  )
  after_tries (some fd, left, n) (con, io) =
      ((record con { fd = some fd; svrlist = left }, record io { connects = n }), 0)

  unfoldable pub connect_server : CliConn × Io → (CliConn × Io) × ℕ
  unfolding try_servers after_tries
  connect_server (con, io) = after_tries (try_servers con.svrlist con.fd io.connects) (con, io)

  unfoldable pub login_packet : CliConn → List ℕ
  login_packet con =
      E.login_request
        (record { id = E.text con.cid; type = minus 1; version = con.cli_ver; kvs = [] })

  unfoldable pub login : ℕ → CliConn × Io → (CliConn × Io) × ℕ
  unfolding set_status send_packet login_packet
  login now w =
      let (con, io) = set_status do_login 0 false w in
      let (w', ret) =
        send_packet login_req (login_packet con) (record con { login_time = gettime_ms now }, io) in
      (w', if negative ret then minus 1 else 0)

  unfoldable pub login_if : ℕ → (CliConn × Io) × ℕ → (CliConn × Io) × ℕ
  unfolding login
  login_if now (w, ret) = if ret == 0 then login now w else (w, minus 1)

  unfoldable pub connect_and_login : ℕ → CliConn × Io → (CliConn × Io) × ℕ
  unfolding busy connect_server login_if
  connect_and_login now (con, io) =
      if busy con.login_status
      then ((con, io), minus 1)
      else login_if now (connect_server (con, io))

  -- The two-fold span in milliseconds; the clock does not go back.
  unfoldable pub keepalive : ℕ → CliConn × Io → (CliConn × Io) × ℕ
  unfolding closefd set_status asyn_destroy add_keepalive_timer send_packet
  keepalive now (con, io) =
      if ltb (con.active_time + con.keepalive_timeout * 2 * 1000) (gettime_ms now)
      then (asyn_destroy (set_status disconnected gim_timeout true (closefd (con, io))), 0)
      else send_packet keepalive_req [] (add_keepalive_timer now con, io)
