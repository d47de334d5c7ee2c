-- ===== src/Sdk/Client/Loop.antt =====
-- clientsdk/client/eventloop.cpp and ops.cpp: the client's event loop, its operators and its timers.
-- `m_conns` is a list of the connections by their clients; the references that count an
-- operator are in SmartOp.
use gpush.Prelude.{
  ℕ, zero, suc, List, [], ◌∷◌, ◌++◌, Option, none, some, Bool, true, false, if◌then◌else◌, ◌==◌,
  ltb,
}
use gpush.Prelude.Int32.{minus}
use gpush.Net.EventLoop.{ConnectionMap, get_connection, set_connection, del_connection}
use gpush.Sdk.Sock.{Arrival}
use gpush.Sdk.Client.{
  Env, AddrItem, Op, login_op, keepalive_op, del_conn_op, disconnect_op, get_cid, Timer, CliConn,
  Io, gim_network_error, gim_timeout, new_conn, add_timer, on_login_fail, on_disconnect,
  connect_and_login, keepalive,
}
use gpush.Sdk.Client.Timeval.{pos, ltz, is_zero, Timeval, tv_cmp, c_tvmax, tv_of, tv_diff}
use gpush.Sdk.Client.Packets.{handled, failed, crashed, endless, handle_read}

pub record EventLoop : Type 0 where
  pub conns : ConnectionMap CliConn
  pub io : Io

unfoldable pub find_conn : ℕ → EventLoop → Option CliConn
find_conn cid l = get_connection cid l.conns

-- `delConn`. The destructor of a connection leaves its socket open.
unfoldable pub del_conn : ℕ → EventLoop → EventLoop × ℕ
unfolding find_conn
del_conn cid l = elim (find_conn cid l) [
  | none ↦ (l, minus 1)
  | some con ↦ (record l { conns = del_connection cid l.conns }, 0)
]

-- What a call on a connection leaves.
unfoldable pub put_back : ℕ → CliConn × Io → EventLoop → EventLoop
put_back cid (con, io) l = record { conns = set_connection cid con l.conns; io = io }

module _ (E : Env) where
  -- `process` of an operator, and whether its `increase_` keeps it for the timers.
  unfoldable pub process_login : ℕ → ℕ → AddrItem → List ℕ → ℕ → EventLoop → EventLoop × Bool
  unfolding find_conn put_back new_conn
  process_login now cid a ver span l = elim (find_conn cid l) [
    | some con ↦ (l, false)
    | none ↦
        let con = new_conn now cid a ver span in
        let (w, ret) = connect_and_login E now (con, l.io) in
        (record { conns = (cid, w.0) ∷ l.conns; io = w.1 }, ret == 0)
  ]

  unfoldable pub process : ℕ → Op → EventLoop → EventLoop × Bool
  unfolding process_login find_conn del_conn put_back
  process now (login_op cid a ver span) l = process_login now cid a ver span l
  process now (keepalive_op cid span) l = elim (find_conn cid l) [
    | none ↦ (l, false)
    | some con ↦ (l, true)
  ]
  process now (del_conn_op cid) l = ((del_conn cid l).0, false)
  process now (disconnect_op cid) l = elim (find_conn cid l) [
    | none ↦ (l, false)
    | some con ↦ (put_back cid (on_disconnect E 0 (con, l.io)) l, false)
  ]

  -- What `processOps` does with an operator that is kept, or not.
  unfoldable pub keep_op : ℕ → Op → EventLoop × Bool → EventLoop
  unfolding find_conn put_back
  keep_op now op (l, false) = l
  keep_op now op (l, true) = elim (find_conn (get_cid op) l) [
    | none ↦ l
    | some con ↦ put_back (get_cid op) (add_timer now op con, l.io) l
  ]

  -- The body of its loop.
  unfoldable pub run_op : ℕ → Op → EventLoop → EventLoop
  unfolding process keep_op
  run_op now op l = keep_op now op (process now op l)

  unfoldable pub pop_op : List Op → EventLoop → EventLoop
  pop_op rest l = record { conns = l.conns; io = record (l.io) { ops = rest } }

  -- `processOps`, which also runs what is posted meanwhile; none after the rounds allowed.
  unfoldable pub process_ops : ℕ → ℕ → EventLoop → Option EventLoop
  unfolding run_op pop_op
  process_ops zero now l = none
  process_ops (suc rounds) now l = elim l.io.ops [
    | [] ↦ some l
    | op ∷ rest ↦ process_ops rounds now (run_op now op (pop_op rest l))
  ]

  -- `OnTimeout`. Operators of other kinds, which no timer holds, are not notified of.
  unfoldable pub on_timeout : ℕ → Op → CliConn × Io → CliConn × Io
  on_timeout now (login_op cid a ver span) w = on_login_fail E gim_timeout w
  on_timeout now (keepalive_op cid span) w = (keepalive E now w).0
  on_timeout now (del_conn_op cid) w = w
  on_timeout now (disconnect_op cid) w = w

  unfoldable pub time_out : ℕ → List Op → CliConn × Io → CliConn × Io
  unfolding on_timeout
  time_out now [] w = w
  time_out now (op ∷ ops) w = time_out now ops (on_timeout now op w)

-- The first loop of a connection's `processTimers`: the operators that are due, and the other timers.
unfoldable pub split_due : ℕ → List Timer → List Op × List Timer
split_due now [] = ([], [])
split_due now (t ∷ ts) =
    let (due, left) = split_due now ts in
    if ltb now t.deadline then ([], t ∷ ts) else (t.op ∷ due, left)

-- The wait for the first of the timers that are left, if it is shorter.
unfoldable pub sooner : ℕ → List Timer → Timeval → Timeval
unfolding tv_cmp tv_diff tv_of ltz
sooner now [] tv = tv
sooner now (t ∷ ts) tv =
    let tvtemp = tv_diff (tv_of t.deadline) (tv_of now) in
    if ltz (pos 0) (tv_cmp tv tvtemp) then tvtemp else tv

module _ (E : Env) where
  unfoldable pub conn_timers : ℕ → CliConn × Io → Timeval → (CliConn × Io) × Timeval
  unfolding split_due sooner time_out
  conn_timers now (con, io) tv =
      let (due, left) = split_due now con.timers in
      (time_out E now due (record con { timers = left }, io), sooner now left tv)

  -- The loop's `processTimers`: a connection whose socket is gone is deleted.
  unfoldable pub process_timers :
      ℕ → ConnectionMap CliConn → Io → Timeval → (ConnectionMap CliConn × Io) × Timeval
  unfolding conn_timers
  process_timers now [] io tv = (([], io), tv)
  process_timers now ((cid, con) ∷ rest) io tv =
      let ((con', io'), tv') = conn_timers now (con, io) tv in
      let gone = process_timers now rest io tv in
      let ((rest', end_io), end_tv) = process_timers now rest io' tv' in
      elim con.fd [ none ↦ gone | some fd ↦ (((cid, con') ∷ rest', end_io), end_tv) ]

  -- The part of `run` in front of `select`: the wait that it is given, none being a null pointer, with
  -- which it waits until a socket is readable.
  unfoldable pub before_select : ℕ → EventLoop → EventLoop × Option Timeval
  unfolding process_timers
  before_select now l =
      let ((conns, io), tv) = process_timers now l.conns l.io c_tvmax in
      (record { conns = conns; io = io }, if is_zero (tv_cmp c_tvmax tv) then none else some tv)

  -- The connections that `select` found readable, with what has come; FD_ISSET is not defined for a
  -- connection without a socket. Those that fail are disconnected, and deleted behind the loop.
  unfoldable pub read_conns :
      (ℕ → Option (List Arrival))
      → ℕ
      → ConnectionMap CliConn
      → Io
      → Option (ConnectionMap CliConn × Io × List ℕ)
  read_conns ready now [] io = some ([], io, [])
  read_conns ready now ((cid, con) ∷ rest) io =
      let on : CliConn × Io → List ℕ → Option (ConnectionMap CliConn × Io × List ℕ) = λ w errs.
        elim (read_conns ready now rest w.1) [
          | none ↦ none
          | some (conns, io', more) ↦ some ((cid, w.0) ∷ conns, io', errs ++ more)
        ] in
      elim con.fd [
        | none ↦ none
        | some fd ↦ elim (ready fd) [
          | none ↦ on (con, io) []
          | some come ↦ elim (handle_read E now come (con, io)) [
            | handled w ↦ on w []
            | failed w ↦ on (on_disconnect E gim_network_error w) (cid ∷ [])
            | crashed ↦ none
            | endless ↦ none
          ]
        ]
      ]

unfoldable pub del_conns : List ℕ → EventLoop → EventLoop
unfolding del_conn
del_conns [] l = l
del_conns (cid ∷ cids) l = del_conns cids (del_conn cid l).0

module _ (E : Env) where
  unfoldable pub read_ready : (ℕ → Option (List Arrival)) → ℕ → EventLoop → Option EventLoop
  unfolding read_conns del_conns
  read_ready ready now l = elim (read_conns E ready now l.conns l.io) [
    | none ↦ none
    | some (conns, io, errs) ↦ some (del_conns errs (record { conns = conns; io = io }))
  ]

  -- A turn of `run` behind `select`: `woken` is whether the control socket was readable.
  unfoldable pub turn : ℕ → Bool → (ℕ → Option (List Arrival)) → ℕ → EventLoop → Option EventLoop
  unfolding process_ops read_ready
  turn rounds woken ready now l = elim (if woken then process_ops E rounds now l else some l) [
    | none ↦ none
    | some l' ↦ read_ready ready now l'
  ]
