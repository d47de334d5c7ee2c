-- ===== src/Sdk/Client/Calls.antt =====
-- What the event loop calls on a connection keeps it sound: `handleRead` and `processTimers`.
use gpush.Prelude.{
  ℕ, zero, suc, ◌-◌, refl, inl, inr, List, [], ◌∷◌, Option, none, some, Bool-cases, ltb, length,
}
use gpush.Prelude.Int32.{less}
use gpush.Proto.{head_at, sizeof_head}
use gpush.Proto.Word.{htonl}
use gpush.Sdk.RingBuf.{RingBuf, peek, read}
use gpush.Sdk.Sock.{Arrival, bytes_in}
use gpush.Sdk.Client.{
  Env, CliConn, Io, Op, login_op, keepalive_op, del_conn_op, disconnect_op, gim_timeout, gettime_ms,
}
use gpush.Sdk.Client.Packets.{
  Outcome, waits, fault, spinning, packet_loop, Received, broken, filled, stuck, receive_loop,
  Handled, handled, failed, crashed, endless, handle_packet, handle_packets, handle_received,
  handle_read,
}
use gpush.Sdk.Client.Round.{due, loop_step}
use gpush.Sdk.Client.Timeval.{Timeval}
use gpush.Sdk.Client.Loop.{on_timeout, time_out, split_due, conn_timers}
use gpush.Sdk.Client.Sound.{Holds, Holds-trans, on_login_fail-Holds}
use gpush.Sdk.Client.Handlers.{MayHold, handle_packet-MayHold, keepalive-Holds, still-Holds}

-- How a loop or a call may leave a connection.
unfoldable pub LoopHolds : CliConn × Io → Outcome (CliConn × Io) → Type 0
LoopHolds v (waits b w) = Holds v w
LoopHolds v fault = Unit
LoopHolds v spinning = Unit

unfoldable pub CallHolds : CliConn × Io → Handled → Type 0
CallHolds v (handled w) = Holds v w
CallHolds v (failed w) = Holds v w
CallHolds v crashed = Unit
CallHolds v endless = Unit

module _ (E : Env) where
  next-LoopHolds :
      (v w : CliConn × Io) (o : Option (CliConn × Io)) (go : CliConn × Io → Outcome (CliConn × Io))
      → Holds v w
      → MayHold w o
      → ((w' : CliConn × Io) → Holds v w' → LoopHolds v (go w'))
      → LoopHolds v (elim o as (λ _. Outcome (CliConn × Io)) [ none ↦ fault | some w' ↦ go w' ])
  unfolding LoopHolds MayHold
  next-LoopHolds v w none go h m on = tt
  next-LoopHolds v w (some w') go h m on = on w' (Holds-trans v w w' h m)

  packet_loop-LoopHolds :
      (now rounds : ℕ) (b : RingBuf) (v w : CliConn × Io)
      → Holds v w
      → LoopHolds v (packet_loop (handle_packet E now) rounds b w)
  unfolding packet_loop LoopHolds
  packet_loop-LoopHolds now zero b v w h = tt
  packet_loop-LoopHolds now (suc rounds) b v w h =
      elim (Bool-cases (ltb (length (peek b sizeof_head)) sizeof_head)) [
        | inl short ↦ rw (short, packet_loop) h
        | inr enough ↦ elim (Bool-cases (less b.size (due (handle_packet E now) b))) [
          | inl more ↦ rw (enough, more, packet_loop) h
          | inr there ↦ elim (Bool-cases (less (due (handle_packet E now) b) sizeof_head)) [
            | inl tiny ↦ rw (enough, there, tiny, packet_loop) tt
            | inr least ↦ rw (loop_step (handle_packet E now) rounds b w enough there least) (
                next-LoopHolds v w _ _ h
                  (handle_packet-MayHold E now w (htonl (head_at (peek b sizeof_head)).cmd)
                    (read (read b sizeof_head).1 (due (handle_packet E now) b - sizeof_head)).0)
                  (λ w' h'. packet_loop-LoopHolds now rounds _ v w' h'))
          ]
        ]
      ]

  handled_by :
      (v : CliConn × Io) (out : Outcome (CliConn × Io))
      → LoopHolds v out
      → CallHolds v (elim out [
        | waits b' w' ↦ handled (record (w'.0) { buf = b' }, w'.1)
        | fault ↦ crashed
        | spinning ↦ endless
      ])
  unfolding LoopHolds CallHolds
  handled_by v (waits b w) h =
      Holds-trans v w (record (w.0) { buf = b }, w.1) h
        (still-Holds w (record (w.0) { buf = b }, w.1) refl refl refl)
  handled_by v fault h = tt
  handled_by v spinning h = tt

  received-CallHolds :
      (now : ℕ) (out : Received) (con : CliConn) (io : Io)
      → CallHolds (con, io) (handle_received E now out (con, io))
  unfolding handle_received handle_packets CallHolds
  received-CallHolds now (broken b) con io =
      still-Holds (con, io) (record con { active_time = gettime_ms now; buf = b }, io) refl refl
        refl
  received-CallHolds now (filled b later) con io =
      let start : CliConn × Io = (record con { active_time = gettime_ms now }, io) in
      handled_by (con, io) _
        (packet_loop-LoopHolds now (suc b.size) b (con, io) start
          (still-Holds (con, io) start refl refl refl))
  received-CallHolds now stuck con io = tt

  read-CallHolds :
      (o : Option ℕ) (con : CliConn) (io : Io) (out : Handled)
      → CallHolds (con, io) out
      → CallHolds (con, io) (elim o as (λ _. Handled) [ none ↦ failed (con, io) | some fd ↦ out ])
  unfolding CallHolds
  read-CallHolds none con io out h = still-Holds (con, io) (con, io) refl refl refl
  read-CallHolds (some fd) con io out h = h

  pub handle_read-CallHolds :
      (now : ℕ) (come : List Arrival) (w : CliConn × Io) → CallHolds w (handle_read E now come w)
  unfolding handle_read
  handle_read-CallHolds now come (con, io) =
      read-CallHolds con.fd con io _
        (received-CallHolds now (receive_loop (suc (length (bytes_in come))) come con.buf) con io)

  on_timeout-Holds : (now : ℕ) (op : Op) (w : CliConn × Io) → Holds w (on_timeout E now op w)
  unfolding on_timeout
  on_timeout-Holds now (login_op cid a ver span) w = on_login_fail-Holds E gim_timeout w
  on_timeout-Holds now (keepalive_op cid span) w = keepalive-Holds E now w
  on_timeout-Holds now (del_conn_op cid) w = still-Holds w w refl refl refl
  on_timeout-Holds now (disconnect_op cid) w = still-Holds w w refl refl refl

  time_out-Holds : (now : ℕ) (ops : List Op) (w : CliConn × Io) → Holds w (time_out E now ops w)
  unfolding time_out
  time_out-Holds now [] w = still-Holds w w refl refl refl
  time_out-Holds now (op ∷ ops) w =
      Holds-trans w (on_timeout E now op w) _ (on_timeout-Holds now op w)
        (time_out-Holds now ops (on_timeout E now op w))

  pub conn_timers-Holds :
      (now : ℕ) (w : CliConn × Io) (tv : Timeval) → Holds w (conn_timers E now w tv).0
  unfolding conn_timers
  conn_timers-Holds now (con, io) tv =
      let (due_ops, left) = split_due now con.timers in
      let w : CliConn × Io = (record con { timers = left }, io) in
      Holds-trans (con, io) w (time_out E now due_ops w) (still-Holds (con, io) w refl refl refl)
        (time_out-Holds now due_ops w)
