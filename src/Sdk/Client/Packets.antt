-- ===== src/Sdk/Client/Packets.antt =====
-- clientsdk/client/client_conn.cpp: `handleRead`, the packets in the receive buffer, and what the
-- client does with them.
use gpush.Prelude.{
  ℕ, zero, suc, ◌+◌, ◌-◌, ◌*◌, ◌%◌, List, [], ◌∷◌, Option, none, some, true, false, if◌then◌else◌,
  ◌==◌, ltb, length,
}
use gpush.Prelude.Int32.{negative, less}
use gpush.Proto.{head_at, sizeof_head, login_resp, push_req, push_resp}
use gpush.Proto.Word.{htonl}
use gpush.Base.LoopBuf.Frames.{copy_at}
use gpush.Connect.Client.Messages.{PushResponse}
use gpush.Sdk.RingBuf.{RingBuf, peek, read, resize, real_write, next_part_len}
use gpush.Sdk.Sock.{Arrival, bytes_in, tcp_nb_receive}
use gpush.Sdk.Client.{
  Env, CliConn, Io, logged_in, disconnected, pushed, login_sn, gettime_ms, add_keepalive_timer,
  pop_timer, publish, set_status, on_login_fail, send_packet, connect_and_login,
}

-- The loop over the packets: it leaves the ring to wait for more; `fault` is an exception or
-- behaviour that is not defined, `spinning` a loop that has not ended in the rounds allowed.
pub data Outcome (S : Type 0) : Type 0 where
  waits : RingBuf → S → Outcome S
  fault spinning : Outcome S

module _ {S : Type 0} where
  -- A length that a `head` may not have makes `body.resize` throw.
  unfoldable pub packet_loop : (S → ℕ → List ℕ → Option S) → ℕ → RingBuf → S → Outcome S
  packet_loop handle zero b s = spinning
  packet_loop handle (suc rounds) b s =
      let h = head_at (peek b sizeof_head) in
      let body_len = htonl h.len - sizeof_head in
      let headless = (read b sizeof_head).1 in
      let next : Outcome S = elim (handle s (htonl h.cmd) (read headless body_len).0) [
        | none ↦ fault
        | some s' ↦ packet_loop handle rounds (read headless body_len).1 s'
      ] in
      if ltb (length (peek b sizeof_head)) sizeof_head
      then waits b s
      else if less b.size (htonl h.len)
      then waits b s
      else if less (htonl h.len) sizeof_head
      then fault
      else next

-- `recv` writes into the ring behind its last byte, and `write` without bytes counts what came.
unfoldable pub received : RingBuf → List ℕ → RingBuf
received b bytes = record b {
  buf = copy_at b.buf ((b.start + b.size) % b.cap) bytes;
  size = b.size + real_write b (length bytes);
}

unfoldable pub with_room : RingBuf → RingBuf
unfolding resize
with_room b = if next_part_len b == 0 then (resize b (b.cap + 16 * 1024)).1 else b

pub data Received : Type 0 where
  broken : RingBuf → Received
  filled : RingBuf → List Arrival → Received
  stuck : Received

unfoldable pub receive_loop : ℕ → List Arrival → RingBuf → Received
unfolding with_room received
receive_loop zero come b = stuck
receive_loop (suc rounds) come b =
    let roomy = with_room b in
    let (got, later) = tcp_nb_receive come (next_part_len roomy) in
    elim got [
      | none ↦ broken roomy
      | some bytes ↦ elim bytes [
        | [] ↦ filled roomy later
        | x ∷ xs ↦ receive_loop rounds later (received roomy (x ∷ xs))
      ]
    ]

-- What `handleRead` does: it returns 0, or a number below 0.
pub data Handled : Type 0 where
  handled failed : CliConn × Io → Handled
  crashed endless : Handled

module _ (E : Env) where
  -- No server is left to be taken from the list where it is empty.
  unfoldable pub refused_login : ℕ → ℕ → CliConn × Io → Option (CliConn × Io)
  refused_login now status (con, io) = elim con.svrlist [
    | [] ↦ none
    | a ∷ [] ↦ some (on_login_fail E status (record con { svrlist = [] }, io))
    | a ∷ b ∷ more ↦
        let again = set_status E disconnected 0 false (record con { svrlist = b ∷ more }, io) in
        some (connect_and_login E now again).0
  ]

  unfoldable pub handle_login_response : ℕ → List ℕ → CliConn × Io → Option (CliConn × Io)
  unfolding pop_timer set_status add_keepalive_timer refused_login
  handle_login_response now resp (con, io) =
      let con' = (pop_timer login_sn con).0 in
      elim (E.parse_login resp) [
        | none ↦ some (con', io)
        | some lgresp ↦
            let (in_con, in_io) =
              set_status E logged_in lgresp.status true
                (record con' { sessid = lgresp.sessid }, io) in
            if negative lgresp.status
            then refused_login now lgresp.status (con', io)
            else some (add_keepalive_timer now in_con, in_io)
      ]

  unfoldable pub handle_service_request : List ℕ → CliConn × Io → CliConn × Io
  unfolding publish send_packet
  handle_service_request reqbody (con, io) = elim (E.parse_push reqbody) [
    | none ↦ (con, io)
    | some svreq ↦
        let resp : PushResponse = record {
          from_sessid = svreq.to_sessid;
          to_sessid = some svreq.from_sessid;
          sn = svreq.sn;
          status = 0;
        } in
        (send_packet E push_resp (E.push_response resp)
          (con, publish E (pushed con.cid svreq.sn svreq.payload) io)).0
  ]

  unfoldable pub handle_packet : ℕ → CliConn × Io → ℕ → List ℕ → Option (CliConn × Io)
  unfolding handle_login_response handle_service_request
  handle_packet now w cmd body =
      if cmd == login_resp
      then handle_login_response now body w
      else if cmd == push_req
      then some (handle_service_request body w)
      else some w

  -- Until the packets are handled the ring is kept apart: no handler looks at it.
  unfoldable pub handle_packets : ℕ → RingBuf → CliConn × Io → Handled
  unfolding packet_loop
  handle_packets now b w = elim (packet_loop (handle_packet now) (suc b.size) b w) [
    | waits b' w' ↦ handled (record (w'.0) { buf = b' }, w'.1)
    | fault ↦ crashed
    | spinning ↦ endless
  ]

  unfoldable pub handle_received : ℕ → Received → CliConn × Io → Handled
  unfolding handle_packets
  handle_received now (broken b) (con, io) =
      failed (record con { active_time = gettime_ms now; buf = b }, io)
  handle_received now (filled b later) (con, io) =
      handle_packets now b (record con { active_time = gettime_ms now }, io)
  handle_received now stuck w = endless

  unfoldable pub handle_read : ℕ → List Arrival → CliConn × Io → Handled
  unfolding receive_loop handle_received
  handle_read now come (con, io) = elim con.fd [
    | none ↦ failed (con, io)
    | some fd ↦
        handle_received now (receive_loop (suc (length (bytes_in come))) come con.buf) (con, io)
  ]
