-- ===== src/Sdk/Client/Pushed.antt =====
-- A push on its last way: from the connection server's packet to the client's event and its answer.
use gpush.Prelude.{
  ℕ, ◌+◌, ◌^◌, ◌<◌, ◌≡◌, refl, ap, sym, ◌∙◌, inl, List, [], ◌∷◌, ◌++◌, Option, none, some, true,
  arith, length, append-nil,
}
use mathlib.Core.Path.{subst}
use gpush.Prelude.Int32.{positive, minus}
use gpush.Proto.{Head, sizeof_head, magic_number, construct_packet, logic_construct_packet}
use gpush.Proto.{push_req, push_resp}
use gpush.Proto.Framing.{length-construct_packet}
use gpush.Connect.Client.Messages.{PushRequest}
use gpush.Net.EventLoop.{get_connection}
use gpush.Connect.Client.{SendMsgOp, CliCon}
use gpush.Connect.Client.Posted.{ClientLoop, process_send}
use gpush.Sdk.RingBuf.Places.{IsValid, contents}
use gpush.Sdk.RingBuf.{RingBuf}
use gpush.Sdk.Sock.{Arrival, bytes_in}
use gpush.Sdk.Client.{Env, CliConn, Io, pushed, gettime_ms, publish, send_on, send_to, send_packet}
use gpush.Sdk.Client.Packets.{handled, handle_service_request, handle_packet, handle_read}
use gpush.Sdk.Client.Receive.{IsSteady}
use gpush.Sdk.Client.Round.{IsPartial}
use gpush.Sdk.Client.Deliver.{handle_all, handle_read-Delivered}

module _ (E : Env) where
  -- What the client answers.
  abbrev pub answer : PushRequest → List ℕ
  answer svreq =
      logic_construct_packet (record { magic = magic_number; len = 0; cmd = push_resp })
        (E.push_response (record {
          from_sessid = svreq.to_sessid;
          to_sessid = some svreq.from_sessid;
          sn = svreq.sn;
          status = 0;
        }))

  -- What the event and the answer make of the outside.
  abbrev pub told : ℕ → ℕ → PushRequest → Io → Io
  told cid fd svreq io = record io {
    events = pushed cid svreq.sn svreq.payload ∷ io.events;
    ops = io.ops ++ E.react (pushed cid svreq.sn svreq.payload ∷ io.events);
    sent = io.sent ++ ((fd, answer svreq) ∷ []);
  }

  pub send_to_online :
      (fd : ℕ) (m : List ℕ) (con : CliConn) (io : Io)
      → con.fd ≡ some fd
      → send_to E m (con, io) ≡ send_on E fd m (con, io)
  unfolding send_to
  send_to_online fd m con io online =
      subst
        (λ (o : Option ℕ).
          elim o [ none ↦ ((con, io), minus 1) | some fd' ↦ send_on E fd' m (con, io) ]
          ≡ send_on E fd m (con, io))
        (sym online) refl

  pub send_on_good :
      (fd : ℕ) (m : List ℕ) (con : CliConn) (io : Io)
      → positive (E.send fd m) ≡ true
      → (send_on E fd m (con, io)).0 ≡ (con, record io { sent = io.sent ++ ((fd, m) ∷ []) })
  unfolding send_on
  send_on_good fd m con io goes = rw goes refl

  answered :
      (now fd : ℕ) (con : CliConn) (io : Io) (body : List ℕ) (svreq : PushRequest)
      → con.fd ≡ some fd
      → E.parse_push body ≡ some svreq
      → positive (E.send fd (answer svreq)) ≡ true
      → handle_packet E now (con, io) push_req body ≡ some (con, told con.cid fd svreq io)
  unfolding handle_packet handle_service_request send_packet publish
  answered now fd con io body svreq online parses goes =
      let ev = pushed con.cid svreq.sn svreq.payload in
      rw (parses, handle_service_request)
        (ap (λ (out : (CliConn × Io) × ℕ). some out.0)
            (send_to_online fd (answer svreq) con (publish E ev io) online)
          ∙ ap some (send_on_good fd (answer svreq) con (publish E ev io) goes))

  -- A connection with nothing in its ring receives a request that the connection server sends to it,
  -- in whatever pieces. Then it publishes the event of the push, with its number and its text, and
  -- answers with a packet of which the target is the session that the request came from. Nothing else
  -- is published or sent, and nothing waits in the ring.
  pub handle_read-answer :
      (now fd : ℕ) (come : List Arrival) (con : CliConn) (io : Io) (h : Head) (body : List ℕ)
      (svreq : PushRequest)
      → con.fd ≡ some fd
      → IsValid con.buf
      → contents con.buf ≡ []
      → IsSteady come
      → bytes_in come ≡ construct_packet h body
      → h.cmd ≡ push_req
      → sizeof_head + length body < 2 ^ 31
      → E.parse_push body ≡ some svreq
      → positive (E.send fd (answer svreq)) ≡ true
      → (b : RingBuf) × (handle_read E now come (con, io)
          ≡ handled
              (record con { active_time = gettime_ms now; buf = b }, told con.cid fd svreq io))
        × (contents b ≡ [])
        × IsValid b
  unfolding handle_all IsPartial
  handle_read-answer now fd come con io h body svreq online v empty steady sent cmd small parses
        goes =
      let p = construct_packet h body in
      let con' = record con { active_time = gettime_ms now } in
      let stream : contents con.buf ++ bytes_in come ≡ construct_packet h body =
        ap (λ (l : List ℕ). l ++ bytes_in come) empty ∙ sent in
      let done = answered now fd con' io body svreq online parses goes in
      handle_read-Delivered E now fd come con io ((h, body) ∷ []) []
        (con', told con.cid fd svreq io) online v steady
        (stream ∙ sym (append-nil (p ++ []) ∙ append-nil p))
        (omega (arith, ap length stream, length-construct_packet h body)) (omega (arith, cmd), tt)
        (inl (omega arith))
        (rw (ap (λ (c : ℕ). handle_packet E now (con', io) c body) cmd ∙ done, handle_all) refl)

  -- The packet that the connection server makes of an operator.
  abbrev pub op_packet : SendMsgOp → List ℕ
  op_packet op = construct_packet (record { magic = magic_number; len = 0; cmd = op.cmd }) op.body

  -- The connection server runs an operator with a push request, of less than 2^31 bytes, for a client
  -- that is connected. It writes one packet to that client. When the client, with nothing in its ring,
  -- receives the packet, in whatever pieces, it publishes the event of the push, with its number and
  -- its text, and answers with a packet of which the target is the session that the request came from.
  -- Nothing else is published or sent, and nothing waits in the ring.
  pub process_send-answer :
      (send : ℕ → List ℕ → ℕ) (op : SendMsgOp) (server : ClientLoop) (at : CliCon) (now fd : ℕ)
      (come : List Arrival) (con : CliConn) (io : Io) (svreq : PushRequest)
      → op.cmd ≡ push_req
      → get_connection op.conid server.cons ≡ some at
      → sizeof_head + length op.body < 2 ^ 31
      → con.fd ≡ some fd
      → IsValid con.buf
      → contents con.buf ≡ []
      → IsSteady come
      → bytes_in come ≡ op_packet op
      → E.parse_push op.body ≡ some svreq
      → positive (E.send fd (answer svreq)) ≡ true
      → ((process_send send op server).0.written
          ≡ server.written ++ ((op.conid, op_packet op) ∷ []))
        × ((b : RingBuf) × (handle_read E now come (con, io)
              ≡ handled
                  (record con { active_time = gettime_ms now; buf = b }, told con.cid fd svreq io))
            × (contents b ≡ [])
            × IsValid b)
  unfolding process_send
  process_send-answer send op server at now fd come con io svreq cmd there small online v empty
        steady sent parses goes =
      (
        (rw (there, process_send) refl),
        handle_read-answer now fd come con io
            (record { magic = magic_number; len = 0; cmd = op.cmd }) op.body svreq online v empty
            steady sent cmd small parses goes,
      )
