-- ===== src/Push/EndToEnd.antt =====
-- A push from the push server to a client: push_server/src/server_conn.cpp to
-- connect_server/src/client_conn.cpp.
use gpush.Prelude.{
  ℕ, ◌+◌, ◌^◌, ◌<◌, ◌≤◌, ◌≡◌, refl, ap, ◌∙◌, List, [], ◌∷◌, ◌++◌, some, false, drop, arith,
}
use gpush.Prelude.Int32.{negative}
use gpush.Proto.{
  Head, head_at, sizeof_head, magic_number, construct_packet, decoration_name, push_req,
}
use gpush.Proto.Word.{htonl}
use gpush.Proto.Unframe.{
  drop-construct_packet, drop-logic_construct_packet, cmd-logic_construct_packet,
}
use gpush.Net.EventLoop.{get_connection}
use gpush.Connect.Client.{World, SendMsgOp, CliCon, connection_id, update_session}
use gpush.Connect.Client.Push.{post_op}
use gpush.Connect.Client.Packet.{handle_packet}
use gpush.Connect.Client.Routing.{handle_packet-push}
use gpush.Connect.Client.Posted.{ClientLoop, process_send}
use gpush.Connect.Client.Messages.{Sess, PushRequest}
use gpush.Connect.Client
use gpush.Push.Server.{SvCon}
use gpush.Push.Server
use gpush.Push.Listen.Deliver.{push_packet}

module _ {C : Type 0} (P : Server.Env) (E : Client.Env C) (c : SvCon) (preq : PushRequest)
    (s : Sess) (loop id : ℕ) (name : List ℕ) (now later : ℕ) (from : World C) where
  -- What `sendPushRequest` serialises.
  abbrev pub pushed : PushRequest
  pushed = record preq { from_sessid = c.sessid; to_sessid = s.sessid }

  -- The operator that the connection server posts.
  abbrev pub posted : SendMsgOp
  posted = record { conid = connection_id loop id; cmd = push_req; body = P.push_request pushed }

  abbrev head_of : Head
  head_of = record { magic = magic_number; len = 0; cmd = push_req }

  -- What the client is sent.
  abbrev pub forwarded : List ℕ
  forwarded = construct_packet head_of (P.push_request pushed)

  push_packet-body : drop sizeof_head (push_packet P c preq s) ≡ P.push_request pushed
  unfolding push_packet
  push_packet-body = drop-logic_construct_packet head_of (P.push_request pushed)

  push_packet-cmd : htonl (head_at (push_packet P c preq s)).cmd ≡ push_req
  unfolding push_packet
  push_packet-cmd = cmd-logic_construct_packet head_of (P.push_request pushed) (omega arith)

  push_packet-posted :
      E.parse_push_request (P.push_request pushed) ≡ some pushed
      → s.sessid ≡ decoration_name E.svid (connection_id loop id) name
      → E.svid < 2 ^ 32
      → loop < E.thread_count
      → E.thread_count ≤ 2147
      → negative (E.post loop) ≡ false
      → negative from.con.sess.type ≡ false
      → let kept = (update_session E now from).0 in
        handle_packet E now later from (push_packet P c preq s)
        ≡ some (record (post_op E loop posted kept) { req_cnt = kept.req_cnt + 1 }, E.post loop)
  push_packet-posted parses to small in_loop loops posts allowed =
      let kept = (update_session E now from).0 in
      handle_packet-push E now later from (push_packet P c preq s) pushed push_packet-cmd
        (ap E.parse_push_request push_packet-body ∙ parses) allowed loop id name to small in_loop
        loops posts
      ∙ ap
          (λ (body : List ℕ). some (
            record (post_op E loop
                (record { conid = connection_id loop id; cmd = push_req; body = body }) kept) {
                  req_cnt = kept.req_cnt + 1;
                },
            E.post loop,
          ))
          push_packet-body

  -- The packet that the push server sends for a session makes the connection server post an operator
  -- to the event loop that the session's id was made for. When it runs and the client is still
  -- connected, the client is sent a packet of which protobuf reads the request, with the type, the
  -- text and the number of the push, the session's id as its target and that of the push server as
  -- its source.
  pub push_packet-process_send :
      (send : ℕ → List ℕ → ℕ) (at : ClientLoop) (con : CliCon)
      → E.parse_push_request (P.push_request pushed) ≡ some pushed
      → s.sessid ≡ decoration_name E.svid (connection_id loop id) name
      → E.svid < 2 ^ 32
      → loop < E.thread_count
      → E.thread_count ≤ 2147
      → negative (E.post loop) ≡ false
      → negative from.con.sess.type ≡ false
      → get_connection (connection_id loop id) at.cons ≡ some con
      → let kept = (update_session E now from).0 in
        (handle_packet E now later from (push_packet P c preq s)
          ≡ some (record (post_op E loop posted kept) { req_cnt = kept.req_cnt + 1 }, E.post loop))
        × (process_send send posted at ≡ (
          record at { written = at.written ++ ((connection_id loop id, forwarded) ∷ []) },
          send (connection_id loop id) forwarded,
        ))
        × (E.parse_push_request (drop sizeof_head forwarded) ≡ some pushed)
  unfolding process_send
  push_packet-process_send send at con parses to small in_loop loops posts allowed online = (
    push_packet-posted parses to small in_loop loops posts allowed,
    rw (online, process_send) refl,
    ap E.parse_push_request (drop-construct_packet head_of (P.push_request pushed)) ∙ parses,
  )
