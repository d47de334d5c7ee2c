-- ===== src/Connect/Client/Routing.antt =====
-- A push goes to the connection that the session id was made for.
use gpush.Prelude.{
  ℕ, ◌+◌, ◌^◌, ◌≤◌, ◌<◌, ◌≡◌, ◌≢◌, refl, ap, ◌∙◌, List, some, true, false, not, ◌||◌, arith, ◌==◌,
  length, drop,
}
use gpush.Prelude.Int32.{negative, less, minus}
use gpush.Base.LoopBuf.{is_empty}
use gpush.Proto.{head_at, sizeof_head, decoration_name, decoded, push_req, push_resp}
use gpush.Proto.Word.{htonl}
use gpush.Proto.SessionId.{get_decoration_info-decoration_name, get_decoration_info_short}
use gpush.Connect.ErrNo.{invalid_session_id}
use gpush.Connect.Client.Messages.{PushRequest}
use gpush.Connect.Client.{
  World, Env, SendMsgOp, Route, to_loop, throwing, invalid, connection_id, event_loop_id,
  update_session, send_cmd,
}
use gpush.Connect.Client.Push.{
  con_from_sessid, route_of, handle_push_request, push_to, post_op, answer,
}
use gpush.Connect.Client.Change.{update_session-Same}
use gpush.Connect.Client.Packet.{handle_packet, dispatch_cmd, finish}

-- The loop is found again in the id that `dispatchConnection` gives, while it fits an `int`.
pub event_loop_id-connection_id :
    (loop id : ℕ) → loop < 2147 → event_loop_id (connection_id loop id) ≡ loop
unfolding event_loop_id connection_id
event_loop_id-connection_id loop id h = ground arith

same_id : (a : ℕ) → (a == a) ≡ true
same_id a = ground arith

other_id : (a b : ℕ) → a ≢ b → (a == b) ≡ false
other_id a b n = ground arith

in_range :
    (loop count : ℕ)
    → loop < count
    → count ≤ 2147
    → (negative loop || not (less loop count)) ≡ false
in_range loop count l c = ground arith

module _ {C : Type 0} (E : Env C) where
  route-in_range :
      (loop conid : ℕ) (name : List ℕ)
      → event_loop_id conid ≡ loop
      → loop < E.thread_count
      → E.thread_count ≤ 2147
      → route_of E (decoded E.svid conid name) ≡ to_loop loop conid
  unfolding route_of
  route-in_range loop conid name e l t =
      rw (same_id E.svid) (rw e (rw (in_range loop E.thread_count l t) refl))

  -- A session id that this server made for a connection of one of its loops leads there.
  pub con_from_sessid-decoration_name :
      (loop id : ℕ) (name : List ℕ)
      → E.svid < 2 ^ 32
      → loop < E.thread_count
      → E.thread_count ≤ 2147
      → con_from_sessid E (decoration_name E.svid (connection_id loop id) name)
        ≡ to_loop loop (connection_id loop id)
  unfolding con_from_sessid connection_id
  con_from_sessid-decoration_name loop id name s l t =
      ap (route_of E)
        (get_decoration_info-decoration_name E.svid (connection_id loop id) name s (omega arith)).0
      ∙ route-in_range loop (connection_id loop id) name
          (event_loop_id-connection_id loop id (omega arith)) l t

  -- One that another server made leads nowhere.
  con_from_sessid-foreign :
      (svid conid : ℕ) (name : List ℕ)
      → svid < 2 ^ 32
      → conid < 2 ^ 32
      → svid ≢ E.svid
      → con_from_sessid E (decoration_name svid conid name) ≡ invalid
  unfolding con_from_sessid route_of
  con_from_sessid-foreign svid conid name s c n =
      ap (route_of E) (get_decoration_info-decoration_name svid conid name s c).0
      ∙ (rw (other_id svid E.svid n) refl)

  con_from_sessid_short :
      (sessid : List ℕ) → length sessid < 12 → con_from_sessid E sessid ≡ throwing
  unfolding con_from_sessid route_of
  con_from_sessid_short sessid h = ap (route_of E) (get_decoration_info_short sessid h).0

  module _ (now later : ℕ) (w : World C) (packet : List ℕ) (req : PushRequest)
      (cmd : htonl (head_at packet).cmd ≡ push_req)
      (parsed : E.parse_push_request (drop sizeof_head packet) ≡ some req)
      (allowed : negative w.con.sess.type ≡ false) where
    abbrev kept : World C
    kept = (update_session E now w).0

    -- The packet is a push request from a connection that may send one.
    push_packet :
        handle_packet E now later w packet
        ≡ finish E push_req
            (push_to E kept (drop sizeof_head packet) req (con_from_sessid E req.to_sessid))
    unfolding handle_packet dispatch_cmd handle_push_request
    push_packet =
        let still : negative kept.con.sess.type ≡ false =
          ap negative (update_session-Same E now w).type ∙ allowed in
        rw cmd (ap (finish E push_req) (rw (parsed, handle_push_request) (rw still refl)))

    -- A push to a session id that this server made is posted, as it came, to the loop and the
    -- connection that the session id was made for; nothing is sent back.
    pub handle_packet-push :
        (loop id : ℕ) (name : List ℕ)
        → req.to_sessid ≡ decoration_name E.svid (connection_id loop id) name
        → E.svid < 2 ^ 32
        → loop < E.thread_count
        → E.thread_count ≤ 2147
        → negative (E.post loop) ≡ false
        → let op : SendMsgOp = record {
          conid = connection_id loop id;
          cmd = push_req;
          body = drop sizeof_head packet;
        } in
          handle_packet E now later w packet
          ≡ some (record (post_op E loop op kept) { req_cnt = kept.req_cnt + 1 }, E.post loop)
    unfolding post_op finish push_to
    handle_packet-push loop id name to s l t p =
        push_packet
        ∙ ap (λ (r : Route). finish E push_req (push_to E kept (drop sizeof_head packet) req r))
            (ap (con_from_sessid E) to ∙ con_from_sessid-decoration_name loop id name s l t)
        ∙ (rw p refl)

    -- A push to a session id of another server is answered with `INVALID_SESSION_ID`; nothing is
    -- posted, and the connection stays open if the answer can be sent.
    pub handle_packet-foreign :
        (svid conid : ℕ) (name : List ℕ)
        → req.to_sessid ≡ decoration_name svid conid name
        → svid < 2 ^ 32
        → conid < 2 ^ 32
        → svid ≢ E.svid
        → is_empty (answer E req.from_sessid req.sn invalid_session_id) ≡ false
        → handle_packet E now later w packet
          ≡ some (send_cmd E push_resp (answer E req.from_sessid req.sn invalid_session_id) kept)
    unfolding finish push_to
    handle_packet-foreign svid conid name to s c n full =
        push_packet
        ∙ ap (λ (r : Route). finish E push_req (push_to E kept (drop sizeof_head packet) req r))
            (ap (con_from_sessid E) to ∙ con_from_sessid-foreign svid conid name s c n)
        ∙ (rw full refl)

    -- A push to a session id shorter than 12 bytes is not answered: an exception is caught, and its
    -- result closes the connection.
    pub handle_packet_short :
        length req.to_sessid < 12 → handle_packet E now later w packet ≡ some (kept, minus 1)
    unfolding finish push_to
    handle_packet_short h =
        push_packet
        ∙ ap (λ (r : Route). finish E push_req (push_to E kept (drop sizeof_head packet) req r))
            (con_from_sessid_short req.to_sessid h)
