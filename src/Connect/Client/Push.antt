-- ===== src/Connect/Client/Push.antt =====
-- connect_server/src/client_conn.cpp: `getConFromSessid`, `handlePushRequest` and
-- `handlePushResponse`.
use gpush.Prelude.{ℕ, ◌+◌, List, [], ◌∷◌, ◌++◌, none, some, not, ◌||◌, if◌then◌else◌, ◌==◌}
use gpush.Prelude.Int32.{negative, less}
use gpush.Base.LoopBuf.{is_empty}
use gpush.Proto.{
  get_decoration_info, Decoration, decoded, rejected, out_of_range, unfilled, push_req, push_resp,
}
use gpush.Connect.ErrNo.{input_format_error, invalid_session_id, invalid_type}
use gpush.Connect.Client.Messages.{PushRequest, null_text, null_sn}
use gpush.Connect.Client.{
  SendMsgOp, World, Env, event_loop_id, Handled, returns, throws, undefined, Route, to_loop,
  invalid, throwing, unwritten,
}

module _ {C : Type 0} (E : Env C) where
  -- `getConFromSessid`.
  unfoldable pub route_of : Decoration → Route
  route_of (decoded svid conid n) =
      let loop = event_loop_id conid in
      if not (svid == E.svid)
      then invalid
      else if negative loop || not (less loop E.thread_count)
      then invalid
      else to_loop loop conid
  route_of rejected = invalid
  route_of (out_of_range filled) = throwing
  route_of unfilled = unwritten

  unfoldable pub con_from_sessid : List ℕ → Route
  unfolding route_of
  con_from_sessid sessid = route_of (get_decoration_info sessid)

  -- `new SendMsgOp` and `addAsynOperator`, which queues it even when it fails to wake the loop.
  unfoldable pub post_op : ℕ → SendMsgOp → World C → World C
  post_op loop op w = record w { ops = w.ops ++ ((loop, op) ∷ []) }

  unfoldable pub answer : List ℕ → List ℕ → ℕ → List ℕ
  answer to sn status =
      E.push_response
        (record { from_sessid = null_text; to_sessid = some to; sn = sn; status = status })

  unfoldable pub push_to : World C → List ℕ → PushRequest → Route → Handled C
  unfolding post_op answer
  push_to w body req (to_loop loop conid) =
      let w1 = post_op loop (record { conid = conid; cmd = push_req; body = body }) w in
      if negative (E.post loop)
      then returns w1 (answer req.from_sessid req.sn (E.post loop)) 0
      else returns (record w1 { req_cnt = w.req_cnt + 1 }) [] (E.post loop)
  push_to w body req invalid =
      returns w (answer req.from_sessid req.sn invalid_session_id) invalid_session_id
  push_to w body req throwing = throws w
  push_to w body req unwritten = undefined

  unfoldable pub handle_push_request : World C → List ℕ → Handled C
  unfolding answer
  handle_push_request w body = elim (E.parse_push_request body) [
    | none ↦ returns w (answer null_text null_sn input_format_error) input_format_error
    | some req ↦
        if negative w.con.sess.type
        then returns w (answer null_text req.sn invalid_type) invalid_type
        else push_to w body req (con_from_sessid req.to_sessid)
  ]

  -- A response is passed on unless its own `to_sessid` is missing; only one that cannot be parsed is
  -- an error, and none is answered.
  unfoldable pub respond_to : World C → List ℕ → Route → Handled C
  unfolding post_op
  respond_to w body (to_loop loop conid) =
      let w1 = post_op loop (record { conid = conid; cmd = push_resp; body = body }) w in
      if negative (E.post loop)
      then returns w1 [] 0
      else returns (record w1 { req_cnt = w.req_cnt + 1 }) [] 0
  respond_to w body invalid = returns w [] 0
  respond_to w body throwing = throws w
  respond_to w body unwritten = undefined

  unfoldable pub handle_push_response : World C → List ℕ → Handled C
  handle_push_response w body = elim (E.parse_push_response body) [
    | none ↦ returns w [] input_format_error
    | some resp ↦ elim resp.to_sessid [
      | none ↦ returns w [] 0
      | some to ↦ if is_empty to then returns w [] 0 else respond_to w body (con_from_sessid to)
    ]
  ]
