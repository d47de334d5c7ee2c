-- ===== src/Connect/Client.antt =====
-- connect_server/src/client_conn.{h,cpp}: what a connection to a client or a push server does with
-- the packets that it gets. Protobuf, the clock, the session cache and the event loops' sockets are
-- parameters.
pub mod Messages
pub mod Login
pub mod Push
pub mod Packet
pub mod Change
pub mod Effect
pub mod Registered
pub mod Routing
pub mod Session
pub mod Posted
mod Tests
use gpush.Prelude.{
  ℕ, zero, suc, ◌+◌, ◌*◌, ◌/◌, ◌%◌, ◌^◌, List, [], ◌∷◌, ◌++◌, Option, none, some, Bool, true, false,
  not, ◌&&◌, ◌||◌, if◌then◌else◌, ◌==◌, ltb, leb, drop,
}
use gpush.Prelude.Int32.{negative, positive, less, quotient, minus}
use gpush.Base.LoopBuf.{is_empty}
use gpush.Proto.{
  Head, head_at, sizeof_head, magic_number, construct_packet, decoration_name, get_decoration_info,
  Decoration, decoded, rejected, out_of_range, unfilled, login_req, push_req, push_resp,
  keepalive_req,
}
use gpush.Proto.Word.{htonl}
use gpush.Connect.ErrNo.{
  input_format_error, create_session_fail, invalid_session_id, miss_to_session_id, invalid_type,
}
use gpush.Connect.TypeMap.{SvList, add_server, del_server}
use Messages.{Sess, LoginRequest, PushRequest, PushResponse, null_text, null_sn}

-- `m_status`.
pub data Status : Type 0 where
  status_init status_login : Status

pub record CliCon : Type 0 where
  pub address : ℕ
  pub id : ℕ
  pub status : Status
  pub login_time : ℕ
  pub busy : Bool
  pub sess : Sess

pub record CliConfig : Type 0 where
  pub alive_ms : ℕ
  pub min_type : ℕ
  pub max_type : ℕ
  pub start_thread_idx : ℕ
  pub thread_cnt : ℕ

pub record SendMsgOp : Type 0 where
  pub conid : ℕ
  pub cmd : ℕ
  pub body : List ℕ

-- What a handler reads and changes: its connection, the servers, the session cache if there is one,
-- the operators posted to event loops, the packets given to `sendMessage`, and the count of pushes.
pub record World (C : Type 0) : Type 0 where
  pub con : CliCon
  pub servers : SvList
  pub cache : Option C
  pub ops : List (ℕ × SendMsgOp)
  pub sent : List (List ℕ)
  pub req_cnt : ℕ

-- What the handlers call. `set_session` gives the new cache, the last time that it wrote into the
-- session, and its result; `post` is the result of `addAsynOperator` on an event loop, `send` that
-- of `sendMessage`.
pub record Env (C : Type 0) : Type 0 where
  pub conf : CliConfig
  pub svid : ℕ
  pub thread_count : ℕ
  pub parse_login : List ℕ → Option LoginRequest
  pub parse_push_request : List ℕ → Option PushRequest
  pub parse_push_response : List ℕ → Option PushResponse
  pub login_response : ℕ → List ℕ → List ℕ
  pub push_response : PushResponse → List ℕ
  pub set_session : C → Sess → C × ℕ × ℕ
  pub del_session : C → Sess → C
  pub post : ℕ → ℕ
  pub send : List ℕ → ℕ

-- `getConnectionId` and `getEventLoopId`, and the choice of a loop in `dispatchConnection`.
unfoldable pub connection_id : ℕ → ℕ → ℕ
connection_id loop id = loop * 1000000 + id % 1000000

unfoldable pub event_loop_id : ℕ → ℕ
event_loop_id conid = quotient conid 1000000

unfoldable pub dispatch : CliConfig → ℕ → ℕ × ℕ
unfolding connection_id
dispatch conf id =
    let loop = conf.start_thread_idx + id % conf.thread_cnt in (loop, connection_id loop id)

-- What a handler returns: its world, the answer, and whether it failed; or the exception that it
-- throws; or a read of memory that was never written.
pub data Handled (C : Type 0) : Type 0 where
  returns : World C → List ℕ → ℕ → Handled C
  throws : World C → Handled C
  undefined : Handled C

-- Where a session id leads.
pub data Route : Type 0 where
  to_loop : ℕ → ℕ → Route
  invalid throwing unwritten : Route

module _ {C : Type 0} (E : Env C) where
  unfoldable pub check_type : ℕ → Bool
  check_type type = type == 0 || not (less type E.conf.min_type || not (less type E.conf.max_type))

  -- The cache is asked for clients only, whose type is negative.
  unfoldable pub update_session : ℕ → World C → World C × ℕ
  update_session now w =
      let w1 : World C = record w {
        con = record w.con { sess = record w.con.sess { lasttime = now } };
      } in
      let stored : World C × ℕ = elim w.cache [
        | none ↦ (w1, minus 1)
        | some c ↦
            let (c', t, ret) = E.set_session c w1.con.sess in
            (
              record w1 {
                con = record w1.con { sess = record w1.con.sess { lasttime = t } };
                cache = some c';
              },
              ret,
            )
      ] in
      if negative w.con.sess.type then stored else (w1, 0)

  -- `sendCmd`: `construct_packet` writes the length itself.
  unfoldable pub send_cmd : ℕ → List ℕ → World C → World C × ℕ
  send_cmd cmd body w =
      let msg = construct_packet (record { magic = magic_number; len = 0; cmd = cmd }) body in
      (record w { sent = w.sent ++ (msg ∷ []) }, E.send msg)

  -- `delSession`, which the destructor calls.
  unfoldable pub del_session : World C → World C
  del_session w =
      let gone : World C = record w { servers = del_server w.con.address w.servers } in
      let dropped : World C = record w {
        cache = elim w.cache [ none ↦ none | some c ↦ some (E.del_session c w.con.sess) ];
      } in
      elim w.con.status [
        | status_init ↦ w
        | status_login ↦
            if w.con.sess.type == 0 then w else if positive w.con.sess.type then gone else dropped
      ]

  -- `handleTimer` for `CHECK_TIMER`: whether the connection is closed; if not, the timer starts again.
  pub check_timer : ℕ → CliCon → Bool
  check_timer now con = ltb (con.sess.lasttime + E.conf.alive_ms / 1000) now
