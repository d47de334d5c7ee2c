-- ===== src/Push/Server.antt =====
-- push_server/src/server_conn.{h,cpp}: the connections to the connection servers, and the map
-- `Svlist::m_svcons` of server_manager.cpp from the servers' ids to them. All of it belongs to one
-- event loop. A connection is at an address; `none` is the use of one that was destroyed.
-- Protobuf, `itostr` and the sockets are parameters.
pub mod Linked
pub mod Steps
use gpush.Prelude.{
  ℕ, List, [], ◌∷◌, ◌++◌, Option, none, some, Bool, true, false, if◌then◌else◌, ◌==◌, drop,
}
use gpush.Prelude.Int32.{negative, minus}
use gpush.Proto.{
  Head, head_at, sizeof_head, magic_number, logic_construct_packet, keepalive_req, login_req,
  login_resp, push_req, push_resp,
}
use gpush.Proto.Word.{htonl}
use gpush.Connect.Client.Messages.{LoginRequest, LoginResponse, PushRequest, PushResponse}
use gpush.Net.Client.{ClientStatus, idle, connecting, connected}
use gpush.Net.EventLoop.{ConnectionMap, get_connection, set_connection, del_connection}

-- `status` is that of `Client`, `login` whether `m_status` is `STATUS_LOGIN`.
pub record SvCon : Type 0 where
  pub status : ClientStatus
  pub login : Bool
  pub con_serv_id : ℕ
  pub sessid : List ℕ

-- `m_svcons`, the connections that live, and the packets that they were given to send.
pub record Svlist : Type 0 where
  pub svcons : ConnectionMap ℕ
  pub cons : ConnectionMap SvCon
  pub sent : List (ℕ × List ℕ)

pub record Env : Type 0 where
  pub type : ℕ
  pub id : ℕ
  pub itostr : ℕ → List ℕ
  pub login_request : LoginRequest → List ℕ
  pub parse_login : List ℕ → LoginResponse
  pub push_request : PushRequest → List ℕ
  pub parse_push : List ℕ → Option PushResponse
  pub send : ℕ → List ℕ → ℕ

unfoldable pub add_server : ℕ → ℕ → Svlist → Svlist
add_server id p l = record l { svcons = (id, p) ∷ del_connection id l.svcons }

unfoldable pub del_server : ℕ → Svlist → Svlist
del_server id l = record l { svcons = del_connection id l.svcons }

unfoldable pub get_server : ℕ → Svlist → Option ℕ
get_server id l = get_connection id l.svcons

unfoldable pub update : ℕ → SvCon → Svlist → Svlist
update p c l = record l { cons = set_connection p c l.cons }

-- `disconnect` of `Client`, with this class's `onDisconnected`.
unfoldable pub disconnect : ℕ → SvCon → Svlist → Svlist
unfolding del_server update
disconnect p c l = update p (record c { status = idle }) (del_server c.con_serv_id l)

-- `onFail`, as no span is set for connecting again, and the destructor.
unfoldable pub destroy : ℕ → SvCon → Svlist → Svlist
unfolding disconnect del_server
destroy p c l =
    let gone = del_server c.con_serv_id (disconnect p c l) in
    record gone { cons = del_connection p gone.cons }

module _ (E : Env) where
  unfoldable pub send_packet : ℕ → ℕ → List ℕ → Svlist → Svlist × ℕ
  send_packet cmd p body l =
      let msg = logic_construct_packet (record { magic = magic_number; len = 0; cmd = cmd }) body in
      (record l { sent = l.sent ++ ((p, msg) ∷ []) }, E.send p msg)

  unfoldable pub do_register : ℕ → Svlist → Svlist × ℕ
  do_register p l =
      send_packet login_req p
        (E.login_request (record { id = E.itostr E.id; type = E.type; version = []; kvs = [] })) l

  unfoldable pub keep_alive : ℕ → Svlist → Svlist × ℕ
  keep_alive p l = send_packet keepalive_req p [] l

  unfoldable pub handle_register_response : ℕ → SvCon → List ℕ → Svlist → Svlist × ℕ
  unfolding add_server disconnect update
  handle_register_response p c resp l =
      let lgresp = E.parse_login resp in
      if negative lgresp.status then (disconnect p c l, 0) else (
        add_server c.con_serv_id p (update p (record c { login = true; sessid = lgresp.sessid }) l),
        0,
      )

  unfoldable pub handle_push_response : List ℕ → ℕ
  handle_push_response resp = elim (E.parse_push resp) [ none ↦ minus 1 | some presp ↦ 0 ]

  unfoldable pub handle_packet : ℕ → SvCon → List ℕ → Svlist → Svlist × ℕ
  unfolding handle_register_response handle_push_response
  handle_packet p c req l =
      let cmd = htonl (head_at req).cmd in
      if cmd == login_resp
      then handle_register_response p c (drop sizeof_head req) l
      else if cmd == push_resp
      then (l, handle_push_response (drop sizeof_head req))
      else (l, 0)

  unfoldable pub send_push_request : ℕ → SvCon → PushRequest → Svlist → Svlist × ℕ
  send_push_request p c req l =
      send_packet push_req p (E.push_request (record req { from_sessid = c.sessid })) l

  -- `ListenCon::sendToServer`.
  unfoldable pub send_to_server : ℕ → PushRequest → Svlist → Option (Svlist × ℕ)
  unfolding get_server send_push_request
  send_to_server svid preq l = elim (get_server svid l) [
    | none ↦ some (l, minus 1)
    | some p ↦ elim (get_connection p l.cons) [
      | none ↦ none
      | some c ↦ some (send_push_request p c preq l)
    ]
  ]

-- The first state, or, if the status is the one of the name, the second.
unfoldable pub when_connected : ClientStatus → Svlist → Svlist → Svlist
when_connected idle l r = l
when_connected connecting l r = l
when_connected connected l r = r

unfoldable pub when_connecting : ClientStatus → Svlist → Svlist → Svlist
when_connecting idle l r = l
when_connecting connecting l r = r
when_connecting connected l r = l

-- What happens in the event loop: a connection is made, with whether `connectTo` succeeded; its
-- socket connects, with whether `getsockopt` succeeds; a packet, an error or a timer comes.
pub data Event : Type 0 where
  create : ℕ → ℕ → Bool → Event
  connect : ℕ → Bool → Event
  packet : ℕ → List ℕ → Event
  fail alive : ℕ → Event

module _ (E : Env) where
  -- A connection whose handler fails is destroyed.
  unfoldable pub after_event : ℕ → SvCon → Svlist × ℕ → Svlist
  unfolding destroy
  after_event p c (l, ret) = if negative ret then destroy p c l else l

  unfoldable pub handle_connected : ℕ → SvCon → Bool → Svlist → Svlist × ℕ
  unfolding do_register disconnect update
  handle_connected p c asked l =
      if asked
      then do_register E p (update p (record c { status = connected }) l)
      else (disconnect p c l, minus 1)

  -- The handler for an event. `Client` calls none of a connection in another state.
  unfoldable pub step_of : Event → SvCon → Svlist → Svlist
  unfolding after_event handle_connected handle_packet keep_alive destroy when_connected
      when_connecting
  step_of (create p svid connects) c l = l
  step_of (connect p asked) c l =
      when_connecting c.status l (after_event p c (handle_connected p c asked l))
  step_of (packet p req) c l =
      when_connected c.status l (after_event p c (handle_packet E p c req l))
  step_of (fail p) c l = destroy p c l
  step_of (alive p) c l = when_connected c.status l (keep_alive E p l).0

  abbrev con_of : Event → ℕ
  con_of (create p svid connects) = p
  con_of (connect p asked) = p
  con_of (packet p req) = p
  con_of (fail p) = p
  con_of (alive p) = p

  -- The connection that `connectServer` makes, at an address where none lives.
  unfoldable pub made : Event → Svlist → Svlist
  made (create p svid connects) l = record l {
    cons =
        (
          p,
          record {
            status = if connects then connecting else idle;
            login = false;
            con_serv_id = svid;
            sessid = [];
          },
        )
        ∷ l.cons;
  }
  made (connect p asked) l = l
  made (packet p req) l = l
  made (fail p) l = l
  made (alive p) l = l

  unfoldable pub step : Event → Svlist → Svlist
  unfolding made step_of
  step e l = elim (get_connection (con_of e) l.cons) [ none ↦ made e l | some c ↦ step_of e c l ]

  unfoldable pub run : List Event → Svlist → Svlist
  run [] l = l
  run (e ∷ events) l = run events (step e l)
