-- ===== src/Connect/Client/Tests.antt =====
-- Two connections of server 3: a push server that logs in, and one that pushes to it.
use gpush.Prelude.{ℕ, ◌+◌, ◌≡◌, refl, List, [], ◌∷◌, Option, none, some, false, arith, drop, length}
use gpush.Prelude.Int32.{minus}
use gpush.Proto.{
  construct_packet, head_bytes, head_at, push_req, login_req, decoration_name, sizeof_head,
}
use gpush.Proto.Word.{bytes_of, word_at, htonl}
use gpush.Connect.ErrNo.{invalid_session_id}
use gpush.Connect.TypeMap.{add_server}
use gpush.Connect.Client.Messages.{Sess}
use gpush.Connect.Client.{
  World, Env, status_init, status_login, returns, connection_id, update_session, check_type,
  send_cmd, del_session,
}
use gpush.Connect.Client.Login.{
  handle_login_request, first_login, login_exit, login_fields, login_session,
}
use gpush.Connect.Client.Push.{post_op, answer}
use gpush.Connect.Client.Packet.{handle_packet, dispatch_cmd, finish}
use gpush.Connect.Client.Registered.{times, starts, gets, forgotten}
use gpush.Connect.Client.Routing.{handle_packet-push, handle_packet-foreign, handle_packet_short}
use gpush.Connect.Client.Session.{push-login}

-- Messages that hold a name or a session id and nothing else; every login is of type 2.
abbrev env : Env Unit
env = record {
  conf = record {
    alive_ms = 60000;
    min_type = minus 1;
    max_type = 10;
    start_thread_idx = 0;
    thread_cnt = 4;
  };
  svid = 3;
  thread_count = 4;
  parse_login = λ body. some (record { id = body; type = 2; version = []; kvs = [] });
  parse_push_request =
      λ body. some (record { from_sessid = []; to_sessid = body; sn = []; type = 0; payload = [] });
  parse_push_response = λ body. none;
  login_response = λ status sessid. status ∷ sessid;
  push_response = λ resp. resp.status ∷ [];
  set_session = λ cache sess. (cache, sess.lasttime, 0);
  del_session = λ cache sess. cache;
  post = λ loop. 1;
  send = λ msg. length msg;
}

abbrev no_sess : Sess
no_sess = record {
  id = [];
  type = 0;
  lasttime = 0;
  sessid = [];
  consvid = 0;
  version = [];
  kvs = [];
}

-- A connection that has been accepted.
abbrev accepted : ℕ → ℕ → World Unit
accepted address id = record {
  con = record {
    address = address;
    id = id;
    status = status_init;
    login_time = 0;
    busy = false;
    sess = no_sess;
  };
  servers = record { svs = 77 ∷ []; cnt = 0 };
  cache = some tt;
  ops = [];
  sent = [];
  req_cnt = 0;
}

abbrev server_con : World Unit
server_con = accepted 50 2000017

abbrev name : List ℕ
name = b's' ∷ b'1' ∷ []

abbrev packet : ℕ → List ℕ → List ℕ
packet cmd body = construct_packet (record { magic = 0; len = 0; cmd = cmd }) body

cmd-packet : (body : List ℕ) → htonl (head_at (packet push_req body)).cmd ≡ push_req
unfolding construct_packet head_bytes bytes_of head_at word_at htonl
cmd-packet body = refl

body-packet : (cmd : ℕ) (body : List ℕ) → drop sizeof_head (packet cmd body) ≡ body
unfolding construct_packet head_bytes bytes_of
body-packet cmd body = refl

parse-packet :
    (body : List ℕ)
    → env.parse_push_request (drop sizeof_head (packet push_req body))
      ≡ some (record { from_sessid = []; to_sessid = body; sn = []; type = 0; payload = [] })
unfolding construct_packet head_bytes bytes_of
parse-packet body = refl

abbrev server_login : Option (World Unit × ℕ)
server_login = handle_packet env 10 11 server_con (packet login_req name)

handle_packet_short_example :
    handle_packet env 5 6 server_con (packet push_req name)
    ≡ some ((update_session env 5 server_con).0, minus 1)
handle_packet_short_example =
    handle_packet_short env 5 6 server_con (packet push_req name)
      (record { from_sessid = []; to_sessid = name; sn = []; type = 0; payload = [] })
      (cmd-packet name) (parse-packet name) refl (omega arith)

abbrev far : List ℕ
far = decoration_name 4 2000017 name

handle_packet-foreign_example :
    handle_packet env 5 6 server_con (packet push_req far)
    ≡ some (send_cmd env 201 (invalid_session_id ∷ []) (update_session env 5 server_con).0)
unfolding answer
handle_packet-foreign_example =
    handle_packet-foreign env 5 6 server_con (packet push_req far)
      (record { from_sessid = []; to_sessid = far; sn = []; type = 0; payload = [] })
      (cmd-packet far) (parse-packet far) refl 4 2000017 name refl (omega arith) (omega arith)
      (omega arith) refl

-- The push server's login, and its world after it.
abbrev entered : World Unit
entered = record server_con {
  con = record server_con.con {
    status = status_login;
    login_time = 10;
    sess = record no_sess {
      id = name;
      type = 2;
      consvid = 3;
      lasttime = 11;
      sessid = decoration_name 3 2000017 name;
    };
  };
  servers = record { svs = 77 ∷ 50 ∷ []; cnt = 0 };
}

login-entered :
    handle_login_request env 10 11 server_con name
    ≡ returns entered (0 ∷ decoration_name 3 2000017 name) 0
unfolding handle_login_request first_login login_exit login_fields login_session update_session
    check_type add_server
login-entered = refl

abbrev near : List ℕ
near = decoration_name 3 2000017 name

abbrev client : World Unit
client = record (accepted 60 1000001) { servers = entered.servers }

handle_packet-push_example :
    handle_packet env 20 21 client (packet push_req near)
    ≡ some (
      record (post_op env 2
          (record { conid = 2000017; cmd = push_req; body = near })
          (update_session env 20 client).0) {
            req_cnt = (update_session env 20 client).0.req_cnt + 1;
          },
      1,
    )
unfolding connection_id construct_packet head_bytes bytes_of
handle_packet-push_example =
    handle_packet-push env 20 21 client (packet push_req near)
      (record { from_sessid = []; to_sessid = near; sn = []; type = 0; payload = [] })
      (cmd-packet near) (parse-packet near) refl 2 17 name refl (omega arith) (omega arith)
      (omega arith) refl

push-login_example :
    handle_packet env 20 21 client (packet push_req near)
    ≡ some (
      record (post_op env 2
          (record { conid = 2000017; cmd = push_req; body = near })
          (update_session env 20 client).0) {
            req_cnt = (update_session env 20 client).0.req_cnt + 1;
          },
      1,
    )
unfolding connection_id construct_packet head_bytes bytes_of check_type
push-login_example =
    push-login env 10 11 server_con name (record { id = name; type = 2; version = []; kvs = [] })
      refl refl refl entered (0 ∷ decoration_name 3 2000017 name) 0 2 17 login-entered refl
      (omega arith) (omega arith) (omega arith) refl 20 21 client (packet push_req near)
      (record { from_sessid = []; to_sessid = near; sn = []; type = 0; payload = [] })
      (cmd-packet near) (parse-packet near) refl refl

-- The login as a packet: the answer has been sent.
login-packet :
    handle_packet env 10 11 server_con (packet login_req name)
    ≡ some (send_cmd env 101 (0 ∷ near) entered)
unfolding handle_packet dispatch_cmd finish handle_login_request first_login login_exit login_fields
    login_session update_session check_type add_server construct_packet head_bytes bytes_of head_at
    word_at htonl
login-packet = refl

forgotten_example :
    times 50 (del_session env (send_cmd env 101 (0 ∷ near) entered).0).servers.svs ≡ 0
unfolding send_cmd
forgotten_example = forgotten env server_con (send_cmd env 101 (0 ∷ near) entered).0 refl refl (
    gets server_con (send_cmd env 101 (0 ∷ near) entered).0 10 11 (packet login_req name)
      (send_cmd env 101 (0 ∷ near) entered).1 starts login-packet)
