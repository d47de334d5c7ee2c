-- ===== src/Push/Tests.antt =====
-- A push server of type 2 that has logged in to connection server 3, and a push to a client of it.
use gpush.Prelude.{
  ℕ, ◌≡◌, ◌⊎◌, refl, ap, List, [], ◌∷◌, ◌+◌, Option, none, some, true, false, arith, drop,
}
use gpush.Prelude.Int32.{minus}
use gpush.Base.LoopBuf.{new_buf}
use gpush.Proto.{
  head_at, logic_construct_packet, check_len, decoration_name, json_push_req, sizeof_head,
}
use gpush.Proto.Word.{word_at, word_of, htonl}
use gpush.Proto.Unframe.{cmd-logic_construct_packet, drop-logic_construct_packet}
use gpush.Net.EventLoop.{get_connection, set_connection, del_connection}
use gpush.Connect.Client.{World, CliCon, status_init, connection_id, update_session}
use gpush.Connect.Client
use gpush.Connect.Client.Packet
use gpush.Net.Client.{connected}
use gpush.Connect.Client.Messages.{Sess, PushRequest}
use gpush.Connect.Client.Posted.{ClientLoop, process_send}
use gpush.Connect.Client.Push.{post_op}
use gpush.Push.PackLen.{server_pack_len, listen_pack_len, outcome, pack_len-check_len}
use gpush.Push.Server.{
  Svlist, SvCon, Env, Event, create, connect, packet, get_server, send_to_server, send_push_request,
  run, step, step_of, made, after_event, handle_connected, do_register, send_packet,
  handle_register_response, add_server, update, when_connected, when_connecting,
}
use gpush.Push.Server
use gpush.Push.Server.Linked.{Linked, Serves}
use gpush.Push.Server.Steps.{run-Linked, send_to_server-live}
use gpush.Push.Listen.{Json, returns, json_response, handle_packet, field}
use gpush.Push.Listen.Deliver.{
  deliveries, delivery, taken, after_sends, handle_packet-deliveries, push_packet,
}
use gpush.Push.EndToEnd.{pushed, posted, forwarded, push_packet-process_send}

pack_len-check_len_example :
    (outcome (server_pack_len new_buf) ≡ check_len new_buf)
    × (outcome (listen_pack_len new_buf) ≡ check_len new_buf)
pack_len-check_len_example = pack_len-check_len new_buf

-- Of a request, the type and the target are sent.
abbrev request : ℕ → List ℕ → PushRequest
request type to = record { from_sessid = []; to_sessid = to; sn = []; type = type; payload = [] }

abbrev parse_request : List ℕ → Option PushRequest
parse_request [] = none
parse_request (type ∷ to) = some (request type to)

abbrev env : Env
env = record {
  type = 2;
  id = 5;
  itostr = λ n. n ∷ [];
  login_request = λ r. r.id;
  parse_login = λ resp. record { status = 0; sessid = resp };
  push_request = λ r. r.type ∷ r.to_sessid;
  parse_push = λ resp. none;
  send = λ p msg. 1;
}

abbrev no_servers : Svlist
no_servers = record { svcons = []; cons = []; sent = [] }

no_servers-Linked : Linked no_servers
unfolding get_connection
no_servers-Linked = record { unique = tt; leads = λ id p e. absurd (cc e) }

-- The answer to a login, without a session id.
abbrev welcome : List ℕ
welcome = 0 ∷ 0 ∷ 0 ∷ 0 ∷ 0 ∷ 0 ∷ 0 ∷ 12 ∷ 0 ∷ 0 ∷ 0 ∷ 101 ∷ []

abbrev logging_in : List Event
logging_in = create 900 3 true ∷ connect 900 true ∷ packet 900 welcome ∷ []

abbrev loop : Svlist
loop = run env logging_in no_servers

send_to_server-live_example :
    ((get_server 3 loop ≡ none) × (send_to_server env 3 (request 1 []) loop ≡ some (loop, minus 1)))
    ⊎ ((p : ℕ) × (c : SvCon) × (get_connection p loop.cons ≡ some c)
        × Serves 3 c
        × (send_to_server env 3 (request 1 []) loop
            ≡ some (send_push_request env p c (request 1 []) loop)))
send_to_server-live_example =
    send_to_server-live env logging_in no_servers 3 (request 1 []) no_servers-Linked

-- The session id of connection 8 in loop 1 of the connection server.
abbrev near : List ℕ
near = decoration_name 3 (connection_id 1 8) (b'a' ∷ [])

abbrev session : Sess
session = record {
  id = [];
  type = minus 1;
  lasttime = 0;
  sessid = near;
  consvid = 3;
  version = [];
  kvs = [];
}

-- A text is what it is parsed to; its members are the text; its type is 1 and its strings are empty.
abbrev json : Json (List ℕ)
json = record {
  parse = λ text. some text;
  member = λ v key. some v;
  is_string = λ v. true;
  as_int = λ v. some 1;
  as_string = λ v. some [];
  styled = λ reply. [];
  sessions = some (λ id. session ∷ []);
}

abbrev asked : List ℕ
asked = logic_construct_packet (record { magic = 0; len = 0; cmd = json_push_req }) []

drop-asked : json.parse (drop sizeof_head asked) ≡ some []
drop-asked =
    ap some (drop-logic_construct_packet (record { magic = 0; len = 0; cmd = json_push_req }) [])

-- The loop has logged in, so the push is sent.
deliveries-loop :
    deliveries env loop (request 1 []) (session ∷ [])
    ≡ (900, logic_construct_packet (record { magic = 0x20141228; len = 0; cmd = 200 }) (1 ∷ near))
      ∷ []
unfolding deliveries delivery push_packet get_server run step step_of made after_event
    handle_connected do_register send_packet Server.handle_packet handle_register_response
    add_server update when_connected when_connecting get_connection set_connection del_connection
    htonl head_at word_at word_of
deliveries-loop = refl

handle_packet-deliveries_example :
    handle_packet env json loop asked
    ≡ returns
        (after_sends env loop (deliveries env loop (request 1 []) (session ∷ [])))
        (json_response env json (record {
          status = 0;
          sn = some [];
          message = [];
          count = some (taken env (deliveries env loop (request 1 []) (session ∷ [])));
        })
          ∷ [])
        (taken env (deliveries env loop (request 1 []) (session ∷ [])))
unfolding field
handle_packet-deliveries_example =
    handle_packet-deliveries env json loop asked [] [] [] 1 [] [] [] (λ id. session ∷ []) session []
      (cmd-logic_construct_packet (record { magic = 0; len = 0; cmd = json_push_req }) []
        (omega arith))
      drop-asked refl refl refl refl refl refl refl refl refl
      (run-Linked env logging_in no_servers no_servers-Linked)

abbrev connect_env : Client.Env Unit
connect_env = record {
  conf = record {
    alive_ms = 60000;
    min_type = minus 1;
    max_type = 10;
    start_thread_idx = 0;
    thread_cnt = 4;
  };
  svid = 3;
  thread_count = 4;
  parse_login = λ body. none;
  parse_push_request = parse_request;
  parse_push_response = λ body. none;
  login_response = λ status sessid. status ∷ sessid;
  push_response = λ resp. resp.status ∷ [];
  set_session = λ cache sess. (cache, sess.lasttime, 0);
  del_session = λ cache sess. cache;
  post = λ loop. 1;
  send = λ msg. 1;
}

abbrev client : CliCon
client = record {
  address = 400;
  id = connection_id 1 8;
  status = status_init;
  login_time = 0;
  busy = false;
  sess = session;
}

-- The push server's connection, at the connection server.
abbrev from : World Unit
from = record {
  con = record client { sess = record session { type = 2 } };
  servers = record { svs = []; cnt = 0 };
  cache = none;
  ops = [];
  sent = [];
  req_cnt = 0;
}

abbrev online : ClientLoop
online = record { cons = (connection_id 1 8, client) ∷ []; written = [] }

abbrev registered : SvCon
registered = record { status = connected; login = true; con_serv_id = 3; sessid = [] }

push_packet-process_send_example :
    let op = posted env connect_env registered (request 1 []) session 1 8 (b'a' ∷ []) 0 0 from in
    let kept = (update_session connect_env 0 from).0 in
    (Packet.handle_packet connect_env 0 0 from (push_packet env registered (request 1 []) session)
      ≡ some (record (post_op connect_env 1 op kept) { req_cnt = kept.req_cnt + 1 }, 1))
    × (process_send (λ id msg. 1) op online ≡ (
      record online {
        written =
            (
              connection_id 1 8,
              forwarded env connect_env registered (request 1 []) session 1 8 (b'a' ∷ []) 0 0 from,
            )
            ∷ [];
      },
      1,
    ))
    × (parse_request (
          drop sizeof_head
            (forwarded env connect_env registered (request 1 []) session 1 8 (b'a' ∷ []) 0 0 from))
        ≡ some (pushed env connect_env registered (request 1 []) session 1 8 (b'a' ∷ []) 0 0 from))
unfolding get_connection connection_id
push_packet-process_send_example =
    push_packet-process_send env connect_env registered (request 1 []) session 1 8 (b'a' ∷ []) 0 0
      from (λ id msg. 1) online client refl refl (omega arith) (omega arith) (omega arith) refl refl
      refl
