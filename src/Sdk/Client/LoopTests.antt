-- ===== src/Sdk/Client/LoopTests.antt =====
-- A client that logs in.
use gpush.Prelude.{◌≡◌, ◌⊎◌, refl, [], ◌∷◌, none, some, true}
use gpush.Net.EventLoop.{get_connection, set_connection}
use gpush.Sdk.Client.{
  Env, AddrItem, Op, login_op, CliConn, do_login, new_conn, add_timer, insert_timer, get_timeout,
  busy, asyn_add_op, connect_and_login, connect_server, try_servers, after_tries, login_if, login,
  set_status, same_status, send_packet, send_to, send_on, login_packet, get_cid,
}
use gpush.Sdk.Client.Loop.{
  EventLoop, before_select, find_conn, put_back, process, process_login, keep_op, run_op, pop_op,
}
use gpush.Sdk.Client.Posted.{Posted}
use gpush.Sdk.Client.Steps.{Steps, done, and, posts, runs}
use gpush.Sdk.Client.Ended.{Steps-busy}
use gpush.Sdk.Client.Waiting.{before_select_untimed}
use gpush.Sdk.Client.SmartOp.{
  live, deleted, is_due, process_op_refs, keepalive_refs, ended, left_to, all,
  process_op_refs-ended,
}

abbrev env : Env
env = record {
  text = λ cid. cid ∷ [];
  connect = λ n a. some 6;
  send = λ fd m. 1;
  react = λ evs. [];
  login_request = λ req. req.id;
  parse_login = λ resp. none;
  parse_push = λ body. none;
  push_response = λ resp. resp.sn;
}

abbrev server : AddrItem
server = record { ip = []; port = 8000 }

abbrev asks : Op
asks = login_op 1 server [] 300

abbrev start : EventLoop
start = record {
  conns = [];
  io = record { ops = []; events = []; sent = []; closed = []; connects = 0 };
}

abbrev asked : EventLoop
asked = record { conns = start.conns; io = asyn_add_op asks start.io }

abbrev logging_in : EventLoop
logging_in = run_op env 0 asks (pop_op env [] asked)

abbrev client : CliConn
client =
    add_timer 0 asks
      (record (new_conn 0 1 server [] 300) { fd = some 6; login_status = do_login; login_time = 0 })

asked-ops : asked.io.ops ≡ asks ∷ []
unfolding asyn_add_op
asked-ops = refl

login-Steps : Steps env start logging_in
login-Steps =
    and start asked logging_in (and start start asked (done start) (posts asks start))
      (runs 0 asks [] asked asked-ops)

found : find_conn 1 logging_in ≡ some client
unfolding find_conn get_connection set_connection put_back process process_login keep_op run_op
    pop_op add_timer insert_timer get_timeout connect_and_login connect_server try_servers
    after_tries login_if login set_status same_status send_packet send_to send_on login_packet
    get_cid busy asyn_add_op new_conn
found = refl

Steps-busy_example :
    (client.cid ≡ 1)
    × ((busy client.login_status ≡ true) ⊎ Posted 1 logging_in.io.ops)
    × (logging_in.io.ops ≡ [] → busy client.login_status ≡ true)
Steps-busy_example = Steps-busy env start logging_in 1 client login-Steps refl found

before_select_untimed_example : (before_select env 0 logging_in).1 ≡ none
before_select_untimed_example = before_select_untimed env 0 logging_in

process_op_refs-ended_example :
    (process_op_refs true true true (live 0) ≡ some (left_to (all true true true)))
    × (keepalive_refs true (live 0) ≡ some (left_to true))
    × (ended (is_due 3) (live 1) ≡ some deleted)
process_op_refs-ended_example = process_op_refs-ended true true true (is_due 3)
