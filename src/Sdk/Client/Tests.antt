-- ===== src/Sdk/Client/Tests.antt =====
-- A client whose socket is 5, and properties of the client's loop at it.
use gpush.Prelude.{◌+◌, ◌≡◌, ◌≢◌, refl, inl, List, [], ◌∷◌, none, some, false, arith}
use gpush.Proto.{Head, construct_packet, head_bytes, magic_number, push_req}
use gpush.Proto.Word.{bytes_of, word_of, htonl}
use gpush.Net.EventLoop.{get_connection}
use gpush.Connect.Client.{SendMsgOp, CliCon, status_init}
use gpush.Connect.Client.Messages.{PushRequest}
use gpush.Connect.Client.Posted.{ClientLoop, process_send}
use gpush.Sdk.RingBuf.{RingBuf, next_part_len}
use gpush.Sdk.RingBuf.Places.{IsValid, contents}
use gpush.Sdk.Sock.{Arrival, arrived, interrupted, ended, bytes_in, tcp_nb_receive, receive_into}
use gpush.Sdk.Client.{
  Env, AddrItem, Event, logout, Op, login_op, CliConn, Io, logged_in, gim_network_error,
}
use gpush.Sdk.Client.Packets.{
  handled, endless, handle_packet, handle_read, handle_received, receive_loop, with_room,
}
use gpush.Sdk.Client.Loop.{process_ops, read_ready}
use gpush.Sdk.Client.Receive.{IsSteady}
use gpush.Sdk.Client.Round.{IsPartial}
use gpush.Sdk.Client.Deliver.{handle_all, handle_read-Delivered, handle_read_ends}
use gpush.Sdk.Client.Pushed.{process_send-answer, told, op_packet}
use gpush.Sdk.Client.Relogin.{relogin_lost, only, nobody, after_end, login_text}

abbrev server : AddrItem
server = record { ip = 127 ∷ 0 ∷ 0 ∷ 1 ∷ []; port = 8000 }

-- A user who logs in again whenever the client is logged out.
abbrev relogin : List Event → List Op
relogin (logout cid code ∷ evs) = login_op cid server [] 300 ∷ []
relogin _ = []

abbrev env : Env
env = record {
  text = λ cid. cid ∷ [];
  connect = λ n a. some (n + 6);
  send = λ fd m. 1;
  react = relogin;
  login_request = λ req. req.id;
  parse_login = λ resp. none;
  parse_push = λ body. some (record {
    from_sessid = b'p' ∷ [];
    to_sessid = b'c' ∷ [];
    sn = b's' ∷ [];
    type = 1;
    payload = body;
  });
  push_response = λ resp. resp.sn;
}

abbrev ring : RingBuf
ring = record {
  buf = 0 ∷ 0 ∷ 0 ∷ 0 ∷ 0 ∷ 0 ∷ 0 ∷ 0 ∷ 0 ∷ 0 ∷ 0 ∷ 0 ∷ 0 ∷ 0 ∷ 0 ∷ 0 ∷ [];
  cap = 16;
  size = 0;
  start = 3;
}

ring-IsValid : IsValid ring
ring-IsValid = record {
  full = refl;
  some_room = omega arith;
  bounded = omega arith;
  starts = omega arith;
}

abbrev client : CliConn
client = record {
  fd = some 5;
  buf = ring;
  cli_ver = [];
  keepalive_timeout = 300;
  cid = 1;
  login_status = logged_in;
  login_status_code = 0;
  sessid = [];
  login_time = 0;
  active_time = 0;
  svrlist = server ∷ [];
  timers = [];
}

abbrev still : Io
still = record { ops = []; events = []; sent = []; closed = []; connects = 0 }

-- The answer to a keep-alive, of a body of one byte, and a byte more.
abbrev alive : Head
alive = record { magic = magic_number; len = 0; cmd = 1 }

abbrev pieces : List Arrival
pieces =
    arrived 0x28 (0x12 ∷ 0x14 ∷ 0x20 ∷ 0 ∷ [])
    ∷ interrupted
    ∷ arrived 0 (0 ∷ 13 ∷ 0 ∷ 0 ∷ 0 ∷ 1 ∷ 7 ∷ 9 ∷ [])
    ∷ []

handle_read-Delivered_example :
    (b : RingBuf) × (handle_read env 4000 pieces (client, still)
      ≡ handled (record client { active_time = 4; buf = b }, still))
    × (contents b ≡ 9 ∷ [])
    × IsValid b
unfolding contents bytes_in construct_packet head_bytes bytes_of htonl word_of handle_all
    handle_packet IsSteady IsPartial
handle_read-Delivered_example =
    handle_read-Delivered env 4000 5 pieces client still ((alive, 7 ∷ []) ∷ []) (9 ∷ [])
      (record client { active_time = 4 }, still) refl ring-IsValid tt refl (omega arith)
      (omega arith, tt) (inl (omega arith)) refl

handle_read_ends_example : handle_read env 4000 (ended ∷ []) (client, still) ≢ endless
handle_read_ends_example = handle_read_ends env 4000 (ended ∷ []) client still ring-IsValid

-- The connection server has client 9, and an operator with a request of three bytes for it.
abbrev at_server : CliCon
at_server = record {
  address = 1;
  id = 9;
  status = status_init;
  login_time = 0;
  busy = false;
  sess = record {
    id = [];
    type = 0;
    lasttime = 0;
    sessid = [];
    consvid = 0;
    version = [];
    kvs = [];
  };
}

abbrev server_loop : ClientLoop
server_loop = record { cons = (9, at_server) ∷ []; written = [] }

abbrev push : SendMsgOp
push = record { conid = 9; cmd = push_req; body = 1 ∷ 2 ∷ 3 ∷ [] }

abbrev svreq : PushRequest
svreq = record {
  from_sessid = b'p' ∷ [];
  to_sessid = b'c' ∷ [];
  sn = b's' ∷ [];
  type = 1;
  payload = 1 ∷ 2 ∷ 3 ∷ [];
}

-- The packet in three pieces.
abbrev push_pieces : List Arrival
push_pieces =
    arrived 0x28 (0x12 ∷ 0x14 ∷ 0x20 ∷ 0 ∷ 0 ∷ 0 ∷ [])
    ∷ arrived 15 (0 ∷ 0 ∷ 0 ∷ 200 ∷ 1 ∷ [])
    ∷ arrived 2 (3 ∷ [])
    ∷ []

process_send-answer_example :
    ((process_send (λ id msg. 1) push server_loop).0.written ≡ (9, op_packet env push) ∷ [])
    × ((b : RingBuf) × (handle_read env 4000 push_pieces (client, still)
          ≡ handled (record client { active_time = 4; buf = b }, told env 1 5 svreq still))
        × (contents b ≡ [])
        × IsValid b)
unfolding contents bytes_in construct_packet head_bytes bytes_of htonl word_of IsSteady
    get_connection
process_send-answer_example =
    process_send-answer env (λ id msg. 1) push server_loop at_server 4000 5 push_pieces client still
      svreq refl refl (omega arith) refl ring-IsValid refl tt refl refl refl

-- The connection ends, and the user logs in again.
relogin_lost_example :
    (read_ready env (λ fd. some (ended ∷ [])) 4000 (only 1 client still)
      ≡ some (after_end env (record client { active_time = 4 }) 1 5 still))
    × (process_ops env 3 4000 (after_end env (record client { active_time = 4 }) 1 5 still)
        ≡ some (
            nobody (record {
              ops = [];
              events = logout 1 gim_network_error ∷ [];
              sent = (6, login_text env 1 []) ∷ [];
              closed = 5 ∷ [];
              connects = 1;
            })))
unfolding handle_read handle_received receive_loop with_room next_part_len tcp_nb_receive
    receive_into
relogin_lost_example =
    relogin_lost env (λ fd. some (ended ∷ [])) (ended ∷ []) client
      (record client { active_time = 4 }) 4000 1 300 5 6 server [] still refl refl refl refl refl
      refl
