-- ===== src/Connect/Client/Packet.antt =====
-- connect_server/src/client_conn.cpp: `handlePacket`.
use gpush.Prelude.{
  ℕ, ◌+◌, ◌%◌, ◌^◌, List, [], Option, none, some, not, ◌||◌, if◌then◌else◌, ◌==◌, drop,
}
use gpush.Prelude.Int32.{minus}
use gpush.Base.LoopBuf.{is_empty}
use gpush.Proto.{head_at, sizeof_head, login_req, push_req, push_resp, keepalive_req}
use gpush.Proto.Word.{htonl}
use gpush.Connect.Client.{World, Env, Handled, returns, throws, undefined, update_session, send_cmd}
use gpush.Connect.Client.Login.{handle_login_request}
use gpush.Connect.Client.Push.{handle_push_request, handle_push_response}

module _ {C : Type 0} (E : Env C) where
  -- The end of `handlePacket`: the answer is sent, and its result is then the handler's.
  unfoldable pub finish : ℕ → Handled C → Option (World C × ℕ)
  finish cmd (returns w resp ret) =
      if not (is_empty resp) || (cmd == keepalive_req)
      then some (send_cmd E ((cmd + 1) % 2 ^ 32) resp w)
      else some (w, ret)
  finish cmd (throws w) = some (w, minus 1)
  finish cmd undefined = none

  -- The switch on the command; the clock is read twice at a login.
  unfoldable pub dispatch_cmd : ℕ → ℕ → World C → ℕ → List ℕ → Handled C
  dispatch_cmd now later w cmd body =
      let (w1, ret) = update_session E now w in
      if cmd == login_req
      then handle_login_request E now later w body
      else if cmd == push_req
      then handle_push_request E w1 body
      else if cmd == push_resp
      then handle_push_response E w1 body
      else if cmd == keepalive_req
      then returns w1 [] 0
      else returns w [] (minus 1)

  -- `handlePacket`, on a packet that has a header: none where memory is read that was never written.
  unfoldable pub handle_packet : ℕ → ℕ → World C → List ℕ → Option (World C × ℕ)
  unfolding finish dispatch_cmd
  handle_packet now later w req =
      let cmd = htonl (head_at req).cmd in
      finish cmd (dispatch_cmd now later w cmd (drop sizeof_head req))
