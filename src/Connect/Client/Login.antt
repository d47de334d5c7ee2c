-- ===== src/Connect/Client/Login.antt =====
-- connect_server/src/client_conn.cpp: `handleLoginRequest`.
use gpush.Prelude.{ℕ, List, ◌++◌, none, some, not, if◌then◌else◌}
use gpush.Prelude.Int32.{negative, positive}
use gpush.Proto.{decoration_name}
use gpush.Connect.ErrNo.{input_format_error, create_session_fail, invalid_type}
use gpush.Connect.TypeMap.{add_server}
use gpush.Connect.Client.Messages.{LoginRequest}
use gpush.Connect.Client.{
  status_init, status_login, World, Env, Handled, returns, check_type, update_session,
}

module _ {C : Type 0} (E : Env C) where
  -- The end of `handleLoginRequest`.
  unfoldable pub login_exit : World C → ℕ → Handled C
  login_exit w ret =
      if negative ret
      then returns w (E.login_response ret w.con.sess.sessid) ret
      else returns (record w { con = record w.con { status = status_login } })
          (E.login_response 0 w.con.sess.sessid) ret

  -- The fields that a login sets first, and those of a login whose type is good.
  unfoldable pub login_fields : ℕ → LoginRequest → World C → World C
  login_fields now lg w = record w {
    con = record w.con {
      login_time = now;
      sess = record w.con.sess {
        id = lg.id;
        type = lg.type;
        consvid = E.svid;
        version = lg.version;
      };
    };
  }

  unfoldable pub login_session : LoginRequest → World C → World C
  login_session lg w = record w {
    con = record w.con {
      sess = record w.con.sess {
        sessid = decoration_name E.svid w.con.id lg.id;
        kvs = w.con.sess.kvs ++ lg.kvs;
      };
    };
    servers = if positive lg.type then add_server w.con.address w.servers else w.servers;
  }

  -- A first login; the clock is read at its start and when the session is stored.
  unfoldable pub first_login : ℕ → ℕ → LoginRequest → World C → Handled C
  unfolding login_exit login_fields login_session
  first_login now later lg w =
      let w1 = login_fields now lg w in
      let (w2, ret) = update_session E later (login_session lg w1) in
      if not (check_type E lg.type)
      then login_exit w1 invalid_type
      else login_exit w2 (if negative ret then create_session_fail else ret)

  unfoldable pub handle_login_request : ℕ → ℕ → World C → List ℕ → Handled C
  unfolding login_exit
  handle_login_request now later w body = elim (E.parse_login body) [
    | none ↦ login_exit w input_format_error
    | some lg ↦ elim w.con.status [
      | status_login ↦ login_exit w 0
      | status_init ↦ first_login now later lg w
    ]
  ]
