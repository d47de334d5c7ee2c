-- ===== src/Sdk/Client/Relogin.antt =====
-- What becomes of a login that the user makes in the callback for the end of a connection.
use gpush.Prelude.{
  ℕ, zero, suc, ◌+◌, ◌*◌, ◌≡◌, refl, ap, sym, ◌∙◌, List, [], ◌∷◌, ◌++◌, Option, none, some, Bool,
  true, false, ◌==◌, arith,
}
use gpush.Prelude.Int32.{positive, negative}
use gpush.Proto.{magic_number, login_req, logic_construct_packet}
use gpush.Net.EventLoop.{get_connection, set_connection, del_connection}
use gpush.Sdk.Client.{
  Env, AddrItem, Op, login_op, del_conn_op, CliConn, Io, logout, logged_in, gim_network_error,
  new_conn, login_packet, try_servers, connect_server, login, connect_and_login, send_packet,
  send_to, send_on, set_status, busy, on_disconnect, asyn_add_op, asyn_destroy, publish,
  publish_some, status_event, get_cid, closefd, close_socket, same_status, add_timer, after_tries,
  login_if, do_login, gettime_ms,
}
use gpush.Sdk.Sock.{Arrival}
use gpush.Sdk.Client.Packets.{failed, handle_read}
use gpush.Net.EventLoop.Lookup.{get-cons}
use gpush.Sdk.Client.Loop.{
  EventLoop, find_conn, del_conn, put_back, process_login, process, run_op, keep_op, pop_op,
  process_ops, read_conns, del_conns, read_ready,
}

same_id : (cid : ℕ) → (cid == cid) ≡ true
same_id cid = ground arith

-- A loop with one connection.
abbrev pub only : ℕ → CliConn → Io → EventLoop
only cid con io = record { conns = (cid, con) ∷ []; io = io }

abbrev pub nobody : Io → EventLoop
nobody io = record { conns = []; io = io }

del_only : (cid : ℕ) (con : CliConn) (io : Io) → (del_conn cid (only cid con io)).0 ≡ nobody io
unfolding del_conn find_conn get_connection del_connection
del_only cid con io = rw (same_id cid, del_conn) (rw (same_id cid) refl)

put_back-only :
    (cid : ℕ) (con next : CliConn) (io : Io)
    → put_back cid (next, io) (only cid con io) ≡ only cid next io
unfolding put_back set_connection
put_back-only cid con next io = rw (same_id cid) refl

module _ (E : Env) where
  -- The loop after the connection of a client that was logged in has ended.
  abbrev pub after_end : CliConn → ℕ → ℕ → Io → EventLoop
  after_end con cid fd io = record {
    conns = [];
    io =
        (on_disconnect E gim_network_error
          (record con { fd = some fd; login_status = logged_in; cid = cid }, io)).1;
  }

  ended_io :
      (con : CliConn) (cid fd : ℕ) (io : Io)
      → (after_end con cid fd io).io ≡ record io {
        ops =
            io.ops ++ E.react (logout cid gim_network_error ∷ io.events) ++ (del_conn_op cid ∷ []);
        events = logout cid gim_network_error ∷ io.events;
        closed = io.closed ++ (fd ∷ []);
      }
  unfolding on_disconnect asyn_destroy asyn_add_op set_status publish_some publish status_event
      closefd close_socket same_status
  ended_io con cid fd io = refl

  -- The packet of a login for an address.
  abbrev pub login_text : ℕ → List ℕ → List ℕ
  login_text cid ver =
      logic_construct_packet (record { magic = magic_number; len = 0; cmd = login_req })
        (E.login_request
          (record { id = E.text cid; type = gpush.Prelude.Int32.minus 1; version = ver; kvs = [] }))

  module _ (now cid span fd : ℕ) (a : AddrItem) (ver : List ℕ) (io : Io)
      (up : E.connect io.connects a ≡ some fd)
      (goes : positive (E.send fd (login_text cid ver)) ≡ true) where
    -- The connection that is made, and what the login makes of the outside.
    abbrev fresh : CliConn
    fresh = record (new_conn now cid a ver span) { fd = some fd }

    abbrev dialled : Io
    dialled = record io { connects = suc io.connects }

    abbrev asked : Io
    asked = record dialled { sent = io.sent ++ ((fd, login_text cid ver) ∷ []) }

    abbrev waiting : CliConn
    waiting = record fresh { login_status = do_login; login_time = gettime_ms now }

    connects_lem : connect_server E (new_conn now cid a ver span, io) ≡ ((fresh, dialled), 0)
    unfolding connect_server after_tries new_conn
    connects_lem =
        ap (λ (t : Option ℕ × List AddrItem × ℕ). after_tries E t (new_conn now cid a ver span, io))
          tried
      where
        tried : try_servers E (a ∷ []) none io.connects ≡ (some fd, a ∷ [], suc io.connects)
        tried = rw (up, try_servers) refl

    not_negative : (x : ℕ) → positive x ≡ true → negative x ≡ false
    not_negative x h = ground arith

    login_lem : login E now (fresh, dialled) ≡ ((waiting, asked), 0)
    unfolding login send_packet send_to send_on set_status same_status login_packet new_conn
    login_lem =
        let good = not_negative (E.send fd (login_text cid ver)) goes in
        rw (goes, send_on) (rw good refl)

    logs_in : connect_and_login E now (new_conn now cid a ver span, io) ≡ ((waiting, asked), 0)
    unfolding connect_and_login login_if busy new_conn
    logs_in = ap (login_if E now) connects_lem ∙ login_lem

    processed : process E now (login_op cid a ver span) (nobody io) ≡ (only cid waiting asked, true)
    unfolding process process_login find_conn get_connection
    processed = ap (λ (out : (CliConn × Io) × ℕ). (only cid out.0.0 out.0.1, out.1 == 0)) logs_in

    -- Its operator waits for the answer among the connection's timers.
    abbrev timed : CliConn
    timed = add_timer now (login_op cid a ver span) waiting

    kept :
        keep_op E now (login_op cid a ver span) (only cid waiting asked, true)
        ≡ only cid timed asked
    unfolding keep_op find_conn get_cid
    kept = rw (get-cons cid waiting [], keep_op) (put_back-only cid waiting timed asked)

    logged_in_lem : run_op E now (login_op cid a ver span) (nobody io) ≡ only cid timed asked
    unfolding run_op
    logged_in_lem = ap (keep_op E now (login_op cid a ver span)) processed ∙ kept

  -- Deleting the only connection.
  deleted :
      (now cid : ℕ) (con : CliConn) (io : Io)
      → process_ops E 2 now (only cid con (record io { ops = del_conn_op cid ∷ [] }))
        ≡ some (nobody (record io { ops = [] }))
  unfolding process_ops pop_op run_op process keep_op
  deleted now cid con io = ap (process_ops E 1 now) (del_only cid con (record io { ops = [] }))

  -- Reading from it fails.
  ended :
      (ready : ℕ → Option (List Arrival)) (now cid old : ℕ) (come : List Arrival)
      (before con : CliConn) (io : Io)
      → ready old ≡ some come
      → handle_read E now come (record before { fd = some old }, io)
        ≡ failed (record con { fd = some old; login_status = logged_in; cid = cid }, io)
      → read_ready E ready now (only cid (record before { fd = some old }) io)
        ≡ some (after_end con cid old io)
  unfolding read_ready read_conns del_conns
  ended ready now cid old come before con io comes fails =
      let last = record con { fd = some old; login_status = logged_in; cid = cid } in
      rw (comes, read_conns)
        (rw fails (
          ap some (
            del_only cid (on_disconnect E gim_network_error (last, io)).0
              (after_end con cid old io).io)))

  -- Reading from a client's only connection, logged in, fails, and the callback for that posts a login of the same
  -- client. The login's operator runs, connects to a server and sends it the login; then the operator
  -- that was posted to delete the ended connection deletes the new one. So nothing is left of either
  -- connection, no event but the first's end is published, and the new one's socket is never closed.
  pub relogin_lost :
      (ready : ℕ → Option (List Arrival)) (come : List Arrival) (before con : CliConn)
      (now cid span old fd : ℕ) (a : AddrItem) (ver : List ℕ) (io : Io)
      → ready old ≡ some come
      → handle_read E now come (record before { fd = some old }, io)
        ≡ failed (record con { fd = some old; login_status = logged_in; cid = cid }, io)
      → io.ops ≡ []
      → E.react (logout cid gim_network_error ∷ io.events) ≡ login_op cid a ver span ∷ []
      → E.connect io.connects a ≡ some fd
      → positive (E.send fd (login_text cid ver)) ≡ true
      → (read_ready E ready now (only cid (record before { fd = some old }) io)
          ≡ some (after_end con cid old io))
        × (process_ops E 3 now (after_end con cid old io)
            ≡ some (
                nobody (record io {
                  ops = [];
                  events = logout cid gim_network_error ∷ io.events;
                  sent = io.sent ++ ((fd, login_text cid ver) ∷ []);
                  closed = io.closed ++ (old ∷ []);
                  connects = suc io.connects;
                })))
  unfolding process_ops pop_op
  relogin_lost ready come before con now cid span old fd a ver io comes fails idle asks up goes =
      let end : Io = record io {
        events = logout cid gim_network_error ∷ io.events;
        closed = io.closed ++ (old ∷ []);
      } in
      let start : Io = record end { ops = login_op cid a ver span ∷ del_conn_op cid ∷ [] } in
      let posted : (after_end con cid old io) ≡ nobody start =
        ap nobody (ended_io con cid old io)
        ∙ ap (λ (ops : List Op). nobody (record end { ops = ops }))
            (ap
                (λ (ops : List Op).
                  ops
                  ++ E.react (logout cid gim_network_error ∷ io.events)
                  ++ (del_conn_op cid ∷ []))
                idle
              ∙ ap (λ (ops : List Op). ops ++ (del_conn_op cid ∷ [])) asks) in
      let rest : Io = record end { ops = del_conn_op cid ∷ [] } in
      (
        ended ready now cid old come before con io comes fails,
        ap (process_ops E 3 now) posted
            ∙ ap (process_ops E 2 now) (logged_in_lem now cid span fd a ver rest up goes)
            ∙ deleted now cid (timed now cid span fd a ver rest up goes)
                (asked now cid span fd a ver rest up goes),
      )
