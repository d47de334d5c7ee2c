-- ===== src/Sdk/Client/Handlers.antt =====
-- The handlers of a connection keep it sound.
use gpush.Prelude.{
  ℕ, ◌≡◌, refl, ap, sym, inl, inr, List, [], ◌∷◌, Option, none, some, true, false, Bool-cases,
  Option-cases, ltb, ◌+◌, ◌*◌, ◌==◌,
}
use mathlib.Core.Path.{subst}
use gpush.Prelude.Int32.{negative}
use gpush.Proto.{keepalive_req, login_resp, push_req, push_resp}
use gpush.Connect.Client.Messages.{LoginResponse}
use gpush.Sdk.Client.{
  Env, AddrItem, Event, CliConn, Io, Sn, logged_in, disconnected, login_sn, gim_network_error,
  gim_timeout, gettime_ms, after_tries, try_servers, connect_server, login_if, connect_and_login,
  busy, keepalive, add_keepalive_timer, add_timer, pop_timer, pop_last, publish, pushed, set_status,
  on_login_fail, send_packet,
}
use gpush.Sdk.Client.Packets.{
  refused_login, handle_login_response, handle_service_request, handle_packet,
}
use gpush.Sdk.Client.Posted.{Posted, Posted-append}
use gpush.Sdk.Client.Sound.{
  Holds, Grows-trans, Holds-trans, IsSound, busy-IsSound, quiet-Holds, ends-Holds, set_status-Grows,
  set_status_lem, on_login_fail-Holds, disconnects-Holds, send_packet-Holds, login-Holds,
  login-IsSound, on_login_fail-IsSound,
}

-- A step that changes neither the status nor what is posted.
pub still-Holds :
    (w w' : CliConn × Io)
    → w'.0.cid ≡ w.0.cid
    → w'.1.ops ≡ w.1.ops
    → w'.0.login_status ≡ w.0.login_status
    → Holds w w'
still-Holds w w' cid ops same =
    quiet-Holds w w' (record { cid = cid; posted = λ k p. subst (Posted k) (sym ops) p }) same

-- What a handler may do: it is not defined, or it keeps the connection sound.
unfoldable pub MayHold : CliConn × Io → Option (CliConn × Io) → Type 0
MayHold w none = Unit
MayHold w (some w') = Holds w w'

module _ (E : Env) where
  told-Holds : (ev : Event) (con : CliConn) (io : Io) → Holds (con, io) (con, publish E ev io)
  unfolding publish
  told-Holds ev con io =
      quiet-Holds (con, io) (con, publish E ev io)
        (record { cid = refl; posted = λ k p. Posted-append k io.ops (E.react (ev ∷ io.events)) p })
        refl

  after_tries-Holds :
      (t : Option ℕ × List AddrItem × ℕ) (w : CliConn × Io) → Holds w (after_tries E t w).0
  unfolding after_tries
  after_tries-Holds (none, left, n) (con, io) =
      let w : CliConn × Io =
        (record con { fd = none; svrlist = left }, record io { connects = n }) in
      Holds-trans (con, io) w (on_login_fail E gim_network_error w)
        (still-Holds (con, io) w refl refl refl) (on_login_fail-Holds E gim_network_error w)
  after_tries-Holds (some fd, left, n) (con, io) =
      still-Holds (con, io)
        (record con { fd = some fd; svrlist = left }, record io { connects = n }) refl refl refl

  login_if-Holds : (now : ℕ) (out : (CliConn × Io) × ℕ) → Holds out.0 (login_if E now out).0
  unfolding login_if
  login_if-Holds now (w, ret) = elim (Bool-cases (ret == 0)) [
    | inl up ↦ rw (up, login_if) (login-Holds E now w)
    | inr down ↦ rw (down, login_if) (still-Holds w w refl refl refl)
  ]

  pub connect_and_login-Holds : (now : ℕ) (w : CliConn × Io) → Holds w (connect_and_login E now w).0
  unfolding connect_and_login connect_server
  connect_and_login-Holds now (con, io) = elim (Bool-cases (busy con.login_status)) [
    | inl b ↦ rw (b, connect_and_login) (still-Holds (con, io) (con, io) refl refl refl)
    | inr idle ↦
        let t = try_servers E con.svrlist con.fd io.connects in
        rw (idle, connect_and_login)
          (Holds-trans (con, io) (after_tries E t (con, io)).0
            (login_if E now (after_tries E t (con, io))).0 (after_tries-Holds t (con, io))
            (login_if-Holds now (after_tries E t (con, io))))
  ]

  -- A connection that is not busy is sound behind it: it has failed, or it logs in.
  after_tries-IsSound :
      (now : ℕ) (t : Option ℕ × List AddrItem × ℕ) (w : CliConn × Io)
      → IsSound (login_if E now (after_tries E t w)).0
  unfolding after_tries login_if
  after_tries-IsSound now (none, left, n) (con, io) =
      on_login_fail-IsSound E gim_network_error
        (record con { fd = none; svrlist = left }, record io { connects = n })
  after_tries-IsSound now (some fd, left, n) (con, io) =
      login-IsSound E now (record con { fd = some fd; svrlist = left }, record io { connects = n })

  pub connect_and_login-IsSound :
      (now : ℕ) (con : CliConn) (io : Io)
      → busy con.login_status ≡ false
      → IsSound (connect_and_login E now (con, io)).0
  unfolding connect_and_login connect_server
  connect_and_login-IsSound now con io idle =
      rw (idle, connect_and_login)
        (after_tries-IsSound now (try_servers E con.svrlist con.fd io.connects) (con, io))

  pub keepalive-Holds : (now : ℕ) (w : CliConn × Io) → Holds w (keepalive E now w).0
  unfolding keepalive add_keepalive_timer add_timer
  keepalive-Holds now (con, io) =
      let again : CliConn × Io = (add_keepalive_timer now con, io) in
      elim (Bool-cases
        (ltb (con.active_time + con.keepalive_timeout * 2 * 1000) (gettime_ms now))) [
          | inl late ↦ rw (late, keepalive) (disconnects-Holds E gim_timeout (con, io))
          | inr fresh ↦
              rw (fresh, keepalive)
                (Holds-trans (con, io) again (send_packet E keepalive_req [] again).0
                  (still-Holds (con, io) again refl refl refl)
                  (send_packet-Holds E keepalive_req [] again))
        ]

  pub handle_service_request-Holds :
      (body : List ℕ) (w : CliConn × Io) → Holds w (handle_service_request E body w)
  unfolding handle_service_request
  handle_service_request-Holds body (con, io) = elim (Option-cases (E.parse_push body)) [
    | inl bad ↦ rw (bad, handle_service_request) (still-Holds (con, io) (con, io) refl refl refl)
    | inr (svreq, parses) ↦
        let ev = pushed con.cid svreq.sn svreq.payload in
        let told : CliConn × Io = (con, publish E ev io) in
        rw (parses, handle_service_request)
          (Holds-trans (con, io) told _ (told-Holds ev con io)
            (send_packet-Holds E push_resp _ told))
  ]

  -- The next server is tried.
  tried-Holds :
      (now : ℕ) (w : CliConn × Io)
      → Holds w (connect_and_login E now (set_status E disconnected 0 false w)).0
  unfolding busy
  tried-Holds now w =
      let off = set_status E disconnected 0 false w in
      ends-Holds w (connect_and_login E now off).0
        (Grows-trans w off (connect_and_login E now off).0
          (set_status-Grows E disconnected 0 false w) (connect_and_login-Holds now off).grows)
        (connect_and_login-IsSound now off.0 off.1
          (ap busy (set_status_lem E disconnected 0 false w)))

  refused-MayHold :
      (servers : List AddrItem) (now status : ℕ) (con : CliConn) (io : Io)
      → MayHold
          (con, io)
          (elim servers [
            | [] ↦ none
            | a ∷ [] ↦ some (on_login_fail E status (record con { svrlist = [] }, io))
            | a ∷ b ∷ more ↦
                let again =
                  set_status E disconnected 0 false (record con { svrlist = b ∷ more }, io) in
                some (connect_and_login E now again).0
          ])
  unfolding MayHold
  refused-MayHold [] now status con io = tt
  refused-MayHold (a ∷ []) now status con io =
      let w : CliConn × Io = (record con { svrlist = [] }, io) in
      Holds-trans (con, io) w (on_login_fail E status w) (still-Holds (con, io) w refl refl refl)
        (on_login_fail-Holds E status w)
  refused-MayHold (a ∷ b ∷ more) now status con io =
      let w : CliConn × Io = (record con { svrlist = b ∷ more }, io) in
      Holds-trans (con, io) w _ (still-Holds (con, io) w refl refl refl) (tried-Holds now w)

  MayHold-trans :
      (v w : CliConn × Io) (out : Option (CliConn × Io)) → Holds v w → MayHold w out → MayHold v out
  unfolding MayHold
  MayHold-trans v w none h m = tt
  MayHold-trans v w (some w') h m = Holds-trans v w w' h m

  pop_timer-Holds : (sn : Sn) (con : CliConn) (io : Io) → Holds (con, io) ((pop_timer sn con).0, io)
  unfolding pop_timer
  pop_timer-Holds sn con io = elim (Option-cases (pop_last sn con.timers)) [
    | inl e ↦ rw (e, pop_timer) (still-Holds (con, io) (con, io) refl refl refl)
    | inr ((op, left), e) ↦
        rw (e, pop_timer) (still-Holds (con, io) (record con { timers = left }, io) refl refl refl)
  ]

  logged-Holds :
      (now : ℕ) (resp : LoginResponse) (con : CliConn) (io : Io)
      → let w = set_status E logged_in resp.status true (record con { sessid = resp.sessid }, io) in
        Holds (con, io) (add_keepalive_timer now w.0, w.1)
  unfolding add_keepalive_timer add_timer busy
  logged-Holds now resp con io =
      let named : CliConn × Io = (record con { sessid = resp.sessid }, io) in
      let w = set_status E logged_in resp.status true named in
      let timed : CliConn × Io = (add_keepalive_timer now w.0, w.1) in
      let g = set_status-Grows E logged_in resp.status true named in
      ends-Holds (con, io) timed (record { cid = g.cid; posted = g.posted })
        (busy-IsSound timed (ap busy (set_status_lem E logged_in resp.status true named)))

  pub handle_login_response-MayHold :
      (now : ℕ) (resp : List ℕ) (w : CliConn × Io) → MayHold w (handle_login_response E now resp w)
  unfolding handle_login_response refused_login MayHold
  handle_login_response-MayHold now resp (con, io) =
      let popped = (pop_timer login_sn con).0 in
      let first = pop_timer-Holds login_sn con io in
      elim (Option-cases (E.parse_login resp)) [
        | inl bad ↦ rw (bad, handle_login_response) first
        | inr (lgresp, parses) ↦ elim (Bool-cases (negative lgresp.status)) [
          | inl refused ↦
              rw (parses, handle_login_response)
                (rw refused (
                  MayHold-trans (con, io) (popped, io) _ first
                    (refused-MayHold popped.svrlist now lgresp.status popped io)))
          | inr welcome ↦
              rw (parses, handle_login_response)
                (rw welcome
                  (Holds-trans (con, io) (popped, io) _ first (logged-Holds now lgresp popped io)))
        ]
      ]

  pub handle_packet-MayHold :
      (now : ℕ) (w : CliConn × Io) (cmd : ℕ) (body : List ℕ)
      → MayHold w (handle_packet E now w cmd body)
  unfolding handle_packet MayHold
  handle_packet-MayHold now w cmd body = elim (Bool-cases (cmd == login_resp)) [
    | inl login ↦ rw (login, handle_packet) (handle_login_response-MayHold now body w)
    | inr other ↦ elim (Bool-cases (cmd == push_req)) [
      | inl push ↦ rw (other, push, handle_packet) (handle_service_request-Holds body w)
      | inr none_such ↦ rw (other, none_such, handle_packet) (still-Holds w w refl refl refl)
    ]
  ]
