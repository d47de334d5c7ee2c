-- ===== src/Push/Server/Steps.antt =====
-- Each step of an event loop leaves its map linked.
use gpush.Prelude.{
  ℕ, ◌≡◌, ◌⊎◌, refl, inl, inr, List, [], ◌∷◌, none, some, Bool, true, false, ◌==◌, Bool-cases,
  Option-cases, drop,
}
use gpush.Prelude.Int32.{negative, minus}
use gpush.Proto.{head_at, login_resp, push_resp, sizeof_head}
use gpush.Proto.Word.{htonl}
use gpush.Connect.Client.Messages.{PushRequest}
use gpush.Net.Client.{ClientStatus, idle, connecting, connected}
use gpush.Net.EventLoop.{get_connection, del_connection, set_connection}
use gpush.Net.EventLoop.Lookup.{get-cons_other, get-del_other, get-set_other, get-set}
use gpush.Push.Server.{
  SvCon, Svlist, Env, add_server, del_server, get_server, update, disconnect, destroy, send_packet,
  do_register, keep_alive, handle_register_response, handle_packet, send_push_request,
  send_to_server, Event, create, connect, packet, fail, alive, after_event, handle_connected,
  when_connected, when_connecting, con_of, step_of, made, step, run,
}
use gpush.Push.Server.Linked.{
  Serves, Linked, outside-Linked, keep-Linked, del_server-Linked, Lives, del_server-Unlisted,
  add_server-Linked,
}

when_connected-Linked :
    (s : ClientStatus) (l r : Svlist)
    → Linked l
    → (s ≡ connected → Linked r)
    → Linked (when_connected s l r)
unfolding when_connected
when_connected-Linked idle l r k f = k
when_connected-Linked connecting l r k f = k
when_connected-Linked connected l r k f = f refl

when_connecting-Linked :
    (s : ClientStatus) (l r : Svlist) → Linked l → Linked r → Linked (when_connecting s l r)
unfolding when_connecting
when_connecting-Linked idle l r k f = k
when_connecting-Linked connecting l r k f = f
when_connecting-Linked connected l r k f = k

-- A state in which the connection lives still.
record Goes (p : ℕ) (c : SvCon) (l : Svlist) : Type 0 where
  pub linked : Linked l
  pub lives : Lives p c l

set_sent-Goes :
    (p : ℕ) (c : SvCon) (l : Svlist) (sent : List (ℕ × List ℕ))
    → Goes p c l
    → Goes p c (record l { sent = sent })
set_sent-Goes p c l sent g = record {
  linked = record { unique = g.linked.unique; leads = g.linked.leads };
  lives = g.lives;
}

disconnect-Goes : (p : ℕ) (c : SvCon) (l : Svlist) → Goes p c l → Goes p c (disconnect p c l)
unfolding disconnect update del_server
disconnect-Goes p c l g =
    let off : SvCon = record c { status = idle } in
    let (b, here, mine) = g.lives in
    record {
      linked =
          outside-Linked p (del_server c.con_serv_id l) (set_connection p off l.cons)
            (del_server-Linked c.con_serv_id l g.linked)
            (del_server-Unlisted p c l g.lives g.linked) (λ q n. get-set_other q p off l.cons n);
      lives = (off, get-set p b off l.cons here, refl);
    }

destroy-Linked : (p : ℕ) (c : SvCon) (l : Svlist) → Goes p c l → Linked (destroy p c l)
unfolding destroy
destroy-Linked p c l g =
    let l1 = disconnect p c l in
    let g1 = disconnect-Goes p c l g in
    outside-Linked p (del_server c.con_serv_id l1)
      (del_connection p (del_server c.con_serv_id l1).cons)
      (del_server-Linked c.con_serv_id l1 g1.linked) (del_server-Unlisted p c l1 g1.lives g1.linked)
      (λ q n. get-del_other q p (del_server c.con_serv_id l1).cons n)

module _ (E : Env) where
  after_event-Linked :
      (p : ℕ) (c : SvCon) (r : Svlist × ℕ) → Goes p c r.0 → Linked (after_event E p c r)
  unfolding after_event
  after_event-Linked p c (l, ret) g = elim (Bool-cases (negative ret)) [
    | inl fails ↦ rw (fails) (destroy-Linked p c l g)
    | inr goes_on ↦ rw (goes_on) g.linked
  ]

  module _ (p : ℕ) (c : SvCon) (l : Svlist) (here : get_connection p l.cons ≡ some c)
      (k : Linked l) where
    abbrev now : Goes p c l
    now = record { linked = k; lives = (c, here, refl) }

    update-Goes :
        (c' : SvCon)
        → c'.con_serv_id ≡ c.con_serv_id
        → ((id : ℕ) → Serves id c → Serves id c')
        → Goes p c (update p c' l)
    unfolding update
    update-Goes c' same still = record {
      linked = keep-Linked p c c' l here still k;
      lives = (c', get-set p c c' l.cons here, same);
    }

    handle_register_response-Goes :
        (resp : List ℕ) → c.status ≡ connected → Goes p c (handle_register_response E p c resp l).0
    unfolding handle_register_response add_server
    handle_register_response-Goes resp online =
        let lgresp = E.parse_login resp in
        let c' : SvCon = record c { login = true; sessid = lgresp.sessid } in
        let g =
          update-Goes c' refl
            (λ id s. record { server = s.server; login = refl; online = online }) in
        let set = get-set p c c' l.cons here in
        elim (Bool-cases (negative lgresp.status)) [
          | inl fails ↦ rw (fails) (disconnect-Goes p c l now)
          | inr good ↦ rw (good) (record {
            linked =
                add_server-Linked c.con_serv_id p c' (update p c' l) set
                  (record { server = refl; login = refl; online = online }) g.linked;
            lives = g.lives;
          })
        ]

    handle_packet-Goes :
        (req : List ℕ) → c.status ≡ connected → Goes p c (handle_packet E p c req l).0
    unfolding handle_packet
    handle_packet-Goes req online =
        let cmd = htonl (head_at req).cmd in
        elim (Bool-cases (cmd == login_resp)) [
          | inl login ↦ rw (login) (handle_register_response-Goes (drop sizeof_head req) online)
          | inr other ↦ elim (Bool-cases (cmd == push_resp)) [
            | inl push ↦ rw (other) (rw (push) now)
            | inr ignored ↦ rw (other) (rw (ignored) now)
          ]
        ]

    handle_connected-Goes : (asked : Bool) → Goes p c (handle_connected E p c asked l).0
    unfolding handle_connected do_register send_packet
    handle_connected-Goes false = disconnect-Goes p c l now
    handle_connected-Goes true =
        let g =
          update-Goes (record c { status = connected }) refl
            (λ id s. record { server = s.server; login = s.login; online = refl }) in
        set_sent-Goes p c (update p (record c { status = connected }) l) _ g

    step_of-Linked : (e : Event) → con_of E e ≡ p → Linked (step_of E e c l)
    unfolding step_of keep_alive send_packet
    step_of-Linked (create q svid connects) same = k
    step_of-Linked (connect q asked) same = rw (same) (
        when_connecting-Linked c.status l _ k
          (after_event-Linked p c _ (handle_connected-Goes asked)))
    step_of-Linked (packet q req) same = rw (same) (
        when_connected-Linked c.status l _ k
          (λ online. after_event-Linked p c _ (handle_packet-Goes req online)))
    step_of-Linked (fail q) same = rw (same) (destroy-Linked p c l now)
    step_of-Linked (alive q) same =
        when_connected-Linked c.status l _ k (λ online. (set_sent-Goes p c l _ now).linked)

  made-Linked :
      (e : Event) (l : Svlist)
      → get_connection (con_of E e) l.cons ≡ none
      → Linked l
      → Linked (made E e l)
  unfolding made
  made-Linked (create p svid connects) l free k =
      outside-Linked p l _ k
        (λ id q e same. let (c, lives, serves) = k.leads id q e in cc (free, lives, same))
        (λ q n. get-cons_other q p _ l.cons n)
  made-Linked (connect p asked) l free k = k
  made-Linked (packet p req) l free k = k
  made-Linked (fail p) l free k = k
  made-Linked (alive p) l free k = k

  step-Linked : (e : Event) (l : Svlist) → Linked l → Linked (step E e l)
  unfolding step
  step-Linked e l k = elim (Option-cases (get_connection (con_of E e) l.cons)) [
    | inl free ↦ rw (free, step) (made-Linked e l free k)
    | inr (c, here) ↦ rw (here, step) (step_of-Linked (con_of E e) c l here k e refl)
  ]

  -- Whatever happens in an event loop, its map stays linked.
  pub run-Linked : (events : List Event) (l : Svlist) → Linked l → Linked (run E events l)
  unfolding run
  run-Linked [] l k = k
  run-Linked (e ∷ events) l k = run-Linked events (step E e l) (step-Linked e l k)

  -- After any events of an event loop whose map was linked, a push to a server is sent on a connection
  -- that lives, is connected and has logged in to that server, or, where the map leads nowhere, is
  -- not sent; it never uses a connection that was destroyed.
  pub send_to_server-live :
      (events : List Event) (l : Svlist) (svid : ℕ) (preq : PushRequest)
      → Linked l
      → let after = run E events l in
        ((get_server svid after ≡ none)
          × (send_to_server E svid preq after ≡ some (after, minus 1)))
        ⊎ ((p : ℕ) × (c : SvCon) × (get_connection p after.cons ≡ some c)
            × Serves svid c
            × (send_to_server E svid preq after ≡ some (send_push_request E p c preq after)))
  unfolding send_to_server get_server
  send_to_server-live events l svid preq k =
      let after = run E events l in
      elim (Option-cases (get_connection svid after.svcons)) [
        | inl nowhere ↦ inl (nowhere, rw (nowhere, send_to_server) refl)
        | inr (p, listed) ↦
            let (c, lives, serves) = (run-Linked events l k).leads svid p listed in
            inr (p, c, lives, serves, rw (listed, send_to_server) (rw (lives, send_to_server) refl))
      ]
