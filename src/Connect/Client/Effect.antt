-- ===== src/Connect/Client/Effect.antt =====
-- A packet changes the login and the servers as a login does, or not at all.
use gpush.Prelude.{
  ℕ, ◌≡◌, refl, sym, ap, ◌∙◌, inl, inr, List, Option, none, some, true, false, not, if◌then◌else◌,
  Bool-cases, Option-cases, arith, drop, ◌==◌, ◌||◌,
}
use gpush.Prelude.Int32.{negative, positive}
use gpush.Base.LoopBuf.{is_empty}
use gpush.Proto.{head_at, sizeof_head, login_req, push_req, push_resp, keepalive_req}
use gpush.Proto.Word.{htonl}
use mathlib.Core.Path.{subst}
use gpush.Connect.ErrNo.{create_session_fail, invalid_type}
use gpush.Connect.TypeMap.{add_server}
use gpush.Connect.Client.Messages.{LoginRequest}
use gpush.Connect.Client.{
  status_init, World, Env, Handled, returns, throws, undefined, update_session, check_type,
  send_cmd,
}
use gpush.Connect.Client.Login.{
  handle_login_request, first_login, login_exit, login_fields, login_session,
}
use gpush.Connect.Client.Packet.{handle_packet, finish, dispatch_cmd}
use gpush.Connect.Client.Change.{
  Same, Same-refl, Same-trans, Status-cases, Change, same, failed, logged_in, Leaves,
  update_session-Same, update_session-positive, handle_push_request-Same, handle_push_response-Same,
}

module _ {C : Type 0} where
  module _ (E : Env C) where
    -- The two ends of a first login.
    refused :
        (w w1 : World C) (ret : ℕ)
        → w1.con.address ≡ w.con.address
        → w.con.status ≡ status_init
        → w1.con.status ≡ status_init
        → w1.servers ≡ w.servers
        → negative ret ≡ true
        → Leaves (Change w) (login_exit E w1 ret)
    unfolding login_exit
    refused w w1 ret a i i' s e = rw e (failed a i i' s)

    entered :
        (w w1 : World C) (ret : ℕ)
        → w1.con.address ≡ w.con.address
        → w.con.status ≡ status_init
        → w1.servers
          ≡ (if positive w1.con.sess.type then add_server w.con.address w.servers else w.servers)
        → negative ret ≡ false
        → Leaves (Change w) (login_exit E w1 ret)
    unfolding login_exit
    entered w w1 ret a i s e = rw e (logged_in a i refl s)

    positive_signed : (type : ℕ) → negative type ≡ true → positive type ≡ false
    positive_signed type e = ground arith

    not_negative : (ret : ℕ) → ret ≡ 0 → negative ret ≡ true → ⊥
    not_negative ret z e = ground arith

    negative_of :
        (now : ℕ) (w : World C)
        → negative (update_session E now w).1 ≡ true
        → negative w.con.sess.type ≡ true
    negative_of now w n = elim (Bool-cases (negative w.con.sess.type)) [
      | inl e ↦ e
      | inr e ↦ absurd (not_negative _ (update_session-positive E now w e) n)
    ]

    first_login-Change :
        (now later : ℕ) (lg : LoginRequest) (w : World C)
        → w.con.status ≡ status_init
        → Leaves (Change w) (first_login E now later lg w)
    unfolding first_login login_fields login_session
    first_login-Change now later lg w i =
        let w1 = login_session E lg (login_fields E now lg w) in
        let same = update_session-Same E later w1 in
        let w2 = (update_session E later w1).0 in
        elim (Bool-cases (check_type E lg.type)) [
          | inr e ↦ rw e (refused w (login_fields E now lg w) invalid_type refl i i refl refl)
          | inl e ↦ elim (Bool-cases (negative (update_session E later w1).1)) [
            | inl n ↦
                let client = negative_of later w1 n in
                rw e (
                  rw n (
                    refused w w2 create_session_fail same.address i (same.status ∙ i)
                      (same.servers ∙ (rw (positive_signed lg.type client) refl)) refl))
            | inr n ↦ rw e (
                rw n (
                  entered w w2 _ same.address i
                    (same.servers
                      ∙ ap
                          (λ (t : ℕ).
                            if positive t then add_server w.con.address w.servers else w.servers)
                          (sym same.type))
                    n))
          ]
        ]

    handle_login_request-Change :
        (now later : ℕ) (w : World C) (body : List ℕ)
        → Leaves (Change w) (handle_login_request E now later w body)
    unfolding handle_login_request login_exit
    handle_login_request-Change now later w body = elim (Option-cases (E.parse_login body)) [
      | inl n ↦ rw (n, handle_login_request, Leaves) (same (Same-refl w))
      | inr (lg, n) ↦ elim (Status-cases w.con.status) [
        | inl i ↦
            rw (n, handle_login_request, Leaves)
              (rw (i, Leaves) (first_login-Change now later lg w i))
        | inr i ↦
            rw (n, handle_login_request, Leaves)
              (rw (i, Leaves)
                (same (record { address = refl; status = sym i; type = refl; servers = refl })))
      ]
    ]

    -- Where a push or a response starts: the session's time is kept first.
    after_update :
        (now : ℕ) (w : World C) (h : Handled C)
        → Leaves (Same (update_session E now w).0) h
        → Leaves (Change w) h
    after_update now w (returns w' resp ret) l = same (Same-trans (update_session-Same E now w) l)
    after_update now w (throws w') l = same (Same-trans (update_session-Same E now w) l)
    after_update now w undefined l = tt

    dispatch_cmd-Change :
        (now later : ℕ) (w : World C) (cmd : ℕ) (body : List ℕ)
        → Leaves (Change w) (dispatch_cmd E now later w cmd body)
    unfolding dispatch_cmd
    dispatch_cmd-Change now later w cmd body =
        let w1 = (update_session E now w).0 in
        elim (Bool-cases (cmd == login_req)) [
          | inl e ↦ rw e (handle_login_request-Change now later w body)
          | inr e ↦ elim (Bool-cases (cmd == push_req)) [
            | inl p ↦ rw e (rw p (after_update now w _ (handle_push_request-Same E w1 body)))
            | inr p ↦ elim (Bool-cases (cmd == push_resp)) [
              | inl r ↦
                  rw e (rw p (rw r (after_update now w _ (handle_push_response-Same E w1 body))))
              | inr r ↦ elim (Bool-cases (cmd == keepalive_req)) [
                | inl k ↦ rw e (rw p (rw r (rw k (same (update_session-Same E now w)))))
                | inr k ↦ rw e (rw p (rw r (rw k (same (Same-refl w)))))
              ]
            ]
          ]
        ]

    -- Sending the answer changes neither the login nor the servers.
    Change-sent :
        (w w' : World C) (sent : List (List ℕ)) → Change w w' → Change w (record w' { sent = sent })
    Change-sent w w' sent (same s) =
        same (record { address = s.address; status = s.status; type = s.type; servers = s.servers })
    Change-sent w w' sent (failed a i i' s) = failed a i i' s
    Change-sent w w' sent (logged_in a i l s) = logged_in a i l s

    abbrev Ends : World C → Option (World C × ℕ) → Type 0
    Ends w none = Unit
    Ends w (some (w', ret)) = Change w w'

    finish-Change :
        (w : World C) (cmd : ℕ) (h : Handled C) → Leaves (Change w) h → Ends w (finish E cmd h)
    unfolding finish send_cmd
    finish-Change w cmd (returns w1 resp r) l =
        elim (Bool-cases (not (is_empty resp) || (cmd == keepalive_req))) [
          | inl b ↦ rw b (Change-sent w w1 _ l)
          | inr b ↦ rw b l
        ]
    finish-Change w cmd (throws w1) l = l
    finish-Change w cmd undefined l = tt

    -- A packet changes no more than that.
    pub handle_packet-Change :
        (now later : ℕ) (w w' : World C) (req : List ℕ) (ret : ℕ)
        → handle_packet E now later w req ≡ some (w', ret)
        → Change w w'
    unfolding handle_packet
    handle_packet-Change now later w w' req ret e =
        let cmd = htonl (head_at req).cmd in
        let h = dispatch_cmd E now later w cmd (drop sizeof_head req) in
        subst (Ends w) e
          (finish-Change w cmd h (dispatch_cmd-Change now later w cmd (drop sizeof_head req)))
