-- ===== src/Connect/Client/Session.antt =====
-- The session id of a login, and the pushes to it.
use gpush.Prelude.{
  ℕ, ◌+◌, ◌^◌, ◌≤◌, ◌<◌, ◌≡◌, refl, sym, ap, ◌∙◌, inl, inr, List, some, true, false, Bool-cases,
  Option-cases, drop,
}
use mathlib.Core.Path.{subst}
use gpush.Prelude.Int32.{negative}
use gpush.Proto.{head_at, sizeof_head, decoration_name, push_req}
use gpush.Proto.Word.{htonl}
use gpush.Connect.Client.Messages.{LoginRequest, PushRequest}
use gpush.Connect.Client.{
  World, Env, SendMsgOp, status_init, returns, connection_id, update_session, check_type,
}
use gpush.Connect.Client.Login.{
  handle_login_request, first_login, login_exit, login_fields, login_session,
}
use gpush.Connect.Client.Push.{post_op}
use gpush.Connect.Client.Packet.{handle_packet}
use gpush.Connect.Client.Change.{Leaves}
use gpush.Connect.Client.Routing.{handle_packet-push}

module _ {C : Type 0} (E : Env C) where
  update_session-sessid :
      (now : ℕ) (w : World C) → (update_session E now w).0.con.sess.sessid ≡ w.con.sess.sessid
  unfolding update_session
  update_session-sessid now w = elim (Bool-cases (negative w.con.sess.type)) [
    | inl e ↦ elim (Option-cases w.cache) [ inl n ↦ rw (e, n) refl | inr (c, n) ↦ rw (e, n) refl ]
    | inr e ↦ rw e refl
  ]

  login_exit-sessid :
      (w : World C) (ret : ℕ) (sessid : List ℕ)
      → w.con.sess.sessid ≡ sessid
      → Leaves (λ w'. w'.con.sess.sessid ≡ sessid) (login_exit E w ret)
  unfolding login_exit
  login_exit-sessid w ret sessid e = elim (Bool-cases (negative ret)) [
    | inl n ↦ rw n e
    | inr n ↦ rw n e
  ]

  module _ (now later : ℕ) (w : World C) (body : List ℕ) (lg : LoginRequest)
      (fresh : w.con.status ≡ status_init) (parsed : E.parse_login body ≡ some lg)
      (good : check_type E lg.type ≡ true) where
    login_leaves :
        Leaves
          (λ w'. w'.con.sess.sessid ≡ decoration_name E.svid w.con.id lg.id)
          (handle_login_request E now later w body)
    unfolding handle_login_request first_login login_fields login_session
    login_leaves =
        let w1 = login_session E lg (login_fields E now lg w) in
        rw (parsed, handle_login_request, Leaves)
          (rw (fresh, Leaves)
            (rw good (
              login_exit-sessid (update_session E later w1).0 _ _
                (update_session-sessid later w1))))

    -- A first login of a good type makes a session id of the server, the connection and its name.
    pub login-sessid :
        (w' : World C) (resp : List ℕ) (ret : ℕ)
        → handle_login_request E now later w body ≡ returns w' resp ret
        → w'.con.sess.sessid ≡ decoration_name E.svid w.con.id lg.id
    login-sessid w' resp ret e =
        subst (Leaves (λ w'. w'.con.sess.sessid ≡ decoration_name E.svid w.con.id lg.id)) e
          login_leaves

    -- A connection has the id that its event loop, one of at most 2147, gives it, and its login made a
    -- session id, as the module's hypotheses have it. When the posting to the loop succeeds, a push to the
    -- session id from any connection whose type is not negative, as a push server's is, is posted as it
    -- came to the connection that logged in, on its own event loop.
    pub push-login :
        (w' : World C) (resp : List ℕ) (ret loop id : ℕ)
        → handle_login_request E now later w body ≡ returns w' resp ret
        → w.con.id ≡ connection_id loop id
        → E.svid < 2 ^ 32
        → loop < E.thread_count
        → E.thread_count ≤ 2147
        → negative (E.post loop) ≡ false
        → (at soon : ℕ) (from : World C) (packet : List ℕ) (req : PushRequest)
        → htonl (head_at packet).cmd ≡ push_req
        → E.parse_push_request (drop sizeof_head packet) ≡ some req
        → negative from.con.sess.type ≡ false
        → req.to_sessid ≡ w'.con.sess.sessid
        → let kept = (update_session E at from).0 in
          let op : SendMsgOp = record {
            conid = w.con.id;
            cmd = push_req;
            body = drop sizeof_head packet;
          } in
          handle_packet E at soon from packet
          ≡ some (record (post_op E loop op kept) { req_cnt = kept.req_cnt + 1 }, E.post loop)
    push-login w' resp ret loop id login place s l t p at soon from packet req cmd parse allowed
          to =
        let sessid =
          to
          ∙ login-sessid w' resp ret login
          ∙ ap (λ (conid : ℕ). decoration_name E.svid conid lg.id) place in
        let posted =
          handle_packet-push E at soon from packet req cmd parse allowed loop id lg.id sessid s l t
            p in
        let kept = (update_session E at from).0 in
        posted
        ∙ ap
            (λ (conid : ℕ). some (
              record (post_op E loop
                  (record { conid = conid; cmd = push_req; body = drop sizeof_head packet }) kept) {
                    req_cnt = kept.req_cnt + 1;
                  },
              E.post loop,
            ))
            (sym place)
