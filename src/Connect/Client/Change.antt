-- ===== src/Connect/Client/Change.antt =====
-- What a packet can do to a connection's login and to the servers.
use gpush.Prelude.{
  ℕ, ◌≡◌, refl, ◌∙◌, inl, inr, List, false, if◌then◌else◌, Bool-cases, Option-cases,
}
use mathlib.Core.Logic.{◌⊎◌}
use gpush.Prelude.Int32.{negative, positive}
use gpush.Base.LoopBuf.{is_empty}
use gpush.Connect.TypeMap.{add_server}
use gpush.Connect.Client.Messages.{PushRequest}
use gpush.Connect.Client.{
  Status, status_init, status_login, World, Env, Handled, returns, throws, undefined,
  update_session, Route, to_loop, invalid, throwing, unwritten,
}
use gpush.Connect.Client.Push.{
  handle_push_request, handle_push_response, push_to, respond_to, post_op, con_from_sessid,
}

pub Status-cases : (s : Status) → (s ≡ status_init) ⊎ (s ≡ status_login)
Status-cases status_init = inl refl
Status-cases status_login = inr refl

module _ {C : Type 0} where
  -- The login and the servers are as they were.
  pub record Same (w w' : World C) : Type 0 where
    pub address : w'.con.address ≡ w.con.address
    pub status : w'.con.status ≡ w.con.status
    pub type : w'.con.sess.type ≡ w.con.sess.type
    pub servers : w'.servers ≡ w.servers

  pub Same-refl : (w : World C) → Same w w
  Same-refl w = record { address = refl; status = refl; type = refl; servers = refl }

  pub Same-trans : {w w' w'' : World C} → Same w w' → Same w' w'' → Same w w''
  Same-trans s t = record {
    address = t.address ∙ s.address;
    status = t.status ∙ s.status;
    type = t.type ∙ s.type;
    servers = t.servers ∙ s.servers;
  }

  -- Nothing changes; or a login fails, whatever type it asked for; or it succeeds, and adds the
  -- connection to the servers if its type says so.
  pub data Change (w w' : World C) : Type 0 where
    same : Same w w' → Change w w'
    failed :
        w'.con.address ≡ w.con.address
        → w.con.status ≡ status_init
        → w'.con.status ≡ status_init
        → w'.servers ≡ w.servers
        → Change w w'
    logged_in :
        w'.con.address ≡ w.con.address
        → w.con.status ≡ status_init
        → w'.con.status ≡ status_login
        → w'.servers
          ≡ (if positive w'.con.sess.type then add_server w.con.address w.servers else w.servers)
        → Change w w'

  -- A property of the world that a handler leaves.
  abbrev pub Leaves : (World C → Type 0) → Handled C → Type 0
  Leaves P (returns w resp ret) = P w
  Leaves P (throws w) = P w
  Leaves P undefined = Unit

  module _ (E : Env C) where
    -- Keeping a session is asked of the cache for a negative type only.
    pub update_session-Same : (now : ℕ) (w : World C) → Same w (update_session E now w).0
    unfolding update_session
    update_session-Same now w = elim (Bool-cases (negative w.con.sess.type)) [
      | inl e ↦ elim (Option-cases w.cache) [
        | inl n ↦ rw (e, n) (record { address = refl; status = refl; type = refl; servers = refl })
        | inr (c, n) ↦
            rw (e, n) (record { address = refl; status = refl; type = refl; servers = refl })
      ]
      | inr e ↦ rw e (record { address = refl; status = refl; type = refl; servers = refl })
    ]

    pub update_session-positive :
        (now : ℕ) (w : World C) → negative w.con.sess.type ≡ false → (update_session E now w).1 ≡ 0
    unfolding update_session
    update_session-positive now w e = rw e

    push_to-Same :
        (w : World C) (body : List ℕ) (req : PushRequest) (r : Route)
        → Leaves (Same w) (push_to E w body req r)
    unfolding push_to post_op
    push_to-Same w body req (to_loop loop conid) = elim (Bool-cases (negative (E.post loop))) [
      | inl e ↦ rw e (record { address = refl; status = refl; type = refl; servers = refl })
      | inr e ↦ rw e (record { address = refl; status = refl; type = refl; servers = refl })
    ]
    push_to-Same w body req invalid = Same-refl w
    push_to-Same w body req throwing = Same-refl w
    push_to-Same w body req unwritten = tt

    respond_to-Same :
        (w : World C) (body : List ℕ) (r : Route) → Leaves (Same w) (respond_to E w body r)
    unfolding respond_to post_op
    respond_to-Same w body (to_loop loop conid) = elim (Bool-cases (negative (E.post loop))) [
      | inl e ↦ rw e (record { address = refl; status = refl; type = refl; servers = refl })
      | inr e ↦ rw e (record { address = refl; status = refl; type = refl; servers = refl })
    ]
    respond_to-Same w body invalid = Same-refl w
    respond_to-Same w body throwing = Same-refl w
    respond_to-Same w body unwritten = tt

    pub handle_push_request-Same :
        (w : World C) (body : List ℕ) → Leaves (Same w) (handle_push_request E w body)
    unfolding handle_push_request
    handle_push_request-Same w body = elim (Option-cases (E.parse_push_request body)) [
      | inl n ↦ rw (n, handle_push_request, Leaves) (Same-refl w)
      | inr (req, n) ↦ elim (Bool-cases (negative w.con.sess.type)) [
        | inl e ↦ rw (n, handle_push_request, Leaves) (rw e (Same-refl w))
        | inr e ↦
            rw (n, handle_push_request, Leaves)
              (rw e (push_to-Same w body req (con_from_sessid E req.to_sessid)))
      ]
    ]

    pub handle_push_response-Same :
        (w : World C) (body : List ℕ) → Leaves (Same w) (handle_push_response E w body)
    unfolding handle_push_response
    handle_push_response-Same w body = elim (Option-cases (E.parse_push_response body)) [
      | inl n ↦ rw (n, handle_push_response, Leaves) (Same-refl w)
      | inr (resp, n) ↦ elim (Option-cases resp.to_sessid) [
        | inl t ↦ rw (n, handle_push_response, Leaves) (rw (t, Leaves) (Same-refl w))
        | inr (to, t) ↦ elim (Bool-cases (is_empty to)) [
          | inl e ↦ rw (n, handle_push_response, Leaves) (rw (t, Leaves) (rw e (Same-refl w)))
          | inr e ↦
              rw (n, handle_push_response, Leaves)
                (rw (t, Leaves) (rw e (respond_to-Same w body (con_from_sessid E to))))
        ]
      ]
    ]
