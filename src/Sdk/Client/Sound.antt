-- ===== src/Sdk/Client/Sound.antt =====
-- A connection that has ended is one that an operator is posted to delete.
use gpush.Prelude.{
  ℕ, ◌≡◌, ◌⊎◌, refl, sym, ap, ◌∙◌, inl, inr, List, [], ◌∷◌, ◌++◌, Option, none, some, Bool, true,
  false, Bool-cases, arith,
}
use mathlib.Core.Path.{subst}
use gpush.Prelude.Int32.{positive, minus}
use gpush.Proto.{login_req}
use gpush.Sdk.Client.{
  gettime_ms, login_packet, Env, del_conn_op, Status, do_login, login_fail, disconnected,
  same_status, Event, CliConn, Io, asyn_add_op, asyn_destroy, close_socket, closefd, publish,
  publish_some, set_status, on_login_fail, on_disconnect, send_on, send_to, send_packet, login,
  busy, status_event,
}
use gpush.Sdk.Client.Posted.{Posted, Posted-append, Posted_end}

-- Nothing that was posted is taken back, and the connection stays that of its client.
pub record Grows (w w' : CliConn × Io) : Type 0 where
  pub cid : w'.0.cid ≡ w.0.cid
  pub posted : (k : ℕ) → Posted k w.1.ops → Posted k w'.1.ops

unfoldable pub IsSound : CliConn × Io → Type 0
IsSound w = (busy w.0.login_status ≡ true) ⊎ Posted w.0.cid w.1.ops

pub record Holds (w w' : CliConn × Io) : Type 0 where
  pub grows : Grows w w'
  pub sound : IsSound w → IsSound w'

pub Grows-refl : (w : CliConn × Io) → Grows w w
Grows-refl w = record { cid = refl; posted = λ k p. p }

pub Grows-trans : (a b c : CliConn × Io) → Grows a b → Grows b c → Grows a c
Grows-trans a b c g h = record { cid = h.cid ∙ g.cid; posted = λ k p. h.posted k (g.posted k p) }

pub Holds-trans : (a b c : CliConn × Io) → Holds a b → Holds b c → Holds a c
Holds-trans a b c g h = record {
  grows = Grows-trans a b c g.grows h.grows;
  sound = λ s. h.sound (g.sound s);
}

pub busy-IsSound : (w : CliConn × Io) → busy w.0.login_status ≡ true → IsSound w
unfolding IsSound
busy-IsSound w b = inl b

-- A step that leaves the status as it is.
pub quiet-Holds :
    (w w' : CliConn × Io) → Grows w w' → w'.0.login_status ≡ w.0.login_status → Holds w w'
unfolding IsSound
quiet-Holds w w' g same = record {
  grows = g;
  sound = λ s. elim s [
    | inl b ↦ inl (ap busy same ∙ b)
    | inr p ↦ inr (subst (λ (k : ℕ). Posted k w'.1.ops) (sym g.cid) (g.posted w.0.cid p))
  ];
}

pub ends-Holds : (w w' : CliConn × Io) → Grows w w' → IsSound w' → Holds w w'
ends-Holds w w' g s = record { grows = g; sound = λ _. s }

asyn_destroy-Grows : (w : CliConn × Io) → Grows w (asyn_destroy w)
unfolding asyn_destroy asyn_add_op
asyn_destroy-Grows (con, io) = record {
  cid = refl;
  posted = λ k p. Posted-append k io.ops (del_conn_op con.cid ∷ []) p;
}

asyn_destroy-IsSound : (w : CliConn × Io) → IsSound (asyn_destroy w)
unfolding asyn_destroy asyn_add_op IsSound
asyn_destroy-IsSound (con, io) = inr (Posted_end con.cid io.ops)

close_socket-ops : (fd : Option ℕ) (io : Io) → (close_socket fd io).ops ≡ io.ops
unfolding close_socket
close_socket-ops none io = refl
close_socket-ops (some fd) io = refl

closefd-Grows : (w : CliConn × Io) → Grows w (closefd w)
unfolding closefd
closefd-Grows (con, io) = record {
  cid = refl;
  posted = λ k p. subst (Posted k) (sym (close_socket-ops con.fd io)) p;
}

closefd_status : (w : CliConn × Io) → (closefd w).0.login_status ≡ w.0.login_status
unfolding closefd
closefd_status (con, io) = refl

module _ (E : Env) where
  publish_some-posted :
      (ev : Option Event) (io : Io) (k : ℕ) → Posted k io.ops → Posted k (publish_some E ev io).ops
  unfolding publish_some publish
  publish_some-posted none io k p = p
  publish_some-posted (some ev) io k p = Posted-append k io.ops (E.react (ev ∷ io.events)) p

  pub set_status-Grows :
      (status : Status) (code : ℕ) (notify : Bool) (w : CliConn × Io)
      → Grows w (set_status E status code notify w)
  unfolding set_status
  set_status-Grows status code true (con, io) =
      elim (Bool-cases (same_status status con.login_status)) [
        | inl same ↦ rw (same, set_status) (Grows-refl (con, io))
        | inr new ↦
            rw (new, set_status)
              (record {
                cid = refl;
                posted = publish_some-posted (status_event status con.cid code) io;
              })
      ]
  set_status-Grows status code false (con, io) =
      elim (Bool-cases (same_status status con.login_status)) [
        | inl same ↦ rw (same, set_status) (Grows-refl (con, io))
        | inr new ↦ rw (new, set_status) (record { cid = refl; posted = λ k p. p })
      ]

  same_status_lem : (a b : Status) → same_status a b ≡ true → b ≡ a
  unfolding same_status
  same_status_lem a b e = ground arith

  pub set_status_lem :
      (status : Status) (code : ℕ) (notify : Bool) (w : CliConn × Io)
      → (set_status E status code notify w).0.login_status ≡ status
  unfolding set_status
  set_status_lem status code notify (con, io) =
      elim (Bool-cases (same_status status con.login_status)) [
        | inl same ↦ rw (same, set_status) (same_status_lem status con.login_status same)
        | inr new ↦ rw (new, set_status) refl
      ]

  on_login_fail-Grows : (code : ℕ) (w : CliConn × Io) → Grows w (on_login_fail E code w)
  unfolding on_login_fail
  on_login_fail-Grows code w =
      let ended = set_status E login_fail code true (closefd w) in
      Grows-trans w ended (asyn_destroy ended)
        (Grows-trans w (closefd w) ended (closefd-Grows w)
          (set_status-Grows login_fail code true (closefd w)))
        (asyn_destroy-Grows ended)

  pub on_login_fail-IsSound : (code : ℕ) (w : CliConn × Io) → IsSound (on_login_fail E code w)
  unfolding on_login_fail
  on_login_fail-IsSound code w =
      asyn_destroy-IsSound (set_status E login_fail code true (closefd w))

  pub on_login_fail-Holds : (code : ℕ) (w : CliConn × Io) → Holds w (on_login_fail E code w)
  on_login_fail-Holds code w =
      ends-Holds w (on_login_fail E code w) (on_login_fail-Grows code w)
        (on_login_fail-IsSound code w)

  pub disconnects-Holds :
      (code : ℕ) (w : CliConn × Io)
      → Holds w (asyn_destroy (set_status E disconnected code true (closefd w)))
  disconnects-Holds code w =
      let ended = set_status E disconnected code true (closefd w) in
      ends-Holds w (asyn_destroy ended)
        (Grows-trans w ended (asyn_destroy ended)
          (Grows-trans w (closefd w) ended (closefd-Grows w)
            (set_status-Grows disconnected code true (closefd w)))
          (asyn_destroy-Grows ended))
        (asyn_destroy-IsSound ended)

  pub on_disconnect-Holds : (code : ℕ) (w : CliConn × Io) → Holds w (on_disconnect E code w)
  unfolding on_disconnect
  on_disconnect-Holds code w = disconnects-Holds code w

  -- Sending leaves the status, whether it succeeds or not.
  record IsQuiet (w w' : CliConn × Io) : Type 0 where
    grows : Grows w w'
    same : w'.0.login_status ≡ w.0.login_status

  send_on-IsQuiet : (fd : ℕ) (m : List ℕ) (w : CliConn × Io) → IsQuiet w (send_on E fd m w).0
  unfolding send_on
  send_on-IsQuiet fd m (con, io) = elim (Bool-cases (positive (E.send fd m))) [
    | inl good ↦
        rw (good, send_on)
          (record { grows = record { cid = refl; posted = λ k p. p }; same = refl })
    | inr bad ↦
        let w : CliConn × Io = (con, record io { sent = io.sent ++ ((fd, m) ∷ []) }) in
        rw (bad, send_on)
          (record {
            grows = record { cid = (closefd-Grows w).cid; posted = (closefd-Grows w).posted };
            same = closefd_status w;
          })
  ]

  sent_by :
      (o : Option ℕ) (m : List ℕ) (w : CliConn × Io)
      → IsQuiet w (
          (elim o as (λ _. (CliConn × Io) × ℕ) [
            | none ↦ (w, minus 1)
            | some fd ↦ send_on E fd m w
          ]).0)
  sent_by none m w = record { grows = Grows-refl w; same = refl }
  sent_by (some fd) m w = send_on-IsQuiet fd m w

  send_packet-IsQuiet :
      (cmd : ℕ) (body : List ℕ) (w : CliConn × Io) → IsQuiet w (send_packet E cmd body w).0
  unfolding send_packet send_to
  send_packet-IsQuiet cmd body (con, io) = sent_by con.fd _ (con, io)

  pub send_packet-Holds :
      (cmd : ℕ) (body : List ℕ) (w : CliConn × Io) → Holds w (send_packet E cmd body w).0
  send_packet-Holds cmd body w =
      let q = send_packet-IsQuiet cmd body w in
      quiet-Holds w (send_packet E cmd body w).0 q.grows q.same

  -- A login that begins is sound, however its packet fares.
  module _ (now : ℕ) (w : CliConn × Io) where
    abbrev begun : CliConn × Io
    begun = set_status E do_login 0 false w

    abbrev timed : CliConn × Io
    timed = (record (begun.0) { login_time = gettime_ms now }, begun.1)

    abbrev asked : CliConn × Io
    asked = (send_packet E login_req (login_packet E begun.0) timed).0

    asked-IsQuiet : IsQuiet timed asked
    asked-IsQuiet = send_packet-IsQuiet login_req (login_packet E begun.0) timed

    pub login-IsSound : IsSound (login E now w).0
    unfolding login busy
    login-IsSound =
        busy-IsSound asked (ap busy (asked-IsQuiet.same ∙ set_status_lem do_login 0 false w))

    pub login-Holds : Holds w (login E now w).0
    unfolding login
    login-Holds =
        ends-Holds w asked
          (Grows-trans w timed asked
            (Grows-trans w begun timed (set_status-Grows do_login 0 false w)
              (record { cid = refl; posted = λ k p. p }))
            asked-IsQuiet.grows)
          login-IsSound
