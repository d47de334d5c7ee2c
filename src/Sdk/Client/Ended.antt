-- ===== src/Sdk/Client/Ended.antt =====
-- Whatever the order of its steps, the client's loop keeps no connection that has ended.
use gpush.Prelude.{ℕ, ◌≡◌, ◌⊎◌, sym, inl, inr, List, [], ◌∷◌, ◌++◌, some, true}
use mathlib.Core.Path.{subst}
use gpush.Net.EventLoop.ConMap.{Unique}
use gpush.Sdk.Client.{Env, Op, CliConn, Io, busy, gim_network_error, asyn_add_op, on_disconnect}
use gpush.Sdk.Client.Packets.{Handled, handled, failed}
use gpush.Sdk.Client.Loop.{EventLoop, find_conn, conn_timers}
use gpush.Sdk.Client.Posted.{Posted, next, later, Posted-append}
use gpush.Sdk.Client.Sound.{Holds, Holds-trans, on_disconnect-Holds}
use gpush.Sdk.Client.Calls.{CallHolds, handle_read-CallHolds, conn_timers-Holds}
use gpush.Sdk.Client.Fine.{AllFine, AllFine-grows, AllFine-get}
use gpush.Sdk.Client.Steps.{
  IsSafe, Step, posts, runs, times, reads, fails, deletes, Steps, done, and, put_back-IsSafe,
  runs-IsSafe, deletes-IsSafe,
}

handled-Holds : (v w : CliConn × Io) (out : Handled) → out ≡ handled w → CallHolds v out → Holds v w
unfolding CallHolds
handled-Holds v w out e h = subst (CallHolds v) e h

failed-Holds : (v w : CliConn × Io) (out : Handled) → out ≡ failed w → CallHolds v out → Holds v w
unfolding CallHolds
failed-Holds v w out e h = subst (CallHolds v) e h

none_posted : (cid : ℕ) (ops : List Op) → Posted cid ops → ops ≡ [] → ⊥
none_posted cid ops (next rest) e = absurd (cc e)
none_posted cid ops (later op rest p) e = absurd (cc e)

empty-IsSafe : (l : EventLoop) → l.conns ≡ [] → IsSafe l
empty-IsSafe l e = record {
  unique = subst Unique (sym e) tt;
  fine = subst (AllFine l.io.ops) (sym e) tt;
}

module _ (E : Env) where
  Step-IsSafe : (a b : EventLoop) → Step E a b → IsSafe a → IsSafe b
  unfolding asyn_add_op
  Step-IsSafe a b (posts op l) safe = record {
    unique = safe.unique;
    fine =
        AllFine-grows l.io.ops (l.io.ops ++ (op ∷ [])) l.conns
          (λ k p. Posted-append k l.io.ops (op ∷ []) p) safe.fine;
  }
  Step-IsSafe a b (runs now op rest l e) safe = runs-IsSafe E now op rest l safe e
  Step-IsSafe a b (times now cid con tv l found) safe =
      put_back-IsSafe cid con (conn_timers E now (con, l.io) tv).0 l safe found
        (conn_timers-Holds E now (con, l.io) tv)
  Step-IsSafe a b (reads now cid con come w l found e) safe =
      put_back-IsSafe cid con w l safe found
        (handled-Holds (con, l.io) w _ e (handle_read-CallHolds E now come (con, l.io)))
  Step-IsSafe a b (fails now cid con come w l found e) safe =
      put_back-IsSafe cid con (on_disconnect E gim_network_error w) l safe found (
        Holds-trans (con, l.io) w (on_disconnect E gim_network_error w)
          (failed-Holds (con, l.io) w _ e (handle_read-CallHolds E now come (con, l.io)))
          (on_disconnect-Holds E gim_network_error w))
  Step-IsSafe a b (deletes cid l) safe = deletes-IsSafe cid l safe

  Steps-IsSafe : (a b : EventLoop) → Steps E a b → IsSafe a → IsSafe b
  Steps-IsSafe a b (done l) safe = safe
  Steps-IsSafe a b (and u v w steps step) safe = Step-IsSafe v w step (Steps-IsSafe u v steps safe)

  -- A loop without connections takes any steps: operators are posted by any thread and run, timers
  -- end, connections are read, fail and are deleted, in any order and with any callback of the user's.
  -- Then a connection that is found for a client is that client's, and it is logging in or logged in,
  -- or an operator is posted that deletes it. When nothing is posted it is logging in or logged in.
  pub Steps-busy :
      (a b : EventLoop) (cid : ℕ) (con : CliConn)
      → Steps E a b
      → a.conns ≡ []
      → find_conn cid b ≡ some con
      → (con.cid ≡ cid)
        × ((busy con.login_status ≡ true) ⊎ Posted cid b.io.ops)
        × (b.io.ops ≡ [] → busy con.login_status ≡ true)
  unfolding find_conn
  Steps-busy a b cid con steps start found =
      let safe = Steps-IsSafe a b steps (empty-IsSafe a start) in
      let f = AllFine-get b.io.ops cid con b.conns safe.fine found in
      (
        f.its,
        f.sound,
        λ idle. elim f.sound [
          | inl is_busy ↦ is_busy
          | inr p ↦ absurd (none_posted cid b.io.ops p idle)
        ],
      )
