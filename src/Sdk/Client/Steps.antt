-- ===== src/Sdk/Client/Steps.antt =====
-- The client's event loop, step by step. Other threads post operators at any time.
use gpush.Prelude.{
  ℕ, ◌≡◌, refl, sym, ◌∙◌, inl, inr, List, ◌∷◌, some, Bool, true, false, Option-cases,
}
use mathlib.Core.Path.{subst}
use gpush.Net.EventLoop.{get_connection, del_connection}
use gpush.Net.EventLoop.ConMap.{Absent, Unique, Unique-del, get-del}
use gpush.Sdk.Sock.{Arrival}
use gpush.Sdk.Client.{
  Env, AddrItem, Op, login_op, keepalive_op, del_conn_op, disconnect_op, get_cid, CliConn, Io,
  gim_network_error, new_conn, add_timer, on_disconnect, busy, connect_and_login, asyn_add_op,
}
use gpush.Sdk.Client.Packets.{handled, failed, handle_read}
use gpush.Sdk.Client.Timeval.{Timeval}
use gpush.Sdk.Client.Loop.{
  EventLoop, find_conn, del_conn, put_back, process_login, process, keep_op, run_op, pop_op,
  conn_timers,
}
use gpush.Sdk.Client.Fine.{
  Fine, AllFine, AllFine-grows, AllFine-get, AllFine-set, AllFine-del, AllFine-tail, Unique-set,
}
use gpush.Sdk.Client.Posted.{Posted}
use gpush.Sdk.Client.Sound.{Holds, IsSound, on_disconnect-Holds}
use gpush.Sdk.Client.Handlers.{still-Holds, connect_and_login-Holds, connect_and_login-IsSound}

-- What holds of the loop between its steps.
pub record IsSafe (l : EventLoop) : Type 0 where
  pub unique : Unique l.conns
  pub fine : AllFine l.io.ops l.conns

-- `posts`: any thread posts an operator. The others are the parts of a turn of `run`.
pub data Step (E : Env) : EventLoop → EventLoop → Type 0 where
  posts :
      (op : Op) (l : EventLoop) → Step E l (record { conns = l.conns; io = asyn_add_op op l.io })
  runs :
      (now : ℕ) (op : Op) (rest : List Op) (l : EventLoop)
      → l.io.ops ≡ op ∷ rest
      → Step E l (run_op E now op (pop_op E rest l))
  times :
      (now cid : ℕ) (con : CliConn) (tv : Timeval) (l : EventLoop)
      → find_conn cid l ≡ some con
      → Step E l (put_back cid (conn_timers E now (con, l.io) tv).0 l)
  reads :
      (now cid : ℕ) (con : CliConn) (come : List Arrival) (w : CliConn × Io) (l : EventLoop)
      → find_conn cid l ≡ some con
      → handle_read E now come (con, l.io) ≡ handled w
      → Step E l (put_back cid w l)
  fails :
      (now cid : ℕ) (con : CliConn) (come : List Arrival) (w : CliConn × Io) (l : EventLoop)
      → find_conn cid l ≡ some con
      → handle_read E now come (con, l.io) ≡ failed w
      → Step E l (put_back cid (on_disconnect E gim_network_error w) l)
  deletes : (cid : ℕ) (l : EventLoop) → Step E l (del_conn cid l).0

pub data Steps (E : Env) : EventLoop → EventLoop → Type 0 where
  done : (l : EventLoop) → Steps E l l
  and : (a b c : EventLoop) → Steps E a b → Step E b c → Steps E a c

-- A call on a connection that is in the map.
pub put_back-IsSafe :
    (cid : ℕ) (con : CliConn) (w : CliConn × Io) (l : EventLoop)
    → IsSafe l
    → find_conn cid l ≡ some con
    → Holds (con, l.io) w
    → IsSafe (put_back cid w l)
unfolding put_back find_conn IsSound
put_back-IsSafe cid con (next_con, io) l safe found h =
    let f = AllFine-get l.io.ops cid con l.conns safe.fine found in
    let before : IsSound (con, l.io) = elim f.sound [
      | inl b ↦ inl b
      | inr p ↦ inr (subst (λ (k : ℕ). Posted k l.io.ops) (sym f.its) p)
    ] in
    let itself : next_con.cid ≡ cid = h.grows.cid ∙ f.its in
    record {
      unique = Unique-set cid next_con l.conns safe.unique;
      fine =
          AllFine-set io.ops cid next_con l.conns
            (AllFine-grows l.io.ops io.ops l.conns h.grows.posted safe.fine)
            (record {
              its = itself;
              sound = elim (h.sound before) [
                | inl b ↦ inl b
                | inr p ↦ inr (subst (λ (k : ℕ). Posted k io.ops) itself p)
              ];
            });
    }

timer-Holds :
    (now : ℕ) (op : Op) (con : CliConn) (io : Io) → Holds (con, io) (add_timer now op con, io)
unfolding add_timer
timer-Holds now op con io = still-Holds (con, io) (add_timer now op con, io) refl refl refl

pub deletes-IsSafe : (cid : ℕ) (l : EventLoop) → IsSafe l → IsSafe (del_conn cid l).0
unfolding del_conn
deletes-IsSafe cid l safe = elim (Option-cases (find_conn cid l)) [
  | inl missing ↦ rw (missing, del_conn) safe
  | inr (con, found) ↦
      rw (found, del_conn)
        (record {
          unique = Unique-del cid l.conns safe.unique;
          fine = AllFine-del l.io.ops cid l.conns safe.fine;
        })
]

module _ (E : Env) (now : ℕ) where
  keep-IsSafe : (op : Op) (l : EventLoop) (b : Bool) → IsSafe l → IsSafe (keep_op E now op (l, b))
  unfolding keep_op
  keep-IsSafe op l false safe = safe
  keep-IsSafe op l true safe = elim (Option-cases (find_conn (get_cid op) l)) [
    | inl missing ↦ rw (missing, keep_op) safe
    | inr (con, found) ↦
        rw (found, keep_op)
          (put_back-IsSafe (get_cid op) con (add_timer now op con, l.io) l safe found
            (timer-Holds now op con l.io))
  ]

  -- The loop without the operator that it runs next, if that deletes no connection.
  popped :
      (op : Op) (rest : List Op) (l : EventLoop)
      → IsSafe l
      → l.io.ops ≡ op ∷ rest
      → ((cid : ℕ) → op ≡ del_conn_op cid → ⊥)
      → IsSafe (pop_op E rest l)
  unfolding pop_op
  popped op rest l safe e other = record {
    unique = safe.unique;
    fine =
        AllFine-tail op rest l.conns (λ cid same. absurd (other cid same))
          (subst (λ (ops : List Op). AllFine ops l.conns) e safe.fine);
  }

  new_conn_cid :
      (cid : ℕ) (a : AddrItem) (ver : List ℕ) (span : ℕ) → (new_conn now cid a ver span).cid ≡ cid
  unfolding new_conn
  new_conn_cid cid a ver span = refl

  new_conn_idle :
      (cid : ℕ) (a : AddrItem) (ver : List ℕ) (span : ℕ)
      → busy (new_conn now cid a ver span).login_status ≡ false
  unfolding new_conn busy
  new_conn_idle cid a ver span = refl

  new-Fine :
      (con : CliConn) (io : Io) (cid : ℕ)
      → con.cid ≡ cid
      → busy con.login_status ≡ false
      → Fine (connect_and_login E now (con, io)).0.1.ops cid (connect_and_login E now (con, io)).0.0
  unfolding IsSound
  new-Fine con io cid its idle =
      let w = (connect_and_login E now (con, io)).0 in
      let itself : w.0.cid ≡ cid = (connect_and_login-Holds E now (con, io)).grows.cid ∙ its in
      record {
        its = itself;
        sound = elim (connect_and_login-IsSound E now con io idle) [
          | inl b ↦ inl b
          | inr p ↦ inr (subst (λ (k : ℕ). Posted k w.1.ops) itself p)
        ];
      }

  login-IsSafe :
      (cid : ℕ) (a : AddrItem) (ver : List ℕ) (span : ℕ) (l : EventLoop)
      → IsSafe l
      → IsSafe (process_login E now cid a ver span l).0
  unfolding process_login find_conn
  login-IsSafe cid a ver span l safe = elim (Option-cases (get_connection cid l.conns)) [
    | inr (con, found) ↦ rw (found, process_login) safe
    | inl missing ↦
        let con = new_conn now cid a ver span in
        let h = connect_and_login-Holds E now (con, l.io) in
        rw (missing, process_login)
          (record {
            unique = (missing, safe.unique);
            fine = (
              new-Fine con l.io cid (new_conn_cid cid a ver span) (new_conn_idle cid a ver span),
              AllFine-grows l.io.ops (connect_and_login E now (con, l.io)).0.1.ops l.conns
                  h.grows.posted safe.fine,
            );
          })
  ]

  -- The operator that deletes a connection runs: nothing needs it any more.
  del-IsSafe :
      (cid : ℕ) (rest : List Op) (l : EventLoop)
      → IsSafe l
      → l.io.ops ≡ del_conn_op cid ∷ rest
      → IsSafe (del_conn cid (pop_op E rest l)).0
  unfolding pop_op del_conn find_conn
  del-IsSafe cid rest l safe e =
      let fine : AllFine (del_conn_op cid ∷ rest) l.conns =
        subst (λ (ops : List Op). AllFine ops l.conns) e safe.fine in
      elim (Option-cases (get_connection cid l.conns)) [
        | inl missing ↦
            rw (missing, del_conn)
              (record {
                unique = safe.unique;
                fine =
                    AllFine-tail (del_conn_op cid) rest l.conns
                      (λ k same.
                        let it : cid ≡ k = cc same in
                        subst (λ (j : ℕ). Absent j l.conns) it missing)
                      fine;
              })
        | inr (con, found) ↦
            rw (found, del_conn)
              (record {
                unique = Unique-del cid l.conns safe.unique;
                fine =
                    AllFine-tail (del_conn_op cid) rest (del_connection cid l.conns)
                      (λ k same.
                        let it : cid ≡ k = cc same in
                        subst (λ (j : ℕ). Absent j (del_connection cid l.conns)) it
                          (get-del cid l.conns safe.unique))
                      (AllFine-del (del_conn_op cid ∷ rest) cid l.conns fine);
              })
      ]

  pub runs-IsSafe :
      (op : Op) (rest : List Op) (l : EventLoop)
      → IsSafe l
      → l.io.ops ≡ op ∷ rest
      → IsSafe (run_op E now op (pop_op E rest l))
  unfolding run_op process
  runs-IsSafe (login_op cid a ver span) rest l safe e = keep-IsSafe (login_op cid a ver span) _ _ (
      login-IsSafe cid a ver span (pop_op E rest l)
        (popped (login_op cid a ver span) rest l safe e (λ k x. absurd (cc x))))
  runs-IsSafe (keepalive_op cid span) rest l safe e =
      let op = keepalive_op cid span in
      let l0 = pop_op E rest l in
      let safe0 = popped op rest l safe e (λ k x. absurd (cc x)) in
      elim (Option-cases (find_conn cid l0)) [
        | inl missing ↦ rw (missing, process) (keep-IsSafe op l0 false safe0)
        | inr (con, found) ↦ rw (found, process) (keep-IsSafe op l0 true safe0)
      ]
  runs-IsSafe (del_conn_op cid) rest l safe e = del-IsSafe cid rest l safe e
  runs-IsSafe (disconnect_op cid) rest l safe e =
      let op = disconnect_op cid in
      let l0 = pop_op E rest l in
      let safe0 = popped op rest l safe e (λ k x. absurd (cc x)) in
      elim (Option-cases (find_conn cid l0)) [
        | inl missing ↦ rw (missing, process) (keep-IsSafe op l0 false safe0)
        | inr (con, found) ↦
            rw (found, process)
              (keep-IsSafe op (put_back cid (on_disconnect E 0 (con, l0.io)) l0) false (
                put_back-IsSafe cid con (on_disconnect E 0 (con, l0.io)) l0 safe0 found
                  (on_disconnect-Holds E 0 (con, l0.io))))
      ]
