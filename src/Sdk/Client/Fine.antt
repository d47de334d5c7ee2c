-- ===== src/Sdk/Client/Fine.antt =====
-- The connections in the loop's map: each is sound with what is posted.
use gpush.Prelude.{
  ℕ, ◌≡◌, ◌⊎◌, refl, sym, inl, inr, List, [], ◌∷◌, some, true, ◌==◌, ==_iff, Bool-cases, arith,
}
use mathlib.Core.Path.{subst}
use gpush.Net.EventLoop.{ConnectionMap, get_connection, set_connection, del_connection}
use gpush.Net.EventLoop.ConMap.{Absent, Unique}
use gpush.Sdk.Client.{Op, del_conn_op, CliConn, busy}
use gpush.Sdk.Client.Posted.{Posted, next, later}

-- A connection at the client's place, sound with what is posted.
pub record Fine (ops : List Op) (cid : ℕ) (con : CliConn) : Type 0 where
  pub its : con.cid ≡ cid
  pub sound : (busy con.login_status ≡ true) ⊎ Posted cid ops

abbrev pub AllFine : List Op → ConnectionMap CliConn → Type 0
AllFine ops [] = Unit
AllFine ops ((k, con) ∷ m) = Fine ops k con × AllFine ops m

pub Fine-grows :
    (ops ops' : List Op) (cid : ℕ) (con : CliConn)
    → (Posted cid ops → Posted cid ops')
    → Fine ops cid con
    → Fine ops' cid con
Fine-grows ops ops' cid con g f = record {
  its = f.its;
  sound = elim f.sound [ inl b ↦ inl b | inr p ↦ inr (g p) ];
}

pub AllFine-grows :
    (ops ops' : List Op) (m : ConnectionMap CliConn)
    → ((k : ℕ) → Posted k ops → Posted k ops')
    → AllFine ops m
    → AllFine ops' m
AllFine-grows ops ops' [] g h = tt
AllFine-grows ops ops' ((k, con) ∷ m) g h =
    (Fine-grows ops ops' k con (g k) h.0, AllFine-grows ops ops' m g h.1)

pub AllFine-get :
    (ops : List Op) (cid : ℕ) (con : CliConn) (m : ConnectionMap CliConn)
    → AllFine ops m
    → get_connection cid m ≡ some con
    → Fine ops cid con
unfolding get_connection
AllFine-get ops cid con [] h e = absurd (cc e)
AllFine-get ops cid con ((k, c) ∷ m) h e = elim (Bool-cases (k == cid)) [
  | inl same ↦
      let c_lem : c ≡ con = cc (rw same at e) in
      subst (λ (x : CliConn). Fine ops cid x) c_lem
        (subst (λ (j : ℕ). Fine ops j c) ((==_iff k cid).0 same) h.0)
  | inr other ↦ AllFine-get ops cid con m h.1 (rw other at e)
]

pub AllFine-set :
    (ops : List Op) (cid : ℕ) (con : CliConn) (m : ConnectionMap CliConn)
    → AllFine ops m
    → Fine ops cid con
    → AllFine ops (set_connection cid con m)
unfolding set_connection
AllFine-set ops cid con [] h f = tt
AllFine-set ops cid con ((k, c) ∷ m) h f = elim (Bool-cases (k == cid)) [
  | inl same ↦ rw same (subst (λ (j : ℕ). Fine ops j con) (sym ((==_iff k cid).0 same)) f, h.1)
  | inr other ↦ rw other (h.0, AllFine-set ops cid con m h.1 f)
]

pub AllFine-del :
    (ops : List Op) (cid : ℕ) (m : ConnectionMap CliConn)
    → AllFine ops m
    → AllFine ops (del_connection cid m)
unfolding del_connection
AllFine-del ops cid [] h = tt
AllFine-del ops cid ((k, c) ∷ m) h = elim (Bool-cases (k == cid)) [
  | inl same ↦ rw same h.1
  | inr other ↦ rw other (h.0, AllFine-del ops cid m h.1)
]

-- The first operator is gone: it was the connection's deletion, or that is still posted.
posted_tail :
    (cid : ℕ) (op : Op) (ops rest : List Op)
    → Posted cid ops
    → ops ≡ op ∷ rest
    → (op ≡ del_conn_op cid) ⊎ Posted cid rest
posted_tail cid op ops rest (next r) e = inl (cc e)
posted_tail cid op ops rest (later o r p) e =
    let tail : r ≡ rest = cc e in inr (subst (Posted cid) tail p)

tail-Fine :
    (op : Op) (rest : List Op) (cid : ℕ) (con : CliConn)
    → (op ≡ del_conn_op cid → ⊥)
    → Fine (op ∷ rest) cid con
    → Fine rest cid con
tail-Fine op rest cid con other f = record {
  its = f.its;
  sound = elim f.sound [
    | inl b ↦ inl b
    | inr p ↦ elim (posted_tail cid op (op ∷ rest) rest p refl) [
      | inl same ↦ absurd (other same)
      | inr q ↦ inr q
    ]
  ];
}

Absent-cons :
    (cid k : ℕ) (con : CliConn) (m : ConnectionMap CliConn)
    → Absent cid ((k, con) ∷ m)
    → Absent cid m
unfolding get_connection
Absent-cons cid k con m e = elim (Bool-cases (k == cid)) [
  | inl same ↦ absurd (cc (rw same at e))
  | inr other ↦ rw other at e
]

Absent-set :
    (j cid : ℕ) (con : CliConn) (m : ConnectionMap CliConn)
    → Absent j m
    → Absent j (set_connection cid con m)
unfolding get_connection set_connection
Absent-set j cid con [] e = refl
Absent-set j cid con ((k, c) ∷ m) e = elim (Bool-cases (k == j)) [
  | inl found ↦ absurd (cc (rw found at e))
  | inr missed ↦ elim (Bool-cases (k == cid)) [
    | inl same ↦ rw same (rw missed (rw missed at e))
    | inr other ↦ rw other (rw missed (Absent-set j cid con m (rw missed at e)))
  ]
]

-- An operator that deletes none of them runs.
pub AllFine-tail :
    (op : Op) (rest : List Op) (m : ConnectionMap CliConn)
    → ((cid : ℕ) → op ≡ del_conn_op cid → Absent cid m)
    → AllFine (op ∷ rest) m
    → AllFine rest m
unfolding get_connection
AllFine-tail op rest [] free h = tt
AllFine-tail op rest ((k, con) ∷ m) free h = (
  tail-Fine op rest k con
      (λ e. let same : (k == k) ≡ true = ground arith in absurd (cc (rw same at (free k e)))) h.0,
  AllFine-tail op rest m (λ cid e. Absent-cons cid k con m (free cid e)) h.1,
)

pub Unique-set :
    (cid : ℕ) (con : CliConn) (m : ConnectionMap CliConn)
    → Unique m
    → Unique (set_connection cid con m)
unfolding set_connection
Unique-set cid con [] u = tt
Unique-set cid con ((k, c) ∷ m) u = elim (Bool-cases (k == cid)) [
  | inl same ↦ rw same u
  | inr other ↦ rw other (Absent-set k cid con m u.0, Unique-set cid con m u.1)
]
