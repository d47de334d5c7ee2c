-- ===== src/Net/EventLoop/ConMap.antt =====
-- The map of connections: what an id leads to, and that no id is in it twice.
use gpush.Prelude.{
  ℕ, ◌≡◌, refl, sym, ap, ◌∙◌, inl, inr, [], ◌∷◌, none, some, true, false, ◌==◌, ==_iff, Bool-cases,
  Option-cases, arith,
}
use gpush.Prelude.Int32.{negative}
use gpush.Net.EventLoop.{
  ConnectionMap, get_connection, del_connection, insert_connection, Calls, add_connection,
}
use gpush.Net.EventLoop.Lookup.{get-del_other}

module _ {A : Type 0} where
  -- No id is in the map twice.
  abbrev pub Absent : ℕ → ConnectionMap A → Type 0
  Absent id m = get_connection id m ≡ none

  abbrev pub Unique : ConnectionMap A → Type 0
  Unique [] = Unit
  Unique ((k, a) ∷ m) = Absent k m × Unique m

  pub get-del :
      (id : ℕ) (m : ConnectionMap A) → Unique m → get_connection id (del_connection id m) ≡ none
  unfolding get_connection del_connection
  get-del id [] u = refl
  get-del id ((k, a) ∷ m) u = elim (Bool-cases (k == id)) [
    | inl e ↦ rw e (ap (λ i. get_connection i m) (sym ((==_iff k id).0 e)) ∙ u.0)
    | inr e ↦ rw e (rw e (get-del id m u.1))
  ]

  pub Unique-del : (id : ℕ) (m : ConnectionMap A) → Unique m → Unique (del_connection id m)
  unfolding del_connection
  Unique-del id [] u = tt
  Unique-del id ((k, a) ∷ m) u = elim (Bool-cases (k == id)) [
    | inl e ↦ rw e u.1
    | inr e ↦ rw e (
      get-del_other k id m (λ same. cc (e, (==_iff k id).1 (sym same))) ∙ u.0,
      Unique-del id m u.1,
    )
  ]

  get-insert :
      (id : ℕ) (a : A) (m : ConnectionMap A)
      → get_connection id m ≡ none
      → get_connection id (insert_connection id a m) ≡ some a
  unfolding get_connection insert_connection
  get-insert id a m e =
      let same : (id == id) ≡ true = ground arith in rw (e, insert_connection) (rw same refl)

  Unique-insert :
      (id : ℕ) (a : A) (m : ConnectionMap A) → Unique m → Unique (insert_connection id a m)
  unfolding insert_connection
  Unique-insert id a m u = elim (Option-cases (get_connection id m)) [
    | inl e ↦ rw (e, insert_connection) (e, u)
    | inr (b, e) ↦ rw (e, insert_connection) u
  ]

  -- A connection that is added under an id that is free is found by it until it is destroyed, and
  -- then the id is free again.
  pub add_connection-get :
      (K : Calls A) (a : A) (m : ConnectionMap A)
      → Unique m
      → get_connection (K.get_id (K.on_create a).0) m ≡ none
      → negative (K.on_create a).1 ≡ false
      → let id = K.get_id (K.on_create a).0 in
        let added = (add_connection K a m).0 in
        (get_connection id added ≡ some (K.on_create a).0)
        × (get_connection id (del_connection id added) ≡ none)
  unfolding add_connection
  add_connection-get K a m u free good =
      let id = K.get_id (K.on_create a).0 in
      let a' = (K.on_create a).0 in
      rw good
        (get-insert id a' m free, get-del id (insert_connection id a' m) (Unique-insert id a' m u))
