-- ===== src/Net/EventLoop/Lookup.antt =====
-- What a map of connections gives for an id after another was changed, and for an id that was set.
use gpush.Prelude.{
  ℕ, ◌≡◌, ◌≢◌, ◌⊎◌, refl, inl, inr, [], ◌∷◌, none, some, true, false, ◌==◌, ==_iff, Bool-cases,
  arith,
}
use gpush.Net.EventLoop.{ConnectionMap, get_connection, del_connection, set_connection}

==_refl : (a : ℕ) → (a == a) ≡ true
==_refl a = ground arith

==_no : (a b : ℕ) → a ≢ b → (a == b) ≡ false
==_no a b n = ground arith

module _ {A : Type 0} where
  pub get-cons : (id : ℕ) (a : A) (m : ConnectionMap A) → get_connection id ((id, a) ∷ m) ≡ some a
  unfolding get_connection
  get-cons id a m = rw (==_refl id) refl

  pub get-cons_other :
      (id k : ℕ) (a : A) (m : ConnectionMap A)
      → k ≢ id
      → get_connection id ((k, a) ∷ m) ≡ get_connection id m
  unfolding get_connection
  get-cons_other id k a m n = rw (==_no k id n) refl

  pub get-del_other :
      (id k : ℕ) (m : ConnectionMap A)
      → k ≢ id
      → get_connection id (del_connection k m) ≡ get_connection id m
  unfolding get_connection del_connection
  get-del_other id k [] n = refl
  get-del_other id k ((j, a) ∷ m) n = ground (arith, get-del_other id k m n)

  pub get-set_other :
      (id k : ℕ) (b : A) (m : ConnectionMap A)
      → k ≢ id
      → get_connection id (set_connection k b m) ≡ get_connection id m
  unfolding get_connection set_connection
  get-set_other id k b [] n = refl
  get-set_other id k b ((j, a) ∷ m) n = ground (arith, get-set_other id k b m n)

  pub get-set :
      (id : ℕ) (a b : A) (m : ConnectionMap A)
      → get_connection id m ≡ some a
      → get_connection id (set_connection id b m) ≡ some b
  unfolding get_connection set_connection
  get-set id a b [] h = cc
  get-set id a b ((j, c) ∷ m) h = ground (arith, get-set id a b m)

  pub del_absent :
      (id : ℕ) (m : ConnectionMap A) → get_connection id m ≡ none → del_connection id m ≡ m
  unfolding get_connection del_connection
  del_absent id [] h = refl
  del_absent id ((j, c) ∷ m) h = ground (arith, del_absent id m)

pub same_or_other : (a b : ℕ) → (a ≡ b) ⊎ (a ≢ b)
same_or_other a b = elim (Bool-cases (a == b)) [
  | inl e ↦ inl ((==_iff a b).0 e)
  | inr e ↦ inr (λ same. cc (e, (==_iff a b).1 same))
]
