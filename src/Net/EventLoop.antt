-- ===== src/Net/EventLoop.antt =====
-- efnfw/net/ef_event_loop.cpp: an event loop's connections, by their ids, and the operators that
-- other threads post to it. A connection is the value of a type with the operations that the loop
-- calls; `recycle` takes it out of the map, as its destructor does.
pub mod Ops
pub mod Wake
pub mod Sleep
pub mod Lookup
pub mod ConMap
mod Tests
use gpush.Prelude.{
  ℕ, List, [], ◌∷◌, ◌++◌, Option, none, some, Bool, true, false, if◌then◌else◌, ◌==◌,
}
use gpush.Prelude.Int32.{negative, minus}

-- `m_con_map`: ids with connections. An id is in it at most once.
abbrev pub ConnectionMap : Type 0 → Type 0
ConnectionMap A = List (ℕ × A)

module _ {A : Type 0} where
  unfoldable pub get_connection : ℕ → ConnectionMap A → Option A
  get_connection id [] = none
  get_connection id ((k, a) ∷ m) =
      let rest = get_connection id m in if k == id then some a else rest

  -- `erase` of an id, if it is there.
  unfoldable pub del_connection : ℕ → ConnectionMap A → ConnectionMap A
  del_connection id [] = []
  del_connection id ((k, a) ∷ m) =
      let rest = del_connection id m in if k == id then m else (k, a) ∷ rest

  -- The value at an id that is there.
  unfoldable pub set_connection : ℕ → A → ConnectionMap A → ConnectionMap A
  set_connection id a [] = []
  set_connection id a ((k, b) ∷ m) =
      let rest = set_connection id a m in if k == id then (k, a) ∷ m else (k, b) ∷ rest

  -- `insert` where the id is not taken; the place among the others does not matter.
  unfoldable pub insert_connection : ℕ → A → ConnectionMap A → ConnectionMap A
  insert_connection id a m = elim (get_connection id m) [ none ↦ (id, a) ∷ m | some b ↦ m ]

-- The calls of a connection: the state after it, and its result.
pub record Calls (A : Type 0) : Type 0 where
  pub get_id : A → ℕ
  pub on_create : A → A × ℕ
  pub safe_close : A → Option A × ℕ
  pub send_message : A → List ℕ → A × ℕ

-- The operators of ef_operator.h and of the servers' code: another kind has its own handler.
pub data Operator (A B : Type 0) : Type 0 where
  add_op : A → Operator A B
  close_op : ℕ → Operator A B
  close_all_op : Operator A B
  send_op : ℕ → List ℕ → Operator A B
  other_op : B → Operator A B

module _ {A : Type 0} (K : Calls A) where
  -- A connection whose `onCreate` fails is recycled: its destructor takes the entry with its id away.
  unfoldable pub add_connection : A → ConnectionMap A → ConnectionMap A × ℕ
  add_connection a m =
      let (a', ret) = K.on_create a in
      if negative ret
      then (del_connection (K.get_id a') m, minus 1)
      else (insert_connection (K.get_id a') a' m, 0)

  pub close_connection : ℕ → ConnectionMap A → ConnectionMap A × ℕ
  close_connection id m = elim (get_connection id m) [
    | none ↦ (m, 0)
    | some a ↦
        let (left, ret) = K.safe_close a in
        elim left [
          | none ↦ (del_connection (K.get_id a) m, ret)
          | some a' ↦ (set_connection id a' m, ret)
        ]
  ]

  -- `closeAllConnections` takes the connections down first, since closing one may erase its entry.
  close_each : List (ℕ × A) → ConnectionMap A → ConnectionMap A
  unfolding close_connection
  close_each [] m = m
  close_each ((id, a) ∷ cons) m = close_each cons (close_connection id m).0

  pub close_all_connections : ConnectionMap A → ConnectionMap A × ℕ
  unfolding close_each
  close_all_connections m = (close_each m m, 0)

  pub send_to : ℕ → List ℕ → ConnectionMap A → ConnectionMap A × ℕ
  send_to id msg m = elim (get_connection id m) [
    | none ↦ (m, 0)
    | some a ↦
        let (a', ret) = K.send_message a msg in
        (if negative ret then del_connection (K.get_id a') m else set_connection id a' m, 0)
  ]

  -- `process`, with the handler of other operators.
  pub process_op :
      {B : Type 0}
      → (B → ConnectionMap A → ConnectionMap A × ℕ)
      → Operator A B
      → ConnectionMap A
      → ConnectionMap A × ℕ
  unfolding add_connection close_connection close_all_connections send_to
  process_op handle (add_op a) m = add_connection a m
  process_op handle (close_op id) m = close_connection id m
  process_op handle close_all_op m = close_all_connections m
  process_op handle (send_op id msg) m = send_to id msg m
  process_op handle (other_op b) m = handle b m
