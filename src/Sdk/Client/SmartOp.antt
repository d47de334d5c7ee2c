-- ===== src/Sdk/Client/SmartOp.antt =====
-- clientsdk/client/opbase.cpp: the references that count an operator, as processOps, addTimer,
-- popTimer and processTimers hold them.
use gpush.Prelude.{
  ℕ, zero, suc, ◌≡◌, refl, Option, none, some, Bool, true, false, if◌then◌else◌, ltb,
}
use gpush.Prelude.Int32.{minus}

-- An operator: `m_ref`, or that it was deleted.
pub data Cell : Type 0 where
  live : ℕ → Cell
  deleted : Cell

-- A `SmartOp`: whether its `m_op` is the operator, or NULL.
pub data SmartOp : Type 0 where
  to_op : SmartOp
  null : SmartOp

infixl 10 ◌>>=◌
abbrev ◌>>=◌ : {A B : Type 0} → Option A → (A → Option B) → Option B
o >>= f = elim o [ none ↦ none | some x ↦ f x ]

-- `increase_`. None, here and below, is the use of an operator that was deleted.
unfoldable pub increase_ : Cell → Option Cell
increase_ (live m_ref) = some (live (suc m_ref))
increase_ deleted = none

-- A call of one of its methods: `process`, `getSN`, `OnTimeout`.
unfoldable pub call : Cell → Option Cell
call (live m_ref) = some (live m_ref)
call deleted = none

unfoldable pub addref : SmartOp → Cell → Option Cell
unfolding increase_
addref to_op op = increase_ op
addref null op = some op

-- `release`, with the count that it returns. A count that is not positive is 0 or -1.
unfoldable pub release : SmartOp → Cell → Option (Cell × SmartOp × ℕ)
release null op = some (op, null, minus 1)
release to_op deleted = none
release to_op (live zero) = some (deleted, null, minus 1)
release to_op (live (suc zero)) = some (deleted, null, 0)
release to_op (live (suc (suc m_ref))) = some (live (suc m_ref), to_op, suc m_ref)

-- The destructor.
unfoldable pub let_go : SmartOp → Cell → Option Cell
unfolding release
let_go sp op = do r ← release sp op; some r.0

-- `reset` of one that is `sp` to the same operator.
unfoldable pub reset : SmartOp → Cell → Option Cell
unfolding release addref
reset sp op = do r ← release sp op; addref to_op r.0

-- `addTimer`: a temporary, its copy in the pair, and a copy in the map if the key is new there.
unfoldable pub add_timer_ref : Bool → Cell → Option Cell
unfolding addref let_go
add_timer_ref fresh op = do
  op ← addref to_op op
  op ← addref to_op op
  op ← if fresh then addref to_op op else some op
  op ← let_go to_op op
  let_go to_op op

-- The part of `processOps` behind the read: `kept` when `process` increases the count, `found` when the
-- connection is there, `fresh` when it has no timer with the deadline.
unfoldable pub process_op_refs : Bool → Bool → Bool → Cell → Option Cell
unfolding call addref increase_ release add_timer_ref let_go
process_op_refs kept found fresh op = do
  op ← addref to_op op
  op ← call op
  op ← if kept then increase_ op else some op
  (op, sp, count) ← release to_op op
  op ← elim sp [
    | null ↦ some op
    | to_op ↦
        if ltb 0 count
        then (if found then (do op ← call op; add_timer_ref fresh op) else some op)
        else some op
  ]
  let_go sp op

-- `addKeepaliveTimer`, of an operator that is new.
unfoldable pub keepalive_refs : Bool → Cell → Option Cell
unfolding call addref add_timer_ref let_go
keepalive_refs fresh op = do
  op ← addref to_op op
  op ← call op
  op ← add_timer_ref fresh op
  let_go to_op op

-- `popTimer` of a timer's operator into an `SmartOp` that is NULL, and the end of handleLoginResponse.
unfoldable pub pop_timer_refs : Cell → Option Cell
unfolding reset let_go
pop_timer_refs op = do op ← reset null op; op ← let_go to_op op; let_go to_op op

-- The vector `ops` grows: it copies what it holds and destroys the old copies.
unfoldable pub regrown : ℕ → Cell → Option Cell
unfolding addref let_go
regrown zero op = some op
regrown (suc times) op = do op ← addref to_op op; op ← let_go to_op op; regrown times op

-- A timer that is due in `processTimers`: into `ops`, out of the map, and `ops` goes at the end, which
-- grows `times` times meanwhile.
unfoldable pub time_out_refs : ℕ → Cell → Option Cell
unfolding call addref let_go regrown
time_out_refs times op = do
  op ← addref to_op op
  op ← let_go to_op op
  op ← regrown times op
  op ← call op
  let_go to_op op

-- The last thing that happens to an operator that a timer holds: its response comes, it is due, or the
-- connection with its timers is deleted.
pub data End : Type 0 where
  responds : End
  is_due : ℕ → End
  with_conn : End

unfoldable pub ended : End → Cell → Option Cell
unfolding pop_timer_refs time_out_refs let_go
ended responds op = pop_timer_refs op
ended (is_due times) op = time_out_refs times op
ended with_conn op = let_go to_op op

-- What processOps leaves: an operator that a timer alone holds, or one that is gone.
unfoldable pub left_to : Bool → Cell
left_to true = live 1
left_to false = deleted

unfoldable pub all : Bool → Bool → Bool → Bool
all kept found fresh = if kept then (if found then fresh else false) else false

process_op_refs-left_to :
    (kept found fresh : Bool)
    → process_op_refs kept found fresh (live 0) ≡ some (left_to (all kept found fresh))
unfolding process_op_refs call addref increase_ release add_timer_ref let_go left_to all
process_op_refs-left_to true true true = refl
process_op_refs-left_to true true false = refl
process_op_refs-left_to true false fresh = refl
process_op_refs-left_to false found fresh = refl

keepalive_refs-left_to : (fresh : Bool) → keepalive_refs fresh (live 0) ≡ some (left_to fresh)
unfolding keepalive_refs call addref increase_ release add_timer_ref let_go left_to
keepalive_refs-left_to true = refl
keepalive_refs-left_to false = refl

regrown_one : (times : ℕ) → regrown times (live 1) ≡ some (live 1)
unfolding regrown addref increase_ let_go release
regrown_one zero = refl
regrown_one (suc times) = regrown_one times

ended_once : (e : End) → ended e (live 1) ≡ some deleted
unfolding ended pop_timer_refs time_out_refs reset call addref increase_ let_go release
ended_once responds = refl
ended_once (is_due times) = rw (regrown_one times) refl
ended_once with_conn = refl

-- An operator that is posted is deleted once and not used after that: by processOps when it is not
-- kept, its connection is not there, or the connection has a timer with its deadline; else a timer is
-- the one that holds it, and it is deleted when its response comes, it is due, or the connection is
-- deleted. So is the operator that addKeepaliveTimer makes.
pub process_op_refs-ended :
    (kept found fresh : Bool) (e : End)
    → (process_op_refs kept found fresh (live 0) ≡ some (left_to (all kept found fresh)))
      × (keepalive_refs fresh (live 0) ≡ some (left_to fresh))
      × (ended e (live 1) ≡ some deleted)
process_op_refs-ended kept found fresh e =
    (process_op_refs-left_to kept found fresh, keepalive_refs-left_to fresh, ended_once e)
