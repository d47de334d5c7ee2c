-- ===== src/Net/EventLoop/Ops.antt =====
-- The queue of operators: a LoopBuf that holds their addresses, eight bytes each.
use gpush.Prelude.{
  ℕ, zero, suc, ◌+◌, ◌*◌, ◌/◌, ◌%◌, ◌^◌, ◌<◌, ◌≡◌, refl, sym, ap, ◌∙◌, List, [], ◌∷◌, ◌++◌,
  append_assoc, append-nil, Option, none, some, true, false, if◌then◌else◌, leb, ◌==◌, arith,
  length, length-append, take, drop, take-append_le, drop-append_le, take_all, drop_all, All,
}
use mathlib.Core.Path.{subst}
use gpush.Base.LoopBuf.{LoopBuf, read, auto_resize_write}
use gpush.Base.LoopBuf.Invariant.{contents, IsValid}
use gpush.Base.LoopBuf.Read.{read_lem}
use gpush.Base.LoopBuf.Resize.{auto_resize_write_lem}
use gpush.Proto.Word.{bytes_of, word_at, word_of}

-- An address in memory.
unfoldable pub pointer_bytes : ℕ → List ℕ
pointer_bytes p = bytes_of (p % 2 ^ 32) ++ bytes_of (p / 2 ^ 32)

unfoldable pub pointer_at : List ℕ → ℕ
pointer_at bytes = word_at bytes 0 + 2 ^ 32 * word_at bytes 4

-- The queue part of `addAsynOperator`.
unfoldable pub push_op : ℕ → LoopBuf → LoopBuf
push_op p b = (auto_resize_write b (pointer_bytes p)).1

unfoldable pub push_ops : List ℕ → LoopBuf → LoopBuf
unfolding push_op
push_ops [] b = b
push_ops (p ∷ ps) b = push_ops ps (push_op p b)

-- What `process` of the operator at an address does: to whatever it works on, and the operators that it
-- queues with `addAsynOperator`.
abbrev pub Process : Type 0 → Type 0
Process A = ℕ → A → A × List ℕ

module _ {A : Type 0} (process : Process A) where
  -- The loop of `processOps`: the addresses of the operators that ran, the queue and what they worked
  -- on; `none` where it has not ended in the rounds allowed. No other thread comes in between.
  unfoldable pub process_ops : ℕ → LoopBuf → A → Option (List ℕ × LoopBuf × A)
  unfolding push_ops
  process_ops zero b a = none
  process_ops (suc rounds) b a =
      let taken : Option (List ℕ × LoopBuf × A) =
        elim (read (suc (suc (length b.chain.done))) b 8) [
          | none ↦ none
          | some (bytes, b') ↦
              let (a', new) = process (pointer_at bytes) a in
              elim (process_ops rounds (push_ops new b') a') [
                | none ↦ none
                | some (ps, b'', a'') ↦ some (pointer_at bytes ∷ ps, b'', a'')
              ]
        ] in
      if b.size == 0 then some ([], b, a) else if leb 8 b.size then taken else some ([], b, a)

  -- The same of a queue that is a list.
  pub drain : ℕ → List ℕ → A → Option (List ℕ × A)
  drain zero ps a = none
  drain (suc rounds) [] a = some ([], a)
  drain (suc rounds) (p ∷ ps) a =
      let (a', new) = process p a in
      elim (drain rounds (ps ++ new) a') [ none ↦ none | some (qs, a'') ↦ some (p ∷ qs, a'') ]

-- The bytes of some addresses.
abbrev pub all_bytes : List ℕ → List ℕ
all_bytes [] = []
all_bytes (p ∷ ps) = pointer_bytes p ++ all_bytes ps

abbrev pub IsPointer : ℕ → Type 0
IsPointer p = p < 2 ^ 64

-- A buffer that queues the operators at some addresses.
pub record Queued (b : LoopBuf) (ps : List ℕ) : Type 0 where
  pub valid : IsValid b
  pub holds : contents b ≡ all_bytes ps
  pub pointers : All IsPointer ps

length-pointer_bytes : (p : ℕ) → length (pointer_bytes p) ≡ 8
unfolding pointer_bytes bytes_of
length-pointer_bytes p = refl

pointer_at-pointer_bytes : (p : ℕ) → IsPointer p → pointer_at (pointer_bytes p) ≡ p
unfolding pointer_at pointer_bytes word_at bytes_of word_of
pointer_at-pointer_bytes p h = omega arith

all_bytes-append : (ps qs : List ℕ) → all_bytes (ps ++ qs) ≡ all_bytes ps ++ all_bytes qs
all_bytes-append [] qs = refl
all_bytes-append (p ∷ ps) qs =
    ap (◌++◌ (pointer_bytes p)) (all_bytes-append ps qs)
    ∙ sym (append_assoc (pointer_bytes p) (all_bytes ps) (all_bytes qs))

All-snoc : (ps : List ℕ) (p : ℕ) → All IsPointer ps → IsPointer p → All IsPointer (ps ++ (p ∷ []))
All-snoc [] p h k = (k, tt)
All-snoc (q ∷ ps) p h k = (h.0, All-snoc ps p h.1 k)

-- Queueing an operator puts it behind the others: eight bytes are never too many for the frame that
-- `autoResizeWrite` adds.
pub push_op-Queued :
    (b : LoopBuf) (ps : List ℕ) (p : ℕ)
    → Queued b ps
    → IsPointer p
    → Queued (push_op p b) (ps ++ (p ∷ []))
unfolding push_op
push_op-Queued b ps p q h =
    let size = length-pointer_bytes p in
    let w = auto_resize_write_lem b (pointer_bytes p) q.valid (omega arith) in
    record {
      valid = w.2;
      holds =
          w.1
          ∙ ap (λ l. l ++ pointer_bytes p) q.holds
          ∙ ap (◌++◌ (all_bytes ps)) (sym (append-nil (pointer_bytes p)))
          ∙ sym (all_bytes-append ps (p ∷ []));
      pointers = All-snoc ps p q.pointers h;
    }

pub push_ops-Queued :
    (b : LoopBuf) (ps new : List ℕ)
    → Queued b ps
    → All IsPointer new
    → Queued (push_ops new b) (ps ++ new)
unfolding push_ops
push_ops-Queued b ps [] q h = subst (Queued b) (sym (append-nil ps)) q
push_ops-Queued b ps (p ∷ new) q h =
    subst (Queued (push_ops new (push_op p b))) (append_assoc ps (p ∷ []) new)
      (push_ops-Queued (push_op p b) (ps ++ (p ∷ [])) new (push_op-Queued b ps p q h.0) h.1)

-- What one round takes off.
record Taken (b : LoopBuf) (p : ℕ) (ps : List ℕ) : Type 0 where
  left : LoopBuf
  returned : read (suc (suc (length b.chain.done))) b 8 ≡ some (pointer_bytes p, left)
  rest : Queued left ps

take-one : (b : LoopBuf) (p : ℕ) (ps : List ℕ) → Queued b (p ∷ ps) → Taken b p ps
take-one b p ps q =
    let size = length-pointer_bytes p in
    let total = length-append (pointer_bytes p) (all_bytes ps) in
    let (b', r, left, v) =
      read_lem (suc (suc (length b.chain.done))) b 8 q.valid (omega (arith, ap length q.holds))
        (omega arith) in
    let front : take 8 (contents b) ≡ pointer_bytes p =
      ap (take 8) q.holds
      ∙ take-append_le 8 (pointer_bytes p) (all_bytes ps) (omega arith)
      ∙ take_all 8 (pointer_bytes p) (omega arith) in
    record {
      left = b';
      returned = r ∙ ap (λ l. some (l, b')) front;
      rest = record {
        valid = v;
        holds =
            left
            ∙ ap (drop 8) q.holds
            ∙ drop-append_le 8 (pointer_bytes p) (all_bytes ps) (omega arith)
            ∙ ap (λ l. l ++ all_bytes ps) (drop_all 8 (pointer_bytes p) (omega arith));
        pointers = q.pointers.1;
      };
    }

module _ {A : Type 0} (process : Process A)
    (pointers : (p : ℕ) (a : A) → All IsPointer (process p a).1) (weight : List ℕ → A → ℕ)
    (lighter : (p : ℕ) (ps : List ℕ) (a : A)
      → weight (ps ++ (process p a).1) (process p a).0 < weight (p ∷ ps) a) where
  -- `processOps`, with operators that queue others while they run, runs them as a queue that is a list
  -- does: first those that are queued, in their order, then those that they queue, in the order in
  -- which they do, and so on. It ends, with the queue empty, if some weight of what waits and of what
  -- the operators work on gets less with each that runs.
  pub process_ops-drain :
      (rounds : ℕ) (b : LoopBuf) (ps : List ℕ) (a : A)
      → Queued b ps
      → weight ps a < rounds
      → (ran : List ℕ) × (b' : LoopBuf) × (a' : A) × (drain process rounds ps a ≡ some (ran, a'))
        × (process_ops process rounds b a ≡ some (ran, b', a'))
        × Queued b' []
  unfolding process_ops drain
  process_ops-drain zero b ps a q h = elim h [ ]
  process_ops-drain (suc rounds) b [] a q h =
      let empty : (b.size == 0) ≡ true = ground (arith, q.valid.counted, ap length q.holds) in
      ([], b, a, refl, rw empty refl, q)
  process_ops-drain (suc rounds) b (p ∷ ps) a q h =
      let t = take-one b p ps q in
      let new = (process p a).1 in
      let less = lighter p ps a in
      let (ran, b', a', listed, r, done) =
        process_ops-drain rounds (push_ops new t.left) (ps ++ new) (process p a).0
          (push_ops-Queued t.left ps new t.rest (pointers p a)) (omega arith) in
      let size : b.size ≡ 8 + length (all_bytes ps) =
        q.valid.counted
        ∙ ap length q.holds
        ∙ length-append (pointer_bytes p) (all_bytes ps)
        ∙ ap (λ n. n + length (all_bytes ps)) (length-pointer_bytes p) in
      let some_left : (b.size == 0) ≡ false = ground arith in
      let enough : leb 8 b.size ≡ true = ground arith in
      let address = pointer_at-pointer_bytes p q.pointers.0 in
      (
        p ∷ ran,
        b',
        a',
        rw listed refl,
        rw some_left (rw enough (rw t.returned (rw address (rw r (rw address refl))))),
        done,
      )
