-- ===== src/Net/EventLoop/Tests.antt =====
-- Operators in a queue, a lost wake-up, and two connections with one id.
use gpush.Prelude.{
  ℕ, zero, suc, ◌+◌, ◌*◌, ◌<◌, ◌≡◌, refl, List, [], ◌∷◌, ◌++◌, length, length-append, All, some,
  true, false, arith,
}
use gpush.Base.LoopBuf.{LoopBuf, new_buf, alloc_frame}
use gpush.Base.LoopBuf.Extend.{new_buf-IsValid}
use gpush.Net.EventLoop.Ops.{
  Process, process_ops, push_op, IsPointer, Queued, push_op-Queued, drain, process_ops-drain,
}
use gpush.Net.EventLoop.Wake.{
  receiving, draining, polling, Wake, quiet, push, win, lose, notify, clear, receive, run_op, sleep,
  post, turn, Steps, here, then_step, Reach, begun, stepped,
}
use gpush.Net.EventLoop.Sleep.{Kept, Reach-Kept, Lost, Steps-Lost}

-- Two operators in a new queue.
abbrev two_ops : LoopBuf
two_ops = push_op 9000 (push_op 8000 new_buf)

new_buf-Queued : Queued new_buf []
unfolding new_buf alloc_frame
new_buf-Queued = record { valid = new_buf-IsValid; holds = refl; pointers = tt }

two_ops-Queued : Queued two_ops (8000 ∷ 9000 ∷ [])
two_ops-Queued =
    push_op-Queued (push_op 8000 new_buf) (8000 ∷ []) 9000
      (push_op-Queued new_buf [] 8000 new_buf-Queued (omega arith)) (omega arith)

-- As often as is left, an operator that runs queues another one.
abbrev queues_more : Process ℕ
queues_more p zero = (zero, [])
queues_more p (suc left) = (left, 9500 ∷ [])

queues_more-IsPointer : (p left : ℕ) → All IsPointer (queues_more p left).1
queues_more-IsPointer p zero = tt
queues_more-IsPointer p (suc left) = ((omega arith), tt)

abbrev weight : List ℕ → ℕ → ℕ
weight ps left = length ps + 2 * left

weight-queues_more :
    (p : ℕ) (ps : List ℕ) (left : ℕ)
    → weight (ps ++ (queues_more p left).1) (queues_more p left).0 < weight (p ∷ ps) left
weight-queues_more p ps zero = omega (arith, length-append ps [])
weight-queues_more p ps (suc left) = omega (arith, length-append ps (9500 ∷ []))

process_ops-drain_example :
    (ran : List ℕ) × (b : LoopBuf) × (left : ℕ) × (drain queues_more 7 (8000 ∷ 9000 ∷ []) 2
      ≡ some (ran, left))
    × (process_ops queues_more 7 two_ops 2 ≡ some (ran, b, left))
    × Queued b []
process_ops-drain_example =
    process_ops-drain queues_more queues_more-IsPointer weight weight-queues_more 7 two_ops
      (8000 ∷ 9000 ∷ []) 2 two_ops-Queued (omega arith)

-- A thread posts operator 7 and sends its byte between the loop's clearing of the flag and `recv`.
abbrev between : Wake
between = record quiet { at = receiving; flag = true; bytes = 1; queue = 7 ∷ []; posted = 7 ∷ [] }

quiet-between : Reach quiet between
quiet-between =
    stepped _ between
      (stepped _ (record between { bytes = 0; winners = 1 })
        (stepped _ (record between { bytes = 0; flag = false; queued = 1 })
          (stepped _ (record quiet { at = receiving }) begun (turn (clear refl))) (post (push 7)))
        (post (win 0 refl refl)))
      (post (notify 0 refl))

-- The byte is taken, the operator runs, and the loop sleeps with the flag set.
abbrev lost : Wake
lost = record between { at = polling; bytes = 0; queue = []; done = 7 ∷ [] }

quiet-lost : Reach quiet lost
quiet-lost =
    stepped _ lost
      (stepped _ (record lost { at = draining })
        (stepped _ (record between { at = draining; bytes = 0 }) quiet-between
          (turn (receive refl)))
        (turn (run_op 7 [] refl refl)))
      (turn (sleep refl refl))

-- The next operator waits.
abbrev stranded : Wake
stranded = record lost { queue = 8 ∷ []; posted = 7 ∷ 8 ∷ [] }

lost-stranded : Steps lost stranded
lost-stranded =
    then_step (record stranded { queued = 1 }) stranded
      (then_step lost (record stranded { queued = 1 }) here (post (push 8)))
      (post (lose 0 refl refl))

Reach-Kept_example : Kept lost
Reach-Kept_example = Reach-Kept lost quiet-lost

Steps-Lost_example : Lost stranded × (stranded.done ≡ 7 ∷ [])
Steps-Lost_example =
    Steps-Lost lost stranded (record { asleep = refl; set = refl; silent = refl; no_winner = refl })
      lost-stranded
