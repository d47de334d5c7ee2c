-- ===== src/Net/EventLoop/Sleep.antt =====
-- What holds while an event loop sleeps, and the wake-up that is lost.
use gpush.Prelude.{
  ◌≤◌, ◌≡◌, refl, sym, ap, ◌∙◌, [], ◌∷◌, ◌++◌, append_assoc, Bool, true, false, length,
  length-append, arith,
}
use gpush.Net.EventLoop.Wake.{
  clearing, receiving, draining, polling, Wake, quiet, Post, push, win, lose, notify, Turn, clear,
  receive, run_op, sleep, woken, Step, post, turn, Steps, here, then_step, Reach, begun, stepped,
  other_event,
}

true-ne-false : ◌≡◌ {A = Bool} true false → ⊥
true-ne-false e = cc

clearing-ne-polling : clearing ≡ polling → ⊥
clearing-ne-polling e = cc

receiving-ne-polling : receiving ≡ polling → ⊥
receiving-ne-polling e = cc

draining-ne-polling : draining ≡ polling → ⊥
draining-ne-polling e = cc

-- Operators run in the order in which they were posted, each once; and while the loop sleeps with
-- the flag clear, each that waits has a thread that has still to look at the flag.
pub record Kept (w : Wake) : Type 0 where
  pub order : w.done ++ w.queue ≡ w.posted
  pub watched : w.at ≡ polling → w.flag ≡ false → length w.queue ≤ w.queued

Post-Kept : (w v : Wake) → Kept w → Post w v → Kept v
Post-Kept w v k (push op) = record {
  order = sym (append_assoc w.done w.queue (op ∷ [])) ∙ ap (λ l. l ++ (op ∷ [])) k.order;
  watched = λ a f. omega (arith, k.watched a f, length-append w.queue (op ∷ []));
}
Post-Kept w v k (win n q f) = record { order = k.order; watched = λ a e. absurd (true-ne-false e) }
Post-Kept w v k (lose n q f) = record {
  order = k.order;
  watched = λ a e. absurd (true-ne-false (sym f ∙ e));
}
Post-Kept w v k (notify n q) = record { order = k.order; watched = k.watched }

Turn-Kept : (w v : Wake) → Kept w → Turn w v → Kept v
Turn-Kept w v k (clear a) = record {
  order = k.order;
  watched = λ e f. absurd (receiving-ne-polling e);
}
Turn-Kept w v k (receive a) = record {
  order = k.order;
  watched = λ e f. absurd (draining-ne-polling e);
}
Turn-Kept w v k (run_op op ops a q) = record {
  order = append_assoc w.done (op ∷ []) ops ∙ ap (◌++◌ w.done) (sym q) ∙ k.order;
  watched = λ e f. absurd (draining-ne-polling (sym a ∙ e));
}
Turn-Kept w v k (sleep a q) = record {
  order = k.order;
  watched = λ e f. omega (arith, ap length q);
}
Turn-Kept w v k (woken n a b) = record {
  order = k.order;
  watched = λ e f. absurd (clearing-ne-polling e);
}

Step-Kept : (w v : Wake) → Kept w → Step w v → Kept v
Step-Kept w v k (post p) = Post-Kept w v k p
Step-Kept w v k (turn t) = Turn-Kept w v k t

-- In every state that a loop can come to, operators have run and wait in the order in which they were
-- posted, each once, and when the loop sleeps with the flag clear, there are no more that wait than
-- threads that have still to look at the flag, the first of which will wake it.
pub Reach-Kept : (w : Wake) → Reach quiet w → Kept w
Reach-Kept w begun = record { order = refl; watched = λ e f. absurd (clearing-ne-polling e) }
Reach-Kept w (stepped u v r s) = Step-Kept u w (Reach-Kept u r) s
Reach-Kept w (other_event u r a) =
    let k = Reach-Kept u r in
    record { order = k.order; watched = λ e f. absurd (clearing-ne-polling e) }

-- The loop sleeps with the flag set and nothing in the control socket, and no thread is about to
-- send.
pub record Lost (w : Wake) : Type 0 where
  pub asleep : w.at ≡ polling
  pub set : w.flag ≡ true
  pub silent : w.bytes ≡ 0
  pub no_winner : w.winners ≡ 0

Step-Lost : (w v : Wake) → Lost w → Step w v → Lost v × (v.done ≡ w.done)
Step-Lost w v l (post (push op)) =
    (record { asleep = l.asleep; set = l.set; silent = l.silent; no_winner = l.no_winner }, refl)
Step-Lost w v l (post (win n q f)) = absurd (true-ne-false (sym l.set ∙ f))
Step-Lost w v l (post (lose n q f)) =
    (record { asleep = l.asleep; set = l.set; silent = l.silent; no_winner = l.no_winner }, refl)
Step-Lost w v l (post (notify n q)) = absurd (omega (arith, l.no_winner))
Step-Lost w v l (turn (clear a)) = absurd (clearing-ne-polling (sym a ∙ l.asleep))
Step-Lost w v l (turn (receive a)) = absurd (receiving-ne-polling (sym a ∙ l.asleep))
Step-Lost w v l (turn (run_op op ops a q)) = absurd (draining-ne-polling (sym a ∙ l.asleep))
Step-Lost w v l (turn (sleep a q)) = absurd (draining-ne-polling (sym a ∙ l.asleep))
Step-Lost w v l (turn (woken n a b)) = absurd (omega (arith, l.silent))

-- From such a state no post wakes the loop, however many there are: it sleeps on and runs no
-- operator, until a socket or a timer wakes it.
pub Steps-Lost : (w v : Wake) → Lost w → Steps w v → Lost v × (v.done ≡ w.done)
Steps-Lost w v l here = (l, refl)
Steps-Lost w v l (then_step u x s t) =
    let (k, e) = Steps-Lost w u l s in let (k', e') = Step-Lost u v k t in (k', e' ∙ e)
