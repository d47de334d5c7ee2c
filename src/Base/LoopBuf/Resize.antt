-- ===== src/Base/LoopBuf/Resize.antt =====
-- `autoResizeWrite`: when the frame that it allocates holds the bytes left over, and what is lost
-- when it does not.
use gpush.Prelude.{
  ℕ, ◌+◌, ◌-◌, ◌%◌, ◌≤◌, ◌<◌, ◌≡◌, refl, ap, sym, ◌∙◌, List, [], ◌++◌, append_assoc, true, false,
  ltb, arith, length, take, drop, take_all, take-add,
}
use native.Mathlib.Decide.{dec_lt}
use mathlib.Core.Path.{subst}
use gpush.Base.LoopBuf.Frames.{Frame, free_size}
use gpush.Base.LoopBuf.{LoopBuf, write, extend, auto_resize_write, alloc_frame}
use gpush.Base.LoopBuf.Invariant.{contents, IsValid, capacity, room}
use gpush.Base.LoopBuf.Write.{write_lem, write_loop_last}
use gpush.Base.LoopBuf.Extend.{extend_lem, cap-alloc_frame}

-- How many bytes are left over when the room from `m_w_pos` on is used up.
abbrev pub overflow : LoopBuf → List ℕ → ℕ
overflow b src = length src - room b.chain.cur b.chain.spare

-- The second `write`, into the chain with one more frame.
abbrev second : LoopBuf → List ℕ → ℕ × LoopBuf
second b src = let (ret, b1) = write b src in write (extend b1 (length src - ret)) (drop ret src)

-- The room that the second `write` finds.
abbrev second_room : LoopBuf → List ℕ → ℕ
second_room b src =
    let (ret, b1) = write b src in
    free_size b1.chain.cur + capacity b1.chain.spare + (alloc_frame (length src - ret)).cap

join_cuts :
    (s n r k : ℕ) (src : List ℕ)
    → n ≡ s
    → r ≡ k
    → take s src ++ take r (drop n src) ≡ take (s + k) src
join_cuts s n r k src e f = rw (e, f) (sym (take-add s k (s + k) src refl))

second_lem :
    (b : LoopBuf) (src : List ℕ)
    → IsValid b
    → room b.chain.cur b.chain.spare ≤ length src
    → IsValid (second b src).1
      × (contents (second b src).1
          ≡ contents b ++ take (room b.chain.cur b.chain.spare + second_room b src) src)
second_lem b src v h =
    let w = write_lem b src v in
    let b2 : LoopBuf = extend (write b src).1 (length src - (write b src).0) in
    let x = extend_lem (write b src).1 (length src - (write b src).0) w.2 in
    let w2 = write_lem b2 (drop (write b src).0 src) x.valid in
    let space = room b.chain.cur b.chain.spare in
    let more : List ℕ = take (room b2.chain.cur b2.chain.spare) (drop (write b src).0 src) in
    (
      w2.2,
      w2.1
          ∙ ap (λ (t : List ℕ). t ++ more) (x.same ∙ w.1)
          ∙ append_assoc (contents b) _ _
          ∙ ap (◌++◌ (contents b)) (
              join_cuts space (write b src).0 _ (second_room b src) src (omega (arith, w.0))
                x.space),
    )

resize_second :
    (b : LoopBuf) (src : List ℕ)
    → IsValid b
    → room b.chain.cur b.chain.spare < length src
    → auto_resize_write b src ≡ (length src, (second b src).1)
unfolding auto_resize_write
resize_second b src v h =
    let w = write_lem b src v in
    let short : ltb (write b src).0 (length src) ≡ true = ground (arith, w.0) in rw short

resize_first :
    (b : LoopBuf) (src : List ℕ)
    → IsValid b
    → length src ≤ room b.chain.cur b.chain.spare
    → auto_resize_write b src ≡ (length src, (write b src).1)
unfolding auto_resize_write
resize_first b src v h =
    let w = write_lem b src v in
    let enough : ltb (write b src).0 (length src) ≡ false = ground (arith, w.0) in rw enough

-- Where the header of the new frame leaves it large enough, `autoResizeWrite` puts all the bytes at
-- the end.
pub auto_resize_write_lem :
    (b : LoopBuf) (src : List ℕ)
    → IsValid b
    → overflow b src % 2048 ≤ 2016
    → ((auto_resize_write b src).0 ≡ length src)
      × (contents (auto_resize_write b src).1 ≡ contents b ++ src)
      × IsValid (auto_resize_write b src).1
auto_resize_write_lem b src v h = elim (dec_lt (room b.chain.cur b.chain.spare) (length src)) [
  | yes p ↦
      let w = second_lem b src v (omega arith) in
      let alloc = cap-alloc_frame (length src - (write b src).0) in
      rw (resize_second b src v p) (
        refl,
        w.1 ∙ ap (◌++◌ (contents b)) (take_all _ src (omega (arith, alloc, (write_lem b src v).0))),
        w.0,
      )
  | no p ↦
      let w = write_lem b src v in
      rw (resize_first b src v (omega arith))
        (refl, w.1 ∙ ap (◌++◌ (contents b)) (take_all _ src (omega arith)), w.2)
]

last_write :
    (b : LoopBuf) (src : List ℕ)
    → IsValid b
    → b.chain.spare ≡ []
    → room b.chain.cur b.chain.spare ≤ length src
    → (capacity (write b src).1.chain.spare ≡ 0) × (free_size (write b src).1.chain.cur ≡ 0)
unfolding write
last_write b src v e h = rw e (
    let w =
      write_loop_last b.chain.done b.chain.cur src v.chain_ok.cur_ok
        (subst (λ (s : List Frame). room b.chain.cur s ≤ length src) e h) in
    (ap capacity w.0, w.1))

-- Where it does not, and `m_w_pos` is the last frame, the end of the bytes is lost: as many as the
-- new frame is too small by. `autoResizeWrite` still returns their full number.
pub auto_resize_write_drops :
    (b : LoopBuf) (src : List ℕ)
    → IsValid b
    → b.chain.spare ≡ []
    → 2016 < overflow b src % 2048
    → ((auto_resize_write b src).0 ≡ length src)
      × (contents (auto_resize_write b src).1
          ≡ contents b ++ take (length src + 2016 - overflow b src % 2048) src)
auto_resize_write_drops b src v e h =
    let p : room b.chain.cur b.chain.spare < length src = omega arith in
    let w = second_lem b src v (omega arith) in
    let alloc = cap-alloc_frame (length src - (write b src).0) in
    let l = last_write b src v e (omega arith) in
    rw (resize_second b src v p) (
      refl,
      w.1
          ∙ ap (λ (n : ℕ). contents b ++ take n src)
              (omega (arith, alloc, (write_lem b src v).0, l)),
    )
