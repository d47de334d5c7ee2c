-- ===== src/Base/LoopBuf/Write.antt =====
-- `write`: the bytes go behind those that are there, as far as there is room.
use gpush.Prelude.{
  ℕ, ◌+◌, ◌≤◌, ◌<◌, ◌≡◌, refl, ap, sym, ◌∙◌, inl, inr, List, [], ◌∷◌, ◌++◌, append_assoc,
  append-nil, Bool-cases, true, false, arith, length, length-append, length-drop, length-take, take,
  drop, min, All-append, take_eq, take-add,
}
use gpush.Base.LoopBuf.Frames.{
  Frame, window, full, free_size, frame_write, IsFrame, window-frame_write, frame_write-IsFrame,
  count-frame_write, full-free, full-frame_write, free_size-frame_write,
}
use gpush.Base.LoopBuf.{Chain, LoopBuf, write_loop, write}
use gpush.Base.LoopBuf.Invariant.{
  windows, contents_of, contents, IsChain, ChainOk, IsValid, room, room-full, room_open, room_blank,
  contents_of-push, free-le-room,
}

-- What a run of the loop has done.
record Wrote (done : List Frame) (cur : Frame) (spare : List Frame) (src : List ℕ) (wlen : ℕ)
    (r : Chain × ℕ) : Type 0 where
  valid : ChainOk r.0
  count : r.1 ≡ wlen + min (length src) (room cur spare)
  bytes : contents_of r.0.done r.0.cur ≡ contents_of done cur ++ take (room cur spare) src

-- One write at `m_w_pos`, of which nothing more is left.
Wrote-here :
    (done : List Frame) (cur : Frame) (spare : List Frame) (src : List ℕ) (wlen : ℕ)
    → IsChain done cur spare
    → full cur ≡ false
    → min (length src) (room cur spare) ≡ min (length src) (free_size cur)
    → Wrote done cur spare src wlen (
      record { done = done; cur = (frame_write cur src).1; spare = spare },
      wlen + (frame_write cur src).0,
    )
Wrote-here done cur spare src wlen v e m = record {
  valid = record {
    done_ok = v.done_ok;
    cur_ok = frame_write-IsFrame cur src v.cur_ok;
    spare_ok = v.spare_ok;
  };
  count = omega (arith, count-frame_write cur src);
  bytes =
      ap (◌++◌ (windows done)) (window-frame_write cur src v.cur_ok)
      ∙ sym (append_assoc (windows done) (window cur) _)
      ∙ ap (◌++◌ (contents_of done cur)) (take_eq _ _ src (sym m));
}

Wrote-nothing :
    (done : List Frame) (cur : Frame) (spare : List Frame) (src : List ℕ) (wlen : ℕ)
    → IsChain done cur spare
    → min (length src) (room cur spare) ≡ 0
    → Wrote done cur spare src wlen (record { done = done; cur = cur; spare = spare }, wlen)
Wrote-nothing done cur spare src wlen v e = record {
  valid = v;
  count = omega arith;
  bytes =
      sym (append-nil (contents_of done cur))
      ∙ ap (◌++◌ (contents_of done cur)) (take_eq 0 _ src (omega arith));
}

-- One write that fills `m_w_pos`, and the rest from the next frame on.
Wrote-on :
    (done : List Frame) (cur next : Frame) (spare : List Frame) (src : List ℕ) (wlen : ℕ)
    (r : Chain × ℕ)
    → IsChain done cur (next ∷ spare)
    → full cur ≡ false
    → free_size cur ≤ length src
    → Wrote
        (done ++ ((frame_write cur src).1 ∷ []))
        next
        spare
        (drop (frame_write cur src).0 src)
        (wlen + (frame_write cur src).0)
        r
    → Wrote done cur (next ∷ spare) src wlen r
Wrote-on done cur next spare src wlen r v e h w = record {
  valid = w.valid;
  count = omega (
    arith,
    w.count,
    count-frame_write cur src,
    length-drop (frame_write cur src).0 src,
    room_open cur (next ∷ spare) e,
    room_blank next spare v.spare_ok.0,
  );
  bytes =
      let taken : (frame_write cur src).0 ≡ free_size cur =
        omega (arith, count-frame_write cur src) in
      let here = window-frame_write cur src v.cur_ok in
      w.bytes
      ∙ rw (contents_of-push done (frame_write cur src).1 next v.spare_ok.0, here, taken)
          (ap (λ (t : List ℕ). t ++ take (room next spare) (drop (free_size cur) src))
              (sym (append_assoc (windows done) (window cur) (take (free_size cur) src)))
            ∙ append_assoc (contents_of done cur) _ _
            ∙ ap (◌++◌ (contents_of done cur)) (
                sym (
                  take-add (free_size cur) (room next spare) (room cur (next ∷ spare)) src (
                    omega (
                      arith,
                      room_open cur (next ∷ spare) e,
                      room_blank next spare v.spare_ok.0,
                    )))));
}

pub filled :
    (f : Frame) (src : List ℕ)
    → IsFrame f
    → full (frame_write f src).1 ≡ true
    → free_size f ≤ length src
filled f src v e = ground (arith, full-frame_write f src v)

not_filled :
    (f : Frame) (src : List ℕ)
    → IsFrame f
    → full (frame_write f src).1 ≡ false
    → length src < free_size f
not_filled f src v e = ground (arith, full-frame_write f src v)

-- The chain with `m_w_pos` at the next frame.
pub pushed_ok :
    (done : List Frame) (cur next : Frame) (spare : List Frame) (src : List ℕ)
    → IsChain done cur (next ∷ spare)
    → IsChain (done ++ ((frame_write cur src).1 ∷ [])) next spare
pushed_ok done cur next spare src v = record {
  done_ok = All-append IsFrame done _ v.done_ok (frame_write-IsFrame cur src v.cur_ok, tt);
  cur_ok = v.spare_ok.0.0;
  spare_ok = v.spare_ok.1;
}

-- When the last frame of the chain is filled, nothing is free behind it.
pub write_loop_last :
    (done : List Frame) (cur : Frame) (src : List ℕ)
    → IsFrame cur
    → room cur [] ≤ length src
    → let c = (write_loop done cur [] src 0).0 in (c.spare ≡ []) × (free_size c.cur ≡ 0)
unfolding write_loop
write_loop_last done cur [] v h = (refl, omega (arith, free-le-room cur [] v))
write_loop_last done cur (x ∷ src) v h = elim (Bool-cases (full cur)) [
  | inl e ↦ rw e (refl, ground (arith, full-free cur v))
  | inr e ↦
      rw e (refl, ground (arith, free_size-frame_write cur (x ∷ src) v, free-le-room cur [] v))
]

write_loop_lem :
    (done : List Frame) (cur : Frame) (spare : List Frame) (src : List ℕ) (wlen : ℕ)
    → IsChain done cur spare
    → Wrote done cur spare src wlen (write_loop done cur spare src wlen)
unfolding write_loop
write_loop_lem done cur [] [] wlen v = Wrote-nothing done cur [] [] wlen v (omega arith)
write_loop_lem done cur (next ∷ spare) [] wlen v =
    Wrote-nothing done cur (next ∷ spare) [] wlen v (omega arith)
write_loop_lem done cur [] (x ∷ src) wlen v = elim (Bool-cases (full cur)) [
  | inl e ↦ rw e (Wrote-nothing done cur [] (x ∷ src) wlen v (omega (arith, room-full cur [] e)))
  | inr e ↦ rw e (Wrote-here done cur [] (x ∷ src) wlen v e (omega (arith, room_open cur [] e)))
]
write_loop_lem done cur (next ∷ spare) (x ∷ src) wlen v = elim (Bool-cases (full cur)) [
  | inl e ↦ rw e (
      Wrote-nothing done cur (next ∷ spare) (x ∷ src) wlen v
        (omega (arith, room-full cur (next ∷ spare) e)))
  | inr e ↦ rw e (elim (Bool-cases (full (frame_write cur (x ∷ src)).1)) [
    | inl e' ↦ rw e' (
        Wrote-on done cur next spare (x ∷ src) wlen _ v e (filled cur (x ∷ src) v.cur_ok e') (
          write_loop_lem (done ++ ((frame_write cur (x ∷ src)).1 ∷ [])) next spare
            (drop (frame_write cur (x ∷ src)).0 (x ∷ src)) (wlen + (frame_write cur (x ∷ src)).0)
            (pushed_ok done cur next spare (x ∷ src) v)))
    | inr e' ↦ rw e' (
        Wrote-here done cur (next ∷ spare) (x ∷ src) wlen v e
          (omega (arith, not_filled cur (x ∷ src) v.cur_ok e', room_open cur (next ∷ spare) e)))
  ])
]

-- `write` takes as many bytes as there is room for from `m_w_pos` on, and puts them at the end.
pub write_lem :
    (b : LoopBuf) (src : List ℕ)
    → IsValid b
    → let (n, b') = write b src in
      let space = room b.chain.cur b.chain.spare in
      (n ≡ min (length src) space) × (contents b' ≡ contents b ++ take space src) × IsValid b'
unfolding write
write_lem b src v =
    let w = write_loop_lem b.chain.done b.chain.cur b.chain.spare src 0 v.chain_ok in
    let space = room b.chain.cur b.chain.spare in
    (
      omega (arith, w.count),
      w.bytes,
      record {
        chain_ok = w.valid;
        counted = omega (
          arith,
          w.count,
          v.counted,
          ap length w.bytes,
          length-append (contents b) (take space src),
          length-take space src,
        );
      },
    )
