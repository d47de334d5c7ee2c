-- ===== src/Base/LoopBuf/Read.antt =====
-- `read` and `peek`: the first bytes, and in `read`'s case without them.
use gpush.Prelude.{
  ℕ, zero, suc, ◌+◌, ◌-◌, ◌≤◌, ◌<◌, ◌≡◌, refl, ap, sym, ◌∙◌, inl, inr, List, [], ◌∷◌, ◌++◌,
  append_assoc, append-nil, Bool-cases, ◌==◌, none, some, arith, length, length-append, length-drop,
  length-take, take, drop, min, All, All-append, take_all, take_zero, take-nil, take-append_le,
  take-append_ge,
}
use native.Mathlib.Decide.{dec_lt}
use gpush.Base.LoopBuf.Frames.{
  Frame, window, real_read, frame_read, IsFrame, window-blank, length-window, real_read_lem,
  frame_peek_lem, size-frame_read, frame_read-IsBlank,
}
use gpush.Base.LoopBuf.{LoopBuf, read_loop, read, peek_loop, peek}
use gpush.Base.LoopBuf.Invariant.{
  windows, windows-append, windows-blank, contents_of, contents, IsChain, IsValid,
}
use gpush.Base.LoopBuf.Rounds.{
  DidRead, peek_head, recycled_ok, loop_past, loop_stop, loop_stop_cur, loop_tail, DidRead-cur,
  DidRead-round, DidRead-past, DidRead-stop, DidRead-nothing, loop_round, blank-IsFrame,
}

read_loop_lem :
    (rounds len : ℕ) (done : List Frame) (cur : Frame) (spare : List Frame)
    → IsChain done cur spare
    → len ≤ length (contents_of done cur)
    → length done + 1 < rounds
    → DidRead len (contents_of done cur) (read_loop rounds len done cur spare)
read_loop_lem zero len done cur spare v h r = absurd (omega arith)
read_loop_lem (suc rounds) zero done cur spare v h r = DidRead-nothing rounds done cur spare v
read_loop_lem (suc zero) (suc n) done cur spare v h r = absurd (omega arith)
read_loop_lem (suc (suc rounds)) (suc n) [] cur [] v h r =
    DidRead-cur (suc n) cur [] _ v (loop_tail (suc rounds) (suc n) cur (omega arith))
read_loop_lem (suc (suc rounds)) (suc n) [] cur (next ∷ spare) v h r =
    elim (dec_lt 0 (frame_read cur (suc n)).1.size) [
      | yes p ↦
          DidRead-cur (suc n) cur (next ∷ spare) _ v
            (loop_stop_cur (suc rounds) (suc n) cur (omega arith) (next ∷ spare) p)
      | no p ↦ DidRead-round rounds (suc n) cur next spare v (omega arith) (omega arith) h
    ]
read_loop_lem (suc (suc rounds)) (suc n) (f ∷ done) cur spare v h r =
    let size = length-window f v.done_ok.0 in
    let shrunk = size-frame_read f (suc n) in
    elim (dec_lt 0 (frame_read f (suc n)).1.size) [
      | yes p ↦
          DidRead-stop (suc n) f cur done spare _ v (omega arith)
            (loop_stop (suc rounds) (suc n) f cur done spare (omega arith) p)
      | no p ↦ rw (loop_past (suc rounds) (suc n) f cur done spare (omega arith) (omega arith)) (
          DidRead-past (suc n) (suc n - real_read f (suc n)) f cur done _ _
            (omega (arith, real_read_lem f (suc n))) (peek_head f (suc n) v.done_ok.0)
            (read_loop_lem (suc rounds) (suc n - real_read f (suc n)) done cur
              (spare ++ ((frame_read f (suc n)).1 ∷ []))
              (recycled_ok (suc n) f cur done spare v (omega arith))
              (omega (
                arith,
                real_read_lem f (suc n),
                length-append (window f) (contents_of done cur),
                ap length (append_assoc (window f) (windows done) (window cur)),
              ))
              (omega arith)))
    ]

-- `read` of no more bytes than there are, from a valid buffer, returns the oldest ones and leaves the
-- others in a valid buffer; it ends in two rounds more than there are frames before `m_w_pos`.
pub read_lem :
    (rounds : ℕ) (b : LoopBuf) (len : ℕ)
    → IsValid b
    → len ≤ length (contents b)
    → length b.chain.done + 1 < rounds
    → (b' : LoopBuf) × (read rounds b len ≡ some (take len (contents b), b'))
      × (contents b' ≡ drop len (contents b))
      × IsValid b'
unfolding read
read_lem rounds b len v h r =
    let d = read_loop_lem rounds len b.chain.done b.chain.cur b.chain.spare v.chain_ok h r in
    let b' : LoopBuf = record { chain = d.left; size = b.size - length d.out } in
    (
      b',
      rw (d.returned, read) (ap (λ (t : List ℕ). some (t, b')) d.taken),
      d.rest,
      record {
        chain_ok = d.valid;
        counted = omega (
          arith,
          v.counted,
          ap length d.taken,
          ap length d.rest,
          length-take len (contents b),
          length-drop len (contents b),
        );
      },
    )

-- `read` of more bytes than there are does not end where the chain has a second frame: every
-- round puts an empty head behind the tail, and no number of rounds is enough.
read_loop_stuck :
    (rounds len : ℕ) (done : List Frame) (cur : Frame) (spare : List Frame)
    → IsChain done cur spare
    → length (contents_of done cur) < len
    → 0 < length done + length spare
    → read_loop rounds len done cur spare ≡ none
unfolding read_loop
read_loop_stuck zero len [] cur spare v h m = refl
read_loop_stuck zero len (f ∷ done) cur spare v h m = refl
read_loop_stuck (suc rounds) len [] cur [] v h m = absurd (omega arith)
read_loop_stuck (suc rounds) len [] cur (next ∷ spare) v h m =
    let size = length-window cur v.cur_ok in
    let real = real_read_lem cur len in
    let gone = size-frame_read cur len in
    let blank = frame_read-IsBlank cur len v.cur_ok (omega arith) in
    rw (loop_round rounds len cur (omega arith) next spare (omega arith)) (
      rw (
        read_loop_stuck rounds (len - real_read cur len) (next ∷ spare) (frame_read cur len).1 []
          (record {
            done_ok = blank-IsFrame (next ∷ spare) v.spare_ok;
            cur_ok = blank.0;
            spare_ok = tt;
          })
          (omega (
            arith,
            ap length (windows-blank (next ∷ spare) v.spare_ok),
            length-append (windows (next ∷ spare)) (window (frame_read cur len).1),
            ap length (window-blank (frame_read cur len).1 blank.1),
          ))
          (omega arith)))
read_loop_stuck (suc rounds) len (f ∷ done) cur spare v h m =
    let size = length-window f v.done_ok.0 in
    let real = real_read_lem f len in
    let gone = size-frame_read f len in
    let all = ap length (append_assoc (window f) (windows done) (window cur)) in
    let total = length-append (window f) (contents_of done cur) in
    rw (loop_past rounds len f cur done spare (omega arith) (omega arith)) (
      rw (
        read_loop_stuck rounds (len - real_read f len) done cur
          (spare ++ ((frame_read f len).1 ∷ [])) (recycled_ok len f cur done spare v (omega arith))
          (omega arith) (omega (arith, length-append spare ((frame_read f len).1 ∷ [])))))

-- `read` of more bytes than there are, from a valid buffer, never ends where the chain has a frame
-- besides that of `m_w_pos`: in no number of rounds.
pub read_stuck :
    (rounds : ℕ) (b : LoopBuf) (len : ℕ)
    → IsValid b
    → length (contents b) < len
    → 0 < length b.chain.done + length b.chain.spare
    → read rounds b len ≡ none
unfolding read
read_stuck rounds b len v h m =
    rw (read_loop_stuck rounds len b.chain.done b.chain.cur b.chain.spare v.chain_ok h m, read)

take_past :
    (xs ys : List ℕ) (len n : ℕ)
    → n ≡ min len (length xs)
    → take len (xs ++ ys) ≡ take len xs ++ take (len - n) ys
take_past xs ys len n h = elim (dec_lt len (length xs)) [
  | yes p ↦
      take-append_le len xs ys (omega arith)
      ∙ sym (
          ap (◌++◌ (take len xs)) (take_zero (len - n) ys (omega arith)) ∙ append-nil (take len xs))
  | no p ↦
      take-append_ge len (len - n) xs ys (omega arith)
      ∙ ap (λ (t : List ℕ). t ++ take (len - n) ys) (sym (take_all len xs (omega arith)))
]

peek_loop_lem :
    (fs : List Frame) (len : ℕ) → All IsFrame fs → peek_loop fs len ≡ take len (windows fs)
unfolding peek_loop
peek_loop_lem [] len v = sym (take-nil len [] refl)
peek_loop_lem (f ∷ fs) len v = elim (Bool-cases (len == 0)) [
  | inl e ↦ rw e (sym (take_zero len _ (ground arith)))
  | inr e ↦
      rw (e, frame_peek_lem f len v.0, peek_loop_lem fs (len - real_read f len) v.1)
        (sym (
          take_past (window f) (windows fs) len (real_read f len)
            (omega (arith, real_read_lem f len, length-window f v.0))))
]

-- `peek` returns what `read` would, and leaves the queue alone.
pub peek_lem : (b : LoopBuf) (len : ℕ) → IsValid b → peek b len ≡ take len (contents b)
unfolding peek
peek_lem b len v =
    peek_loop_lem (b.chain.done ++ (b.chain.cur ∷ [])) len
      (All-append IsFrame b.chain.done _ v.chain_ok.done_ok (v.chain_ok.cur_ok, tt))
    ∙ ap (take len) (
        windows-append b.chain.done (b.chain.cur ∷ [])
        ∙ ap (◌++◌ (windows b.chain.done)) (append-nil (window b.chain.cur)))
