-- ===== src/Base/LoopBuf/Rounds.antt =====
-- One round of the loop of `read`, in each of the ways it can go.
use gpush.Prelude.{
  ℕ, suc, ◌+◌, ◌-◌, ◌≤◌, ◌<◌, ◌≡◌, refl, ap, sym, ◌∙◌, List, [], ◌∷◌, ◌++◌, append_assoc,
  append-nil, Option, some, arith, length, take, drop, All, All-append, take_all, take-append_le,
  take-append_ge, drop-append_le, drop-append_ge,
}
use gpush.Base.LoopBuf.Frames.{
  Frame, window, real_read, frame_read, IsFrame, IsBlank, length-window, real_read_lem,
  frame_peek_lem, window-frame_read, frame_read-IsFrame, size-frame_read, frame_read-IsBlank,
}
use gpush.Base.LoopBuf.{Chain, prepend, read_loop}
use gpush.Base.LoopBuf.Invariant.{windows, windows-blank, contents_of, IsChain, ChainOk}

-- What a run of the loop of `read` returns, from a chain that holds `held`.
pub record DidRead (len : ℕ) (held : List ℕ) (o : Option (List ℕ × Chain)) : Type 0 where
  pub out : List ℕ
  pub left : Chain
  pub returned : o ≡ some (out, left)
  pub taken : out ≡ take len held
  pub rest : contents_of left.done left.cur ≡ drop len held
  pub valid : ChainOk left

pub peek_head : (f : Frame) (len : ℕ) → IsFrame f → (frame_read f len).0 ≡ take len (window f)
unfolding frame_read
peek_head f len v = frame_peek_lem f len v

pub blank-IsFrame : (fs : List Frame) → All IsBlank fs → All IsFrame fs
blank-IsFrame [] h = tt
blank-IsFrame (f ∷ fs) h = (h.0.0, blank-IsFrame fs h.1)

-- The chain behind a frame that was read to its end and went to the tail.
pub recycled_ok :
    (len : ℕ) (f cur : Frame) (done spare : List Frame)
    → IsChain (f ∷ done) cur spare
    → f.size ≤ len
    → IsChain done cur (spare ++ ((frame_read f len).1 ∷ []))
recycled_ok len f cur done spare v h = record {
  done_ok = v.done_ok.1;
  cur_ok = v.cur_ok;
  spare_ok = All-append IsBlank spare _ v.spare_ok (frame_read-IsBlank f len v.done_ok.0 h, tt);
}

-- The equations of the loop, one for each way on.
module _ (rounds len : ℕ) (f cur : Frame) (done spare : List Frame) (pos : 0 < len) where
  pub loop_past :
      (frame_read f len).1.size ≡ 0
      → read_loop (suc rounds) len (f ∷ done) cur spare
        ≡ prepend (frame_read f len).0 (
            read_loop rounds
              (len - real_read f len)
              done
              cur
              (spare ++ ((frame_read f len).1 ∷ [])))
  unfolding read_loop
  loop_past e = ground arith

  pub loop_stop :
      0 < (frame_read f len).1.size
      → read_loop (suc rounds) len (f ∷ done) cur spare
        ≡ some (
          (frame_read f len).0,
          record { done = (frame_read f len).1 ∷ done; cur = cur; spare = spare },
        )
  unfolding read_loop
  loop_stop h = ground arith

module _ (rounds len : ℕ) (cur : Frame) (pos : 0 < len) where
  pub loop_stop_cur :
      (spare : List Frame)
      → 0 < (frame_read cur len).1.size
      → read_loop (suc rounds) len [] cur spare
        ≡ some (
          (frame_read cur len).0,
          record { done = []; cur = (frame_read cur len).1; spare = spare },
        )
  unfolding read_loop
  loop_stop_cur spare h = ground arith

  pub loop_tail :
      read_loop (suc rounds) len [] cur []
      ≡ some
          ((frame_read cur len).0, record { done = []; cur = (frame_read cur len).1; spare = [] })
  unfolding read_loop
  loop_tail = ground arith

  pub loop_round :
      (next : Frame) (spare : List Frame)
      → (frame_read cur len).1.size ≡ 0
      → read_loop (suc rounds) len [] cur (next ∷ spare)
        ≡ prepend
            (frame_read cur len).0
            (read_loop rounds (len - real_read cur len) (next ∷ spare) (frame_read cur len).1 [])
  unfolding read_loop
  loop_round next spare e = ground arith

loop_over :
    (rounds : ℕ) (done : List Frame) (cur : Frame) (spare : List Frame)
    → read_loop (suc rounds) 0 done cur spare
      ≡ some ([], record { done = done; cur = cur; spare = spare })
unfolding read_loop
loop_over rounds [] cur spare = refl
loop_over rounds (f ∷ done) cur spare = refl

-- The loop stops in the frame at `m_w_pos`.
pub DidRead-cur :
    (len : ℕ) (cur : Frame) (spare : List Frame) (o : Option (List ℕ × Chain))
    → IsChain [] cur spare
    → o
      ≡ some (
        (frame_read cur len).0,
        record { done = []; cur = (frame_read cur len).1; spare = spare },
      )
    → DidRead len (window cur) o
DidRead-cur len cur spare o v e = record {
  out = (frame_read cur len).0;
  left = record { done = []; cur = (frame_read cur len).1; spare = spare };
  returned = e;
  taken = peek_head cur len v.cur_ok;
  rest = window-frame_read cur len v.cur_ok;
  valid = record {
    done_ok = tt;
    cur_ok = frame_read-IsFrame cur len v.cur_ok;
    spare_ok = v.spare_ok;
  };
}

-- It goes round at `m_w_pos`, when that frame is read to its end and others follow.
pub DidRead-round :
    (rounds len : ℕ) (cur next : Frame) (spare : List Frame)
    → IsChain [] cur (next ∷ spare)
    → 0 < len
    → (frame_read cur len).1.size ≡ 0
    → len ≤ length (window cur)
    → DidRead len (window cur) (read_loop (suc (suc rounds)) len [] cur (next ∷ spare))
DidRead-round rounds len cur next spare v pos e h =
    let size = length-window cur v.cur_ok in
    let blank = frame_read-IsBlank cur len v.cur_ok (omega (arith, size-frame_read cur len)) in
    let over : len - real_read cur len ≡ 0 = omega (arith, real_read_lem cur len) in
    record {
      out = (frame_read cur len).0 ++ [];
      left = record { done = next ∷ spare; cur = (frame_read cur len).1; spare = [] };
      returned =
          loop_round (suc rounds) len cur pos next spare e
          ∙ rw (over, loop_over rounds (next ∷ spare) (frame_read cur len).1 []);
      taken = append-nil _ ∙ peek_head cur len v.cur_ok;
      rest =
          ap (λ (t : List ℕ). t ++ window (frame_read cur len).1)
            (windows-blank (next ∷ spare) v.spare_ok)
          ∙ window-frame_read cur len v.cur_ok;
      valid = record {
        done_ok = blank-IsFrame (next ∷ spare) v.spare_ok;
        cur_ok = blank.0;
        spare_ok = tt;
      };
    }

-- It goes past a frame that is read to its end.
pub DidRead-past :
    (len k : ℕ) (f cur : Frame) (done : List Frame) (bytes : List ℕ) (o : Option (List ℕ × Chain))
    → len ≡ length (window f) + k
    → bytes ≡ take len (window f)
    → DidRead k (contents_of done cur) o
    → DidRead len (contents_of (f ∷ done) cur) (prepend bytes o)
DidRead-past len k f cur done bytes o e b d = record {
  out = bytes ++ d.out;
  left = d.left;
  returned = rw d.returned;
  taken =
      rw (b, take_all len (window f) (omega arith), d.taken)
        (sym (take-append_ge len k (window f) (contents_of done cur) e)
          ∙ ap (take len) (sym (append_assoc (window f) (windows done) (window cur))));
  rest =
      d.rest
      ∙ sym (drop-append_ge len k (window f) (contents_of done cur) e)
      ∙ ap (drop len) (sym (append_assoc (window f) (windows done) (window cur)));
  valid = d.valid;
}

-- It stops in a frame before `m_w_pos`, which keeps some bytes.
pub DidRead-stop :
    (len : ℕ) (f cur : Frame) (done spare : List Frame) (o : Option (List ℕ × Chain))
    → IsChain (f ∷ done) cur spare
    → len ≤ f.size
    → o
      ≡ some (
        (frame_read f len).0,
        record { done = (frame_read f len).1 ∷ done; cur = cur; spare = spare },
      )
    → DidRead len (contents_of (f ∷ done) cur) o
DidRead-stop len f cur done spare o v h e =
    let size = length-window f v.done_ok.0 in
    let assoc = append_assoc (window f) (windows done) (window cur) in
    record {
      out = (frame_read f len).0;
      left = record { done = (frame_read f len).1 ∷ done; cur = cur; spare = spare };
      returned = e;
      taken =
          peek_head f len v.done_ok.0
          ∙ sym (take-append_le len (window f) (contents_of done cur) (omega arith))
          ∙ ap (take len) (sym assoc);
      rest =
          append_assoc (window (frame_read f len).1) (windows done) (window cur)
          ∙ ap (λ (t : List ℕ). t ++ contents_of done cur) (window-frame_read f len v.done_ok.0)
          ∙ sym (drop-append_le len (window f) (contents_of done cur) (omega arith))
          ∙ ap (drop len) (sym assoc);
      valid = record {
        done_ok = (frame_read-IsFrame f len v.done_ok.0, v.done_ok.1);
        cur_ok = v.cur_ok;
        spare_ok = v.spare_ok;
      };
    }

pub DidRead-nothing :
    (rounds : ℕ) (done : List Frame) (cur : Frame) (spare : List Frame)
    → IsChain done cur spare
    → DidRead 0 (contents_of done cur) (read_loop (suc rounds) 0 done cur spare)
DidRead-nothing rounds done cur spare v = record {
  out = [];
  left = record { done = done; cur = cur; spare = spare };
  returned = loop_over rounds done cur spare;
  taken = refl;
  rest = refl;
  valid = v;
}
