-- ===== src/Base/LoopBuf/Receive.antt =====
-- A receiver fills `freeFrameBuf()`, and `write(NULL, n)` counts its bytes in.
use gpush.Prelude.{
  ℕ, ◌+◌, ◌≤◌, ◌<◌, ◌≡◌, refl, ap, sym, ◌∙◌, inl, inr, List, [], ◌∷◌, ◌++◌, append_assoc,
  Bool-cases, Option, some, false, ◌==◌, ◌||◌, ltb, arith, length, length-append, take, take_all,
}
use gpush.Base.LoopBuf.Frames.{
  Frame, window, full, free_size, copy_at, real_write, frame_write, frame_grow, IsFrame,
  window-frame_write, frame_write-IsFrame, real_write_lem,
}
use gpush.Base.LoopBuf.{LoopBuf, Chain, grow_chain, store_free, grow, free_frame_len}
use gpush.Base.LoopBuf.Invariant.{
  contents_of, contents, IsChain, ChainOk, IsValid, contents_of-push, windows,
}
use gpush.Base.LoopBuf.Write.{pushed_ok}

stored_room :
    (f : Frame) (bytes : List ℕ) (n : ℕ)
    → real_write (record f { buf = copy_at f.buf (f.start + f.size) bytes }) n ≡ real_write f n
unfolding real_write
stored_room f bytes n = refl

-- The frame that both leave is the one that `write` from a buffer leaves.
grow_stored :
    (f : Frame) (bytes : List ℕ)
    → length bytes ≤ free_size f
    → frame_grow (record f { buf = copy_at f.buf (f.start + f.size) bytes }) (length bytes)
      ≡ (length bytes, (frame_write f bytes).1)
unfolding frame_grow frame_write
grow_stored f bytes h =
    let w = real_write_lem f (length bytes) in
    let all : take (real_write f (length bytes)) bytes ≡ bytes = take_all _ bytes (omega arith) in
    ground (arith, stored_room f bytes (length bytes))

-- What counting in leaves of the chain, where all the bytes fit in the frame at `m_w_pos`.
record Grew (done : List Frame) (cur : Frame) (bytes : List ℕ) (o : Option (Chain × ℕ))
    : Type 0 where
  left : Chain
  returned : o ≡ some (left, length bytes)
  extended : contents_of left.done left.cur ≡ contents_of done cur ++ bytes
  valid : ChainOk left

extended_here :
    (done : List Frame) (cur : Frame) (bytes : List ℕ)
    → IsFrame cur
    → length bytes ≤ free_size cur
    → contents_of done (frame_write cur bytes).1 ≡ contents_of done cur ++ bytes
extended_here done cur bytes v h =
    ap (◌++◌ (windows done)) (window-frame_write cur bytes v)
    ∙ sym (append_assoc (windows done) (window cur) (take (free_size cur) bytes))
    ∙ ap (◌++◌ (contents_of done cur)) (take_all (free_size cur) bytes h)

Grew-here :
    (done : List Frame) (cur : Frame) (spare : List Frame) (bytes : List ℕ) (o : Option (Chain × ℕ))
    → IsChain done cur spare
    → length bytes ≤ free_size cur
    → o
      ≡ some (record { done = done; cur = (frame_write cur bytes).1; spare = spare }, length bytes)
    → Grew done cur bytes o
Grew-here done cur spare bytes o v h e = record {
  left = record { done = done; cur = (frame_write cur bytes).1; spare = spare };
  returned = e;
  extended = extended_here done cur bytes v.cur_ok h;
  valid = record {
    done_ok = v.done_ok;
    cur_ok = frame_write-IsFrame cur bytes v.cur_ok;
    spare_ok = v.spare_ok;
  };
}

grow_chain_lem :
    (done : List Frame) (cur : Frame) (spare : List Frame) (bytes : List ℕ)
    → IsChain done cur spare
    → length bytes ≤ free_size cur
    → Grew done cur bytes
        (grow_chain done (frame_write cur bytes).1 spare (length bytes) (length bytes))
unfolding grow_chain
grow_chain_lem done cur [] bytes v h = Grew-here done cur [] bytes _ v h refl
grow_chain_lem done cur (next ∷ spare) bytes v h =
    elim (Bool-cases (full (frame_write cur bytes).1)) [
      | inl e ↦
          let all : ltb (length bytes) (length bytes) ≡ false = ground arith in
          rw (e, all)
            (record {
              left = record {
                done = done ++ ((frame_write cur bytes).1 ∷ []);
                cur = next;
                spare = spare;
              };
              returned = refl;
              extended =
                  contents_of-push done (frame_write cur bytes).1 next v.spare_ok.0
                  ∙ extended_here done cur bytes v.cur_ok h;
              valid = pushed_ok done cur next spare bytes v;
            })
      | inr e ↦ rw e (Grew-here done cur (next ∷ spare) bytes _ v h refl)
    ]

open_frame :
    (f : Frame) (bytes : List ℕ)
    → IsFrame f
    → 0 < length bytes
    → length bytes ≤ free_size f
    → (length bytes == 0 || full (record f { buf = copy_at f.buf (f.start + f.size) bytes }))
      ≡ false
unfolding full free_size
open_frame f bytes v pos h = ground arith

-- Bytes received into the free part of a frame are at the end of the queue.
pub grow-store_free :
    (b : LoopBuf) (bytes : List ℕ)
    → IsValid b
    → 0 < length bytes
    → length bytes ≤ free_frame_len b
    → (b' : LoopBuf) × (grow (store_free b bytes) (length bytes) ≡ some (length bytes, b'))
      × (contents b' ≡ contents b ++ bytes)
      × IsValid b'
unfolding grow store_free free_frame_len
grow-store_free b bytes v pos h =
    let g = grow_chain_lem b.chain.done b.chain.cur b.chain.spare bytes v.chain_ok h in
    (
      record { chain = g.left; size = b.size + length bytes },
      rw (
        open_frame b.chain.cur bytes v.chain_ok.cur_ok pos h,
        grow_stored b.chain.cur bytes h,
        g.returned,
      ),
      g.extended,
      record {
        chain_ok = g.valid;
        counted = omega (arith, v.counted, ap length g.extended, length-append (contents b) bytes);
      },
    )
