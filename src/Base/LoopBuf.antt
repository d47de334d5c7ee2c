-- ===== src/Base/LoopBuf.antt =====
-- efnfw/base/ef_loop_buf.{h,cpp}: a byte queue over a linked chain of frames. The chain is written
-- as the frames before `m_w_pos`, that frame, and the frames behind it, in the order of `m_next`:
-- `m_head` is the first of them all and `m_tail` the last. Lengths and `m_size` are natural
-- numbers: the model is exact while they stay below 2^31.
pub mod Frames
pub mod Invariant
pub mod Write
pub mod Extend
pub mod Resize
pub mod Rounds
pub mod Read
pub mod Search
pub mod Receive
mod Tests
use gpush.Prelude.{
  ℕ, zero, suc, ◌+◌, ◌-◌, ◌*◌, ◌%◌, List, [], ◌∷◌, ◌++◌, Option, none, some, Bool, true, false,
  if◌then◌else◌, ◌==◌, ltb, ◌||◌, ◌&&◌, not, length, take, drop, replicate, map,
}
use Frames.{
  Frame, window, full, free_size, copy_at, real_read, frame_peek, frame_read, frame_write,
  frame_grow, frame_clear,
}

pub record Chain : Type 0 where
  pub done : List Frame
  pub cur : Frame
  pub spare : List Frame

pub record LoopBuf : Type 0 where
  pub chain : Chain
  pub size : ℕ

abbrev pub frames : Chain → List Frame
frames c = c.done ++ (c.cur ∷ c.spare)

-- `sizeof(frame)` of a 64-bit build: two pointers, three `int32`, and padding.
abbrev pub sizeof_frame : ℕ
sizeof_frame = 32

abbrev pub default_align_size : ℕ
default_align_size = 2048

pub align_size : ℕ → ℕ
align_size l = l + default_align_size - l % default_align_size

-- `allocFrame`, with `constructFrame`: the header takes its part of the block. The bytes of a new
-- block are not initialised; they are written as 0 and never read.
unfoldable pub alloc_frame : ℕ → Frame
unfolding align_size
alloc_frame l = record { buf = replicate cap 0; cap = cap; size = 0; start = 0 }
  where
    cap : ℕ
    cap = align_size l - sizeof_frame

unfoldable pub new_buf : LoopBuf
new_buf = record { chain = record { done = []; cur = alloc_frame 1024; spare = [] }; size = 0 }

-- `firstFrameLen` and `firstFrameData`: of `m_head`.
unfoldable pub first_frame : List Frame → Frame → Frame
first_frame [] cur = cur
first_frame (f ∷ done) cur = f

unfoldable pub first_frame_len : LoopBuf → ℕ
unfolding first_frame
first_frame_len b = (first_frame b.chain.done b.chain.cur).size

unfoldable pub first_frame_data : LoopBuf → List ℕ
unfolding first_frame
first_frame_data b = window (first_frame b.chain.done b.chain.cur)

unfoldable pub free_frame_len : LoopBuf → ℕ
free_frame_len b = free_size b.chain.cur

abbrev pub is_empty : List ℕ → Bool
is_empty [] = true
is_empty (x ∷ xs) = false

-- The loop of `write`, with the bytes not yet written and their number so far. It goes on to the
-- next frame when one is full and has a successor. If it has none, or is not full, the loop's test
-- fails: the frame is full, or all is written.
pub write_loop : List Frame → Frame → List Frame → List ℕ → ℕ → Chain × ℕ
write_loop done cur [] src wlen =
    if is_empty src || full cur then (record { done = done; cur = cur; spare = [] }, wlen) else (
      record { done = done; cur = (frame_write cur src).1; spare = [] },
      wlen + (frame_write cur src).0,
    )
write_loop done cur (next ∷ spare) src wlen =
    let (ret, cur') = frame_write cur src in
    let rest = write_loop (done ++ (cur' ∷ [])) next spare (drop ret src) (wlen + ret) in
    if is_empty src || full cur
    then (record { done = done; cur = cur; spare = next ∷ spare }, wlen)
    else if full cur'
    then rest
    else (record { done = done; cur = cur'; spare = next ∷ spare }, wlen + ret)

-- `write` from a buffer: how many bytes were taken, and the queue.
pub write : LoopBuf → List ℕ → ℕ × LoopBuf
write b src =
    let (c, wlen) = write_loop b.chain.done b.chain.cur b.chain.spare src 0 in
    (wlen, record { chain = c; size = b.size + wlen })

-- `write(NULL, len)` counts in bytes that are already in the free part of `m_w_pos`. A second round
-- of the loop would copy from the address `NULL + wlen`: `none`.
grow_chain : List Frame → Frame → List Frame → ℕ → ℕ → Option (Chain × ℕ)
grow_chain done cur [] len ret = some (record { done = done; cur = cur; spare = [] }, ret)
grow_chain done cur (next ∷ spare) len ret =
    if not (full cur)
    then some (record { done = done; cur = cur; spare = next ∷ spare }, ret)
    else if ltb ret len && not (full next)
    then none
    else some (record { done = done ++ (cur ∷ []); cur = next; spare = spare }, ret)

abbrev grown : LoopBuf → Option (Chain × ℕ) → Option (ℕ × LoopBuf)
grown b none = none
grown b (some (c, wlen)) = some (wlen, record { chain = c; size = b.size + wlen })

pub grow : LoopBuf → ℕ → Option (ℕ × LoopBuf)
grow b len =
    if len == 0 || full b.chain.cur
    then some (0, b)
    else (let (ret, cur') = frame_grow b.chain.cur len in
        grown b (grow_chain b.chain.done cur' b.chain.spare len ret))

-- Bytes that a receiver puts at `freeFrameBuf()`.
pub store_free : LoopBuf → List ℕ → LoopBuf
store_free b bytes = record b { chain = record c { cur = record f { buf = stored } } }
  where
    open b use {chain as c}

    f : Frame
    f = c.cur

    stored : List ℕ
    stored = copy_at f.buf (f.start + f.size) bytes

-- `m_w_pos = m_w_pos->m_next`, where there is one.
move_on : List Frame → Frame → List Frame → Chain
move_on done cur [] = record { done = done; cur = cur; spare = [] }
move_on done cur (next ∷ spare) = record { done = done ++ (cur ∷ []); cur = next; spare = spare }

pub extend : LoopBuf → ℕ → LoopBuf
unfolding move_on
extend b sz =
    let spare' = b.chain.spare ++ (alloc_frame sz ∷ []) in
    record b {
      chain =
          if full b.chain.cur
          then move_on b.chain.done b.chain.cur spare'
          else record { done = b.chain.done; cur = b.chain.cur; spare = spare' };
    }

-- `autoResizeWrite`. Its result is `len`, whatever the second `write` returns.
pub auto_resize_write : LoopBuf → List ℕ → ℕ × LoopBuf
auto_resize_write b src =
    let (ret, b1) = write b src in
    let (_, b2) = write (extend b1 (length src - ret)) (drop ret src) in
    (length src, if ltb ret (length src) then b2 else b1)

-- `peek` goes from `m_head` up to the frame at `m_w_pos`.
pub peek_loop : List Frame → ℕ → List ℕ
peek_loop [] len = []
peek_loop (f ∷ fs) len =
    let rest = peek_loop fs (len - real_read f len) in
    if len == 0 then [] else frame_peek f len ++ rest

pub peek : LoopBuf → ℕ → List ℕ
peek b len = peek_loop (b.chain.done ++ (b.chain.cur ∷ [])) len

abbrev prepend : List ℕ → Option (List ℕ × Chain) → Option (List ℕ × Chain)
prepend bytes none = none
prepend bytes (some (more, c)) = some (bytes ++ more, c)

-- The loop of `read`, which is at `m_head` each time its test is made: a frame that is read to its
-- end goes behind the tail, so that its successor is the head; a frame with bytes left ends the
-- loop, since all `len` bytes are read, and so does the tail, which has no successor. The test
-- `f != m_w_pos->m_next` holds each time, since the head has no predecessor. `none` means that the
-- rounds allowed were used up.
pub read_loop : ℕ → ℕ → List Frame → Frame → List Frame → Option (List ℕ × Chain)
read_loop zero len done cur spare = none
read_loop (suc rounds) len [] cur spare =
    let (bytes, cur') = frame_read cur len in
    if len == 0
    then some ([], record { done = []; cur = cur; spare = spare })
    else elim (cur'.size == 0) [
      | false ↦ some (bytes, record { done = []; cur = cur'; spare = spare })
      | true ↦ elim spare [
        | [] ↦ some (bytes, record { done = []; cur = cur'; spare = [] })
        | next ∷ spare' ↦
            prepend bytes (read_loop rounds (len - real_read cur len) (next ∷ spare') cur' [])
      ]
    ]
read_loop (suc rounds) len (f ∷ done) cur spare =
    let (bytes, f') = frame_read f len in
    if len == 0
    then some ([], record { done = f ∷ done; cur = cur; spare = spare })
    else elim (f'.size == 0) [
      | false ↦ some (bytes, record { done = f' ∷ done; cur = cur; spare = spare })
      | true ↦
          prepend bytes (read_loop rounds (len - real_read f len) done cur (spare ++ (f' ∷ [])))
    ]

-- The bytes read, and the queue.
pub read : ℕ → LoopBuf → ℕ → Option (List ℕ × LoopBuf)
read rounds b len = elim (read_loop rounds len b.chain.done b.chain.cur b.chain.spare) [
  | none ↦ none
  | some (bytes, c) ↦ some (bytes, record { chain = c; size = b.size - length bytes })
]

-- The place of `c` in a frame's window.
find_in : ℕ → List ℕ → Option ℕ
find_in c [] = none
find_in c (x ∷ xs) =
    if c == x then some 0 else elim (find_in c xs) [ none ↦ none | some i ↦ some (suc i) ]

-- `find`; `none` is its -1.
pub find_loop : ℕ → ℕ → List Frame → Option ℕ
unfolding find_in
find_loop c ret [] = none
find_loop c ret (f ∷ fs) = elim (find_in c (window f)) [
  | some i ↦ some (ret + i)
  | none ↦ find_loop c (ret + f.size) fs
]

pub find : ℕ → LoopBuf → Option ℕ
unfolding find_loop
find c b = find_loop c 0 (frames b.chain)

-- `clear` leaves `m_w_pos` where it is.
pub clear : LoopBuf → ℕ × LoopBuf
unfolding frame_clear
clear b = (b.size, record { chain = cleared; size = 0 })
  where
    open b use {chain as c}

    cleared : Chain
    cleared = record {
      done = map frame_clear c.done;
      cur = frame_clear c.cur;
      spare = map frame_clear c.spare;
    }
