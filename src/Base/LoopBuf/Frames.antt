-- ===== src/Base/LoopBuf/Frames.antt =====
-- `struct frame` of efnfw/base/ef_loop_buf.h: an array with a window of bytes in use. Sizes are
-- natural numbers: a frame's stay far below 2^31. `freeSize` does not go below 0 (`IsFrame.fits`).
use gpush.Prelude.{
  ℕ, ◌+◌, ◌-◌, ◌≤◌, ◌<◌, ◌≡◌, refl, sym, ap, ◌∙◌, List, [], ◌++◌, Bool, if◌then◌else◌, ltb, leb,
  ◌==◌, arith, length, take, drop, min, length-append, length-take, length-drop, take-append_ge,
  take-append_le, drop-append_le, drop-take, inl, inr, Bool-cases, leb→le, drop_all, drop-drop,
  take-take, take_zero, take_all,
}

pub record Frame : Type 0 where
  pub buf : List ℕ
  pub cap : ℕ
  pub size : ℕ
  pub start : ℕ

unfoldable pub free_size : Frame → ℕ
free_size f = f.cap - f.size - f.start

unfoldable pub full : Frame → Bool
full f = f.size + f.start == f.cap

-- `memmove(buf + at, src, |src|)`.
unfoldable pub copy_at : List ℕ → ℕ → List ℕ → List ℕ
copy_at buf at src = take at buf ++ (src ++ drop (at + length src) buf)

-- What `peek` and `read` return.
unfoldable pub real_read : Frame → ℕ → ℕ
real_read f len = if leb f.size len then f.size else len

-- The bytes that `peek` copies out.
unfoldable pub frame_peek : Frame → ℕ → List ℕ
unfolding real_read
frame_peek f len = take (real_read f len) (drop f.start f.buf)

-- `read`: the bytes copied out (dropped, if the caller gave no buffer) and the frame left.
unfoldable pub frame_read : Frame → ℕ → List ℕ × Frame
unfolding frame_peek real_read
frame_read f len =
    let n = real_read f len in
    (
      frame_peek f len,
      record f { size = f.size - n; start = if leb (f.size - n) 0 then 0 else f.start + n },
    )

unfoldable pub real_write : Frame → ℕ → ℕ
unfolding free_size
real_write f len = if ltb (free_size f) len then free_size f else len

-- `write` from a buffer: the number of bytes taken, and the frame.
unfoldable pub frame_write : Frame → List ℕ → ℕ × Frame
unfolding real_write copy_at
frame_write f src =
    let n = real_write f (length src) in
    (n, record f { buf = copy_at f.buf (f.start + f.size) (take n src); size = f.size + n })

-- `write` from a null pointer only counts the bytes in.
unfoldable pub frame_grow : Frame → ℕ → ℕ × Frame
unfolding real_write
frame_grow f len = let n = real_write f len in (n, record f { size = f.size + n })

unfoldable pub frame_clear : Frame → Frame
frame_clear f = record f { size = 0; start = 0 }

-- The bytes in use.
abbrev pub window : Frame → List ℕ
window f = take f.size (drop f.start f.buf)

pub record IsFrame (f : Frame) : Type 0 where
  pub whole : length f.buf ≡ f.cap
  pub fits : f.start + f.size ≤ f.cap
  pub nonempty : 0 < f.cap

-- No bytes, and all of the array free.
abbrev pub IsBlank : Frame → Type 0
IsBlank f = IsFrame f × (f.size ≡ 0) × (f.start ≡ 0)

pub length-window : (f : Frame) → IsFrame f → length (window f) ≡ f.size
length-window f v =
    omega
      (arith, length-take f.size (drop f.start f.buf), length-drop f.start f.buf, v.whole, v.fits)

pub window-blank : (f : Frame) → f.size ≡ 0 → window f ≡ []
window-blank f e = ap (λ (n : ℕ). take n (drop f.start f.buf)) e

pub real_read_lem : (f : Frame) (len : ℕ) → real_read f len ≡ min len f.size
unfolding real_read
real_read_lem f len = ground arith

pub real_write_lem : (f : Frame) (len : ℕ) → real_write f len ≡ min len (free_size f)
unfolding real_write
real_write_lem f len = ground arith

-- `peek` copies out the first bytes of the window.
pub frame_peek_lem : (f : Frame) (len : ℕ) → IsFrame f → frame_peek f len ≡ take len (window f)
unfolding frame_peek
frame_peek_lem f len v = elim (Bool-cases (leb f.size len)) [
  | inl h ↦
      rw (h, real_read)
        (sym (take_all len (window f) (omega (arith, length-window f v, leb→le _ _ h))))
  | inr h ↦ rw (h, real_read) (sym (take-take len f.size _ (ground arith)))
]

window_shift :
    (f : Frame) (n : ℕ)
    → n ≤ f.size
    → take (f.size - n) (drop (f.start + n) f.buf) ≡ drop n (window f)
window_shift f n h =
    ap (take (f.size - n)) (sym (drop-drop n f.start (f.start + n) f.buf (omega arith)))
    ∙ sym (drop-take n (f.size - n) f.size (drop f.start f.buf) (omega arith))

-- `read` takes them off the front.
pub window-frame_read :
    (f : Frame) (len : ℕ) → IsFrame f → window (frame_read f len).1 ≡ drop len (window f)
unfolding frame_read
window-frame_read f len v = elim (Bool-cases (leb f.size len)) [
  | inl h ↦
      rw (h, real_read)
        (take_zero (f.size - f.size) _ (omega arith)
          ∙ sym (drop_all len (window f) (omega (arith, length-window f v, leb→le _ _ h))))
  | inr h ↦
      rw (h, real_read)
        (ap (λ (n : ℕ). take (f.size - len) (drop n f.buf)) (ground arith)
          ∙ window_shift f len (ground arith))
]

pub frame_read-IsFrame : (f : Frame) (len : ℕ) → IsFrame f → IsFrame (frame_read f len).1
unfolding frame_read
frame_read-IsFrame f len v = ground arith

pub size-frame_read : (f : Frame) (len : ℕ) → (frame_read f len).1.size ≡ f.size - len
unfolding frame_read
size-frame_read f len = ground arith

-- A frame read to its end is blank again.
pub frame_read-IsBlank :
    (f : Frame) (len : ℕ) → IsFrame f → f.size ≤ len → IsBlank (frame_read f len).1
unfolding frame_read
frame_read-IsBlank f len v h = ground arith

pub length-copy_at :
    (buf : List ℕ) (at : ℕ) (src : List ℕ)
    → at + length src ≤ length buf
    → length (copy_at buf at src) ≡ length buf
unfolding copy_at
length-copy_at buf at src h = omega (
  arith,
  length-append (take at buf) (src ++ drop (at + length src) buf),
  length-append src (drop (at + length src) buf),
  length-take at buf,
  length-drop (at + length src) buf,
)

pub frame_write-IsFrame : (f : Frame) (src : List ℕ) → IsFrame f → IsFrame (frame_write f src).1
unfolding frame_write free_size
frame_write-IsFrame f src v = ground (
  arith,
  real_write_lem f (length src),
  length-take (real_write f (length src)) src,
  length-copy_at f.buf (f.start + f.size) (take (real_write f (length src)) src),
)

-- What is copied to the end of a window extends it.
window_copy :
    (buf : List ℕ) (start size total : ℕ) (src : List ℕ)
    → start + size + length src ≤ length buf
    → total ≡ size + length src
    → take total (drop start (copy_at buf (start + size) src)) ≡ take size (drop start buf) ++ src
unfolding copy_at
window_copy buf start size total src h e =
    let front = take (start + size) buf in
    let cut : drop start front ≡ take size (drop start buf) = drop-take start size _ buf refl in
    let measured : length (drop start front) ≡ size =
      omega (arith, length-drop start front, length-take (start + size) buf) in
    ap (take total) (drop-append_le start front _ (omega (arith, length-take (start + size) buf)))
    ∙ take-append_ge total (length src) (drop start front) _ (omega arith)
    ∙ rw (
      cut,
      take-append_le (length src) src _ (omega arith),
      take_all (length src) src (omega arith),
    )

-- What is taken of `src` is its first bytes, as many as fit.
take-real_write :
    (f : Frame) (src : List ℕ) → take (real_write f (length src)) src ≡ take (free_size f) src
unfolding real_write
take-real_write f src = elim (Bool-cases (ltb (free_size f) (length src))) [
  | inl h ↦ rw h
  | inr h ↦ rw h (take_all _ src (omega arith) ∙ sym (take_all _ src (ground arith)))
]

-- `write` puts the bytes that fit behind the window.
pub window-frame_write :
    (f : Frame) (src : List ℕ)
    → IsFrame f
    → window (frame_write f src).1 ≡ window f ++ take (free_size f) src
unfolding frame_write free_size
window-frame_write f src v =
    let measured = length-take (real_write f (length src)) src in
    let bound = real_write_lem f (length src) in
    window_copy f.buf f.start f.size _ (take (real_write f (length src)) src) (omega arith)
      (omega arith)
    ∙ ap (◌++◌ (window f)) (take-real_write f src)

pub count-frame_write :
    (f : Frame) (src : List ℕ) → (frame_write f src).0 ≡ min (length src) (free_size f)
unfolding frame_write
count-frame_write f src = real_write_lem f (length src)

pub frame_clear-IsBlank : (f : Frame) → IsFrame f → IsBlank (frame_clear f)
unfolding frame_clear
frame_clear-IsBlank f v = ground arith

-- A frame is full when it has no room, and a write fills it when the bytes reach that far.
pub full-free : (f : Frame) → IsFrame f → full f ≡ leb (free_size f) 0
unfolding full free_size
full-free f v = ground arith

pub full-frame_write :
    (f : Frame) (src : List ℕ)
    → IsFrame f
    → full (frame_write f src).1 ≡ leb (free_size f) (length src)
unfolding full free_size frame_write
full-frame_write f src v = ground (arith, real_write_lem f (length src))

pub free_size-blank : (f : Frame) → IsBlank f → free_size f ≡ f.cap
unfolding free_size
free_size-blank f v = omega arith

pub free_size-frame_write :
    (f : Frame) (src : List ℕ)
    → IsFrame f
    → free_size (frame_write f src).1 ≡ free_size f - length src
unfolding free_size frame_write
free_size-frame_write f src v = omega (arith, real_write_lem f (length src))
