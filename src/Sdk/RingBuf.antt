-- ===== src/Sdk/RingBuf.antt =====
-- clientsdk/client/ef_loop_buf.{h,cpp}: the client's receive buffer, a ring of bytes that grows. What
-- a new array holds is a parameter's choice, here zeros.
pub mod Places
pub mod Queue
pub mod Array
pub mod Write
pub mod Resize
mod Tests
use gpush.Prelude.{
  ℕ, ◌+◌, ◌-◌, ◌*◌, ◌%◌, List, [], ◌++◌, if◌then◌else◌, ltb, leb, ◌==◌, length, take, drop,
  replicate,
}
use gpush.Base.LoopBuf.Frames.{copy_at}

pub record RingBuf : Type 0 where
  pub buf : List ℕ
  pub cap : ℕ
  pub size : ℕ
  pub start : ℕ

unfoldable pub new_ring : ℕ → RingBuf
new_ring cap = record { buf = replicate cap 0; cap = cap; size = 0; start = 0 }

unfoldable pub real_read : RingBuf → ℕ → ℕ
real_read r len = if leb r.size len then r.size else len

unfoldable pub peek : RingBuf → ℕ → List ℕ
unfolding real_read
peek r len =
    let n = real_read r len in
    let first_half = r.cap - r.start in
    if ltb first_half n
    then take first_half (drop r.start r.buf) ++ take (n - first_half) r.buf
    else take n (drop r.start r.buf)

unfoldable pub read : RingBuf → ℕ → List ℕ × RingBuf
unfolding real_read peek
read r len =
    let n = real_read r len in
    let first_half = r.cap - r.start in
    let start = if ltb first_half n then n - first_half else r.start + n in
    let size = r.size - n in
    (peek r len, record r { size = size; start = if size == 0 then 0 else start })

unfoldable pub resize : RingBuf → ℕ → ℕ × RingBuf
unfolding read
resize r cap =
    let bytes = (read r cap).0 in
    (
      length bytes,
      record {
        buf = bytes ++ replicate (cap - length bytes) 0;
        cap = cap;
        size = length bytes;
        start = 0;
      },
    )

unfoldable pub real_write : RingBuf → ℕ → ℕ
real_write r len = if ltb (r.cap - r.size) len then r.cap - r.size else len

unfoldable pub write : RingBuf → List ℕ → ℕ × RingBuf
unfolding real_write
write r src =
    let n = real_write r (length src) in
    let stop = (r.start + r.size) % r.cap in
    let first_half = r.cap - stop in
    let buf =
      if ltb first_half n
      then copy_at (copy_at r.buf stop (take first_half src)) 0
          (take (n - first_half) (drop first_half src))
      else copy_at r.buf stop (take n src) in
    (n, record r { buf = buf; size = r.size + n })

unfoldable pub next_part_len : RingBuf → ℕ
next_part_len r =
    let left_size = r.cap - r.size in
    let next_part = r.cap - (r.start + r.size) % r.cap in
    if ltb next_part left_size then next_part else left_size

unfoldable pub auto_resize_write : RingBuf → List ℕ → ℕ × RingBuf
unfolding resize write
auto_resize_write r src =
    let len = length src in
    let bigger = if ltb len r.cap then r.cap * 2 else len * 2 in
    let r' = (resize r bigger).1 in if ltb r.cap (r.size + len) then write r' src else write r src

unfoldable pub clear : RingBuf → ℕ × RingBuf
clear r = (r.size, record r { size = 0; start = 0 })
