-- ===== src/Sdk/RingBuf/Resize.antt =====
-- Growing the ring.
use gpush.Prelude.{
  ℕ, ◌+◌, ◌-◌, ◌*◌, ◌≤◌, ◌<◌, ◌≡◌, refl, ap, sym, ◌∙◌, List, ◌++◌, if◌then◌else◌, ltb, Bool-cases,
  inl, inr, arith, length, take, length-append, length-take, take_all, take-append_le, replicate,
  length-replicate,
}
use mathlib.Core.Path.{subst}
use gpush.Sdk.RingBuf.{RingBuf, read, resize, write, auto_resize_write}
use gpush.Sdk.RingBuf.Places.{IsValid, contents, length-contents}
use gpush.Sdk.RingBuf.Queue.{read-contents}
use gpush.Sdk.RingBuf.Write.{write-contents}

-- `resize` keeps the oldest bytes that fit into the new array.
pub resize-contents :
    (r : RingBuf) (cap : ℕ)
    → IsValid r
    → 0 < cap
    → (contents (resize r cap).1 ≡ take cap (contents r)) × IsValid (resize r cap).1
unfolding resize contents
resize-contents r cap v p =
    let bytes = (read r cap).0 in
    let zeros : List ℕ = replicate (cap - length bytes) 0 in
    let old = (read-contents r cap v).0 in
    let fits : length bytes ≤ cap = omega (arith, ap length old, length-take cap (contents r)) in
    (
      take-append_le (length bytes) (bytes ++ zeros) (bytes ++ zeros)
            (omega (arith, length-append bytes zeros))
          ∙ take-append_le (length bytes) bytes zeros (omega arith)
          ∙ take_all (length bytes) bytes (omega arith)
          ∙ old,
      record {
        full =
            omega
              (arith, length-append bytes zeros, length-replicate {A = ℕ} (cap - length bytes) 0);
        some_room = p;
        bounded = fits;
        starts = omega arith;
      },
    )

resize-cap : (r : RingBuf) (cap : ℕ) → (resize r cap).1.cap ≡ cap
unfolding resize
resize-cap r cap = refl

-- What writing all of some bytes does.
record Takes (r : RingBuf) (src : List ℕ) (out : ℕ × RingBuf) : Type 0 where
  pub bytes : contents out.1 ≡ contents r ++ src
  pub count : out.0 ≡ length src
  pub valid : IsValid out.1

write-Takes :
    (r : RingBuf) (src : List ℕ)
    → IsValid r
    → r.size + length src ≤ r.cap
    → Takes r src (write r src)
write-Takes r src v room =
    let (bytes, count, valid) = write-contents r src v in
    record {
      bytes =
          bytes
          ∙ ap (λ (xs : List ℕ). contents r ++ xs) (take_all (r.cap - r.size) src (omega arith));
      count = count ∙ omega (arith, room);
      valid = valid;
    }

-- The new capacity is enough, and the bytes that are there are kept.
grown-Takes :
    (r : RingBuf) (src : List ℕ) (cap : ℕ)
    → IsValid r
    → r.size + length src ≤ cap
    → 0 < cap
    → Takes r src (write (resize r cap).1 src)
grown-Takes r src cap v room p =
    let r' = (resize r cap).1 in
    let (kept, valid) = resize-contents r cap v p in
    let same : contents r' ≡ contents r =
      kept ∙ take_all cap (contents r) (omega (arith, length-contents r v)) in
    let size : r'.size ≡ r.size =
      sym (length-contents r' valid) ∙ ap length same ∙ length-contents r v in
    let t = write-Takes r' src valid (omega (arith, size, resize-cap r cap)) in
    record {
      bytes = t.bytes ∙ ap (λ (xs : List ℕ). xs ++ src) same;
      count = t.count;
      valid = t.valid;
    }

enough :
    (size cap len : ℕ)
    → size ≤ cap
    → cap < size + len
    → size + len ≤ (if ltb len cap then cap * 2 else len * 2)
enough size cap len h k = ground arith

all_taken : (r : RingBuf) (src : List ℕ) → IsValid r → Takes r src (auto_resize_write r src)
unfolding auto_resize_write
all_taken r src v = elim (Bool-cases (ltb r.cap (r.size + length src))) [
  | inl short ↦
      let bigger = if ltb (length src) r.cap then r.cap * 2 else length src * 2 in
      let wide : r.size + length src ≤ bigger =
        enough r.size r.cap (length src) v.bounded (ground arith) in
      subst (Takes r src) (sym (rw (short, auto_resize_write) refl))
        (grown-Takes r src bigger v wide (ground (arith, v.some_room, wide)))
  | inr room ↦
      subst (Takes r src) (sym (rw (room, auto_resize_write) refl))
        (write-Takes r src v (ground arith))
]

-- `auto_resize_write` puts all of the bytes at the end of the queue and keeps the ring valid.
pub auto_resize_write-contents :
    (r : RingBuf) (src : List ℕ)
    → IsValid r
    → (contents (auto_resize_write r src).1 ≡ contents r ++ src)
      × ((auto_resize_write r src).0 ≡ length src)
      × IsValid (auto_resize_write r src).1
auto_resize_write-contents r src v = let t = all_taken r src v in (t.bytes, t.count, t.valid)
