-- ===== src/Sdk/RingBuf/Queue.antt =====
-- The ring is a queue.
use gpush.Prelude.{
  ℕ, ◌+◌, ◌-◌, ◌≤◌, ◌<◌, ◌≡◌, refl, ap, sym, ◌∙◌, List, ◌++◌, if◌then◌else◌, ltb, leb, ◌==◌,
  Bool-cases, inl, inr, arith, length, take, drop, get_or, length-take, length-drop, take-take,
  take_all, take-append_le, take-append_ge,
}
use gpush.Sdk.RingBuf.{RingBuf, real_read, peek, read}
use gpush.Sdk.RingBuf.Places.{
  same_bytes_eq, get_or-drop, IsValid, contents, length-contents, get_or-contents,
}

peek_front :
    (r : RingBuf) (len : ℕ)
    → IsValid r
    → peek r len ≡ take (real_read r len) (drop r.start r.buf ++ r.buf)
unfolding peek
peek_front r len v =
    let n = real_read r len in
    let l : length (drop r.start r.buf) ≡ r.cap - r.start =
      omega (arith, v.full, length-drop r.start r.buf) in
    elim (Bool-cases (ltb (r.cap - r.start) n)) [
      | inl wraps ↦
          rw (wraps, peek)
            (ap (λ (xs : List ℕ). xs ++ take (n - (r.cap - r.start)) r.buf)
                (take_all (r.cap - r.start) (drop r.start r.buf) (omega (arith, l)))
              ∙ sym (
                  take-append_ge n (n - (r.cap - r.start)) (drop r.start r.buf) r.buf
                    (ground arith)))
      | inr near ↦
          rw (near, peek) (sym (take-append_le n (drop r.start r.buf) r.buf (ground arith)))
    ]

-- `peek` gives the oldest bytes.
pub peek-take : (r : RingBuf) (len : ℕ) → IsValid r → peek r len ≡ take len (contents r)
unfolding contents real_read
peek-take r len v =
    let x = drop r.start r.buf ++ r.buf in
    elim (Bool-cases (leb r.size len)) [
      | inl all ↦
          let n : real_read r len ≡ r.size = rw all refl in
          peek_front r len v
          ∙ ap (λ (k : ℕ). take k x) n
          ∙ sym (take_all len (take r.size x) (ground (arith, length-take r.size x)))
      | inr some ↦
          let n : real_read r len ≡ len = rw some refl in
          peek_front r len v
          ∙ ap (λ (k : ℕ). take k x) n
          ∙ sym (take-take len r.size x (ground arith))
    ]

real_read_lem :
    (r : RingBuf) (len : ℕ) → (real_read r len ≤ r.size) × (r.size - real_read r len ≡ r.size - len)
unfolding real_read
real_read_lem r len = ((ground arith), (ground arith))

start_bound :
    (n size cap start : ℕ)
    → n ≤ size
    → size ≤ cap
    → start ≤ cap
    → (if size - n == 0 then 0 else if ltb (cap - start) n then n - (cap - start) else start + n)
      ≤ cap
start_bound n size cap start h k l = ground arith

read-IsValid : (r : RingBuf) (len : ℕ) → IsValid r → IsValid (read r len).1
unfolding read
read-IsValid r len v = record {
  full = v.full;
  some_room = v.some_room;
  bounded = omega (arith, v.bounded);
  starts =
      start_bound (real_read r len) r.size r.cap r.start (real_read_lem r len).0 v.bounded v.starts;
}

-- After taking `n` bytes, a byte is where it was.
moved :
    (n len size cap start i : ℕ)
    → size - n ≡ size - len
    → n ≤ size
    → size ≤ cap
    → start ≤ cap
    → i < size - n
    → (if ltb
          ((if size - n == 0
              then 0
              else if ltb (cap - start) n
              then n - (cap - start)
              else start + n)
            + i)
          cap
        then (if size - n == 0
            then 0
            else if ltb (cap - start) n
            then n - (cap - start)
            else start + n)
          + i
        else (if size - n == 0
            then 0
            else if ltb (cap - start) n
            then n - (cap - start)
            else start + n)
          + i
          - cap)
      ≡ (if ltb (start + (len + i)) cap then start + (len + i) else start + (len + i) - cap)
moved n len size cap start i e h k l m = ground arith

-- `read` gives the oldest bytes and leaves the others.
pub read-contents :
    (r : RingBuf) (len : ℕ)
    → IsValid r
    → ((read r len).0 ≡ take len (contents r))
      × (contents (read r len).1 ≡ drop len (contents r))
      × IsValid (read r len).1
unfolding read
read-contents r len v =
    let r' = (read r len).1 in
    let v' = read-IsValid r len v in
    let (few, left) = real_read_lem r len in
    (
      peek-take r len v,
      same_bytes_eq (contents r') (drop len (contents r))
          (omega
            (arith, length-contents r' v', length-contents r v, length-drop len (contents r), left))
          (λ i l.
            let within : i < r.size - real_read r len = omega (arith, length-contents r' v') in
            get_or-contents r' i v' within
            ∙ ap (λ (k : ℕ). get_or r.buf k 0)
                (moved (real_read r len) len r.size r.cap r.start i left few v.bounded v.starts
                  within)
            ∙ sym (get_or-contents r (len + i) v (omega (arith, left)))
            ∙ sym (get_or-drop len (contents r) i)),
      v',
    )
