-- ===== src/Sdk/RingBuf/Write.antt =====
-- Writing puts bytes at the end of the queue.
use gpush.Prelude.{
  ℕ, ◌+◌, ◌-◌, ◌%◌, ◌≤◌, ◌<◌, ◌≡◌, refl, ap, sym, ◌∙◌, List, ◌++◌, true, false, if◌then◌else◌, ltb,
  Bool-cases, inl, inr, arith, length, take, get_or, length-append, length-take, min,
}
use native.Mathlib.Nat.{mod-lt}
use gpush.Base.LoopBuf.Frames.{copy_at}
use gpush.Sdk.RingBuf.{RingBuf, real_write, write}
use gpush.Sdk.RingBuf.Places.{
  same_bytes_eq, get_or-append, get_or-take, place, IsValid, contents, length-contents,
  get_or-contents, turn_lem,
}
use gpush.Sdk.RingBuf.Array.{
  Turned, straight_place, around_place, turned, straight, around, length-straight, length-turned,
}

abbrev stop : RingBuf → ℕ
stop r = (r.start + r.size) % r.cap

-- The place behind the last byte; a full ring has no room, wherever it is.
stop_lem : (r : RingBuf) → IsValid r → (stop r < r.cap) × Turned (stop r) r.size r.cap r.start
unfolding Turned
stop_lem r v = elim (Bool-cases (ltb r.size r.cap)) [
  | inl room ↦ (
    mod-lt (r.start + r.size) v.some_room,
    inr (turn_lem (r.start + r.size) r.cap v.some_room (ground (arith, v.starts))),
  )
  | inr full ↦ (mod-lt (r.start + r.size) v.some_room, inl (ground (arith, v.bounded)))
]

real_write_lem :
    (r : RingBuf) (len : ℕ)
    → IsValid r
    → (real_write r len ≤ len) × (r.size + real_write r len ≤ r.cap)
unfolding real_write
real_write_lem r len v = ((ground arith), (ground (arith, v.bounded)))

module _ (r : RingBuf) (src : List ℕ) (v : IsValid r) where
  abbrev amount : ℕ
  amount = real_write r (length src)

  abbrev after : RingBuf
  after = (write r src).1

  -- The two ways in which the bytes are copied.
  straight-write :
      ltb (r.cap - stop r) amount ≡ false
      → after ≡ record r { buf = copy_at r.buf (stop r) (take amount src); size = r.size + amount }
  unfolding write
  straight-write near = rw (near, write) refl

  around-write :
      ltb (r.cap - stop r) amount ≡ true
      → after ≡ record r { buf = turned r.buf src r.cap (stop r) amount; size = r.size + amount }
  unfolding write
  around-write far = rw (far, write) refl

  byte-after :
      (i : ℕ)
      → i < r.size + amount
      → get_or after.buf (place r i) 0
        ≡ (if ltb i r.size then get_or r.buf (place r i) 0 else get_or src (i - r.size) 0)
  byte-after i l =
      let (few, room) = real_write_lem r (length src) v in
      let (inside, at) = stop_lem r v in
      let low : place r i < r.cap = ground (arith, v.some_room, v.starts) in
      elim (Bool-cases (ltb (r.cap - stop r) amount)) [
        | inl far ↦
            ap (λ (x : RingBuf). get_or x.buf (place r i) 0) (around-write far)
            ∙ around r.buf src r.cap (stop r) amount v.full few inside (place r i) (ground arith)
                (omega (arith, room)) low
            ∙ around_place i amount r.size r.cap r.start (stop r) (get_or r.buf (place r i) 0) _
                (get_or src (i - r.size) 0) _ l room v.starts v.some_room inside (ground arith) at
                (λ e. ap (λ (k : ℕ). get_or src k 0) e) (λ e. ap (λ (k : ℕ). get_or src k 0) e)
        | inr near ↦
            ap (λ (x : RingBuf). get_or x.buf (place r i) 0) (straight-write near)
            ∙ straight r.buf src r.cap (stop r) amount v.full few inside (place r i) (ground arith)
            ∙ straight_place i amount r.size r.cap r.start (stop r) (get_or r.buf (place r i) 0) _
                (get_or src (i - r.size) 0) l room v.starts v.some_room inside (ground arith) at
                (λ e. ap (λ (k : ℕ). get_or src k 0) e)
      ]

  length-after : length after.buf ≡ length r.buf
  length-after =
      let (few, room) = real_write_lem r (length src) v in
      let (inside, at) = stop_lem r v in
      elim (Bool-cases (ltb (r.cap - stop r) amount)) [
        | inl far ↦
            ap (λ (x : RingBuf). length x.buf) (around-write far)
            ∙ length-turned r.buf src r.cap (stop r) amount v.full few inside (ground arith)
                (omega (arith, room))
        | inr near ↦
            ap (λ (x : RingBuf). length x.buf) (straight-write near)
            ∙ length-straight r.buf src r.cap (stop r) amount v.full few inside (ground arith)
      ]

  write-IsValid : IsValid after
  unfolding write
  write-IsValid = record {
    full = length-after ∙ v.full;
    some_room = v.some_room;
    bounded = (real_write_lem r (length src) v).1;
    starts = v.starts;
  }

  amount_lem : amount ≡ min (length src) (r.cap - r.size)
  unfolding real_write
  amount_lem = ground arith

  byte_expected :
      (i : ℕ)
      → i < r.size + amount
      → get_or (contents r ++ take (r.cap - r.size) src) i 0
        ≡ (if ltb i r.size then get_or r.buf (place r i) 0 else get_or src (i - r.size) 0)
  byte_expected i l =
      let e = get_or-append (contents r) (take (r.cap - r.size) src) i in
      let n = length-contents r v in
      let t = get_or-take (r.cap - r.size) src (i - r.size) in
      elim (Bool-cases (ltb i r.size)) [
        | inl old ↦
            let there : ltb i (length (contents r)) ≡ true = ap (ltb i) n ∙ old in
            rw (e, there, old) (get_or-contents r i v (ground arith))
        | inr new ↦
            let there : ltb i (length (contents r)) ≡ false = ap (ltb i) n ∙ new in
            let fits : ltb (i - r.size) (r.cap - r.size) ≡ true = ground (arith, amount_lem) in
            rw (e, there, new, n, t, fits) refl
      ]

  -- `write` puts the first bytes at the end of the queue, as many as there is room for, and keeps the
  -- ring valid.
  pub write-contents :
      (contents after ≡ contents r ++ take (r.cap - r.size) src)
      × ((write r src).0 ≡ min (length src) (r.cap - r.size))
      × IsValid after
  unfolding write
  write-contents =
      let n = length-contents after write-IsValid in
      (
        same_bytes_eq (contents after) (contents r ++ take (r.cap - r.size) src)
            (omega (
              arith,
              n,
              amount_lem,
              length-append (contents r) (take (r.cap - r.size) src),
              length-contents r v,
              length-take (r.cap - r.size) src,
            ))
            (λ i l.
              let within : i < r.size + amount = omega (arith, n) in
              get_or-contents after i write-IsValid within
              ∙ byte-after i within
              ∙ sym (byte_expected i within)),
        amount_lem,
        write-IsValid,
      )
