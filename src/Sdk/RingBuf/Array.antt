-- ===== src/Sdk/RingBuf/Array.antt =====
-- The array of a ring after bytes were copied into it, byte by byte.
use gpush.Prelude.{
  ℕ, ◌+◌, ◌-◌, ◌≤◌, ◌<◌, ◌≡◌, ◌⊎◌, ◌∙◌, List, if◌then◌else◌, ltb, inl, inr, arith, length, take,
  drop, get_or, length-take, length-drop,
}
use gpush.Base.LoopBuf.Frames.{copy_at}
use gpush.Sdk.RingBuf.Places.{get_or-take, get_or-drop, length-copy_at, get_or-copy_at}

-- Where the ring's bytes lie: a byte that was there stays out of the way of those that come, and these
-- lie where they are looked for.
unfoldable pub Turned : ℕ → ℕ → ℕ → ℕ → Type 0
Turned stop size cap start =
    (size ≡ cap) ⊎ (stop ≡ (if ltb (start + size) cap then start + size else start + size - cap))

pub straight_place :
    (i n size cap start stop x y z : ℕ)
    → i < size + n
    → size + n ≤ cap
    → start ≤ cap
    → 0 < cap
    → stop < cap
    → n ≤ cap - stop
    → Turned stop size cap start
    → ((if ltb (start + i) cap then start + i else start + i - cap) - stop ≡ i - size → y ≡ z)
    → (if ltb (if ltb (start + i) cap then start + i else start + i - cap) stop
        then x
        else if ltb (if ltb (start + i) cap then start + i else start + i - cap) (stop + n)
        then y
        else x)
      ≡ (if ltb i size then x else z)
unfolding Turned
straight_place i n size cap start stop x y z a b c d e f (inl g) same = ground arith
straight_place i n size cap start stop x y z a b c d e f (inr g) same = ground (arith, same)

pub around_place :
    (i n size cap start stop x y z w : ℕ)
    → i < size + n
    → size + n ≤ cap
    → start ≤ cap
    → 0 < cap
    → stop < cap
    → cap - stop < n
    → Turned stop size cap start
    → ((if ltb (start + i) cap then start + i else start + i - cap) - stop ≡ i - size → y ≡ z)
    → (cap - stop + (if ltb (start + i) cap then start + i else start + i - cap) ≡ i - size → w ≡ z)
    → (if ltb (if ltb (start + i) cap then start + i else start + i - cap) (n - (cap - stop))
        then w
        else if ltb (if ltb (start + i) cap then start + i else start + i - cap) stop
        then x
        else y)
      ≡ (if ltb i size then x else z)
unfolding Turned
around_place i n size cap start stop x y z w a b c d e f (inl g) same other = absurd (omega arith)
around_place i n size cap start stop x y z w a b c d e f (inr g) same other =
    ground (arith, same, other)

straight_if :
    (p stop n x y : ℕ)
    → (if ltb p stop
        then x
        else if ltb p (stop + n)
        then (if ltb (p - stop) n then y else 0)
        else x)
      ≡ (if ltb p stop then x else if ltb p (stop + n) then y else x)
straight_if p stop n x y = ground arith

around_if :
    (p stop cap m x y z : ℕ)
    → p < cap
    → stop < cap
    → (if ltb p 0
        then (if ltb p stop
            then x
            else if ltb p (stop + (cap - stop))
            then (if ltb (p - stop) (cap - stop) then y else 0)
            else x)
        else if ltb p (0 + m)
        then (if ltb p m then z else 0)
        else if ltb p stop
        then x
        else if ltb p (stop + (cap - stop))
        then (if ltb (p - stop) (cap - stop) then y else 0)
        else x)
      ≡ (if ltb p m then z else if ltb p stop then x else y)
around_if p stop cap m x y z l k = ground arith

-- What writing with a turn makes of the array.
abbrev pub turned : List ℕ → List ℕ → ℕ → ℕ → ℕ → List ℕ
turned buf src cap stop n =
    copy_at (copy_at buf stop (take (cap - stop) src)) 0
      (take (n - (cap - stop)) (drop (cap - stop) src))

module _ (buf src : List ℕ) (cap stop n : ℕ) (full : length buf ≡ cap) (some_src : n ≤ length src)
    (inside : stop < cap) where
  whole : length (take n src) ≡ n
  whole = omega (arith, some_src, length-take n src)

  -- A byte of the array after writing without a turn.
  pub straight :
      (p : ℕ)
      → n ≤ cap - stop
      → get_or (copy_at buf stop (take n src)) p 0 ≡ (
          if ltb p stop
          then get_or buf p 0
          else if ltb p (stop + n)
          then get_or src (p - stop) 0
          else get_or buf p 0)
  straight p fits =
      let e = get_or-copy_at buf stop (take n src) p (omega (arith, whole, full, inside)) in
      let t = get_or-take n src (p - stop) in
      rw (e, whole, t) (straight_if p stop n (get_or buf p 0) (get_or src (p - stop) 0))

  -- And with a turn.
  pub around :
      (p : ℕ)
      → cap - stop < n
      → n ≤ cap
      → p < cap
      → get_or (turned buf src cap stop n) p 0 ≡ (
          if ltb p (n - (cap - stop))
          then get_or src (cap - stop + p) 0
          else if ltb p stop
          then get_or buf p 0
          else get_or src (p - stop) 0)
  around p far most low =
      let first = take (cap - stop) src in
      let second = take (n - (cap - stop)) (drop (cap - stop) src) in
      let l1 : length first ≡ cap - stop = omega (arith, some_src, length-take (cap - stop) src) in
      let l2 : length second ≡ n - (cap - stop) = omega (
        arith,
        some_src,
        length-take (n - (cap - stop)) (drop (cap - stop) src),
        length-drop (cap - stop) src,
      ) in
      let l3 = length-copy_at buf stop first (omega (arith, l1, full, inside)) in
      let e1 =
        get_or-copy_at (copy_at buf stop first) 0 second p (omega (arith, l1, l2, l3, full)) in
      let e2 = get_or-copy_at buf stop first p (omega (arith, l1, full, inside)) in
      let t1 = get_or-take (cap - stop) src (p - stop) in
      let t2 = get_or-take (n - (cap - stop)) (drop (cap - stop) src) (p - 0) in
      let t3 = get_or-drop (cap - stop) src (p - 0) in
      let p0 : p - 0 ≡ p = omega arith in
      rw (e1, e2, l1, l2, t1, t2, t3, p0)
        (around_if p stop cap (n - (cap - stop)) (get_or buf p 0) (get_or src (p - stop) 0)
          (get_or src (cap - stop + p) 0) low inside)

  pub length-straight : n ≤ cap - stop → length (copy_at buf stop (take n src)) ≡ length buf
  length-straight fits = length-copy_at buf stop (take n src) (omega (arith, whole, full, inside))

  pub length-turned : cap - stop < n → n ≤ cap → length (turned buf src cap stop n) ≡ length buf
  length-turned far most =
      let first = take (cap - stop) src in
      let second = take (n - (cap - stop)) (drop (cap - stop) src) in
      let l1 : length first ≡ cap - stop = omega (arith, some_src, length-take (cap - stop) src) in
      let l2 : length second ≡ n - (cap - stop) = omega (
        arith,
        some_src,
        length-take (n - (cap - stop)) (drop (cap - stop) src),
        length-drop (cap - stop) src,
      ) in
      let l3 = length-copy_at buf stop first (omega (arith, l1, full, inside)) in
      length-copy_at (copy_at buf stop first) 0 second (omega (arith, l2, l3, full)) ∙ l3
