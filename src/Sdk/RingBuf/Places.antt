-- ===== src/Sdk/RingBuf/Places.antt =====
-- What the ring holds, byte by byte.
use gpush.Prelude.{
  ℕ, zero, suc, ◌+◌, ◌-◌, ◌%◌, ◌≤◌, ◌<◌, ◌≡◌, refl, ap, ◌∙◌, List, [], ◌∷◌, ◌++◌, true, false,
  if◌then◌else◌, ltb, Bool-cases, inl, inr, arith, length, take, drop, get_or, length-append,
  length-take, length-drop,
}
use native.Mathlib.Nat.{mod-eq_of_lt, mod-eq-sub-mod}
use gpush.Base.LoopBuf.Frames.{copy_at}
use gpush.Sdk.RingBuf.{RingBuf}

-- Lists of one length with the same bytes are equal.
pub same_bytes_eq :
    (xs ys : List ℕ)
    → length xs ≡ length ys
    → ((i : ℕ) → i < length xs → get_or xs i 0 ≡ get_or ys i 0)
    → xs ≡ ys
same_bytes_eq [] [] e h = refl
same_bytes_eq [] (y ∷ ys) e h = absurd (omega arith)
same_bytes_eq (x ∷ xs) [] e h = absurd (omega arith)
same_bytes_eq (x ∷ xs) (y ∷ ys) e h =
    let first = h 0 (omega arith) in
    let rest = same_bytes_eq xs ys (omega arith) (λ i l. h (suc i) (omega arith)) in
    cc (first, rest)

pub get_or-append :
    (xs ys : List ℕ) (i : ℕ)
    → get_or (xs ++ ys) i 0
      ≡ (if ltb i (length xs) then get_or xs i 0 else get_or ys (i - length xs) 0)
get_or-append [] ys i = ground arith
get_or-append (x ∷ xs) ys zero = ground arith
get_or-append (x ∷ xs) ys (suc i) = ground (arith, get_or-append xs ys i)

pub get_or-take :
    (n : ℕ) (xs : List ℕ) (i : ℕ) → get_or (take n xs) i 0 ≡ (if ltb i n then get_or xs i 0 else 0)
get_or-take zero xs i = ground arith
get_or-take (suc n) [] i = ground arith
get_or-take (suc n) (x ∷ xs) zero = ground arith
get_or-take (suc n) (x ∷ xs) (suc i) = ground (arith, get_or-take n xs i)

pub get_or-drop : (n : ℕ) (xs : List ℕ) (i : ℕ) → get_or (drop n xs) i 0 ≡ get_or xs (n + i) 0
get_or-drop zero xs i = let e : 0 + i ≡ i = omega arith in rw e refl
get_or-drop (suc n) [] i = refl
get_or-drop (suc n) (x ∷ xs) i =
    let e : suc n + i ≡ suc (n + i) = omega arith in rw e (get_or-drop n xs i)

pub length-copy_at :
    (buf : List ℕ) (at : ℕ) (src : List ℕ)
    → at + length src ≤ length buf
    → length (copy_at buf at src) ≡ length buf
unfolding copy_at
length-copy_at buf at src h = omega (
  arith,
  length-append (take at buf) (src ++ drop (at + length src) buf),
  length-append src (drop (at + length src) buf),
  length-take at buf,
  length-drop (at + length src) buf,
)

same_place : (buf : List ℕ) (i j : ℕ) → i ≡ j → get_or buf i 0 ≡ get_or buf j 0
same_place buf i j e = ap (λ (k : ℕ). get_or buf k 0) e

same_piece :
    (i at n x y z : ℕ)
    → (at + n ≤ i → z ≡ x)
    → (if ltb i at then (if ltb i at then x else 0) else if ltb (i - at) n then y else z)
      ≡ (if ltb i at then x else if ltb i (at + n) then y else x)
same_piece i at n x y z back = ground (arith, back)

pub get_or-copy_at :
    (buf : List ℕ) (at : ℕ) (src : List ℕ) (i : ℕ)
    → at + length src ≤ length buf
    → get_or (copy_at buf at src) i 0 ≡ (
        if ltb i at
        then get_or buf i 0
        else if ltb i (at + length src)
        then get_or src (i - at) 0
        else get_or buf i 0)
unfolding copy_at
get_or-copy_at buf at src i h =
    let e1 = get_or-append (take at buf) (src ++ drop (at + length src) buf) i in
    let e2 = get_or-append src (drop (at + length src) buf) (i - at) in
    let e3 = get_or-take at buf i in
    let e4 = get_or-drop (at + length src) buf (i - at - length src) in
    let back : at + length src ≤ i
        → get_or buf (at + length src + (i - at - length src)) 0 ≡ get_or buf i 0 =
      λ far. same_place buf (at + length src + (i - at - length src)) i (omega arith) in
    let l : length (take at buf) ≡ at = omega (arith, length-take at buf) in
    rw (e1, l, e2, e3, e4)
      (same_piece i at (length src) (get_or buf i 0) (get_or src (i - at) 0)
        (get_or buf (at + length src + (i - at - length src)) 0) back)

-- The place of a byte in the array.
abbrev pub place : RingBuf → ℕ → ℕ
place r i = if ltb (r.start + i) r.cap then r.start + i else r.start + i - r.cap

pub record IsValid (r : RingBuf) : Type 0 where
  pub full : length r.buf ≡ r.cap
  pub some_room : 0 < r.cap
  pub bounded : r.size ≤ r.cap
  pub starts : r.start ≤ r.cap

-- The bytes of the queue.
unfoldable pub contents : RingBuf → List ℕ
contents r = take r.size (drop r.start r.buf ++ r.buf)

pub length-contents : (r : RingBuf) → IsValid r → length (contents r) ≡ r.size
unfolding contents
length-contents r v = omega (
  arith,
  v.full,
  v.bounded,
  length-take r.size (drop r.start r.buf ++ r.buf),
  length-append (drop r.start r.buf) r.buf,
)

at_place :
    (f : ℕ → ℕ) (i size cap start : ℕ)
    → i < size
    → start ≤ cap
    → (if ltb i size
        then (if ltb i (cap - start) then f (start + i) else f (i - (cap - start)))
        else 0)
      ≡ f (if ltb (start + i) cap then start + i else start + i - cap)
at_place f i size cap start l s =
    let same : cap ≤ start + i → i - (cap - start) ≡ start + i - cap = λ h. omega arith in
    elim (Bool-cases (ltb (start + i) cap)) [
      | inl near ↦
          let a : ltb i size ≡ true = ground arith in
          let b : ltb i (cap - start) ≡ true = ground arith in rw (near, a, b) refl
      | inr far ↦
          let a : ltb i size ≡ true = ground arith in
          let b : ltb i (cap - start) ≡ false = ground arith in
          let c : cap ≤ start + i = ground arith in rw (far, a, b) (ap f (same c))
    ]

pub get_or-contents :
    (r : RingBuf) (i : ℕ)
    → IsValid r
    → i < r.size
    → get_or (contents r) i 0 ≡ get_or r.buf (place r i) 0
unfolding contents
get_or-contents r i v l =
    let e1 = get_or-take r.size (drop r.start r.buf ++ r.buf) i in
    let e2 = get_or-append (drop r.start r.buf) r.buf i in
    let e3 = get_or-drop r.start r.buf i in
    let n : length (drop r.start r.buf) ≡ r.cap - r.start =
      omega (arith, v.full, length-drop r.start r.buf) in
    rw (e1, e2, e3, n) (at_place (λ (k : ℕ). get_or r.buf k 0) i r.size r.cap r.start l v.starts)

-- Where writing begins, a full turn being taken off.
pub turn_lem : (a cap : ℕ) → 0 < cap → a < cap + cap → a % cap ≡ (if ltb a cap then a else a - cap)
turn_lem a cap p q = elim (Bool-cases (ltb a cap)) [
  | inl near ↦ rw near (mod-eq_of_lt (ground arith))
  | inr far ↦ rw far (mod-eq-sub-mod (ground arith) ∙ mod-eq_of_lt (ground arith))
]
