-- ===== src/Base/LoopBuf/Search.antt =====
-- `find` and `clear`.
use gpush.Prelude.{
  ℕ, zero, suc, ◌+◌, ◌≡◌, ◌≢◌, refl, ap, sym, ◌∙◌, inl, inr, List, [], ◌∷◌, ◌++◌, append-nil,
  Bool-cases, Option, Option-cases, none, some, ◌==◌, arith, length, take, take-append_ge,
  get_elem?, get_elem?-append_ge, All, All-append, map,
}
use mathlib.Core.Path.{subst}
use gpush.Base.LoopBuf.Frames.{
  Frame, window, IsFrame, IsBlank, length-window, frame_clear, frame_clear-IsBlank, window-blank,
}
use gpush.Base.LoopBuf.{LoopBuf, frames, find_in, find_loop, find, clear}
use gpush.Base.LoopBuf.Invariant.{windows, windows-append, windows-blank, contents, IsValid}
use gpush.Base.LoopBuf.Rounds.{blank-IsFrame}

-- What a search returns: the first place of `c`, or that there is none.
abbrev pub Found : ℕ → List ℕ → Option ℕ → Type 0
Found c xs none = All (λ x. x ≢ c) xs
Found c xs (some i) = (get_elem? xs i ≡ some c) × All (λ x. x ≢ c) (take i xs)

find_in-Found : (c : ℕ) (xs : List ℕ) → Found c xs (find_in c xs)
unfolding find_in
find_in-Found c [] = tt
find_in-Found c (x ∷ xs) = elim (Bool-cases (c == x)) [
  | inl e ↦ rw e (ground arith, tt)
  | inr e ↦ elim (Option-cases (find_in c xs)) [
    | inl n ↦ rw (e, n) (ground arith, rw n at (find_in-Found c xs))
    | inr (i, n) ↦ let f = rw n at (find_in-Found c xs) in rw (e, n) (f.0, (ground arith, f.1))
  ]
]

-- A search of two parts, where the first has no such byte.
shifted : ℕ → Option ℕ → Option ℕ
shifted n none = none
shifted n (some i) = some (n + i)

Found-append_none :
    (c : ℕ) (xs ys : List ℕ) (o : Option ℕ)
    → All (λ x. x ≢ c) xs
    → Found c ys o
    → Found c (xs ++ ys) (shifted (length xs) o)
unfolding shifted
Found-append_none c xs ys none h f = All-append (λ x. x ≢ c) xs ys h f
Found-append_none c xs ys (some i) h f = (
  get_elem?-append_ge (length xs + i) i xs ys refl ∙ f.0,
  rw (take-append_ge (length xs + i) i xs ys refl) (All-append (λ x. x ≢ c) xs _ h f.1),
)

-- And where it is in the first.
Found-append_some :
    (c : ℕ) (xs ys : List ℕ) (i : ℕ) → Found c xs (some i) → Found c (xs ++ ys) (some i)
Found-append_some c [] ys i f = cc (f.0)
Found-append_some c (x ∷ xs) ys zero f = f
Found-append_some c (x ∷ xs) ys (suc i) f =
    let g = Found-append_some c xs ys i (f.0, f.1.1) in (g.0, (f.1.0, g.1))

find_loop-shift :
    (c ret : ℕ) (fs : List Frame) → find_loop c ret fs ≡ shifted ret (find_loop c 0 fs)
unfolding find_loop shifted
find_loop-shift c ret [] = refl
find_loop-shift c ret (f ∷ fs) =
    ground (arith, find_loop-shift c (ret + f.size) fs, find_loop-shift c (0 + f.size) fs)

find_loop-Found :
    (c : ℕ) (fs : List Frame) → All IsFrame fs → Found c (windows fs) (find_loop c 0 fs)
unfolding find_loop
find_loop-Found c [] v = tt
find_loop-Found c (f ∷ fs) v = elim (Option-cases (find_in c (window f))) [
  | inl n ↦
      rw (n, find_loop, find_loop-shift c (0 + f.size) fs)
        (subst (λ (k : ℕ). Found c (windows (f ∷ fs)) (shifted k (find_loop c 0 fs)))
          (omega (arith, length-window f v.0))
          (Found-append_none c (window f) (windows fs) (find_loop c 0 fs)
            (rw n at (find_in-Found c (window f))) (find_loop-Found c fs v.1)))
  | inr (i, n) ↦
      rw (n, find_loop)
        (subst (λ (k : ℕ). Found c (windows (f ∷ fs)) (some k)) (omega arith)
          (Found-append_some c (window f) (windows fs) i (rw n at (find_in-Found c (window f)))))
]

windows-frames : (b : LoopBuf) → IsValid b → windows (frames b.chain) ≡ contents b
windows-frames b v =
    windows-append b.chain.done (b.chain.cur ∷ b.chain.spare)
    ∙ ap (λ (t : List ℕ). windows b.chain.done ++ (window b.chain.cur ++ t))
        (windows-blank b.chain.spare v.chain_ok.spare_ok)
    ∙ ap (◌++◌ (windows b.chain.done)) (append-nil (window b.chain.cur))

-- `find` returns the first place of a byte in the queue, and -1 exactly when it is not there.
pub find_lem : (c : ℕ) (b : LoopBuf) → IsValid b → Found c (contents b) (find c b)
unfolding find
find_lem c b v =
    subst (λ (t : List ℕ). Found c t (find_loop c 0 (frames b.chain))) (windows-frames b v)
      (find_loop-Found c (frames b.chain) (
        All-append IsFrame b.chain.done _ v.chain_ok.done_ok
          (v.chain_ok.cur_ok, blank-IsFrame b.chain.spare v.chain_ok.spare_ok)))

cleared-IsBlank : (fs : List Frame) → All IsFrame fs → All IsBlank (map frame_clear fs)
cleared-IsBlank [] v = tt
cleared-IsBlank (f ∷ fs) v = (frame_clear-IsBlank f v.0, cleared-IsBlank fs v.1)

-- `clear` returns the size and leaves an empty queue.
pub clear_lem :
    (b : LoopBuf)
    → IsValid b
    → ((clear b).0 ≡ length (contents b)) × (contents (clear b).1 ≡ []) × IsValid (clear b).1
unfolding clear
clear_lem b v =
    let front = cleared-IsBlank b.chain.done v.chain_ok.done_ok in
    let at = frame_clear-IsBlank b.chain.cur v.chain_ok.cur_ok in
    let back = cleared-IsBlank b.chain.spare (blank-IsFrame b.chain.spare v.chain_ok.spare_ok) in
    let nothing : contents (clear b).1 ≡ [] =
      rw (windows-blank (map frame_clear b.chain.done) front)
        (window-blank (frame_clear b.chain.cur) at.1) in
    (
      v.counted,
      nothing,
      record {
        chain_ok = record { done_ok = blank-IsFrame _ front; cur_ok = at.0; spare_ok = back };
        counted = sym (ap length nothing);
      },
    )
