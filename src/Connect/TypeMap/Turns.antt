-- ===== src/Connect/TypeMap/Turns.antt =====
-- Requests go to the push servers in turn.
use gpush.Prelude.{
  ℕ, zero, suc, ◌+◌, ◌*◌, ◌%◌, ◌^◌, ◌<◌, ◌≡◌, refl, ap, sym, ◌∙◌, List, [], ◌∷◌, ◌++◌, map,
  append_assoc, append-nil, Option, some, false, arith, length, length-append, get_or, All, ◌==◌,
}
use native.Mathlib.Nat.{mod-eq_of_lt, mul-add-mod_self_left, mul-suc}
use gpush.Prelude.Int32.{negative}
use gpush.Connect.TypeMap.{SvList, trans_request, next_cnt}

-- The connections that some requests, one after the other, are posted to.
abbrev pub turns : (ℕ → ℕ) → ℕ → SvList → List (Option ℕ)
turns post zero l = []
turns post (suc n) l = let (c, l', ret) = trans_request post l in c ∷ turns post n l'

get_or-append : (pre rest : List ℕ) (c : ℕ) → get_or (pre ++ (c ∷ rest)) (length pre) 0 ≡ c
get_or-append [] rest c = refl
get_or-append (x ∷ pre) rest c = get_or-append pre rest c

nonzero : (n : ℕ) → 0 < n → (n == 0) ≡ false
nonzero n h = ground arith

count_up : (n : ℕ) → n + 1 < 2 ^ 31 → next_cnt n ≡ n + 1
unfolding next_cnt
count_up n h = ground arith

abbrev at_cnt : List ℕ → ℕ → SvList
at_cnt svs cnt = record { svs = svs; cnt = cnt }

-- A counter that went round some times goes through the places in turn.
abbrev IsRound : ℕ → ℕ → Type 0
IsRound base n = (k : ℕ) → k < n → (base + k) % n ≡ k

times-IsRound : (q n : ℕ) → IsRound (n * q) n
times-IsRound q n k h = mul-add-mod_self_left n q k ∙ mod-eq_of_lt h

module _ (post : ℕ → ℕ) (posted : (c : ℕ) → negative (post c) ≡ false) where
  one_turn :
      (svs pre rest : List ℕ) (c base : ℕ)
      → svs ≡ pre ++ (c ∷ rest)
      → IsRound base (length svs)
      → 0 < c
      → base + length pre + 1 < 2 ^ 31
      → trans_request post (at_cnt svs (base + length pre))
        ≡ (some c, at_cnt svs (base + length pre + 1), 0)
  unfolding trans_request
  one_turn svs pre rest c base e round h few =
      let total : length svs ≡ length pre + length (c ∷ rest) =
        ap length e ∙ length-append pre (c ∷ rest) in
      let place = round (length pre) (omega arith) in
      let there : get_or svs (length pre) 0 ≡ c =
        ap (λ (l : List ℕ). get_or l (length pre) 0) e ∙ get_or-append pre rest c in
      rw (nonzero (length svs) (omega arith)) (
        rw (place, there)
          (rw (nonzero c h) (rw (posted c) (rw (count_up (base + length pre) few) refl))))

  -- Some requests go to the servers of a part of the list, and `more` go on from there.
  turns-part :
      (svs pre mid tail : List ℕ) (base more : ℕ)
      → svs ≡ pre ++ (mid ++ tail)
      → IsRound base (length svs)
      → All (◌<◌ 0) mid
      → base + length pre + length mid < 2 ^ 31
      → turns post (length mid + more) (at_cnt svs (base + length pre))
        ≡ map some mid ++ turns post more (at_cnt svs (base + length pre + length mid))
  turns-part svs pre [] tail base more e round h few =
      let steps : 0 + more ≡ more = omega arith in
      let stays : base + length pre ≡ base + length pre + 0 = omega arith in
      ap (λ (k : ℕ). turns post k (at_cnt svs (base + length pre))) steps
      ∙ ap (λ (k : ℕ). turns post more (at_cnt svs k)) stays
  turns-part svs pre (c ∷ mid) tail base more e round h few =
      let total = length-append pre (c ∷ []) in
      let steps : length (c ∷ mid) + more ≡ suc (length mid + more) = omega arith in
      let moved : base + length pre + 1 ≡ base + length (pre ++ (c ∷ [])) = omega arith in
      let last : base + length (pre ++ (c ∷ [])) + length mid
          ≡ base + length pre + length (c ∷ mid) =
        omega arith in
      let turn = one_turn svs pre (mid ++ tail) c base e round h.0 (omega arith) in
      let rest =
        turns-part svs (pre ++ (c ∷ [])) mid tail base more
          (e ∙ sym (append_assoc pre (c ∷ []) (mid ++ tail))) round h.1 (omega arith) in
      ap (λ (k : ℕ). turns post k (at_cnt svs (base + length pre))) steps
      ∙ ap (λ (r : Option ℕ × SvList × ℕ). r.0 ∷ turns post (length mid + more) r.1) turn
      ∙ ap (λ (k : ℕ). some c ∷ turns post (length mid + more) (at_cnt svs k)) moved
      ∙ ap (◌∷◌ (some c)) rest
      ∙ ap (λ (k : ℕ). some c ∷ (map some mid ++ turns post more (at_cnt svs k))) last

  -- When each post succeeds, and the counter, which stands at the servers `rest` after it went round
  -- some times, does not come to 2^31: as many requests as there are servers go to each of them once,
  -- from `rest` on in the order in which they logged in, and then to those before.
  pub turns-each :
      (pre rest : List ℕ) (rounds : ℕ)
      → All (◌<◌ 0) pre
      → All (◌<◌ 0) rest
      → let svs = pre ++ rest in
        let cnt = length svs * rounds + length pre in
        cnt + length svs < 2 ^ 31
        → turns post (length svs) (record { svs = svs; cnt = cnt }) ≡ map some rest ++ map some pre
  turns-each pre rest rounds h k few =
      let svs = pre ++ rest in
      let total = length-append pre rest in
      let base = length svs * rounds in
      let next = length svs * suc rounds in
      let first =
        turns-part svs pre rest [] base (length pre) (ap (◌++◌ pre) (sym (append-nil rest)))
          (times-IsRound rounds (length svs)) k (omega (arith, total)) in
      let up : base + length svs ≡ next = sym (mul-suc (length svs) rounds) in
      let second =
        turns-part svs [] pre rest next 0 refl (times-IsRound (suc rounds) (length svs)) h
          (omega (arith, total, up)) in
      let all : length svs ≡ length rest + length pre = omega (arith, total) in
      let none_more : length pre ≡ length pre + 0 = omega arith in
      let again : base + length pre + length rest ≡ next + 0 = omega (arith, total, up) in
      ap (λ (n : ℕ). turns post n (at_cnt svs (base + length pre))) all
      ∙ first
      ∙ ap (λ (n : ℕ). map some rest ++ turns post n (at_cnt svs (base + length pre + length rest)))
          none_more
      ∙ ap (λ (n : ℕ). map some rest ++ turns post (length pre + 0) (at_cnt svs n)) again
      ∙ ap (λ (l : List (Option ℕ)). map some rest ++ l) (second ∙ append-nil (map some pre))
