-- ===== src/Net/Connection/Stream.antt =====
-- The packets of a byte stream, whole or in pieces: what a connection should hand to its handler.
use gpush.Prelude.{
  ℕ, zero, suc, ◌<◌, ◌≤◌, ◌≡◌, refl, ap, sym, ◌∙◌, inl, inr, List, [], ◌∷◌, ◌++◌, Bool, true, false,
  arith, length, length-append, length-drop, take, drop, take-append_le, drop-append_le, Bool-cases,
}
use mathlib.Core.Logic.{◌⊎◌}
use gpush.Proto.{PackLen, bad, wait, pack}
use gpush.Proto.Framing.{
  check_bytes, check_bytes_pack, check_bytes-append_pack, check_bytes-append_bad,
}

-- The bytes of a packet that is not whole yet, or the end at a bad length or a handler's refusal.
pub data View (S : Type 0) : Type 0 where
  waiting : List ℕ → S → View S
  ended : S → View S
  unread : View S

waiting-injective :
    {S : Type 0} {l r : List ℕ} {s s' : S}
    → ◌≡◌ {A = View S} (waiting l s) (waiting r s')
    → (l ≡ r) × (s ≡ s')
waiting-injective e = (cc, cc)

ended-ne-waiting :
    {S : Type 0} {r : List ℕ} {s s' : S} → ◌≡◌ {A = View S} (ended s) (waiting r s') → ⊥
ended-ne-waiting e = cc

unread-ne-waiting : {S : Type 0} {r : List ℕ} {s' : S} → ◌≡◌ {A = View S} unread (waiting r s') → ⊥
unread-ne-waiting e = cc

unread-ne-ended : {S : Type 0} {s : S} → ◌≡◌ {A = View S} unread (ended s) → ⊥
unread-ne-ended e = cc

PackLen-cases : (p : PackLen) → (p ≡ bad) ⊎ ((p ≡ wait) ⊎ ((n : ℕ) × (p ≡ pack n)))
PackLen-cases bad = inl refl
PackLen-cases wait = inr (inl refl)
PackLen-cases (pack n) = inr (inr (n, refl))

module _ {S : Type 0} (handle : S → List ℕ → S × Bool) where
  -- One packet after the other, for some rounds.
  unfoldable pub parse : ℕ → List ℕ → S → View S
  parse zero l s = unread
  parse (suc rounds) l s = elim (check_bytes l) [
    | bad ↦ ended s
    | wait ↦ waiting l s
    | pack n ↦ elim (handle s (take n l)).1 [
      | true ↦ parse rounds (drop n l) (handle s (take n l)).0
      | false ↦ ended (handle s (take n l)).0
    ]
  ]

  -- A round for each byte is more than enough.
  unfoldable pub packets : List ℕ → S → View S
  unfolding parse
  packets l s = parse (suc (length l)) l s

  module _ (rounds : ℕ) (l : List ℕ) (s : S) where
    pub parse-bad : check_bytes l ≡ bad → parse (suc rounds) l s ≡ ended s
    unfolding parse
    parse-bad e = rw (e, parse)

    pub parse-wait : check_bytes l ≡ wait → parse (suc rounds) l s ≡ waiting l s
    unfolding parse
    parse-wait e = rw (e, parse)

    pub parse_on :
        (n : ℕ)
        → check_bytes l ≡ pack n
        → (handle s (take n l)).1 ≡ true
        → parse (suc rounds) l s ≡ parse rounds (drop n l) (handle s (take n l)).0
    unfolding parse
    parse_on n e t = rw (e, parse) (rw t)

    pub parse_refused :
        (n : ℕ)
        → check_bytes l ≡ pack n
        → (handle s (take n l)).1 ≡ false
        → parse (suc rounds) l s ≡ ended (handle s (take n l)).0
    unfolding parse
    parse_refused n e t = rw (e, parse) (rw t)

  -- The ways a round can go.
  pub data Round (l : List ℕ) (s : S) : Type 0 where
    ends : check_bytes l ≡ bad → Round l s
    waits : check_bytes l ≡ wait → Round l s
    goes_on :
        (n : ℕ)
        → check_bytes l ≡ pack n
        → (handle s (take n l)).1 ≡ true
        → length (drop n l) < length l
        → Round l s
    refuses : (n : ℕ) → check_bytes l ≡ pack n → (handle s (take n l)).1 ≡ false → Round l s

  pub round : (l : List ℕ) (s : S) → Round l s
  round l s = elim (PackLen-cases (check_bytes l)) [
    | inl e ↦ ends e
    | inr (inl e) ↦ waits e
    | inr (inr (n, e)) ↦ elim (Bool-cases (handle s (take n l)).1) [
      | inl t ↦ goes_on n e t (omega (arith, check_bytes_pack l n e, length-drop n l))
      | inr t ↦ refuses n e t
    ]
  ]

  pub parse_fuel :
      (n m : ℕ) (l : List ℕ) (s : S) → length l < n → length l < m → parse n l s ≡ parse m l s
  parse_fuel zero m l s h k = elim h [ ]
  parse_fuel (suc n) zero l s h k = elim k [ ]
  parse_fuel (suc n) (suc m) l s h k = elim (round l s) [
    | ends e ↦ parse-bad n l s e ∙ sym (parse-bad m l s e)
    | waits e ↦ parse-wait n l s e ∙ sym (parse-wait m l s e)
    | goes_on len e t less ↦
        parse_on n l s len e t
        ∙ parse_fuel n m (drop len l) (handle s (take len l)).0 (omega arith) (omega arith)
        ∙ sym (parse_on m l s len e t)
    | refuses len e t ↦ parse_refused n l s len e t ∙ sym (parse_refused m l s len e t)
  ]

  parse_rest : (n : ℕ) (l r : List ℕ) (s s' : S) → parse n l s ≡ waiting r s' → length r ≤ length l
  unfolding parse
  parse_rest zero l r s s' e = absurd (unread-ne-waiting e)
  parse_rest (suc n) l r s s' e = elim (round l s) [
    | ends c ↦ absurd (ended-ne-waiting (sym (parse-bad n l s c) ∙ e))
    | waits c ↦ omega (arith, ap length (waiting-injective (sym (parse-wait n l s c) ∙ e)).0)
    | goes_on len c t less ↦ omega (
      arith,
      parse_rest n (drop len l) r (handle s (take len l)).0 s' (sym (parse_on n l s len c t) ∙ e),
    )
    | refuses len c t ↦ absurd (ended-ne-waiting (sym (parse_refused n l s len c t) ∙ e))
  ]

  -- What was left waiting goes on with the bytes that come.
  parse-append :
      (n : ℕ) (l more r : List ℕ) (s s' : S)
      → length (l ++ more) < n
      → parse n l s ≡ waiting r s'
      → parse n (l ++ more) s ≡ parse n (r ++ more) s'
  parse-append zero l more r s s' h e = elim h [ ]
  parse-append (suc n) l more r s s' h e =
      let total = length-append l more in
      elim (round l s) [
        | ends c ↦ absurd (ended-ne-waiting (sym (parse-bad n l s c) ∙ e))
        | waits c ↦
            let same = waiting-injective (sym (parse-wait n l s c) ∙ e) in rw (same.0, same.1)
        | goes_on len c t less ↦
            let bound = check_bytes_pack l len c in
            let left = sym (parse_on n l s len c t) ∙ e in
            let front : take len (l ++ more) ≡ take len l = take-append_le len l more bound.1 in
            let back : drop len (l ++ more) ≡ drop len l ++ more =
              drop-append_le len l more bound.1 in
            let room = length-append (drop len l) more in
            let shorter = parse_rest n (drop len l) r (handle s (take len l)).0 s' left in
            let rest = length-append r more in
            parse_on n (l ++ more) s len (check_bytes-append_pack l more len c) (rw front t)
            ∙ (rw (front, back))
            ∙ parse-append n (drop len l) more r (handle s (take len l)).0 s' (omega arith) left
            ∙ parse_fuel n (suc n) (r ++ more) s' (omega arith) (omega arith)
        | refuses len c t ↦ absurd (ended-ne-waiting (sym (parse_refused n l s len c t) ∙ e))
      ]

  parse-append_ended :
      (n : ℕ) (l more : List ℕ) (s s' : S)
      → parse n l s ≡ ended s'
      → parse n (l ++ more) s ≡ ended s'
  unfolding parse
  parse-append_ended zero l more s s' e = absurd (unread-ne-ended e)
  parse-append_ended (suc n) l more s s' e = elim (round l s) [
    | ends c ↦
        parse-bad n (l ++ more) s (check_bytes-append_bad l more c) ∙ sym (parse-bad n l s c) ∙ e
    | waits c ↦ absurd (ended-ne-waiting (sym e ∙ parse-wait n l s c))
    | goes_on len c t less ↦
        let bound = check_bytes_pack l len c in
        let front : take len (l ++ more) ≡ take len l = take-append_le len l more bound.1 in
        let back : drop len (l ++ more) ≡ drop len l ++ more = drop-append_le len l more bound.1 in
        parse_on n (l ++ more) s len (check_bytes-append_pack l more len c) (rw front t)
        ∙ (rw (front, back)
            (parse-append_ended n (drop len l) more (handle s (take len l)).0 s'
              (sym (parse_on n l s len c t) ∙ e)))
    | refuses len c t ↦
        let bound = check_bytes_pack l len c in
        let front : take len (l ++ more) ≡ take len l = take-append_le len l more bound.1 in
        parse_refused n (l ++ more) s len (check_bytes-append_pack l more len c) (rw front t)
        ∙ (rw front (sym (parse_refused n l s len c t) ∙ e))
  ]

  -- Cutting a stream in two changes nothing: if its first part leaves bytes waiting, all of it has
  -- the packets of those bytes and the second part, in the state reached.
  pub packets-append :
      (l more r : List ℕ) (s s' : S)
      → packets l s ≡ waiting r s'
      → packets (l ++ more) s ≡ packets (r ++ more) s'
  unfolding packets
  packets-append l more r s s' e =
      let total = length-append l more in
      let rest = length-append r more in
      let shorter = parse_rest (suc (length l)) l r s s' e in
      let far = suc (length (l ++ more)) in
      parse-append far l more r s s' (omega arith)
        (parse_fuel far (suc (length l)) l s (omega arith) (omega arith) ∙ e)
      ∙ parse_fuel far (suc (length (r ++ more))) (r ++ more) s' (omega arith) (omega arith)

  -- If the first part ends the connection, so does all of it, in the same state.
  pub packets-append_ended :
      (l more : List ℕ) (s s' : S) → packets l s ≡ ended s' → packets (l ++ more) s ≡ ended s'
  unfolding packets
  packets-append_ended l more s s' e =
      let total = length-append l more in
      parse-append_ended (suc (length (l ++ more))) l more s s'
        (parse_fuel (suc (length (l ++ more))) (suc (length l)) l s (omega arith) (omega arith) ∙ e)

  -- Handling the packets of a list in turn, until one is refused.
  unfoldable pub deliver : List (List ℕ) → S → View S
  deliver [] s = waiting [] s
  deliver (req ∷ reqs) s = elim (handle s req).1 [
    | true ↦ deliver reqs (handle s req).0
    | false ↦ ended (handle s req).0
  ]
