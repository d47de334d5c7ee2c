-- ===== src/Base/Base64/RoundTrip.antt =====
-- Decoding undoes encoding.
use gpush.Prelude.{
  ℕ, ◌+◌, ◌*◌, ◌/◌, ◌%◌, ◌≤◌, ◌<◌, ◌-◌, ◌≡◌, refl, inl, inr, Option-cases, length-take, ◌∙◌, ap,
  List, [], ◌∷◌, ◌++◌, append-nil, append_assoc, some, arith, length, take, length-append,
  take-append_ge, take_all,
}
use gpush.Prelude.Bytes.{AreBytes}
use gpush.Base.Base64.Alphabet.{ch64, b64_reverse_table-ch64, ch64-ne-padding}
use gpush.Base.Base64.{
  padding, base64_encode, base64_decode, decode_groups, group_values, group_bytes,
}

-- What a group of letters of the alphabet, with and without padding, is read as.
group_values_full :
    (a b c d : ℕ)
    → a < 64
    → b < 64
    → c < 64
    → d < 64
    → group_values 0 (ch64 a) (ch64 b) (ch64 c) (ch64 d) ≡ some (a, b, c, d, 0)
unfolding group_values
group_values_full a b c d ha hb hc hd = ground (
  arith,
  ch64-ne-padding c hc,
  ch64-ne-padding d hd,
  b64_reverse_table-ch64 a ha,
  b64_reverse_table-ch64 b hb,
  b64_reverse_table-ch64 c hc,
  b64_reverse_table-ch64 d hd,
)

group_values_two :
    (a b c : ℕ)
    → a < 64
    → b < 64
    → c < 64
    → group_values 0 (ch64 a) (ch64 b) (ch64 c) padding ≡ some (a, b, c, 0, 1)
unfolding group_values
group_values_two a b c ha hb hc = ground (
  arith,
  ch64-ne-padding c hc,
  b64_reverse_table-ch64 a ha,
  b64_reverse_table-ch64 b hb,
  b64_reverse_table-ch64 c hc,
)

group_values_one :
    (a b : ℕ)
    → a < 64
    → b < 64
    → group_values 0 (ch64 a) (ch64 b) padding padding ≡ some (a, b, 0, 0, 2)
unfolding group_values
group_values_one a b ha hb =
    ground (arith, b64_reverse_table-ch64 a ha, b64_reverse_table-ch64 b hb)

decode_groups_step :
    (pandcnt : ℕ) (out : List ℕ) (p0 p1 p2 p3 : ℕ) (rest : List ℕ) (a b c d pad : ℕ)
    → group_values pandcnt p0 p1 p2 p3 ≡ some (a, b, c, d, pad)
    → decode_groups pandcnt out (p0 ∷ p1 ∷ p2 ∷ p3 ∷ rest)
      ≡ decode_groups pad (out ++ group_bytes a b c d) rest
unfolding decode_groups
decode_groups_step pandcnt out p0 p1 p2 p3 rest a b c d pad e = rw (e, decode_groups)

-- At the end the bytes that the padding stands for are taken off.
decode_groups_end :
    (out last : List ℕ) (pad : ℕ)
    → pad ≤ length last
    → decode_groups pad (out ++ last) [] ≡ out ++ take (length last - pad) last
unfolding decode_groups
decode_groups_end out last pad h =
    take-append_ge _ (length last - pad) out last (omega (arith, length-append out last))

-- The letters of three bytes hold their bits.
group_bytes_full :
    (x y z : ℕ)
    → x < 256
    → y < 256
    → z < 256
    → group_bytes (x / 4 % 64) (x % 4 * 16 + y / 16 % 16) (y % 16 * 4 + z / 64 % 4) (z % 64)
      ≡ x ∷ y ∷ z ∷ []
unfolding group_bytes
group_bytes_full x y z hx hy hz = ground arith

length-group_bytes : (a b c d : ℕ) → length (group_bytes a b c d) ≡ 3
unfolding group_bytes
length-group_bytes a b c d = refl

decode_groups-encode :
    (out s : List ℕ) → AreBytes s → decode_groups 0 out (base64_encode s) ≡ out ++ s
unfolding base64_encode decode_groups
decode_groups-encode out [] h = rw append-nil (take_all _ out (omega arith))
decode_groups-encode out (x ∷ []) h =
    decode_groups_step 0 out _ _ _ _ [] _ _ _ _ _
      (group_values_one (x / 4) (x % 4 * 16) (omega arith) (omega arith))
    ∙ decode_groups_end out (group_bytes (x / 4) (x % 4 * 16) 0 0) 2
        (unfold group_bytes in omega arith)
    ∙ ap (◌++◌ out) (unfold group_bytes in ap (λ (v : ℕ). v ∷ []) (omega arith))
decode_groups-encode out (x ∷ y ∷ []) h =
    decode_groups_step 0 out _ _ _ _ [] _ _ _ _ _ (
      group_values_two (x / 4) (x % 4 * 16 + y / 16) (y % 16 * 4) (omega arith) (omega arith)
        (omega arith))
    ∙ decode_groups_end out (group_bytes (x / 4) (x % 4 * 16 + y / 16) (y % 16 * 4) 0) 1
        (unfold group_bytes in omega arith)
    ∙ ap (◌++◌ out) (unfold group_bytes in ground arith)
decode_groups-encode out (x ∷ y ∷ z ∷ rest) h =
    decode_groups_step 0 out _ _ _ _ _ _ _ _ _ _ (
      group_values_full (x / 4 % 64) (x % 4 * 16 + y / 16 % 16) (y % 16 * 4 + z / 64 % 4) (z % 64)
        (omega arith) (omega arith) (omega arith) (omega arith))
    ∙ decode_groups-encode (out ++ group_bytes _ _ _ _) rest h.1.1.1
    ∙ rw (group_bytes_full x y z h.0 h.1.0 h.1.1.0) (append_assoc out (x ∷ y ∷ z ∷ []) rest)

-- Decoding the base64 text of a byte string gives the string back.
pub base64_decode-base64_encode : (s : List ℕ) → AreBytes s → base64_decode (base64_encode s) ≡ s
unfolding base64_decode
base64_decode-base64_encode s h = decode_groups-encode [] s h

-- Base64 text is four letters for every three bytes, or part of three.
pub length-base64_encode : (s : List ℕ) → length (base64_encode s) ≡ (length s + 2) / 3 * 4
unfolding base64_encode
length-base64_encode [] = omega arith
length-base64_encode (x ∷ []) = omega arith
length-base64_encode (x ∷ y ∷ []) = omega arith
length-base64_encode (x ∷ y ∷ z ∷ rest) = omega (arith, length-base64_encode rest)

-- Whatever the text, decoding gives at most three bytes for each whole group of four letters.
decode_groups-length :
    (pandcnt : ℕ) (out s : List ℕ)
    → length (decode_groups pandcnt out s) ≤ length out + length s / 4 * 3
unfolding decode_groups
decode_groups-length pandcnt out (p0 ∷ p1 ∷ p2 ∷ p3 ∷ rest) =
    elim (Option-cases (group_values pandcnt p0 p1 p2 p3)) [
      | inl e ↦ rw (e, decode_groups) (omega arith)
      | inr ((a, b, c, d, pad), e) ↦
          rw (e, decode_groups)
            (omega (
              arith,
              decode_groups-length pad (out ++ group_bytes a b c d) rest,
              length-append out (group_bytes a b c d),
              length-group_bytes a b c d,
            ))
    ]
decode_groups-length pandcnt out _ = omega (arith, length-take (length out - pandcnt) out)

pub length-base64_decode-le : (s : List ℕ) → length (base64_decode s) ≤ length s / 4 * 3
unfolding base64_decode
length-base64_decode-le s = omega (arith, decode_groups-length 0 [] s)
