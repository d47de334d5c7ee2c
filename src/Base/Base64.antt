-- ===== src/Base/Base64.antt =====
-- efnfw/base/ef_base64.cpp: base64 text of a byte string, and back. A string is the list of its
-- bytes; `buf[i] & m` and the shifts are written as `/` and `%` by powers of two.
pub mod Alphabet
pub mod RoundTrip
mod Tests
use gpush.Prelude.{
  ℕ, ◌+◌, ◌-◌, ◌*◌, ◌/◌, ◌%◌, List, [], ◌∷◌, ◌++◌, Option, none, some, Bool, if◌then◌else◌, ◌==◌,
  length, take, get_or,
}
use Alphabet.{ch64, b64_reverse_table}

-- '='
abbrev pub padding : ℕ
padding = b'='

-- The whole groups of three, then the one or two bytes left over.
pub base64_encode : List ℕ → List ℕ
base64_encode [] = []
base64_encode (x ∷ []) = ch64 (x / 4) ∷ ch64 ((x % 4) * 16) ∷ padding ∷ padding ∷ []
base64_encode (x ∷ y ∷ []) =
    ch64 (x / 4) ∷ ch64 ((x % 4) * 16 + y / 16) ∷ ch64 ((y % 16) * 4) ∷ padding ∷ []
base64_encode (x ∷ y ∷ z ∷ rest) =
    ch64 (x / 4 % 64)
    ∷ ch64 ((x % 4) * 16 + y / 16 % 16)
    ∷ ch64 ((y % 16) * 4 + z / 64 % 4)
    ∷ ch64 (z % 64)
    ∷ base64_encode rest

-- The three bytes of a group; `dst` is an array of `unsigned char`.
pub group_bytes : ℕ → ℕ → ℕ → ℕ → List ℕ
group_bytes a b c d =
    ((a * 4 + b / 16 % 4) % 256)
    ∷ (((b % 16) * 16 + c / 4 % 16) % 256)
    ∷ (((c % 4) * 64 + d) % 256)
    ∷ []

-- `c` and `pandcnt` behind the third letter of a group; `none` is a letter outside the alphabet.
pub third_letter : ℕ → ℕ → Option ℕ × ℕ
third_letter pandcnt p = if p == padding then (some 0, 2) else (b64_reverse_table p, pandcnt)

-- `d` and `pandcnt` behind the fourth letter.
pub fourth_letter : ℕ → ℕ → Option ℕ × ℕ
fourth_letter pandcnt p =
    if pandcnt == 0
    then (if p == padding then (some 0, 1) else (b64_reverse_table p, pandcnt))
    else (some 0, pandcnt)

-- The values of a group and the new `pandcnt`; `none` where one of them is negative.
pub group_values : ℕ → ℕ → ℕ → ℕ → ℕ → Option (ℕ × ℕ × ℕ × ℕ × ℕ)
unfolding third_letter fourth_letter
group_values pandcnt p0 p1 p2 p3 =
    let (c?, pad2) = third_letter pandcnt p2 in
    let (d?, pad3) = fourth_letter pad2 p3 in
    elim (b64_reverse_table p0) [
      | none ↦ none
      | some a ↦ elim (b64_reverse_table p1) [
        | none ↦ none
        | some b ↦ elim c? [
          | none ↦ none
          | some c ↦ elim d? [ none ↦ none | some d ↦ some (a, b, c, d, pad3) ]
        ]
      ]
    ]

-- The loop, with the bytes written so far: a bad letter cuts the result there, and the end takes
-- `pandcnt` bytes off. What is left of the text behind the last group of four is not read.
pub decode_groups : ℕ → List ℕ → List ℕ → List ℕ
decode_groups pandcnt out (p0 ∷ p1 ∷ p2 ∷ p3 ∷ rest) = elim (group_values pandcnt p0 p1 p2 p3) [
  | none ↦ out
  | some (a, b, c, d, pad) ↦ decode_groups pad (out ++ group_bytes a b c d) rest
]
decode_groups pandcnt out _ = take (length out - pandcnt) out

pub base64_decode : List ℕ → List ℕ
base64_decode s = decode_groups 0 [] s
