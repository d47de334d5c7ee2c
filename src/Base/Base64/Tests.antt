-- ===== src/Base/Base64/Tests.antt =====
-- Base64 texts, and the codec's properties at a byte string.
use gpush.Prelude.{◌≡◌, ◌≤◌, refl, [], ◌∷◌, arith, length}
use gpush.Base.Base64.Alphabet.{ch64, b64_reverse_table}
use gpush.Base.Base64.{base64_encode, base64_decode, decode_groups, group_values, group_bytes}
use gpush.Base.Base64.RoundTrip.{
  base64_decode-base64_encode, length-base64_encode, length-base64_decode-le,
}

-- "Man" and "Ma"
encode_man : base64_encode (77 ∷ 97 ∷ 110 ∷ []) ≡ b'T' ∷ b'W' ∷ b'F' ∷ b'u' ∷ []
unfolding base64_encode ch64
encode_man = refl

encode_ma : base64_encode (77 ∷ 97 ∷ []) ≡ b'T' ∷ b'W' ∷ b'E' ∷ b'=' ∷ []
unfolding base64_encode ch64
encode_ma = refl

-- A letter outside the alphabet cuts the result.
decode_cut :
    base64_decode (b'T' ∷ b'W' ∷ b'F' ∷ b'u' ∷ b'*' ∷ b'W' ∷ b'F' ∷ b'u' ∷ []) ≡ 77 ∷ 97 ∷ 110 ∷ []
unfolding base64_decode decode_groups group_values group_bytes b64_reverse_table
decode_cut = refl

base64_decode-base64_encode_example :
    base64_decode (base64_encode (255 ∷ 0 ∷ 16 ∷ 200 ∷ [])) ≡ 255 ∷ 0 ∷ 16 ∷ 200 ∷ []
base64_decode-base64_encode_example =
    base64_decode-base64_encode (255 ∷ 0 ∷ 16 ∷ 200 ∷ []) (omega arith)

length-base64_encode_example : length (base64_encode (255 ∷ 0 ∷ 16 ∷ 200 ∷ [])) ≡ 8
length-base64_encode_example = length-base64_encode (255 ∷ 0 ∷ 16 ∷ 200 ∷ [])

five_letters : length (base64_decode (1 ∷ 2 ∷ 3 ∷ 4 ∷ 5 ∷ [])) ≤ 3
five_letters = length-base64_decode-le (1 ∷ 2 ∷ 3 ∷ 4 ∷ 5 ∷ [])
