-- ===== src/Base/Hex/Tests.antt =====
-- Hexadecimal digits, and the codec's properties at a byte string.
use gpush.Prelude.{◌≡◌, refl, [], ◌∷◌, arith}
use gpush.Base.Hex.{hex_to_bytes, bytes_to_hexs, string_to_hex, byte_to_hex, hex_char}
use gpush.Base.Hex.RoundTrip.{hex_to_bytes-bytes_to_hexs}

hex_text : string_to_hex (202 ∷ 254 ∷ []) ≡ b'c' ∷ b'a' ∷ b'f' ∷ b'e' ∷ []
unfolding string_to_hex bytes_to_hexs byte_to_hex hex_char
hex_text = refl

two_bytes_back : hex_to_bytes (bytes_to_hexs (202 ∷ 254 ∷ 7 ∷ []) 2) ≡ 202 ∷ 254 ∷ []
two_bytes_back = hex_to_bytes-bytes_to_hexs (202 ∷ 254 ∷ 7 ∷ []) 2 (omega arith)
