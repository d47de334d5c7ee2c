-- ===== src/Base/Hex/RoundTrip.antt =====
-- Reading the digits gives the bytes back.
use gpush.Prelude.{
  ℕ, ◌*◌, ◌/◌, ◌%◌, ◌<◌, ◌≡◌, ◌∙◌, take_all, refl, List, [], ◌∷◌, zero, suc, arith, length, take,
  min,
}
use gpush.Prelude.Bytes.{AreBytes}
use gpush.Base.Hex.{
  hex_char, char_to_i, byte_to_hex, hex_to_byte, bytes_to_hexs, string_to_hex, hex_to_bytes,
}

char_to_i-hex_char : (i : ℕ) → i < 16 → char_to_i (hex_char i) ≡ i
unfolding char_to_i hex_char
char_to_i-hex_char i h = ground arith

-- What was written holds the first bytes, as many as there was room for.
pub hex_to_bytes-bytes_to_hexs :
    (bytes : List ℕ) (pairs : ℕ)
    → AreBytes bytes
    → hex_to_bytes (bytes_to_hexs bytes pairs) ≡ take pairs bytes
unfolding hex_to_bytes bytes_to_hexs byte_to_hex hex_to_byte
hex_to_bytes-bytes_to_hexs [] zero h = refl
hex_to_bytes-bytes_to_hexs [] (suc pairs) h = refl
hex_to_bytes-bytes_to_hexs (c ∷ bytes) zero h = refl
hex_to_bytes-bytes_to_hexs (c ∷ bytes) (suc pairs) h = ground (
  arith,
  hex_to_bytes-bytes_to_hexs bytes pairs h.1,
  char_to_i-hex_char (c / 16) (omega arith),
  char_to_i-hex_char (c % 16) (omega arith),
)

-- The digits written fit the room, and are two for each byte written.
pub length-bytes_to_hexs :
    (bytes : List ℕ) (pairs : ℕ) → length (bytes_to_hexs bytes pairs) ≡ 2 * min pairs (length bytes)
unfolding bytes_to_hexs byte_to_hex
length-bytes_to_hexs [] pairs = omega arith
length-bytes_to_hexs (c ∷ bytes) zero = omega arith
length-bytes_to_hexs (c ∷ bytes) (suc pairs) = omega (arith, length-bytes_to_hexs bytes pairs)

-- Reading the digits that a byte string was written as gives the string back.
pub hex_to_bytes-string_to_hex : (s : List ℕ) → AreBytes s → hex_to_bytes (string_to_hex s) ≡ s
unfolding string_to_hex
hex_to_bytes-string_to_hex s h =
    hex_to_bytes-bytes_to_hexs s (length s * 2 / 2) h ∙ take_all _ s (omega arith)
