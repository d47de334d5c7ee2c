-- ===== src/Base/Hex.antt =====
-- efnfw/base/ef_hex.cpp: two hexadecimal digits for each byte, and back. A `char` is its code.
pub mod RoundTrip
mod Tests
use gpush.Prelude.{
  ℕ, zero, suc, ◌+◌, ◌-◌, ◌*◌, ◌/◌, ◌%◌, List, [], ◌∷◌, ◌++◌, if◌then◌else◌, ◌==◌, ◌&&◌, ◌||◌, leb,
  length,
}

pub hex_char : ℕ → ℕ
hex_char i = if leb i 9 then b'0' + i else if leb 10 i && leb i 15 then b'a' + i - 10 else 0

pub byte_to_hex : ℕ → List ℕ
byte_to_hex c = hex_char (c / 16) ∷ hex_char (c % 16) ∷ []

pub char_to_i : ℕ → ℕ
char_to_i c =
    if leb b'0' c && leb c b'9'
    then c - b'0'
    else if c == b'A' || c == b'a'
    then 10
    else if c == b'B' || c == b'b'
    then 11
    else if c == b'C' || c == b'c'
    then 12
    else if c == b'D' || c == b'd'
    then 13
    else if c == b'E' || c == b'e'
    then 14
    else if c == b'F' || c == b'f'
    then 15
    else 0

-- `x << 4` of a digit.
pub hex_to_byte : ℕ → ℕ → ℕ
hex_to_byte hi lo = char_to_i hi * 16 + char_to_i lo

-- The bytes written to `out`, with room for `pairs` (`outlen / 2`) pairs of digits.
pub bytes_to_hexs : List ℕ → ℕ → List ℕ
bytes_to_hexs [] pairs = []
bytes_to_hexs (c ∷ bytes) zero = []
bytes_to_hexs (c ∷ bytes) (suc pairs) = byte_to_hex c ++ bytes_to_hexs bytes pairs

-- The overload on strings makes room for all of them.
pub string_to_hex : List ℕ → List ℕ
string_to_hex bytes = bytes_to_hexs bytes (length bytes * 2 / 2)

-- A byte for each pair of characters, stored in a `char`; a last single character is left out.
pub hex_to_bytes : List ℕ → List ℕ
hex_to_bytes (hi ∷ lo ∷ rest) = hex_to_byte hi lo % 256 ∷ hex_to_bytes rest
hex_to_bytes _ = []
