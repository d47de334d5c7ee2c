-- ===== src/Proto/Word.antt =====
-- 32-bit words as bytes of memory, and `htonl`.
use gpush.Prelude.{ℕ, ◌+◌, ◌*◌, ◌/◌, ◌%◌, ◌^◌, ◌<◌, ◌≡◌, List, [], ◌∷◌, arith, get_or}
use gpush.Prelude.Bytes.{AreBytes}

-- Low byte first.
unfoldable pub bytes_of : ℕ → List ℕ
bytes_of w = w % 256 ∷ w / 2 ^ 8 % 256 ∷ w / 2 ^ 16 % 256 ∷ w / 2 ^ 24 % 256 ∷ []

unfoldable pub word_of : ℕ → ℕ → ℕ → ℕ → ℕ
word_of b0 b1 b2 b3 = b0 + 2 ^ 8 * b1 + 2 ^ 16 * b2 + 2 ^ 24 * b3

-- The word at an offset.
unfoldable pub word_at : List ℕ → ℕ → ℕ
unfolding word_of
word_at bytes i =
    word_of (get_or bytes i 0) (get_or bytes (i + 1) 0) (get_or bytes (i + 2) 0)
      (get_or bytes (i + 3) 0)

-- `htonl` turns the bytes round; so does it undo itself.
unfoldable pub htonl : ℕ → ℕ
unfolding word_of
htonl w = word_of (w / 2 ^ 24 % 256) (w / 2 ^ 16 % 256) (w / 2 ^ 8 % 256) (w % 256)

pub word_of-bytes_of :
    (w : ℕ)
    → w < 2 ^ 32
    → word_of (w % 256) (w / 2 ^ 8 % 256) (w / 2 ^ 16 % 256) (w / 2 ^ 24 % 256) ≡ w
unfolding word_of
word_of-bytes_of w h = omega arith

pub htonl-htonl : (w : ℕ) → w < 2 ^ 32 → htonl (htonl w) ≡ w
unfolding htonl
htonl-htonl w h = omega arith

pub htonl_bound : (w : ℕ) → htonl w < 2 ^ 32
unfolding htonl
htonl_bound w = omega arith

pub AreBytes-bytes_of : (w : ℕ) → AreBytes (bytes_of w)
unfolding bytes_of
AreBytes-bytes_of w = omega arith
