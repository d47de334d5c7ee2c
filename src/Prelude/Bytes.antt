-- ===== src/Prelude/Bytes.antt =====
-- Bytes, and 32-bit words as the bytes of memory.
use Prim.Native.Nat.{ℕ, ◌<◌}
use mathlib.Core.List.{List}
use gpush.Prelude.Lists.{All}

abbrev pub IsByte : ℕ → Type 0
IsByte x = x < 256

abbrev pub AreBytes : List ℕ → Type 0
AreBytes = All IsByte
