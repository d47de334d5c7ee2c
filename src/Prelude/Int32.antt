-- ===== src/Prelude/Int32.antt =====
-- An `int32` or `int` as its bit pattern, a number below 2^32; a negative one is at least 2^31.
use Prim.Native.Nat.{ℕ, ◌+◌, ◌-◌, ◌/◌, ◌%◌, ◌^◌}
use mathlib.Core.Bool.{Bool, ◌&&◌}
use gpush.Prelude.{ltb, leb, if◌then◌else◌}

abbrev pub negative : ℕ → Bool
negative w = leb (2 ^ 31) w

abbrev pub positive : ℕ → Bool
positive w = ltb 0 w && ltb w (2 ^ 31)

-- The pattern of `- n`, for `n` from 1 to 2^31.
abbrev pub minus : ℕ → ℕ
minus n = 2 ^ 32 - n

-- The order of signed numbers.
abbrev pub less : ℕ → ℕ → Bool
less a b = ltb ((a + 2 ^ 31) % 2 ^ 32) ((b + 2 ^ 31) % 2 ^ 32)

-- Division by a positive number rounds towards 0.
abbrev pub quotient : ℕ → ℕ → ℕ
quotient w n = if negative w then (2 ^ 32 - (2 ^ 32 - w) / n) % 2 ^ 32 else w / n
