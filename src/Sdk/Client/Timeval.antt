-- ===== src/Sdk/Client/Timeval.antt =====
-- clientsdk/efnfw/base/ef_utility.cpp: `timeval`s and how they compare. Their fields are signed longs of
-- 64 bits, as on Linux.
use gpush.Prelude.{ℕ, zero, suc, ◌+◌, ◌-◌, ◌/◌, ◌%◌, ◌^◌, Bool, true, false, if◌then◌else◌, ltb}

-- The library's `ℤ`, over these numbers.
pub data ℤ : Type 0 where
  pos : ℕ → ℤ
  negsuc : ℕ → ℤ

unfoldable pub ltz : ℤ → ℤ → Bool
ltz (pos m) (pos n) = ltb m n
ltz (pos m) (negsuc n) = false
ltz (negsuc m) (pos n) = true
ltz (negsuc m) (negsuc n) = ltb n m

unfoldable pub is_zero : ℤ → Bool
is_zero (pos zero) = true
is_zero (pos (suc n)) = false
is_zero (negsuc n) = false

infixl 65 ◌-ℤ◌ ◌+ℤ◌
unfoldable pub ◌-ℤ◌ : ℤ → ℤ → ℤ
pos m -ℤ pos n = if ltb m n then negsuc (n - m - 1) else pos (m - n)
pos m -ℤ negsuc n = pos (m + n + 1)
negsuc m -ℤ pos n = negsuc (m + n)
negsuc m -ℤ negsuc n = if ltb n m then negsuc (m - n - 1) else pos (n - m)

unfoldable pub ◌+ℤ◌ : ℤ → ℤ → ℤ
unfolding ◌-ℤ◌
pos m +ℤ pos n = pos (m + n)
pos m +ℤ negsuc n = pos m -ℤ pos (n + 1)
negsuc m +ℤ pos n = pos n -ℤ pos (m + 1)
negsuc m +ℤ negsuc n = negsuc (m + n + 1)

pub record Timeval : Type 0 where
  pub tv_sec : ℤ
  pub tv_usec : ℤ

unfoldable pub tv_cmp : Timeval → Timeval → ℤ
unfolding ltz
tv_cmp t1 t2 =
    if ltz t1.tv_sec t2.tv_sec
    then negsuc 0
    else if ltz t2.tv_sec t1.tv_sec
    then pos 1
    else if ltz t1.tv_usec t2.tv_usec
    then negsuc 0
    else if ltz t2.tv_usec t1.tv_usec
    then pos 1
    else pos 0

-- What a long is that an unsigned long is assigned to.
unfoldable pub long_of : ℕ → ℤ
long_of n = if ltb n (2 ^ 63) then pos n else negsuc (2 ^ 64 - 1 - n)

-- `~0UL`.
abbrev pub all_ones : ℕ
all_ones = 2 ^ 64 - 1

-- `c_tvmax`.
unfoldable pub c_tvmax : Timeval
unfolding long_of
c_tvmax = record { tv_sec = long_of all_ones; tv_usec = long_of all_ones }

-- A time that is so many microseconds.
unfoldable pub tv_of : ℕ → Timeval
tv_of t = record { tv_sec = pos (t / 1000000); tv_usec = pos (t % 1000000) }

unfoldable pub tv_diff : Timeval → Timeval → Timeval
unfolding ltz ◌-ℤ◌ ◌+ℤ◌
tv_diff t1 t2 =
    let sec = t1.tv_sec -ℤ t2.tv_sec in
    if ltz t1.tv_usec t2.tv_usec
    then record { tv_sec = sec -ℤ pos 1; tv_usec = (t1.tv_usec +ℤ pos 1000000) -ℤ t2.tv_usec }
    else record { tv_sec = sec; tv_usec = t1.tv_usec -ℤ t2.tv_usec }
