-- ===== src/Prelude/Words.antt =====
-- 64-bit words: `uint64_t` arithmetic wraps; a cast to `int64_t` reads the bit pattern.
use nebula_x_trader.Prelude.{ℕ, ◌<◌, ◌≡◌, arith, ◌+◌, ◌-◌, ◌*◌, ◌%◌, ◌^◌, ltb, if◌then◌else◌}
use nebula_x_trader.Prelude.Int.{ℤ, pos, negsuc, ◌≤ℤ◌}

abbrev pub u64_mod : ℕ
u64_mod = 2 ^ 64

abbrev pub add64 : ℕ → ℕ → ℕ
add64 a b = (a + b) % u64_mod

-- for a, b < 2 ^ 64
abbrev pub sub64 : ℕ → ℕ → ℕ
sub64 a b = (a + u64_mod - b) % u64_mod

abbrev pub mul64 : ℕ → ℕ → ℕ
mul64 a b = (a * b) % u64_mod

-- `(int64_t)u`
abbrev pub to_i64 : ℕ → ℤ
to_i64 u = if ltb u (2 ^ 63) then pos u else negsuc (u64_mod - u - 1)

-- `(uint64_t)z`, z mod 2 ^ 64
abbrev pub to_u64 : ℤ → ℕ
to_u64 (pos n) = n % u64_mod
to_u64 (negsuc n) = u64_mod - 1 - n % u64_mod

pub to_i64_small : (u : ℕ) → u < 2 ^ 63 → to_i64 u ≡ pos u
to_i64_small u h = ground arith

-- a value of `int64_t`
abbrev pub IsInt64 : ℤ → Type 0
IsInt64 z = (negsuc (2 ^ 63 - 1) ≤ℤ z) × (z ≤ℤ pos (2 ^ 63 - 1))

pub to_i64-to_u64 : (z : ℤ) → IsInt64 z → to_i64 (to_u64 z) ≡ z
to_i64-to_u64 (pos n) h = ground arith
to_i64-to_u64 (negsuc n) h = ground arith
