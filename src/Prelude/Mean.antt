-- ===== src/Prelude/Mean.antt =====
-- The weighted mean of two prices, rounded down, as the average costs are computed.
use native.Mathlib.Decide.{dec_le}
use native.Mathlib.Nat.{le-div_iff_mul-le, div-le_of_le-mul}
use nebula_x_trader.Prelude.{ℕ, suc, ◌+◌, ◌*◌, ◌/◌, ◌^◌, ◌≤◌, ◌<◌, ◌≡◌, arith}
use nebula_x_trader.Prelude.Int.{pos, ◌+ℤ◌, ◌*ℤ◌, ◌/ℤ◌}
use nebula_x_trader.Prelude.Int.Ring.{/ℤ-pos, pos_mul, pos_add}
use nebula_x_trader.Prelude.Words.{to_i64, to_i64_small}

pub mul_mono : (a b n : ℕ) → a ≤ b → a * n ≤ b * n
mul_mono a b n h = grind arith

pub mul_cancel : (a b n : ℕ) → 0 < n → a * n ≤ b * n → a ≤ b
mul_cancel a b n h k = elim (dec_le a b) [
  | yes p ↦ p
  | no p ↦ absurd (omega (arith, mul_mono (suc b) a n (omega arith)))
]

pub mean_bounds :
    (lo hi a n p q : ℕ)
    → lo * n ≤ a * n
    → a * n ≤ hi * n
    → lo ≤ p
    → p ≤ hi
    → 0 < n + q
    → (lo ≤ (a * n + p * q) / (n + q)) × ((a * n + p * q) / (n + q) ≤ hi)
mean_bounds lo hi a n p q la ha lp hp some_qty = (
  (le-div_iff_mul-le {x = lo} {y = a * n + p * q} some_qty).1 (omega (arith, mul_mono lo p q lp)),
  div-le_of_le-mul (n + q) (omega (arith, mul_mono p hi q hp)),
)

pub mean_price :
    (a n p q : ℕ)
    → n + q < 2 ^ 63
    → (pos a *ℤ to_i64 n +ℤ pos p *ℤ to_i64 q) /ℤ to_i64 (n + q) ≡ pos ((a * n + p * q) / (n + q))
mean_price a n p q h = simp (
  to_i64_small n (omega arith),
  to_i64_small q (omega arith),
  to_i64_small (n + q) h,
  pos_mul,
  pos_add,
  /ℤ-pos,
)
