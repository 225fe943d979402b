-- ===== src/Prelude/Sum.antt =====
-- Arrays as functions of their index, and sums over their first cells.
use nebula_x_trader.Prelude.{
  ℕ, zero, suc, ◌<◌, ◌≡◌, ◌≢◌, refl, ap, arith, ◌==◌, if◌then◌else◌, Bool-cases, inl, inr,
}
use nebula_x_trader.Prelude.Int.{ℤ, pos, pos_part, neg_part, ◌+ℤ◌, int_laws}

-- `a[k] = v`
abbrev pub update {ℓ} : {A : Type ℓ} → (ℕ → A) → ℕ → A → ℕ → A
update f k v j = if k == j then v else f j

-- the loop that adds up the cells 0 to n - 1
pub sum_below : (ℕ → ℤ) → ℕ → ℤ
sum_below f zero = pos 0
sum_below f (suc n) = sum_below f n +ℤ f n

add_right : (a b c d e : ℤ) → a +ℤ b ≡ c +ℤ d → a +ℤ e +ℤ b ≡ c +ℤ e +ℤ d
add_right a b c d e h = omega (int_laws, ap pos_part h, ap neg_part h)

pub sum_below-congr :
    (f g : ℕ → ℤ) (n : ℕ) → ((l : ℕ) → l < n → f l ≡ g l) → sum_below f n ≡ sum_below g n
unfolding sum_below
sum_below-congr f g zero h = refl
sum_below-congr f g (suc n) h =
    cc (sum_below-congr f g n (λ l below. h l (omega arith)), h n (omega arith))

-- Where two arrays differ in one cell, their sums differ as the cell does.
pub sum_below-update :
    (f g : ℕ → ℤ) (k n : ℕ)
    → ((l : ℕ) → l ≢ k → g l ≡ f l)
    → k < n
    → sum_below g n +ℤ f k ≡ sum_below f n +ℤ g k
unfolding sum_below
sum_below-update f g k zero same h = absurd (omega arith)
sum_below-update f g k (suc n) same h = elim (Bool-cases (n == k)) [
  | inl at ↦
      let e : n ≡ k = ground arith in
      rw (sum_below-congr g f n (λ l below. same l (omega arith)), ap f e, ap g e) (omega int_laws)
  | inr off ↦ rw (same n (ground arith)) (
      add_right (sum_below g n) (f k) (sum_below f n) (g k) (f n)
        (sum_below-update f g k n same (ground arith)))
]

pub sum_below-zero : (f : ℕ → ℤ) (n : ℕ) → ((l : ℕ) → f l ≡ pos 0) → sum_below f n ≡ pos 0
unfolding sum_below
sum_below-zero f zero h = refl
sum_below-zero f (suc n) h = rw (h n, sum_below-zero f n h) (omega int_laws)
