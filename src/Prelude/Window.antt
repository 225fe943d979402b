-- ===== src/Prelude/Window.antt =====
-- What a ring of cells holds: the cells from an index on, which goes round at the capacity.
use nebula_x_trader.Prelude.{
  ℕ, zero, suc, ◌+◌, ◌-◌, ◌*◌, ◌/◌, ◌%◌, ◌<◌, ◌≤◌, ◌≡◌, ◌≢◌, refl, sym, ap, List, [], ◌∷◌, ◌++◌,
  arith, length, Bool-cases, inl, inr, ltb, ltb→lt,
}
use mathlib.Core.Path.{ap₂, subst}
use native.Mathlib.Nat.{add-zero, div-add-mod', mul-le-mul_right}
use nebula_x_trader.Prelude.Sum.{update}

-- Two indices less than one round apart stand for different cells.
pub mod-ne : (a b c : ℕ) → 0 < c → a < b → b < a + c → a % c ≢ b % c
mod-ne a b c h below near e =
    let whole_a = div-add-mod' a c in
    let whole_b = div-add-mod' b c in ordered (a / c) (b / c) (omega arith) (omega arith)
  where
    ordered : (p q : ℕ) → p * c < q * c → q * c < p * c + c → ⊥
    ordered p q l u = elim (Bool-cases (ltb p q)) [
      | inl less ↦
          let one_more : suc p * c ≤ q * c = mul-le-mul_right c (ltb→lt p q less) in
          let round : suc p * c ≡ p * c + c = grind arith in omega arith
      | inr more ↦ let back : q * c ≤ p * c = mul-le-mul_right c (ground arith) in omega arith
    ]

module _ {ℓ} {A : Type ℓ} (capacity : ℕ) where
  -- the `n` cells from index `i` on
  unfoldable pub window : (ℕ → A) → ℕ → ℕ → List A
  window cells i zero = []
  window cells i (suc n) = cells (i % capacity) ∷ window cells (i + 1) n

  pub window-suc :
      (cells : ℕ → A) (i n : ℕ)
      → 0 < n
      → window cells i n ≡ cells (i % capacity) ∷ window cells (i + 1) (n - 1)
  unfolding window
  window-suc cells i zero h = absurd (omega arith)
  window-suc cells i (suc n) h =
      ap (λ k. cells (i % capacity) ∷ window cells (i + 1) k) (omega arith)

  pub window-zero : (cells : ℕ → A) (i n : ℕ) → n ≡ 0 → window cells i n ≡ []
  unfolding window
  window-zero cells i n h = rw h

  pub length-window : (cells : ℕ → A) (i n : ℕ) → length (window cells i n) ≡ n
  unfolding window
  length-window cells i zero = refl
  length-window cells i (suc n) = ap suc (length-window cells (i + 1) n)

  -- Writing the cell behind a window adds it at the end.
  pub window-update :
      (cells : ℕ → A) (i n : ℕ) (a : A)
      → n < capacity
      → window (update cells ((i + n) % capacity) a) i (suc n) ≡ window cells i n ++ a ∷ []
  unfolding window
  window-update cells i zero a h = rw add-zero (ground arith)
  window-update cells i (suc n) a h =
      let other : (i + suc n) % capacity ≢ i % capacity =
        λ e. mod-ne i (i + suc n) capacity (omega arith) (omega arith) (omega arith) (sym e) in
      let along : i + suc n ≡ i + 1 + n = omega arith in
      let rest = window-update cells (i + 1) n a (omega arith) in
      ap₂ ◌∷◌ (ground arith) (
        subst
          (λ k.
            window (update cells (k % capacity) a) (i + 1) (suc n)
            ≡ window cells (i + 1) n ++ a ∷ [])
          (sym along) rest)
