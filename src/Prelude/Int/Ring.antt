-- ===== src/Prelude/Int/Ring.antt =====
-- Multiplication of integers: through differences of numbers, whose products multiply out.
use nebula_x_trader.Prelude.{ℕ, ◌+◌, ◌*◌, ◌/◌, ◌≡◌, refl, ap, arith}
use nebula_x_trader.Prelude.Int.{
  ℤ, pos, pos_part, neg_part, sub_ℕ, ◌+ℤ◌, ◌-ℤ◌, ◌*ℤ◌, ◌/ℤ◌, int_laws, +ℤ_parts, -ℤ_parts,
}

pub sub_ℕ-parts : (a : ℤ) → a ≡ sub_ℕ (pos_part a) (neg_part a)
sub_ℕ-parts a = ground arith

sub_ℕ-eq : (a b c d : ℕ) → a + d ≡ c + b → sub_ℕ a b ≡ sub_ℕ c d
sub_ℕ-eq a b c d h = ground arith

parts-sub_ℕ : (a b : ℕ) → pos_part (sub_ℕ a b) + b ≡ neg_part (sub_ℕ a b) + a
parts-sub_ℕ a b = ground arith

-- cross multiplication of two differences
cross :
    (p n a b r s c d : ℕ)
    → p + b ≡ n + a
    → r + d ≡ s + c
    → (p * r + n * s) + (a * d + b * c) ≡ (a * c + b * d) + (p * s + n * r)
cross p n a b r s c d h k = omega (
  arith,
  ap (λ (t : ℕ). t * r) h,
  ap (λ (t : ℕ). t * s) h,
  ap (λ (t : ℕ). a * t) k,
  ap (λ (t : ℕ). b * t) k,
)

pub mul-sub_ℕ : (a b c d : ℕ) → sub_ℕ a b *ℤ sub_ℕ c d ≡ sub_ℕ (a * c + b * d) (a * d + b * c)
unfolding ◌*ℤ◌
mul-sub_ℕ a b c d = sub_ℕ-eq _ _ _ _ (
    cross (pos_part (sub_ℕ a b)) (neg_part (sub_ℕ a b)) a b (pos_part (sub_ℕ c d))
      (neg_part (sub_ℕ c d)) c d (parts-sub_ℕ a b) (parts-sub_ℕ c d))

*ℤ_sub :
    (a b : ℤ)
    → a *ℤ b
      ≡ sub_ℕ
          (pos_part a * pos_part b + neg_part a * neg_part b)
          (pos_part a * neg_part b + neg_part a * pos_part b)
unfolding ◌*ℤ◌
*ℤ_sub a b = refl

pub *ℤ_parts :
    (a b : ℤ)
    → pos_part (a *ℤ b) + pos_part a * neg_part b + neg_part a * pos_part b
      ≡ neg_part (a *ℤ b) + pos_part a * pos_part b + neg_part a * neg_part b
*ℤ_parts a b = rw *ℤ_sub (
    omega (
      arith,
      parts-sub_ℕ (pos_part a * pos_part b + neg_part a * neg_part b)
          (pos_part a * neg_part b + neg_part a * pos_part b),
    ))

pub *ℤ_add : (a b c : ℤ) → a *ℤ (b +ℤ c) ≡ a *ℤ b +ℤ a *ℤ c
*ℤ_add a b c = omega (
  int_laws,
  *ℤ_parts a (b +ℤ c),
  *ℤ_parts a b,
  *ℤ_parts a c,
  ap (λ (t : ℕ). pos_part a * t) (+ℤ_parts b c),
  ap (λ (t : ℕ). neg_part a * t) (+ℤ_parts b c),
)

pub *ℤ_sub_right : (a b c : ℤ) → a *ℤ (b -ℤ c) ≡ a *ℤ b -ℤ a *ℤ c
*ℤ_sub_right a b c = omega (
  int_laws,
  *ℤ_parts a (b -ℤ c),
  *ℤ_parts a b,
  *ℤ_parts a c,
  ap (λ (t : ℕ). pos_part a * t) (-ℤ_parts b c),
  ap (λ (t : ℕ). neg_part a * t) (-ℤ_parts b c),
)

pub *ℤ_comm : (a b : ℤ) → a *ℤ b ≡ b *ℤ a
*ℤ_comm a b = omega (int_laws, *ℤ_parts a b, *ℤ_parts b a)

pub ruleset ring_laws = (*ℤ_add, *ℤ_sub_right)

-- Division of a number that is not negative rounds down.
pub /ℤ-pos : (a b : ℕ) → pos a /ℤ pos b ≡ pos (a / b)
unfolding ◌/ℤ◌
/ℤ-pos a b = refl

-- the products and sums of numbers that are not negative
pub pos_mul : (a b : ℕ) → pos a *ℤ pos b ≡ pos (a * b)
unfolding ◌*ℤ◌
pos_mul a b = ground arith

pub pos_add : (a b : ℕ) → pos a +ℤ pos b ≡ pos (a + b)
unfolding ◌+ℤ◌
pos_add a b = ground arith
