-- ===== src/Strategy/Combiner/Strength.antt =====
-- The strength of the combined signal.
use nebula_x_trader.Prelude.{
  ◌+◌, ◌≡◌, ◌≢◌, true, false, ◌⊎◌, refl, ap, ◌∙◌, ◌||◌, List, [], ◌∷◌, arith, Bool-cases, inl, inr,
}
use nebula_x_trader.Prelude.Int.{
  ℤ, pos, negsuc, neg_ℤ, pos_part, neg_part, ◌+ℤ◌, ◌-ℤ◌, ◌≤ℤ◌, leb_ℤ, int_laws,
}
use nebula_x_trader.Types.{OrderSide, buy, sell, no_side, Signal}
use nebula_x_trader.Strategy.Combiner.{
  SignalCombiner, is_none, same_side, gather, clamp, base_strength, combine,
}

-- a strength, where it is above 0
abbrev pub positive : ℤ → ℤ
positive (pos n) = pos n
positive (negsuc n) = pos 0

-- what a slave of the second side adds to the strength of a primary of the first
abbrev pub directed : OrderSide → OrderSide → ℤ → ℤ
directed buy buy x = x
directed sell sell x = x
directed buy sell x = neg_ℤ x
directed sell buy x = neg_ℤ x
directed _ _ x = pos 0

pub total : OrderSide → List Signal → ℤ
total side [] = pos 0
total side (s ∷ rest) = directed side s.side (positive s.strength) +ℤ total side rest

-- the primary's strength and what the slaves contribute
abbrev pub balance : SignalCombiner → ℤ
balance c = positive c.primary.strength +ℤ total c.primary.side c.slaves

skipped-eq :
    (side other : OrderSide) (x : ℤ)
    → (is_none other || leb_ℤ x (pos 0)) ≡ true
    → directed side other (positive x) ≡ pos 0
skipped-eq buy buy x h = ground arith
skipped-eq buy sell x h = ground arith
skipped-eq sell buy x h = ground arith
skipped-eq sell sell x h = ground arith
skipped-eq buy no_side x h = refl
skipped-eq sell no_side x h = refl
skipped-eq no_side buy x h = refl
skipped-eq no_side sell x h = refl
skipped-eq no_side no_side x h = refl

agreed-eq :
    (side other : OrderSide) (x : ℤ)
    → (is_none other || leb_ℤ x (pos 0)) ≡ false
    → same_side other side ≡ true
    → directed side other (positive x) ≡ x
agreed-eq buy buy x h same = ground arith
agreed-eq sell sell x h same = ground arith
agreed-eq no_side no_side x h same = cc
agreed-eq no_side buy x h same = cc
agreed-eq no_side sell x h same = cc
agreed-eq side other x h same = cc

opposed-eq :
    (side other : OrderSide) (x : ℤ)
    → is_none side ≡ false
    → (is_none other || leb_ℤ x (pos 0)) ≡ false
    → same_side other side ≡ false
    → directed side other (positive x) ≡ neg_ℤ x
opposed-eq buy sell x sided h differ = ground arith
opposed-eq sell buy x sided h differ = ground arith
opposed-eq side other x sided h differ = cc

minus : (a b x t : ℤ) → a -ℤ (b +ℤ x) +ℤ t ≡ a -ℤ b +ℤ (neg_ℤ x +ℤ t)
minus a b x t =
    let flipped : pos_part (neg_ℤ x) + pos_part x ≡ neg_part (neg_ℤ x) + neg_part x =
      ground arith in
    omega (int_laws, flipped)

gather_total :
    (side : OrderSide) (l : List Signal) (same_dir opp_dir : ℤ)
    → is_none side ≡ false
    → (gather side l same_dir opp_dir).0 -ℤ (gather side l same_dir opp_dir).1
      ≡ same_dir -ℤ opp_dir +ℤ total side l
unfolding gather total
gather_total side [] same_dir opp_dir sided = omega int_laws
gather_total side (s ∷ rest) same_dir opp_dir sided =
    elim (Bool-cases (is_none s.side || leb_ℤ s.strength (pos 0))) [
      | inl skipped ↦
          rw (skipped, gather, skipped-eq side s.side s.strength skipped)
            (gather_total side rest same_dir opp_dir sided ∙ omega int_laws)
      | inr counted ↦ elim (Bool-cases (same_side s.side side)) [
        | inl agrees ↦
            rw (counted, agrees, gather, agreed-eq side s.side s.strength counted agrees)
              (gather_total side rest (same_dir +ℤ s.strength) opp_dir sided ∙ omega int_laws)
        | inr opposes ↦
            rw (counted, opposes, gather, opposed-eq side s.side s.strength sided counted opposes)
              (gather_total side rest same_dir (opp_dir +ℤ s.strength) sided
                ∙ minus same_dir opp_dir s.strength (total side rest))
      ]
    ]

base_strength-positive : (s : Signal) → base_strength s ≡ positive s.strength
base_strength-positive s = ground arith

combine_strength :
    (c : SignalCombiner) → is_none c.primary.side ≡ false → (combine c).strength ≡ clamp (balance c)
unfolding combine
combine_strength c sided =
    rw (sided, combine, base_strength-positive c.primary)
      (ap clamp (
        regroup (positive c.primary.strength) (gather c.primary.side c.slaves (pos 0) (pos 0)).0
          (gather c.primary.side c.slaves (pos 0) (pos 0)).1 (total c.primary.side c.slaves)
          (gather_total c.primary.side c.slaves (pos 0) (pos 0) sided)))
  where
    regroup : (b s o t : ℤ) → s -ℤ o ≡ pos 0 -ℤ pos 0 +ℤ t → b +ℤ s -ℤ o ≡ b +ℤ t
    regroup b s o t h = omega (int_laws, ap pos_part h, ap neg_part h)

-- a value held between 0 and the full strength
abbrev pub IsHeld : ℤ → ℤ → Type 0
IsHeld z s =
    (z ≤ℤ pos 0 → s ≡ pos 0)
    × ((pos 0 ≤ℤ z → z ≤ℤ pos 10_000 → s ≡ z) × (pos 10_000 ≤ℤ z → s ≡ pos 10_000))

clamp-IsHeld : (z : ℤ) → IsHeld z (clamp z)
clamp-IsHeld z = (λ low. ground arith, (λ from to. ground arith, λ high. ground arith))

-- the strength of a combined signal: none without a direction, else the balance within its bounds
abbrev pub IsStrength : SignalCombiner → ℤ → Type 0
IsStrength c s =
    ((c.primary.side ≡ no_side) × (s ≡ pos 0)) ⊎ ((c.primary.side ≢ no_side) × IsHeld (balance c) s)

is_none-cases :
    (s : OrderSide) → ((s ≡ no_side) × (is_none s ≡ true)) ⊎ ((s ≢ no_side) × (is_none s ≡ false))
is_none-cases buy = inr (λ e. cc, refl)
is_none-cases sell = inr (λ e. cc, refl)
is_none-cases no_side = inl (refl, refl)

combine-IsStrength : (c : SignalCombiner) → IsStrength c (combine c).strength
unfolding combine
combine-IsStrength c = elim (is_none-cases c.primary.side) [
  | inl (idle, none_given) ↦ inl (idle, ground arith)
  | inr (sided, given) ↦ inr (sided, rw (combine_strength c given) (clamp-IsHeld (balance c)))
]

combine_terms :
    (c : SignalCombiner)
    → ((combine c).side ≡ c.primary.side)
      × ((combine c).locate ≡ c.primary.locate)
      × ((combine c).price ≡ c.primary.price)
unfolding combine
combine_terms c = (ground arith, ground arith, ground arith)

-- The combined signal keeps the primary's direction, symbol and price. Its strength is 0 without a
-- direction, else the balance of the primary's strength, if positive, and what the slaves contribute:
-- 0 if the balance is below, 10000 if it is above, and the balance itself in between. A slave with a
-- direction and a positive strength contributes that strength, negated when it is against the primary;
-- other slaves contribute nothing.
pub combined_signal :
    (c : SignalCombiner)
    → ((combine c).side ≡ c.primary.side)
      × ((combine c).locate ≡ c.primary.locate)
      × ((combine c).price ≡ c.primary.price)
      × IsStrength c (combine c).strength
combined_signal c =
    let (side, locate, price) = combine_terms c in (side, locate, price, combine-IsStrength c)
