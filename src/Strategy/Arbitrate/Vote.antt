-- ===== src/Strategy/Arbitrate/Vote.antt =====
-- The vote is symmetric, and its strength is within bounds.
use nebula_x_trader.Prelude.{
  ℕ, zero, suc, ◌+◌, ◌*◌, ◌/◌, ◌≤◌, ◌≡◌, refl, ap, ◌∙◌, none, some, [], ◌∷◌, arith, get_elem?,
  Bool-cases, Option-cases, inl, inr,
}
use native.Mathlib.Nat.{div-le_of_le-mul}
use nebula_x_trader.Prelude.Int.{ℤ, pos, ◌+ℤ◌, ◌*ℤ◌, ◌≤ℤ◌, ltb_ℤ, neg_ℤ}
use nebula_x_trader.Prelude.Int.Ring.{pos_mul, pos_add, /ℤ-pos}
use nebula_x_trader.Prelude.Mean.{mul_mono}
use nebula_x_trader.Types.{OrderSide, buy, sell, no_side}
use nebula_x_trader.Strategy.Combiner.{same_side}
use nebula_x_trader.Strategy.Arbitrate.Net.{
  majority, net-majority, IsDecision, decide_on-IsDecision,
}
use nebula_x_trader.Strategy.Arbitrate.{
  ArbSignal, sign, Votes, net, direction, support, mean, decide_on, arbitrate_decide,
}

abbrev pub opposite : OrderSide → OrderSide
opposite buy = sell
opposite sell = buy
opposite no_side = no_side

-- every signal turned to the other side
abbrev pub mirror : Votes → Votes
mirror [] = []
mirror ((s, w) ∷ rest) = (record s { side = opposite s.side }, w) ∷ mirror rest

sign-opposite : (s : OrderSide) (w : ℤ) → sign (opposite s) *ℤ w ≡ neg_ℤ (sign s *ℤ w)
unfolding ◌*ℤ◌
sign-opposite buy w = ground arith
sign-opposite sell w = ground arith
sign-opposite no_side w = ground arith

neg_add : (a b : ℤ) → neg_ℤ a +ℤ neg_ℤ b ≡ neg_ℤ (a +ℤ b)
unfolding ◌+ℤ◌
neg_add a b = ground arith

net-mirror : (votes : Votes) (acc : ℤ) → net (mirror votes) (neg_ℤ acc) ≡ neg_ℤ (net votes acc)
unfolding net
net-mirror [] acc = refl
net-mirror ((s, w) ∷ rest) acc =
    ap (λ (t : ℤ). net (mirror rest) (neg_ℤ acc +ℤ t)) (sign-opposite s.side w)
    ∙ ap (net (mirror rest)) (neg_add acc (sign s.side *ℤ w))
    ∙ net-mirror rest (acc +ℤ sign s.side *ℤ w)

direction-mirror : (n t : ℤ) → pos 0 ≤ℤ t → direction (neg_ℤ n) t ≡ opposite (direction n t)
direction-mirror n t h = ground arith

same_side-opposite : (a b : OrderSide) → same_side (opposite a) (opposite b) ≡ same_side a b
same_side-opposite buy buy = refl
same_side-opposite buy sell = refl
same_side-opposite buy no_side = refl
same_side-opposite sell buy = refl
same_side-opposite sell sell = refl
same_side-opposite sell no_side = refl
same_side-opposite no_side buy = refl
same_side-opposite no_side sell = refl
same_side-opposite no_side no_side = refl

support-mirror :
    (dir : OrderSide) (votes : Votes) (a b : ℤ)
    → support (opposite dir) (mirror votes) a b ≡ support dir votes a b
unfolding support
support-mirror dir [] a b = refl
support-mirror dir ((s, w) ∷ rest) a b =
    rw
      (
        same_side-opposite s.side dir,
        support-mirror dir rest (a +ℤ w) (b +ℤ s.strength *ℤ w),
        support-mirror dir rest a b,
      )
      refl

get-mirror :
    (votes : Votes) (i : ℕ)
    → get_elem? (mirror votes) i ≡ (elim (get_elem? votes i) [
      | none ↦ none
      | some (s, w) ↦ some (record s { side = opposite s.side }, w)
    ])
get-mirror [] i = refl
get-mirror ((s, w) ∷ rest) zero = refl
get-mirror ((s, w) ∷ rest) (suc i) = get-mirror rest i

decide_on-mirror :
    (dir : OrderSide) (votes : Votes) (s : ArbSignal)
    → decide_on (opposite dir) (mirror votes) (record s { side = opposite s.side })
      ≡ record (decide_on dir votes s) { dir = opposite (decide_on dir votes s).dir }
unfolding decide_on
decide_on-mirror buy votes s = rw (support-mirror buy votes (pos 0) (pos 0)) refl
decide_on-mirror sell votes s = rw (support-mirror sell votes (pos 0) (pos 0)) refl
decide_on-mirror no_side votes s = refl

-- The vote favours no side: when every signal is turned to the other side, the decision is the same
-- but for its direction, which is turned too. The threshold is not negative.
mirrored_vote :
    (votes : Votes) (primary_idx : ℕ) (threshold : ℤ)
    → pos 0 ≤ℤ threshold
    → let d = arbitrate_decide votes primary_idx threshold in
      arbitrate_decide (mirror votes) primary_idx threshold ≡ record d { dir = opposite d.dir }
unfolding arbitrate_decide
mirrored_vote votes primary_idx threshold h = elim (Option-cases (get_elem? votes primary_idx)) [
  | inl missing ↦ rw (arbitrate_decide, get-mirror votes primary_idx, missing) refl
  | inr ((s, w), found) ↦
      rw (arbitrate_decide, get-mirror votes primary_idx, found)
        (ap
            (λ (n : ℤ).
              decide_on (direction n threshold) (mirror votes)
                (record s { side = opposite s.side }))
            (net-mirror votes (pos 0))
          ∙ ap (λ (d : OrderSide). decide_on d (mirror votes) (record s { side = opposite s.side }))
              (direction-mirror (net votes (pos 0)) threshold h)
          ∙ decide_on-mirror (direction (net votes (pos 0)) threshold) votes s)
]

-- Weights are not negative, and strengths are from 0 to 10000.
abbrev pub AllWeighted : Votes → Type 0
AllWeighted [] = Unit
AllWeighted ((s, w) ∷ rest) =
    ((a : ℕ) × (b : ℕ) × (s.strength ≡ pos a) × (w ≡ pos b) × (a ≤ 10_000)) × AllWeighted rest

-- sums of weights and of weighted strengths that belong together
record IsTally (r : ℤ × ℤ) : Type 0 where
  weight : ℕ
  weighted : ℕ
  is_weight : r.0 ≡ pos weight
  is_weighted : r.1 ≡ pos weighted
  bounded : weighted ≤ 10_000 * weight

support-IsTally :
    (dir : OrderSide) (votes : Votes) (x y : ℤ)
    → AllWeighted votes
    → IsTally (x, y)
    → IsTally (support dir votes x y)
unfolding support
support-IsTally dir [] x y h t = t
support-IsTally dir ((s, w) ∷ rest) x y ((a, b, strong, heavy, most), h) t =
    elim (Bool-cases (same_side s.side dir)) [
      | inl counted ↦
          rw (counted, support)
            (support-IsTally dir rest (x +ℤ w) (y +ℤ s.strength *ℤ w) h (record {
              weight = t.weight + b;
              weighted = t.weighted + a * b;
              is_weight = rw (t.is_weight, heavy) (pos_add t.weight b);
              is_weighted =
                  rw (t.is_weighted, strong, heavy, pos_mul a b) (pos_add t.weighted (a * b));
              bounded = omega (arith, t.bounded, scaled a b most);
            }))
      | inr passed ↦ rw (passed, support) (support-IsTally dir rest x y h t)
    ]
  where
    scaled : (a b : ℕ) → a ≤ 10_000 → a * b ≤ 10_000 * b
    scaled a b most = mul_mono a 10_000 b most

quotient : (s w : ℕ) → s ≤ 10_000 * w → s / w ≤ 10_000
quotient s w h = div-le_of_le-mul w (scale s w h)
  where
    scale : (s w : ℕ) → s ≤ 10_000 * w → s ≤ w * 10_000
    scale s w h = omega arith

mean-range : (r : ℤ × ℤ) → IsTally r → (pos 0 ≤ℤ mean r) × (mean r ≤ℤ pos 10_000)
mean-range r t = elim (Bool-cases (ltb_ℤ (pos 0) r.0)) [
  | inl some_weight ↦
      rw (some_weight, t.is_weight, t.is_weighted, /ℤ-pos t.weighted t.weight)
        (omega arith, omega (arith, quotient t.weighted t.weight t.bounded))
  | inr no_weight ↦ rw no_weight (omega arith, omega arith)
]

abbrev InRange : ℤ → Type 0
InRange z = (pos 0 ≤ℤ z) × (z ≤ℤ pos 10_000)

decide_on-InRange :
    (dir : OrderSide) (votes : Votes) (s : ArbSignal)
    → AllWeighted votes
    → InRange (decide_on dir votes s).strength
unfolding decide_on
decide_on-InRange buy votes s h = mean-range (support buy votes (pos 0) (pos 0)) (
    support-IsTally buy votes (pos 0) (pos 0) h (record {
      weight = 0;
      weighted = 0;
      is_weight = refl;
      is_weighted = refl;
      bounded = omega arith;
    }))
decide_on-InRange sell votes s h = mean-range (support sell votes (pos 0) (pos 0)) (
    support-IsTally sell votes (pos 0) (pos 0) h (record {
      weight = 0;
      weighted = 0;
      is_weight = refl;
      is_weighted = refl;
      bounded = omega arith;
    }))
decide_on-InRange no_side votes s h = (omega arith, omega arith)

-- Where the primary index is in range, no weight is negative and every strength is from 0 to 10000, the
-- decision follows the weights of the signals that buy less those of the signals that sell: above the
-- threshold it is to buy, below the negative threshold to sell, and else there is none. Its strength is
-- from 0 to 10000.
pub vote_decides :
    (votes : Votes) (primary_idx : ℕ) (threshold : ℤ) (s : ArbSignal) (w : ℤ)
    → get_elem? votes primary_idx ≡ some (s, w)
    → AllWeighted votes
    → let d = arbitrate_decide votes primary_idx threshold in
      IsDecision (majority votes) threshold d × (pos 0 ≤ℤ d.strength) × (d.strength ≤ℤ pos 10_000)
unfolding arbitrate_decide
vote_decides votes primary_idx threshold s w found h =
    let n = majority votes in
    let decides = decide_on-IsDecision n threshold votes s in
    let range = decide_on-InRange (direction n threshold) votes s h in
    rw (arbitrate_decide, found, net-majority votes) (decides, range.0, range.1)
