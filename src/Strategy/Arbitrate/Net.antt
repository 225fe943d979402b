-- ===== src/Strategy/Arbitrate/Net.antt =====
-- The net signal of `arbitrate_decide` (strategy/base/arbitrate.h) as the weights of the two sides.
use nebula_x_trader.Prelude.{
  ◌≡◌, refl, ap, ◌∙◌, true, false, [], ◌∷◌, arith, Bool-cases, inl, inr, ◌⊎◌,
}
use nebula_x_trader.Prelude.Int.{ℤ, pos, ◌+ℤ◌, ◌-ℤ◌, ◌*ℤ◌, ◌≤ℤ◌, ◌<ℤ◌, ltb_ℤ, neg_ℤ, int_laws}
use nebula_x_trader.Types.{OrderSide, buy, sell, no_side}
use nebula_x_trader.Strategy.Arbitrate.{
  ArbSignal, ArbDecision, sign, Votes, net, direction, decide_on,
}

-- a weight, if its signal buys, and if it sells
abbrev for_buy : OrderSide → ℤ → ℤ
for_buy buy w = w
for_buy _ w = pos 0

abbrev for_sale : OrderSide → ℤ → ℤ
for_sale sell w = w
for_sale _ w = pos 0

-- the weights of all signals that buy, and of all that sell
pub buy_weight : Votes → ℤ
buy_weight [] = pos 0
buy_weight ((s, w) ∷ rest) = for_buy s.side w +ℤ buy_weight rest

pub sell_weight : Votes → ℤ
sell_weight [] = pos 0
sell_weight ((s, w) ∷ rest) = for_sale s.side w +ℤ sell_weight rest

-- by how much the buying side prevails
abbrev pub majority : Votes → ℤ
majority votes = buy_weight votes -ℤ sell_weight votes

signed-weight : (side : OrderSide) (w : ℤ) → sign side *ℤ w ≡ for_buy side w -ℤ for_sale side w
unfolding ◌*ℤ◌ ◌-ℤ◌
signed-weight buy w = ground arith
signed-weight sell w = ground arith
signed-weight no_side w = ground arith

net_lem : (votes : Votes) (acc : ℤ) → net votes acc ≡ acc +ℤ majority votes
unfolding net buy_weight sell_weight
net_lem [] acc = omega int_laws
net_lem ((s, w) ∷ rest) acc =
    ap (λ (t : ℤ). net rest (acc +ℤ t)) (signed-weight s.side w)
    ∙ net_lem rest (acc +ℤ (for_buy s.side w -ℤ for_sale s.side w))
    ∙ omega int_laws

pub net-majority : (votes : Votes) → net votes (pos 0) ≡ majority votes
net-majority votes = net_lem votes (pos 0) ∙ omega int_laws

-- What is decided at a majority of `n`: to buy above the threshold, to sell below its negative, else
-- nothing.
abbrev pub IsDecision : ℤ → ℤ → ArbDecision → Type 0
IsDecision n threshold d =
    ((threshold <ℤ n) × (d.dir ≡ buy) × (d.act ≡ true))
    ⊎ (((n ≤ℤ threshold) × (n <ℤ neg_ℤ threshold) × (d.dir ≡ sell) × (d.act ≡ true))
        ⊎ ((n ≤ℤ threshold) × (neg_ℤ threshold ≤ℤ n) × (d.dir ≡ no_side) × (d.act ≡ false)))

pub decide_on-IsDecision :
    (n threshold : ℤ) (votes : Votes) (s : ArbSignal)
    → IsDecision n threshold (decide_on (direction n threshold) votes s)
unfolding decide_on
decide_on-IsDecision n threshold votes s = elim (Bool-cases (ltb_ℤ threshold n)) [
  | inl above ↦ rw above (inl (ground arith, refl, refl))
  | inr within ↦ elim (Bool-cases (ltb_ℤ n (neg_ℤ threshold))) [
    | inl below ↦ rw (within, below) (inr (inl (ground arith, ground arith, refl, refl)))
    | inr neither ↦ rw (within, neither) (inr (inr (ground arith, ground arith, refl, refl)))
  ]
]
