-- ===== src/Strategy/Arbitrate.antt =====
-- `arbitrate_decide` of strategy/base/arbitrate.h: the weighted vote of several strategies.
pub mod Vote
pub mod Net
use nebula_x_trader.Prelude.{
  ℕ, Bool, true, false, Option, none, some, List, [], ◌∷◌, if◌then◌else◌, get_elem?,
}
use nebula_x_trader.Prelude.Int.{ℤ, pos, negsuc, ◌+ℤ◌, ◌-ℤ◌, ◌*ℤ◌, ◌/ℤ◌, ltb_ℤ, neg_ℤ}
use nebula_x_trader.Types.{OrderSide, buy, sell, no_side}
use nebula_x_trader.Strategy.Combiner.{same_side}

pub record ArbSignal : Type 0 where
  pub side : OrderSide
  pub locate : ℕ
  pub strength : ℤ
  pub seq : ℕ

pub record ArbDecision : Type 0 where
  pub act : Bool
  pub dir : OrderSide
  pub locate : ℕ
  pub strength : ℤ
  pub seq : ℕ

abbrev pub no_decision : ArbDecision
no_decision = record { act = false; dir = no_side; locate = 0; strength = pos 0; seq = 0 }

abbrev pub sign : OrderSide → ℤ
sign buy = pos 1
sign sell = negsuc 0
sign no_side = pos 0

-- The two arrays of `n` cells are one list of pairs.
abbrev pub Votes : Type 0
Votes = List (ArbSignal × ℤ)

-- the first loop: the net signal
pub net : Votes → ℤ → ℤ
net [] acc = acc
net ((s, w) ∷ rest) acc = net rest (acc +ℤ sign s.side *ℤ w)

abbrev pub direction : ℤ → ℤ → OrderSide
direction net_bp threshold =
    if ltb_ℤ threshold net_bp then buy else if ltb_ℤ net_bp (neg_ℤ threshold) then sell else no_side

-- the second loop: the weights of the direction, and the weighted strengths
pub support : OrderSide → Votes → ℤ → ℤ → ℤ × ℤ
support dir [] sum_w sum_sw = (sum_w, sum_sw)
support dir ((s, w) ∷ rest) sum_w sum_sw =
    let counted = support dir rest (sum_w +ℤ w) (sum_sw +ℤ s.strength *ℤ w) in
    let passed = support dir rest sum_w sum_sw in if same_side s.side dir then counted else passed

abbrev pub mean : ℤ × ℤ → ℤ
mean (sum_w, sum_sw) = if ltb_ℤ (pos 0) sum_w then sum_sw /ℤ sum_w else pos 0

-- the decision for a direction, with the primary signal at hand
pub decide_on : OrderSide → Votes → ArbSignal → ArbDecision
decide_on no_side votes primary = no_decision
decide_on dir votes primary = record {
  act = true;
  dir = dir;
  locate = primary.locate;
  strength = mean (support dir votes (pos 0) (pos 0));
  seq = primary.seq;
}

pub arbitrate_decide : Votes → ℕ → ℤ → ArbDecision
arbitrate_decide votes primary_idx threshold = elim (get_elem? votes primary_idx) [
  | none ↦ no_decision
  | some (primary, w) ↦ decide_on (direction (net votes (pos 0)) threshold) votes primary
]
