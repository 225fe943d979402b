-- ===== src/ExecutionEngine/Drops.antt =====
-- The signals that `submit_signal` (execution/execution_engine.h) drops, without its tests.
use nebula_x_trader.Prelude.{ℕ, ◌≡◌, refl, ap, true, false, arith, ◌⊎◌, Bool-cases, inl, inr}
use nebula_x_trader.Prelude.Int.{pos, ltb_ℤ, leb_ℤ, ◌<ℤ◌, ◌≤ℤ◌}
use nebula_x_trader.Types.{Signal, OrderSide, no_side, OrderType, limit}
use nebula_x_trader.ExecutionEngine.{is_dropped, is_no_side, is_limit}

-- a signal with nothing to trade: no side, a negative price, a limit order without a price, or no quantity
abbrev pub Undesired : Signal → OrderType → ℕ → Type 0
Undesired sig kind qty =
    (sig.side ≡ no_side)
    ⊎ ((sig.price <ℤ pos 0) ⊎ (((kind ≡ limit) × (sig.price ≤ℤ pos 0)) ⊎ (qty ≡ 0)))

no_side-eq : (s : OrderSide) → is_no_side s ≡ true → s ≡ no_side
no_side-eq no_side h = refl
no_side-eq s h = cc

limit-eq : (kind : OrderType) → is_limit kind ≡ true → kind ≡ limit
limit-eq limit h = refl
limit-eq kind h = cc

pub dropped-Undesired :
    (sig : Signal) (kind : OrderType) (qty : ℕ)
    → is_dropped sig kind qty ≡ true
    → Undesired sig kind qty
unfolding is_dropped
dropped-Undesired sig kind qty h = elim (Bool-cases (is_no_side sig.side)) [
  | inl idle ↦ inl (no_side-eq sig.side idle)
  | inr sided ↦ elim (Bool-cases (ltb_ℤ sig.price (pos 0))) [
    | inl below ↦ inr (inl (ground arith))
    | inr from ↦ elim (Bool-cases (is_limit kind)) [
      | inl limited ↦ elim (Bool-cases (leb_ℤ sig.price (pos 0))) [
        | inl unpriced ↦ inr (inr (inl (limit-eq kind limited, ground arith)))
        | inr priced ↦ inr (inr (inr (ground arith)))
      ]
      | inr other ↦ inr (inr (inr (ground arith)))
    ]
  ]
]

pub kept-Desired :
    (sig : Signal) (kind : OrderType) (qty : ℕ)
    → is_dropped sig kind qty ≡ false
    → ¬ (Undesired sig kind qty)
unfolding is_dropped
kept-Desired sig kind qty h (inl idle) =
    let idle' : is_no_side sig.side ≡ true = ap is_no_side idle in ground arith
kept-Desired sig kind qty h (inr (inl below)) = ground arith
kept-Desired sig kind qty h (inr (inr (inl (limited, unpriced)))) =
    let kind_limit : is_limit kind ≡ true = ap is_limit limited in ground arith
kept-Desired sig kind qty h (inr (inr (inr no_quantity))) = ground arith
