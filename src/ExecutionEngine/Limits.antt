-- ===== src/ExecutionEngine/Limits.antt =====
-- Positions under simulated execution: without a sender, every order is filled at once.
use nebula_x_trader.Prelude.{
  ℕ, ◌+◌, ◌%◌, ◌^◌, ◌≤◌, ◌<◌, ◌≡◌, sym, true, false, none, List, [], ◌∷◌, ◌==◌, if◌then◌else◌,
  arith, Bool-cases, inl, inr, ◌⊎◌,
}
use mathlib.Core.Path.{subst}
use nebula_x_trader.Types.{Order, OrderType, Signal, buy, sell}
use nebula_x_trader.OrderCodec.{OrderCodec}
use nebula_x_trader.OrderManager.{new_order}
use nebula_x_trader.OrderManager.Table.{order-new_order}
use nebula_x_trader.RiskManager
use nebula_x_trader.RiskManager.{RiskManager, position, locate_idx}
use nebula_x_trader.RiskManager.Limits.{
  moved, qty-on_fill, max_position-on_fill, passed_side, position_lem,
}
use nebula_x_trader.ExecutionEngine.{
  Engine, fill_order, route, place, signal_order, order_quantity, is_dropped, submit_signal,
}
use nebula_x_trader.ExecutionEngine.Submit.{order_quantity-lt}

-- A signal, with the strategy and the order type that it is submitted with.
abbrev pub Submission : Type 0
Submission = Signal × ℕ × OrderType

abbrev pub InLimit : RiskManager → Type 0
InLimit r = (r.max_position < 2 ^ 63) × ((l : ℕ) → r.qty l ≤ r.max_position)

fill-InLimit :
    (r : RiskManager) (o : Order)
    → o.quantity < 2 ^ 51
    → RiskManager.check_order r o ≡ true
    → InLimit r
    → InLimit (RiskManager.on_fill r o o.quantity)
fill-InLimit r o small passed h = (
  rw max_position-on_fill h.0,
  λ l. rw (max_position-on_fill, qty-on_fill) (filled_in_limit (passed_side r o passed) l),
)
  where
    filled_in_limit :
        ((o.side ≡ buy) × ((position r o.symbol_id + o.quantity) % 2 ^ 64 ≤ r.max_position))
          ⊎ ((o.side ≡ sell) × (o.quantity ≤ position r o.symbol_id))
        → (l : ℕ)
        → (if locate_idx o.symbol_id == l
            then moved o.side (r.qty (locate_idx o.symbol_id)) o.quantity
            else r.qty l)
          ≤ r.max_position
    filled_in_limit (inl (side, within)) l =
        rw side (ground (arith, h.1 l, position_lem r o.symbol_id))
    filled_in_limit (inr (side, covered)) l =
        rw side (ground (arith, h.1 l, h.1 (locate_idx o.symbol_id), position_lem r o.symbol_id))

module _ {K : Type 0} (proto : OrderCodec K) where
  route-risk_passed :
      (e : Engine K) (o : Order)
      → e.link ≡ none
      → RiskManager.check_order e.risk o ≡ true
      → (route proto e o).risk ≡ RiskManager.on_fill e.risk o o.quantity
  unfolding route fill_order
  route-risk_passed e o unlinked passed = ground arith

  route-risk_blocked :
      (e : Engine K) (o : Order)
      → RiskManager.check_order e.risk o ≡ false
      → (route proto e o).risk ≡ e.risk
  unfolding route
  route-risk_blocked e o blocked = ground arith

  route-link : (e : Engine K) (o : Order) → e.link ≡ none → (route proto e o).link ≡ none
  unfolding route fill_order
  route-link e o unlinked = ground arith

  route-InLimit :
      (e : Engine K) (o : Order)
      → o.quantity < 2 ^ 51
      → e.link ≡ none
      → InLimit e.risk
      → InLimit (route proto e o).risk
  route-InLimit e o small unlinked h = elim (Bool-cases (RiskManager.check_order e.risk o)) [
    | inl passed ↦
        subst InLimit (sym (route-risk_passed e o unlinked passed))
          (fill-InLimit e.risk o small passed h)
    | inr blocked ↦ subst InLimit (sym (route-risk_blocked e o blocked)) h
  ]

  place-Simulated :
      (e : Engine K) (order : Order)
      → order.quantity < 2 ^ 51
      → e.link ≡ none
      → InLimit e.risk
      → ((place proto e order).0.link ≡ none) × InLimit (place proto e order).0.risk
  unfolding place
  place-Simulated e order small unlinked h =
      let o = (new_order e.manager order).1 in
      let e' = record e { manager = (new_order e.manager order).0 } in
      (
        route-link e' o unlinked,
        route-InLimit e' o
            (subst (λ (x : Order). x.quantity < 2 ^ 51) (sym (order-new_order e.manager order))
              small)
            unlinked h,
      )

  submit-Simulated :
      (e : Engine K) (s : Submission)
      → e.link ≡ none
      → InLimit e.risk
      → let e' = (submit_signal proto e s.0 s.1 s.2).0 in (e'.link ≡ none) × InLimit e'.risk
  unfolding submit_signal signal_order
  submit-Simulated e (sig, strategy_id, kind) unlinked h =
      let qty = order_quantity e.base_qty sig.strength in
      elim (Bool-cases (is_dropped sig kind qty)) [
        | inl dropped ↦ rw (dropped, submit_signal) (unlinked, h)
        | inr taken ↦
            rw (taken, submit_signal)
              (place-Simulated e (signal_order sig strategy_id kind qty)
                (order_quantity-lt e.base_qty sig.strength) unlinked h)
      ]

  pub submit_all : Engine K → List Submission → Engine K
  submit_all e [] = e
  submit_all e ((sig, strategy_id, kind) ∷ rest) =
      submit_all (submit_signal proto e sig strategy_id kind).0 rest

  -- Without a sender, no sequence of signals takes a position over the limit: if all positions are
  -- within it at first, all are within it after the last. The limit is below 2^63; the order sizes
  -- that a signal gives can then not wrap the sum that the check compares.
  pub simulated_positions-InLimit :
      (signals : List Submission) (e : Engine K)
      → e.link ≡ none
      → InLimit e.risk
      → InLimit (submit_all e signals).risk
  unfolding submit_all
  simulated_positions-InLimit [] e unlinked h = h
  simulated_positions-InLimit ((sig, strategy_id, kind) ∷ rest) e unlinked h =
      let kept = submit-Simulated e (sig, strategy_id, kind) unlinked h in
      simulated_positions-InLimit rest (submit_signal proto e sig strategy_id kind).0 kept.0 kept.1
