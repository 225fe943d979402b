-- ===== src/RiskManager/Examples.antt =====
-- The risk manager at concrete positions: a symbol that is held, marked and unmarked.
use nebula_x_trader.Prelude.{
  ℕ, ◌+◌, ◌≤◌, ◌≡◌, refl, ap, true, false, [], ◌∷◌, ◌++◌, take, arith, ◌⊎◌,
}
use nebula_x_trader.Prelude.Int.{
  ℤ, pos, negsuc, ◌+ℤ◌, ◌-ℤ◌, ◌*ℤ◌, ◌≤ℤ◌, int_laws, pos_part, neg_part,
}
use nebula_x_trader.Prelude.Words.{IsInt64}
use nebula_x_trader.Types.{Order, OrderSide, buy, sell, limit}
use nebula_x_trader.RiskManager.{
  RiskManager, new_risk, unrealized, floating, equity, drawdown, drawdown_paused, drawdown_flatten,
  daily_loss_breached, check_order, position, mark,
}
use nebula_x_trader.Prelude.Sum.{update, sum_below-zero}
use nebula_x_trader.RiskManager.Limits.{on_fills, checked_fills_in_limit}
use nebula_x_trader.RiskManager.Equity.{equity-mark}
use nebula_x_trader.RiskManager.Drawdown.{Event, step, run, high_water_mark}

-- ten shares of symbol 3 at a cost of 5, no price seen yet; 50 lost from an equity of 100
abbrev pub held : RiskManager
held = record new_risk {
  qty = update (λ _. 0) 3 10;
  avg_cost = update (λ _. pos 0) 3 (pos 5);
  realized_pnl = negsuc 49;
  initial_equity = pos 100;
  equity_peak = pos 100;
  max_drawdown_pause = pos 60;
}

-- the same with a lower threshold: orders are paused
abbrev paused : RiskManager
paused = record held { max_drawdown_pause = pos 10 }

-- the same with a price
abbrev marked : RiskManager
marked = record held { mark_price = update (λ _. pos 0) 3 (pos 10) }

abbrev an_order : OrderSide → ℕ → Order
an_order side quantity = record {
  order_id = 1;
  strategy_id = 7;
  symbol_id = 3;
  side = side;
  kind = limit;
  price = pos 10;
  quantity = quantity;
  timestamp = 5;
}

unmarked_equity :
    (r : RiskManager)
    → ((l : ℕ) → r.mark_price l ≡ pos 0)
    → equity r ≡ r.initial_equity +ℤ r.realized_pnl +ℤ pos 0
unfolding equity floating
unmarked_equity r h =
    ap (λ s. r.initial_equity +ℤ r.realized_pnl +ℤ s)
      (sum_below-zero (unrealized r) 65536 (λ l. rw h (ground arith)))

held-equity : equity held ≡ pos 50
unfolding ◌+ℤ◌
held-equity = unmarked_equity held (λ l. refl)

paused-equity : equity paused ≡ pos 50
unfolding ◌+ℤ◌
paused-equity = unmarked_equity paused (λ l. refl)

held-drawdown_paused : drawdown_paused held ≡ false
unfolding drawdown_paused drawdown ◌-ℤ◌
held-drawdown_paused = rw held-equity refl

-- an account that lost more than its second threshold
abbrev pub broken : RiskManager
broken = record new_risk {
  equity_peak = pos 100;
  initial_equity = pos 40;
  max_drawdown_flatten = pos 20;
}

pub broken-drawdown_flatten : drawdown_flatten broken ≡ true
unfolding drawdown_flatten drawdown ◌-ℤ◌ ◌+ℤ◌
broken-drawdown_flatten = rw (unmarked_equity broken (λ l. refl)) refl

-- Orders are paused at first.
paused-drawdown_paused : drawdown_paused paused ≡ true
unfolding drawdown_paused drawdown ◌-ℤ◌
paused-drawdown_paused = rw paused-equity refl

pub sell-checked : check_order held (an_order sell 8) ≡ true
unfolding check_order daily_loss_breached
sell-checked = rw held-drawdown_paused refl

held-position : position held 3 ≡ 10
unfolding position
held-position = refl

checked_fills_in_limit_example :
    ((sell ≡ buy)
      × (position (on_fills held (an_order sell 8) (3 ∷ 5 ∷ [])) 3 ≡ position held 3 + 8)
      × (position (on_fills held (an_order sell 8) (3 ∷ 5 ∷ [])) 3 ≤ 100_000))
    ⊎ ((sell ≡ sell)
        × (position (on_fills held (an_order sell 8) (3 ∷ 5 ∷ [])) 3 + 8 ≡ position held 3))
checked_fills_in_limit_example =
    checked_fills_in_limit held (an_order sell 8) (3 ∷ 5 ∷ []) sell-checked
      (omega (arith, held-position)) (omega arith)

held-loss : daily_loss_breached held ≡ false
unfolding daily_loss_breached
held-loss = refl

marked-fits : IsInt64 (negsuc 49 +ℤ (pos 10 -ℤ pos 5) *ℤ pos 4)
unfolding ◌+ℤ◌ ◌-ℤ◌ ◌*ℤ◌
marked-fits = (omega arith, omega arith)

held-unseen : unrealized paused 3 ≡ pos 0
unfolding floating
held-unseen = refl

held-gained : floating 10 (pos 10) (pos 5) ≡ pos 50
unfolding floating ◌-ℤ◌ ◌*ℤ◌
held-gained = refl

paused-quote : equity (step paused (Event.quote 3 (pos 10))) ≡ pos 100
unfolding step
paused-quote =
    cancel (equity (mark paused 3 (pos 10))) (equity paused) (unrealized paused 3)
      (floating 10 (pos 10) (pos 5)) (equity-mark paused 3 (pos 10)) paused-equity held-unseen
      held-gained
  where
    cancel : (e' e u f : ℤ) → e' +ℤ u ≡ e +ℤ f → e ≡ pos 50 → u ≡ pos 0 → f ≡ pos 50 → e' ≡ pos 100
    cancel e' e u f h at unmarked gain = omega (
      int_laws,
      ap pos_part h,
      ap neg_part h,
      ap pos_part at,
      ap neg_part at,
      ap pos_part unmarked,
      ap neg_part unmarked,
      ap pos_part gain,
      ap neg_part gain,
    )

high_water_mark_example :
    let es = Event.quote 3 (pos 10) ∷ [] in
    let fs = Event.fill (an_order sell 4) 4 ∷ [] in
    let peak = (run paused (es ++ fs)).equity_peak in
    (equity (run paused es) ≤ℤ peak)
    × (pos 100 ≤ℤ peak)
    × ((peak ≡ pos 100) ⊎ ((n : ℕ) × (peak ≡ equity (run paused (take n (es ++ fs))))))
high_water_mark_example =
    high_water_mark (Event.quote 3 (pos 10) ∷ []) (Event.fill (an_order sell 4) 4 ∷ []) paused
      (rw paused-equity (omega arith))
