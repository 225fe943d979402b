-- ===== src/RiskManager/Limits.antt =====
-- What `check_order` guarantees of the position once the order is executed, in one report or many.
use nebula_x_trader.Prelude.{
  ℕ, ◌+◌, ◌≤◌, ◌<◌, ◌≡◌, refl, true, false, List, [], ◌∷◌, arith, ◌==◌, ltb, if◌then◌else◌, ◌⊎◌,
  inl, inr,
}
use nebula_x_trader.Prelude.Words.{u64_mod, add64, sub64}
use nebula_x_trader.Types.{Order, OrderSide, buy, sell, no_side}
use nebula_x_trader.RiskManager.{
  RiskManager, buy_fill, sell_fill, locate_idx, check_order, drawdown_paused, book_fill,
  update_equity, on_fill, position, daily_loss_breached,
}

-- the position after a report of `f` shares, at a position of `cur`
abbrev pub moved : OrderSide → ℕ → ℕ → ℕ
moved buy cur f = add64 cur f
moved sell cur f = sub64 cur (if ltb f cur then f else cur)
moved no_side cur f = cur

pub qty-on_fill :
    (r : RiskManager) (o : Order) (f j : ℕ)
    → (on_fill r o f).qty j ≡ (
        if locate_idx o.symbol_id == j
        then moved o.side (r.qty (locate_idx o.symbol_id)) f
        else r.qty j)
unfolding on_fill update_equity book_fill buy_fill sell_fill
qty-on_fill r o f j = ground arith

pub max_position-on_fill :
    (r : RiskManager) (o : Order) (f : ℕ) → (on_fill r o f).max_position ≡ r.max_position
unfolding on_fill update_equity book_fill buy_fill sell_fill
max_position-on_fill r o f = ground arith

-- An execution report in parts.
pub on_fills : RiskManager → Order → List ℕ → RiskManager
on_fills r o [] = r
on_fills r o (f ∷ fs) = on_fills (on_fill r o f) o fs

abbrev pub sum : List ℕ → ℕ
sum [] = 0
sum (f ∷ fs) = f + sum fs

pub position_lem : (r : RiskManager) (s : ℕ) → position r s ≡ r.qty (locate_idx s)
unfolding position
position_lem r s = refl

pub position-on_fill :
    (r : RiskManager) (o : Order) (f : ℕ)
    → position (on_fill r o f) o.symbol_id ≡ moved o.side (position r o.symbol_id) f
unfolding position
position-on_fill r o f = ground (arith, qty-on_fill r o f (locate_idx o.symbol_id))

bought :
    (fs : List ℕ) (r : RiskManager) (o : Order)
    → o.side ≡ buy
    → position r o.symbol_id + sum fs < u64_mod
    → position (on_fills r o fs) o.symbol_id ≡ position r o.symbol_id + sum fs
unfolding on_fills
bought [] r o side room = omega arith
bought (f ∷ fs) r o side room =
    let step : position (on_fill r o f) o.symbol_id ≡ position r o.symbol_id + f =
      ground (arith, position-on_fill r o f) in
    omega (arith, step, bought fs (on_fill r o f) o side (omega (arith, step)))

sold :
    (fs : List ℕ) (r : RiskManager) (o : Order)
    → o.side ≡ sell
    → position r o.symbol_id < u64_mod
    → sum fs ≤ position r o.symbol_id
    → position (on_fills r o fs) o.symbol_id + sum fs ≡ position r o.symbol_id
unfolding on_fills
sold [] r o side word room = omega arith
sold (f ∷ fs) r o side word room =
    let step : position (on_fill r o f) o.symbol_id + f ≡ position r o.symbol_id =
      ground (arith, position-on_fill r o f) in
    omega (arith, step, sold fs (on_fill r o f) o side (omega (arith, step)) (omega (arith, step)))

-- what an order that passes the check meets
pub passed_side :
    (r : RiskManager) (o : Order)
    → check_order r o ≡ true
    → ((o.side ≡ buy) × (add64 (position r o.symbol_id) o.quantity ≤ r.max_position))
      ⊎ ((o.side ≡ sell) × (o.quantity ≤ position r o.symbol_id))
unfolding check_order position
passed_side r o h = ground arith

-- An order that passes the check, executed in any number of parts of no more shares in all than
-- it asked for, leaves the position of its symbol within the limit if it bought, and takes exactly
-- the shares out of the position, never below zero, if it sold; no other order passes. The sum of
-- position and order must not leave the 64 bits.
pub checked_fills_in_limit :
    (r : RiskManager) (o : Order) (fs : List ℕ)
    → check_order r o ≡ true
    → position r o.symbol_id + o.quantity < u64_mod
    → sum fs ≤ o.quantity
    → let held = position r o.symbol_id in
      let held' = position (on_fills r o fs) o.symbol_id in
      ((o.side ≡ buy) × (held' ≡ held + sum fs) × (held' ≤ r.max_position))
      ⊎ ((o.side ≡ sell) × (held' + sum fs ≡ held))
checked_fills_in_limit r o fs passed room most = elim (passed_side r o passed) [
  | inl (side, within) ↦
      let filled = bought fs r o side (omega arith) in inl (side, filled, omega arith)
  | inr (side, covered) ↦ inr (side, sold fs r o side (omega arith) (omega arith))
]

-- Where position and quantity together leave the 64 bits, the sum that the check compares wraps:
-- a buy of 2^64 less the position passes, whatever the limit, if neither the daily loss nor the
-- drawdown blocks orders.
wrapped_buy_passes :
    (r : RiskManager) (o : Order)
    → o.side ≡ buy
    → position r o.symbol_id + o.quantity ≡ u64_mod
    → 0 < o.quantity
    → daily_loss_breached r ≡ false
    → drawdown_paused r ≡ false
    → check_order r o ≡ true
unfolding position check_order
wrapped_buy_passes r o side wraps some_qty loss paused = ground arith
