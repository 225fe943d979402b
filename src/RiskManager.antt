-- ===== src/RiskManager.antt =====
-- The risk manager of risk/risk_manager.h: pre-trade checks, positions, and the drawdown of the
-- marked-to-market equity. The arrays indexed by locate are functions, read and written below
-- `max_locate` only.
pub mod Limits
pub mod Equity
pub mod AtMark
pub mod Drawdown
pub mod Examples
use nebula_x_trader.Prelude.{
  ℕ, zero, suc, ◌+◌, Bool, true, false, ◌&&◌, ◌==◌, ltb, leb, if◌then◌else◌,
}
use nebula_x_trader.Prelude.Int.{ℤ, pos, ◌+ℤ◌, ◌-ℤ◌, ◌*ℤ◌, ◌/ℤ◌, neg_ℤ, ltb_ℤ, leb_ℤ}
use nebula_x_trader.Prelude.Words.{add64, sub64, to_i64, to_u64}
use nebula_x_trader.Types.{Order, OrderSide, buy, sell, no_side}
use nebula_x_trader.Prelude.Sum.{sum_below, update}

-- `kMaxLocate`
abbrev pub max_locate : ℕ
max_locate = 65536

pub record RiskManager : Type 0 where
  pub qty : ℕ → ℕ
  pub avg_cost : ℕ → ℤ
  pub mark_price : ℕ → ℤ
  pub realized_pnl : ℤ
  pub equity_peak : ℤ
  pub max_position : ℕ
  pub max_daily_loss : ℤ
  pub initial_equity : ℤ
  pub max_drawdown_pause : ℤ
  pub max_drawdown_flatten : ℤ

-- the constructor, with the default limits
abbrev pub new_risk : RiskManager
new_risk = record {
  qty = λ _. 0;
  avg_cost = λ _. pos 0;
  mark_price = λ _. pos 0;
  realized_pnl = pos 0;
  equity_peak = pos 0;
  max_position = 100_000;
  max_daily_loss = pos 100_000_000;
  initial_equity = pos 0;
  max_drawdown_pause = pos 0;
  max_drawdown_flatten = pos 0;
}

-- A locate out of range is read as 0.
abbrev pub locate_idx : ℕ → ℕ
locate_idx symbol_id = if ltb symbol_id max_locate then symbol_id else 0

-- `fetch_add` on `atomic<int64_t>` wraps.
abbrev pub fetch_add : ℤ → ℤ → ℤ
fetch_add a b = to_i64 (to_u64 (a +ℤ b))

-- the floating result of one locate: the loop body of `equity`
pub floating : ℕ → ℤ → ℤ → ℤ
floating held mark avg =
    let q = to_i64 held in
    if ltb_ℤ (pos 0) q && ltb_ℤ (pos 0) mark then q *ℤ (mark -ℤ avg) else pos 0

abbrev pub unrealized : RiskManager → ℕ → ℤ
unrealized r l = floating (r.qty l) (r.mark_price l) (r.avg_cost l)

pub equity : RiskManager → ℤ
equity r = r.initial_equity +ℤ r.realized_pnl +ℤ sum_below (unrealized r) max_locate

pub drawdown : RiskManager → ℤ
drawdown r = r.equity_peak -ℤ equity r

pub drawdown_paused : RiskManager → Bool
drawdown_paused r = ltb_ℤ r.max_drawdown_pause (drawdown r)

pub drawdown_flatten : RiskManager → Bool
drawdown_flatten r = ltb_ℤ r.max_drawdown_flatten (drawdown r)

pub daily_loss_breached : RiskManager → Bool
daily_loss_breached r = leb_ℤ r.realized_pnl (neg_ℤ r.max_daily_loss)

-- the last tests of `check_order`, on the position held
abbrev pub check_side : OrderSide → ℕ → ℕ → ℕ → Bool
check_side buy cur quantity limit = leb (add64 cur quantity) limit
check_side sell cur quantity limit = leb quantity cur
check_side no_side cur quantity limit = false

unfoldable pub check_order : RiskManager → Order → Bool
check_order r o =
    if o.quantity == 0
    then false
    else if daily_loss_breached r
    then false
    else if drawdown_paused r
    then false
    else check_side o.side (r.qty (locate_idx o.symbol_id)) o.quantity r.max_position

-- `equity_peak` is the highest equity seen.
pub update_equity : RiskManager → RiskManager
update_equity r = if ltb_ℤ r.equity_peak (equity r) then record r { equity_peak = equity r } else r

-- the position of a locate after a buy, and its average cost, rounded towards zero
pub buy_fill : RiskManager → ℕ → ℤ → ℕ → RiskManager
buy_fill r loc price filled_qty =
    let old_avg = r.avg_cost loc in
    let old_qty = r.qty loc in
    let total = old_avg *ℤ to_i64 old_qty +ℤ price *ℤ to_i64 filled_qty in
    let new_qty = add64 old_qty filled_qty in
    record r {
      qty = update r.qty loc new_qty;
      avg_cost = update r.avg_cost loc (if new_qty == 0 then pos 0 else total /ℤ to_i64 new_qty);
    }

-- A sale realizes the difference to the average cost on what is held, at most.
pub sell_fill : RiskManager → ℕ → ℤ → ℕ → RiskManager
sell_fill r loc price filled_qty =
    let old_qty = r.qty loc in
    let sold = if ltb filled_qty old_qty then filled_qty else old_qty in
    let new_qty = sub64 old_qty sold in
    record r {
      realized_pnl = fetch_add r.realized_pnl ((price -ℤ r.avg_cost loc) *ℤ to_i64 sold);
      qty = update r.qty loc new_qty;
      avg_cost = if new_qty == 0 then update r.avg_cost loc (pos 0) else r.avg_cost;
    }

-- `on_fill` before its last statement
pub book_fill : RiskManager → Order → ℕ → RiskManager
book_fill r o filled_qty = elim o.side [
  | buy ↦ buy_fill r (locate_idx o.symbol_id) o.price filled_qty
  | sell ↦ sell_fill r (locate_idx o.symbol_id) o.price filled_qty
  | no_side ↦ r
]

pub on_fill : RiskManager → Order → ℕ → RiskManager
on_fill r o filled_qty = update_equity (book_fill r o filled_qty)

-- the overload for an order that is filled whole
abbrev pub on_whole_fill : RiskManager → Order → RiskManager
on_whole_fill r o = on_fill r o o.quantity

pub mark : RiskManager → ℕ → ℤ → RiskManager
mark r symbol_id price =
    update_equity (record r { mark_price = update r.mark_price (locate_idx symbol_id) price })

pub position : RiskManager → ℕ → ℕ
position r symbol_id = r.qty (locate_idx symbol_id)

pub set_initial_equity : RiskManager → ℤ → RiskManager
set_initial_equity r eq = record r { initial_equity = eq; equity_peak = eq }

pub set_max_position : RiskManager → ℕ → RiskManager
set_max_position r max_pos = record r { max_position = max_pos }

pub set_max_daily_loss : RiskManager → ℤ → RiskManager
set_max_daily_loss r max_loss = record r { max_daily_loss = max_loss }

pub set_max_drawdown_pause : RiskManager → ℤ → RiskManager
set_max_drawdown_pause r dd = record r { max_drawdown_pause = dd }

pub set_max_drawdown_flatten : RiskManager → ℤ → RiskManager
set_max_drawdown_flatten r dd = record r { max_drawdown_flatten = dd }
