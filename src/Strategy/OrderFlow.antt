-- ===== src/Strategy/OrderFlow.antt =====
-- `OrderFlowImbalanceStrategy` of strategy/tick/order_flow_imbalance_strategy.h: the net flow of the
-- last 1024 orders.
pub mod Window
use nebula_x_trader.Prelude.{
  ℕ, ◌+◌, ◌%◌, Bool, true, false, ◌&&◌, Option, none, some, ◌==◌, ltb, if◌then◌else◌,
}
use nebula_x_trader.Prelude.Int.{ℤ, pos, ◌+ℤ◌, ◌-ℤ◌, ◌*ℤ◌, ◌/ℤ◌, neg_ℤ, ltb_ℤ, leb_ℤ}
use nebula_x_trader.Prelude.Words.{add64, to_i64}
use nebula_x_trader.Prelude.Sum.{update}
use nebula_x_trader.Types.{
  OrderSide, buy, sell, no_side, EventType, MarketEvent, Signal, strength_scale,
}

-- `kWindow`
abbrev pub window_size : ℕ
window_size = 1024

-- The members; the array is a function, read and written below `window_size` only.
pub record OrderFlow : Type 0 where
  pub threshold : ℤ
  pub ofi : ℤ
  pub win : ℕ → ℤ
  pub widx : ℕ
  pub current : OrderSide
  pub locate : ℕ
  pub last_price : ℤ
  pub last_ts : ℕ
  pub strength : ℤ

abbrev pub new_order_flow : ℤ → OrderFlow
new_order_flow threshold = record {
  threshold = threshold;
  ofi = pos 0;
  win = λ i. pos 0;
  widx = 0;
  current = no_side;
  locate = 0;
  last_price = pos 0;
  last_ts = 0;
  strength = pos 0;
}

-- what an event adds to the flow: an addition or a replacement counts for its side, what leaves the
-- book against it
pub delta_of : EventType → OrderSide → ℤ → ℤ
delta_of EventType.add buy n = n
delta_of EventType.add _ n = neg_ℤ n
delta_of EventType.replace buy n = n
delta_of EventType.replace _ n = neg_ℤ n
delta_of EventType.delete buy n = neg_ℤ n
delta_of EventType.delete _ n = n
delta_of EventType.cancel buy n = neg_ℤ n
delta_of EventType.cancel _ n = n
delta_of EventType.execute buy n = neg_ℤ n
delta_of EventType.execute _ n = n
delta_of EventType.trade buy n = neg_ℤ n
delta_of EventType.trade _ n = n

-- the sliding window: the cell is overwritten, and from the second round on its old value goes
pub slide : ℤ → OrderFlow → OrderFlow
slide delta f =
    let i = f.widx % window_size in
    let kept = if ltb f.widx window_size then f.ofi else f.ofi -ℤ f.win i in
    record f { win = update f.win i delta; ofi = kept +ℤ delta; widx = add64 f.widx 1 }

abbrev pub side_for : ℤ → ℤ → OrderSide
side_for ofi threshold =
    if ltb_ℤ threshold ofi then buy else if ltb_ℤ ofi (neg_ℤ threshold) then sell else no_side

-- how far the flow is past the threshold, up to twice the threshold; `kSaturate` is 2
pub strength_for : ℤ → ℤ → ℤ
strength_for ofi threshold =
    let mag = if ltb_ℤ (pos 0) ofi then ofi else neg_ℤ ofi in
    let over = mag -ℤ threshold in
    let span = threshold *ℤ (pos 2 -ℤ pos 1) in
    if leb_ℤ span over then pos strength_scale else over *ℤ pos strength_scale /ℤ span

abbrev is_none : OrderSide → Bool
is_none no_side = true
is_none _ = false

pub decide : OrderFlow → OrderFlow
decide f =
    let side = side_for f.ofi f.threshold in
    record f {
      current = side;
      strength = if is_none side then pos 0 else strength_for f.ofi f.threshold;
    }

-- All six types of events are handled, so the `default` of the switch is never taken.
pub on_event : MarketEvent → OrderSide → OrderFlow → OrderFlow
on_event ev side f = decide (
    slide (delta_of ev.kind side (to_i64 ev.shares))
      (record f { locate = ev.locate; last_ts = ev.timestamp }))

abbrev pub set_last_price : ℤ → OrderFlow → OrderFlow
set_last_price p f = record f { last_price = p }

-- the part of `BookContext` that is read: the side of the order and the prices of the book
pub record BookContext : Type 0 where
  pub side : OrderSide
  pub mid : ℤ
  pub bid : ℤ
  pub ask : ℤ

pub on_market : MarketEvent → BookContext → OrderFlow → OrderFlow
on_market ev ctx f =
    let f' = if is_none ctx.side then f else on_event ev ctx.side f in
    if leb_ℤ (pos 0) ctx.bid && leb_ℤ (pos 0) ctx.ask then set_last_price ctx.mid f' else f'

pub signal : OrderFlow → Signal
signal f = record {
  side = f.current;
  locate = f.locate;
  price = f.last_price;
  timestamp = f.last_ts;
  strength = f.strength;
}

pub reset : OrderFlow → OrderFlow
reset f = record f { ofi = pos 0; current = no_side; strength = pos 0; win = λ i. pos 0; widx = 0 }
