-- ===== src/Strategy/Breakout.antt =====
-- `PriceBreakoutStrategy` of strategy/tick/price_breakout_strategy.h: a trade beyond the prices of the
-- last trades.
pub mod Extremes
use nebula_x_trader.Prelude.{
  ℕ, Bool, true, false, not, ◌||◌, List, [], ◌∷◌, ◌++◌, ltb, leb, if◌then◌else◌, length, drop,
}
use nebula_x_trader.Prelude.Int.{ℤ, pos, ◌-ℤ◌, ◌*ℤ◌, ◌/ℤ◌, ltb_ℤ, leb_ℤ}
use nebula_x_trader.Types.{
  OrderSide, buy, sell, no_side, EventType, MarketEvent, Signal, strength_scale,
}

-- The members; the prices are the oldest first.
pub record PriceBreakout : Type 0 where
  pub window : ℕ
  pub prices : List ℤ
  pub current : OrderSide
  pub locate : ℕ
  pub last_price : ℤ
  pub last_ts : ℕ
  pub strength : ℤ

abbrev pub new_breakout : ℕ → PriceBreakout
new_breakout window = record {
  window = window;
  prices = [];
  current = no_side;
  locate = 0;
  last_price = pos 0;
  last_ts = 0;
  strength = pos 0;
}

-- the events that carry a trade
abbrev pub is_trade : EventType → Bool
is_trade EventType.trade = true
is_trade EventType.execute = true
is_trade _ = false

-- `max_element` and `min_element` of a list that is not empty
pub highest : ℤ → List ℤ → ℤ
highest p [] = p
highest p (q ∷ qs) = highest (if ltb_ℤ p q then q else p) qs

pub lowest : ℤ → List ℤ → ℤ
lowest p [] = p
lowest p (q ∷ qs) = lowest (if ltb_ℤ q p then q else p) qs

abbrev pub break_side : ℤ → ℤ → ℤ → OrderSide
break_side price hi lo = if ltb_ℤ hi price then buy else if ltb_ℤ price lo then sell else no_side

-- how far past the extreme, against the range of the window
abbrev pub break_strength : ℤ → ℤ → ℤ
break_strength past range =
    let s = past *ℤ pos strength_scale /ℤ range in
    if leb_ℤ range (pos 0)
    then pos strength_scale
    else if ltb_ℤ (pos strength_scale) s
    then pos strength_scale
    else s

pub strength_of : OrderSide → ℤ → ℤ → ℤ → ℤ
strength_of buy price hi lo = break_strength (price -ℤ hi) (hi -ℤ lo)
strength_of sell price hi lo = break_strength (lo -ℤ price) (hi -ℤ lo)
strength_of no_side price hi lo = pos 0

-- The decision on a full window; without any price, C++ leaves the extremes undefined.
pub judge : ℤ → List ℤ → PriceBreakout → PriceBreakout
judge price [] f = f
judge price (p ∷ ps) f =
    let hi = highest p ps in
    let lo = lowest p ps in
    let side = break_side price hi lo in
    record f { current = side; strength = strength_of side price hi lo }

-- `push_back`, and `pop_front` beyond the window
abbrev pub remember : ℕ → ℤ → List ℤ → List ℤ
remember window price prices =
    let all = prices ++ (price ∷ []) in if ltb window (length all) then drop 1 all else all

pub on_event : MarketEvent → PriceBreakout → PriceBreakout
on_event ev f =
    if not (is_trade ev.kind) || ltb_ℤ ev.price (pos 0)
    then f
    else (let seen = record f {
      locate = ev.locate;
      last_ts = ev.timestamp;
      last_price = ev.price;
    } in
        let judged =
          if leb f.window (length f.prices) then judge ev.price f.prices seen else seen in
        record judged { prices = remember f.window ev.price f.prices })

pub signal : PriceBreakout → Signal
signal f = record {
  side = f.current;
  locate = f.locate;
  price = f.last_price;
  timestamp = f.last_ts;
  strength = f.strength;
}
