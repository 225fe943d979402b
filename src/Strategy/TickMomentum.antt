-- ===== src/Strategy/TickMomentum.antt =====
-- `TickMomentumStrategy` of strategy/tick/tick_momentum_strategy.h: the average price of the newer
-- half of the last trades against that of the older half.
use nebula_x_trader.Prelude.{
  ℕ, ◌/◌, not, ◌||◌, List, [], ◌∷◌, ◌++◌, ◌==◌, ltb, if◌then◌else◌, length, take, drop,
}
use nebula_x_trader.Prelude.Int.{ℤ, pos, ◌-ℤ◌, ◌*ℤ◌, ◌/ℤ◌, neg_ℤ, ltb_ℤ, leb_ℤ}
use nebula_x_trader.Prelude.Words.{add64, mul64, to_i64, to_u64}
use nebula_x_trader.Types.{OrderSide, buy, sell, no_side, MarketEvent, Signal, strength_scale}
use nebula_x_trader.Strategy.Breakout.{is_trade}

-- The members; `prices_` and `vols_` are one list of pairs, the oldest first.
pub record TickMomentum : Type 0 where
  pub window : ℕ
  pub threshold : ℤ
  pub trades : List (ℤ × ℕ)
  pub current : OrderSide
  pub locate : ℕ
  pub last_price : ℤ
  pub last_ts : ℕ
  pub strength : ℤ

-- The loop over one half. The product of a signed price and an unsigned volume is unsigned, so both
-- sums are words of 64 bits here.
pub sum_half : ℕ → ℕ → List (ℤ × ℕ) → ℕ × ℕ
sum_half sum_px sum_v [] = (sum_px, sum_v)
sum_half sum_px sum_v ((price, vol) ∷ rest) =
    sum_half (add64 sum_px (mul64 (to_u64 price) vol)) (add64 sum_v vol) rest

abbrev pub vwap : ℕ × ℕ → ℤ
vwap (sum_px, sum_v) = to_i64 sum_px /ℤ to_i64 sum_v

abbrev pub momentum_side : ℤ → ℤ → ℤ → OrderSide
momentum_side vwap1 vwap2 threshold =
    if ltb_ℤ threshold (vwap2 -ℤ vwap1)
    then buy
    else if ltb_ℤ threshold (vwap1 -ℤ vwap2)
    then sell
    else no_side

-- the difference against the threshold
abbrev pub scaled_strength : ℤ → ℤ → ℤ
scaled_strength diff threshold =
    let s = diff *ℤ pos strength_scale /ℤ threshold in
    if leb_ℤ threshold (pos 0)
    then pos strength_scale
    else if ltb_ℤ (pos strength_scale) s
    then pos strength_scale
    else s

pub momentum_strength : OrderSide → ℤ → ℤ → ℤ
momentum_strength buy diff threshold = scaled_strength diff threshold
momentum_strength sell diff threshold = scaled_strength (neg_ℤ diff) threshold
momentum_strength no_side diff threshold = pos 0

-- the decision on the two halves
pub compare_halves : ℕ × ℕ → ℕ × ℕ → TickMomentum → TickMomentum
compare_halves older newer f =
    let vwap1 = vwap older in
    let vwap2 = vwap newer in
    let side = momentum_side vwap1 vwap2 f.threshold in
    if older.1 == 0 || newer.1 == 0
    then record f { current = no_side }
    else record f { current = side; strength = momentum_strength side (vwap2 -ℤ vwap1) f.threshold }

pub decide : TickMomentum → TickMomentum
decide f =
    let half = length f.trades / 2 in
    if ltb (length f.trades) 2
    then record f { current = no_side }
    else compare_halves (sum_half 0 0 (take half f.trades)) (sum_half 0 0 (drop half f.trades)) f

abbrev pub remember : ℕ → ℤ × ℕ → List (ℤ × ℕ) → List (ℤ × ℕ)
remember window trade trades =
    let all = trades ++ (trade ∷ []) in if ltb window (length all) then drop 1 all else all

pub on_event : MarketEvent → TickMomentum → TickMomentum
on_event ev f =
    if not (is_trade ev.kind) || ltb_ℤ ev.price (pos 0)
    then f
    else decide (record f {
      locate = ev.locate;
      last_ts = ev.timestamp;
      last_price = ev.price;
      trades = remember f.window (ev.price, ev.shares) f.trades;
    })

pub signal : TickMomentum → Signal
signal f = record {
  side = f.current;
  locate = f.locate;
  price = f.last_price;
  timestamp = f.last_ts;
  strength = f.strength;
}
