-- ===== src/Strategy/Volume.antt =====
-- `VolumeBreakoutStrategy` of strategy/tick/volume_breakout_strategy.h: the volume of the last trades
-- against a threshold.
pub mod Strength
use nebula_x_trader.Prelude.{
  ℕ, ◌+◌, ◌/◌, Bool, true, false, not, List, [], ◌∷◌, ◌++◌, ◌==◌, ltb, leb, if◌then◌else◌, length,
  drop,
}
use nebula_x_trader.Prelude.Int.{ℤ, pos, ltb_ℤ, leb_ℤ}
use nebula_x_trader.Prelude.Words.{add64, sub64, mul64, to_i64}
use nebula_x_trader.Types.{
  OrderSide, buy, sell, no_side, EventType, MarketEvent, Signal, strength_scale,
}
use nebula_x_trader.Strategy.Breakout.{is_trade}

-- The members; the volumes are the oldest first.
pub record VolumeBreakout : Type 0 where
  pub window : ℕ
  pub threshold : ℕ
  pub vols : List ℕ
  pub current : OrderSide
  pub locate : ℕ
  pub last_price : ℤ
  pub last_ts : ℕ
  pub strength : ℤ

-- the loop over the window, in 64 bits
pub sum_vols : ℕ → List ℕ → ℕ
sum_vols acc [] = acc
sum_vols acc (v ∷ vs) = sum_vols (add64 acc v) vs

-- by how much the volume exceeds the threshold, against the threshold
pub volume_strength : ℕ → ℕ → ℤ
volume_strength sum threshold =
    let s = to_i64 (mul64 (sub64 sum threshold) strength_scale / threshold) in
    if threshold == 0
    then pos strength_scale
    else if ltb_ℤ (pos strength_scale) s
    then pos strength_scale
    else s

abbrev pub remember : ℕ → ℕ → List ℕ → List ℕ
remember window v vols =
    let all = vols ++ (v ∷ []) in if ltb window (length all) then drop 1 all else all

pub on_event : MarketEvent → VolumeBreakout → VolumeBreakout
on_event ev f =
    if not (is_trade ev.kind)
    then f
    else (let vols = remember f.window ev.shares f.vols in
        let sum = sum_vols 0 vols in
        record f {
          locate = ev.locate;
          last_ts = ev.timestamp;
          last_price = if leb_ℤ (pos 0) ev.price then ev.price else f.last_price;
          vols = vols;
          current = if ltb f.threshold sum then buy else no_side;
          strength = if ltb f.threshold sum then volume_strength sum f.threshold else pos 0;
        })

pub signal : VolumeBreakout → Signal
signal f = record {
  side = f.current;
  locate = f.locate;
  price = f.last_price;
  timestamp = f.last_ts;
  strength = f.strength;
}
