-- ===== src/Strategy/Imbalance.antt =====
-- `OrderBookImbalanceStrategy` of strategy/tick/order_book_imbalance_strategy.h: the volumes at the
-- two best prices against each other. The threshold is the one in ten-thousandths that the code
-- computes from its `double`, on each call, before it uses it.
use nebula_x_trader.Prelude.{ℕ, ◌==◌, if◌then◌else◌}
use nebula_x_trader.Prelude.Int.{ℤ, pos, ◌+ℤ◌, ◌*ℤ◌, ◌/ℤ◌, neg_ℤ, ltb_ℤ, leb_ℤ}
use nebula_x_trader.Prelude.Words.{add64, sub64, to_i64}
use nebula_x_trader.Types.{OrderSide, buy, sell, no_side, Signal, strength_scale}

pub record BookImbalance : Type 0 where
  pub threshold : ℤ
  pub current : OrderSide
  pub locate : ℕ
  pub bid_price : ℤ
  pub ask_price : ℤ
  pub timestamp : ℕ
  pub strength : ℤ

-- the imbalance in ten-thousandths
pub imbalance : ℕ → ℕ → ℤ
imbalance bid_vol ask_vol =
    to_i64 (sub64 bid_vol ask_vol) *ℤ pos strength_scale /ℤ to_i64 (add64 bid_vol ask_vol)

abbrev pub imbalance_side : ℤ → ℤ → OrderSide
imbalance_side obi th = if ltb_ℤ th obi then buy else if ltb_ℤ obi (neg_ℤ th) then sell else no_side

pub imbalance_strength : ℤ → ℤ → ℤ
imbalance_strength obi th =
    let mag = if ltb_ℤ (pos 0) obi then obi else neg_ℤ obi in
    if leb_ℤ th mag then pos strength_scale else mag *ℤ pos strength_scale /ℤ (th +ℤ pos 1)

pub on_book : ℕ → ℤ → ℕ → ℤ → ℕ → ℕ → BookImbalance → BookImbalance
on_book locate bid_price bid_vol ask_price ask_vol timestamp f =
    let seen = record f {
      locate = locate;
      bid_price = bid_price;
      ask_price = ask_price;
      timestamp = timestamp;
    } in
    let obi = imbalance bid_vol ask_vol in
    if add64 bid_vol ask_vol == 0
    then record seen { current = no_side; strength = pos 0 }
    else record seen {
      current = imbalance_side obi f.threshold;
      strength = imbalance_strength obi f.threshold;
    }

pub signal : BookImbalance → Signal
signal f = record {
  side = f.current;
  locate = f.locate;
  price = elim f.current [ buy ↦ f.bid_price | _ ↦ f.ask_price ];
  timestamp = f.timestamp;
  strength = f.strength;
}
