-- ===== src/Types.antt =====
-- The plain data of core/types.h, oms/order.h and strategy/base/signal.h.
use nebula_x_trader.Prelude.{ℕ}
use nebula_x_trader.Prelude.Int.{ℤ}

-- `enum class OrderSide`; NONE is spelled `no_side`.
pub data OrderSide : Type 0 where
  buy sell no_side : OrderSide

pub data OrderType : Type 0 where
  market limit iceberg : OrderType

-- `struct Order`
pub record Order : Type 0 where
  pub order_id : ℕ
  pub strategy_id : ℕ
  pub symbol_id : ℕ
  pub side : OrderSide
  pub kind : OrderType
  pub price : ℤ
  pub quantity : ℕ
  pub timestamp : ℕ

-- `enum class OrderStatus`
pub data OrderStatus : Type 0 where
  pending submitted partial_fill pending_cancel filled cancelled rejected not_found : OrderStatus

-- `struct Signal`
pub record Signal : Type 0 where
  pub side : OrderSide
  pub locate : ℕ
  pub price : ℤ
  pub timestamp : ℕ
  pub strength : ℤ

-- `kStrengthScale`
abbrev pub strength_scale : ℕ
strength_scale = 10_000

-- `struct Fill` of oms/i_order_codec.h; `kind` is its `type`.
pub record Fill : Type 0 where
  pub kind : ℕ
  pub order_id : ℕ
  pub exchange_ref : ℕ
  pub filled_qty : ℕ
  pub fill_price : ℤ

-- `struct BookQuote` of oms/i_order_codec.h.
pub record BookQuote : Type 0 where
  pub symbol_id : ℕ
  pub bid : ℤ
  pub bid_vol : ℕ
  pub ask : ℤ
  pub ask_vol : ℕ

-- `MarketEvent::Type` of core/market_event.h
pub data EventType : Type 0 where
  add delete cancel replace trade execute : EventType

-- `struct MarketEvent`. The two structures of its union begin with the same four fields, which stand
-- here once: `shares` is also the `volume` of a trade.
pub record MarketEvent : Type 0 where
  pub kind : EventType
  pub seq_id : ℕ
  pub locate : ℕ
  pub timestamp : ℕ
  pub side : OrderSide
  pub price : ℤ
  pub shares : ℕ
  pub order_ref : ℕ
  pub new_order_ref : ℕ

-- `struct OrderSlot` of core/types.h
pub record OrderSlot : Type 0 where
  pub order_ref : ℕ
  pub side : OrderSide
  pub price : ℤ
  pub shares : ℕ
  pub remaining : ℕ
  pub sequence : ℕ
  pub prev_idx : ℕ
  pub next_idx : ℕ
  pub pool_next_free : ℕ

-- `struct Tick` of core/types.h
pub record Tick : Type 0 where
  pub timestamp : ℕ
  pub seq_id : ℕ
  pub symbol_id : ℕ
  pub last_price : ℤ
  pub volume : ℕ
  pub bid_price : ℤ
  pub ask_price : ℤ
  pub bid_volume : ℕ
  pub ask_volume : ℕ
