-- ===== src/OrderCodec/Custom/Examples.antt =====
-- An order and a fill in the frames of the custom protocol.
use nebula_x_trader.Prelude.Int.{pos}
use nebula_x_trader.Types.{Order, sell, limit}

abbrev limit_sell : Order
limit_sell = record {
  order_id = 77;
  strategy_id = 2;
  symbol_id = 300;
  side = sell;
  kind = limit;
  price = pos 12_345;
  quantity = 500;
  timestamp = 9;
}
