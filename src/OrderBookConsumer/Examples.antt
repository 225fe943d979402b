-- ===== src/OrderBookConsumer/Examples.antt =====
-- A consumer of a few events.
use nebula_x_trader.Prelude.{ℕ, ◌%◌, ◌≡◌, refl, Option, none, some, List, [], ◌∷◌}
use nebula_x_trader.Prelude.Int.{pos}
use nebula_x_trader.Prelude.Words.{u64_mod}
use nebula_x_trader.Prelude.Sum.{update}
use nebula_x_trader.Types.{EventType, OrderSide, MarketEvent, OrderSlot}
use nebula_x_trader.OrderPool.{no_index, new_pool}
use nebula_x_trader.OrderBook.{OrderIndex}
use nebula_x_trader.OrderBookConsumer.{new_consumer, last_tick}
use nebula_x_trader.OrderBookConsumer.Ticks.{
  run, trades_from, last_trade_from, IsTickOf, last_trade-IsTickOf,
}

abbrev by_ref : OrderIndex (ℕ → Option ℕ)
by_ref = record {
  lookup = λ s k. s k;
  insert = λ s k idx. update s k (some idx);
  remove = λ s k. update s k none;
}

abbrev unused : OrderSlot
unused = record {
  order_ref = 0;
  side = OrderSide.no_side;
  price = pos 0;
  shares = 0;
  remaining = 0;
  sequence = 0;
  prev_idx = no_index;
  next_idx = no_index;
  pool_next_free = no_index;
}

abbrev event : EventType → ℕ → ℕ → MarketEvent
event kind time shares = record {
  kind = kind;
  seq_id = time;
  locate = 3;
  timestamp = time;
  side = OrderSide.buy;
  price = pos 100;
  shares = shares;
  order_ref = 7;
  new_order_ref = 8;
}

-- an order, filled in two parts, and a late cancellation
abbrev events : List MarketEvent
events =
    event EventType.add 1 10
    ∷ event EventType.execute 2 4
    ∷ event EventType.trade 3 6
    ∷ event EventType.cancel 4 1
    ∷ []

last_trade-IsTickOf_example :
    let c = run by_ref (new_consumer (new_pool (λ k. unused) 4) (λ k. none)) events in
    (c.tick_seq ≡ trades_from 0 events % u64_mod)
    × IsTickOf (trades_from 0 events) (last_trade_from none events) (last_tick c)
last_trade-IsTickOf_example =
    last_trade-IsTickOf by_ref (new_pool (λ k. unused) 4) (λ k. none) events

two_trades : trades_from 0 events ≡ 2
unfolding trades_from
two_trades = refl
