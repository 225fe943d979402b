-- ===== src/OrderBookConsumer.antt =====
-- `OrderBookConsumer` of market/book/order_book_consumer.h and order_book_consumer.cpp: the books of all
-- symbols, which share one pool and one index, rebuilt from the events, and the last trade as a tick.
pub mod Ticks
mod Examples
use nebula_x_trader.Prelude.{
  ℕ, ◌+◌, ◌-◌, Bool, true, false, Option, none, some, ◌==◌, if◌then◌else◌,
}
use nebula_x_trader.Prelude.Int.{ℤ, pos, negsuc, ltb_ℤ}
use nebula_x_trader.Prelude.Words.{add64}
use nebula_x_trader.Prelude.Sum.{update}
use nebula_x_trader.Types.{EventType, MarketEvent, Tick}
use nebula_x_trader.OrderPool.{OrderPool}
use nebula_x_trader.OrderBook
use nebula_x_trader.OrderBook.{OrderBook, OrderIndex, OrderSlotView}
use nebula_x_trader.OrderBook.Levels.{Table, new_table}

-- The members. A book's own part is its two tables; `books` is a function from the locate.
pub record OrderBookConsumer (S : Type 0) : Type 0 where
  pub pool : OrderPool
  pub index : S
  pub books : ℕ → Option (Table × Table)
  pub last : Tick
  pub has_tick : Bool
  pub tick_seq : ℕ
  pub order_seq : ℕ

abbrev pub no_tick : Tick
no_tick = record {
  timestamp = 0;
  seq_id = 0;
  symbol_id = 0;
  last_price = pos 0;
  volume = 0;
  bid_price = pos 0;
  ask_price = pos 0;
  bid_volume = 0;
  ask_volume = 0;
}

module _ {S : Type 0} where
  pub new_consumer : OrderPool → S → OrderBookConsumer S
  new_consumer pool index = record {
    pool = pool;
    index = index;
    books = λ locate. none;
    last = no_tick;
    has_tick = false;
    tick_seq = 0;
    order_seq = 0;
  }

  unfoldable pub book_for : OrderBookConsumer S → ℕ → OrderBook S
  book_for c locate = elim (c.books locate) [
    | none ↦ record {
      pool = c.pool;
      index = c.index;
      bids = new_table true;
      asks = new_table false;
    }
    | some tables ↦ record { pool = c.pool; index = c.index; bids = tables.0; asks = tables.1 }
  ]

  -- what a call on the book of a symbol leaves behind
  unfoldable pub with_book : OrderBookConsumer S → ℕ → OrderBook S → OrderBookConsumer S
  with_book c locate b = record c {
    pool = b.pool;
    index = b.index;
    books = update c.books locate (some (b.bids, b.asks));
  }

  -- the end of `handle_trade` and `handle_execute`; none where the price is kept
  unfoldable pub make_tick : OrderBookConsumer S → MarketEvent → Option ℤ → OrderBookConsumer S
  make_tick c ev price =
      let seq = add64 c.tick_seq 1 in
      record c {
        tick_seq = seq;
        has_tick = true;
        last = record c.last {
          timestamp = ev.timestamp;
          seq_id = seq;
          symbol_id = ev.locate;
          last_price = elim price [ none ↦ c.last.last_price | some p ↦ p ];
          volume = ev.shares;
        };
      }

  pub book : OrderBookConsumer S → ℕ → Option (Table × Table)
  book c locate = c.books locate

  unfoldable pub last_tick : OrderBookConsumer S → Option Tick
  last_tick c = if c.has_tick then some c.last else none

module _ {S : Type 0} (ix : OrderIndex S) where
  unfoldable pub handle_add : OrderBookConsumer S → MarketEvent → OrderBookConsumer S
  handle_add c ev =
      let seq = add64 c.order_seq 1 in
      let added =
        OrderBook.add ix (book_for c ev.locate) ev.order_ref ev.side ev.price ev.shares seq in
      with_book (record c { order_seq = seq }) ev.locate added.1

  unfoldable pub handle_delete : OrderBookConsumer S → MarketEvent → OrderBookConsumer S
  handle_delete c ev =
      with_book c ev.locate (OrderBook.remove ix (book_for c ev.locate) ev.order_ref).1

  unfoldable pub handle_cancel : OrderBookConsumer S → MarketEvent → OrderBookConsumer S
  handle_cancel c ev =
      with_book c ev.locate (OrderBook.cancel ix (book_for c ev.locate) ev.order_ref ev.shares).1

  -- `handle_replace` with what `get` returns; a book that was not there is made also without an order
  unfoldable pub replace_old :
      OrderBookConsumer S → MarketEvent → Option OrderSlotView → OrderBookConsumer S
  replace_old c ev none = with_book c ev.locate (book_for c ev.locate)
  replace_old c ev (some old) =
      let seq = add64 c.order_seq 1 in
      let replaced =
        OrderBook.replace ix (book_for c ev.locate) ev.order_ref ev.new_order_ref old.side ev.price
          ev.shares seq in
      with_book (record c { order_seq = seq }) ev.locate replaced.1

  unfoldable pub handle_replace : OrderBookConsumer S → MarketEvent → OrderBookConsumer S
  unfolding replace_old
  handle_replace c ev = replace_old c ev (OrderBook.get ix (book_for c ev.locate) ev.order_ref)

  -- with `has_price` set, as it is in the only call
  unfoldable pub handle_trade : OrderBookConsumer S → MarketEvent → OrderBookConsumer S
  handle_trade c ev =
      let done = OrderBook.execute ix (book_for c ev.locate) ev.order_ref ev.shares in
      make_tick (with_book c ev.locate done.1) ev (some ev.price)

  -- the price of the order that is executed, -1 where there is none
  unfoldable pub executed_price : OrderBookConsumer S → MarketEvent → ℤ
  executed_price c ev = elim (OrderBook.get ix (book_for c ev.locate) ev.order_ref) [
    | none ↦ negsuc 0
    | some view ↦ view.price
  ]

  unfoldable pub handle_execute : OrderBookConsumer S → MarketEvent → OrderBookConsumer S
  handle_execute c ev =
      let price = executed_price c ev in
      let done = OrderBook.execute ix (book_for c ev.locate) ev.order_ref ev.shares in
      make_tick (with_book c ev.locate done.1) ev (if ltb_ℤ price (pos 0) then none else some price)

  pub handle : EventType → OrderBookConsumer S → MarketEvent → OrderBookConsumer S
  handle EventType.add c ev = handle_add c ev
  handle EventType.delete c ev = handle_delete c ev
  handle EventType.cancel c ev = handle_cancel c ev
  handle EventType.replace c ev = handle_replace c ev
  handle EventType.trade c ev = handle_trade c ev
  handle EventType.execute c ev = handle_execute c ev

  pub on_event : OrderBookConsumer S → MarketEvent → OrderBookConsumer S
  on_event c ev = handle ev.kind c ev
