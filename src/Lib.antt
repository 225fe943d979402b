-- ===== src/Lib.antt =====
-- Verification of the core of the NebulaX trader: from market data to signals, and from a signal
-- to the exchange and back.
--
-- The program takes market data from the network, parses it into order books, lets strategies make
-- signals of them, and trades on the signals. `ExecutionEngine` turns a signal into an order: it
-- registers the order with `OrderManager`, lets `RiskManager` check it, and sends it through a
-- codec and a sender, or fills it at once when there is no sender. Reports of the exchange come
-- back to the engine, which drives the state of the order and the position.
--
-- - Prelude: the helpers that all parts share, in Tests (Boolean tests), Lists, Int (`int64_t`
--   values as integers over the native numbers), Words (64-bit words with their wrap-around), Mean
--   (weighted averages), Dict (association lists), Bytes, Decimal and Sum (arrays as functions,
--   and the sums of their cells).
-- - Types: the plain data of core/types.h, core/market_event.h, oms/order.h,
--   strategy/base/signal.h and the two structures of oms/i_order_codec.h. The field `type` is
--   `kind` here.
-- - MoldUnpacker: market/pipeline/mold_udp_unpacker.h. The rest of a packet stands for the
--   position in it; the fuel of the outer loop is the number of bytes, and each packet takes at
--   least 20. Stream has the layout of MoldUDP64.
-- - ByteRing: core/queue/spsc_byte_ring.h. The memory of the ring is a function from the index to
--   the byte. Push has the room that `push` finds, Cells and Pushed where the bytes go, Stores
--   what it promises, Pop what `pop` does across the ring's end.
-- - EventRing: core/queue/spsc_event_ring.h, the ring of events from one thread to another. Fifo
--   has the queue that a ring is, Calls any sequence of calls.
-- - Dispatcher: core/dispatch/dispatcher.h, which routes each event to the worker that owns its
--   symbol. Owner has the choice of the owner. Channel has one worker's part step by step,
--   together with the retry thread's loop and the worker's `pop` of main.cpp; Order and Deliver
--   are about it.
-- - OrderPool: core/memory/order_pool.h, with the calls atomic; OrderPool.Threads has their loads,
--   stores and exchanges as steps of any number of threads; fewer than 2^32 steps, so that no tag
--   comes again.
-- - OrderBook: market/book/order_book.h. A pointer to an order is its index in the pool. The index
--   of orders by reference is an interface, OrderIndex, which stands for core/memory/order_map.h.
--   OrderBook.Levels is the hash table of price levels of one side, in which a loop over the slots
--   has the capacity for its fuel; below it, Valid has the invariant of a table, and Map, Erase
--   and Top the map from prices to levels that it implements. Quantities, Ghost and Filled follow
--   the quantity of a level.
-- - ByteRingParser: market/pipeline/byte_ring_parser.h, which takes the messages out of the byte
--   ring. Each turn of its loop but the last releases a byte at least, so that the bytes in the
--   ring are fuel enough (Stops). Pieces, Frames and Queue have the messages that a ring holds,
--   Intact and Calls the pushes and the turns of the parser in any order, no push within a turn,
--   and Race a push between the two loads of the tail in one turn.
-- - OrderBookConsumer: market/book/order_book_consumer.h and order_book_consumer.cpp, which
--   applies the events to the books of their symbols; Ticks has the ticks that it makes of trades.
-- - ItchParser: market/parser/itch_parser.h and itch_parser.cpp, one function for each message;
--   Messages has the messages of docs/design/itch5_protocol.md field by field.
-- - Strategy: Combiner (strategy/combo/signal_combiner.h), Arbitrate (strategy/base/arbitrate.h),
--   Aggregator (strategy/kline/) and, from strategy/tick/, OrderFlow, Breakout, Volume,
--   TickMomentum and Imbalance, most with a module below it for what it promises. A sink is the
--   list of what it was called with, the newest first.
-- - OrderManager: oms/order_manager.h. The hash map of orders is an association list, an index a
--   function from the key to the list of its ids, and the static counter of `now` a field. Below
--   it: Table (what each operation does to one entry), Calls (histories of calls, and the
--   lifecycle as a step relation), Invariant, Lifecycle, Index, Fills and AveragePrice.
-- - RiskManager: risk/risk_manager.h. The arrays indexed by locate are functions, read below 65536
--   only. Below it: Limits, Equity, AtMark and Drawdown.
-- - OrderCodec: the interface of oms/i_order_codec.h as a record of operations over the state of
--   the codec. The engine takes it as a parameter.
-- - OrderCodec.Custom and OrderCodec.Ouch: oms/custom_order_codec.h and oms/ouch_order_codec.h. A
--   frame is the list of its bytes; `!buf` does not arise. Frames, Enter, Reports, Numbers and
--   Queries prove what is read back. Prelude.Bytes has the big-endian fields and Prelude.Decimal
--   the decimal text that `snprintf` prints and `strtoull` reads.
-- - ExecutionEngine: execution/execution_engine.h, one function for each method. The sender is a
--   function from the frames sent before and the frame to what `send` returns. Below it: Drops,
--   Submit, Limits, Flatten, Reports, Cancel, Book and Book.Quotes.
--
-- Unsigned 64-bit arithmetic wraps as in C++, and so do the casts between signed and unsigned
-- words and the atomic `fetch_add`. Plain signed arithmetic is exact: where C++ would overflow,
-- its behaviour is undefined. A method of the engine holds the mutex, so that calls are atomic;
-- `query_book` waits without it, and takes the quotes that arrive during the wait as an argument.
-- All other loops are over lists or over the cells of an array.
--
-- Not modelled: the network back ends, profiling, configuration and the program's entry, which are
-- input and output; the map of orders, the queues with several consumers, memory orders, and the
-- strategies over bars, which compute in floating point.
pub mod Prelude
pub mod Types
pub mod OrderManager
pub mod RiskManager
pub mod OrderCodec
pub mod ExecutionEngine
pub mod MoldUnpacker
pub mod ByteRing
pub mod EventRing
pub mod Dispatcher
pub mod OrderPool
pub mod OrderBook
pub mod OrderBookConsumer
pub mod ItchParser
pub mod ByteRingParser
pub mod Strategy
