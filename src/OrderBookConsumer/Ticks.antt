-- ===== src/OrderBookConsumer/Ticks.antt =====
-- The ticks that a consumer makes of trades.
use nebula_x_trader.Prelude.{
  ℕ, ◌+◌, ◌%◌, ◌≡◌, refl, Bool, true, false, Option, none, some, List, [], ◌∷◌, arith,
  if◌then◌else◌,
}
use nebula_x_trader.Prelude.Int.{ℤ}
use nebula_x_trader.Prelude.Words.{u64_mod, add64}
use nebula_x_trader.Types.{EventType, MarketEvent, Tick}
use nebula_x_trader.OrderPool.{OrderPool}
use nebula_x_trader.OrderBook
use nebula_x_trader.OrderBook.{OrderIndex, OrderSlotView}
use nebula_x_trader.OrderBookConsumer.{
  replace_old, OrderBookConsumer, new_consumer, make_tick, with_book, book_for, last_tick,
  handle_add, handle_delete, handle_cancel, handle_replace, handle_trade, handle_execute, handle,
  on_event,
}

abbrev pub makes_tick : EventType → Bool
makes_tick EventType.add = false
makes_tick EventType.delete = false
makes_tick EventType.cancel = false
makes_tick EventType.replace = false
makes_tick EventType.trade = true
makes_tick EventType.execute = true

-- how many of the events are trades or executions, and the last of them, after those before
unfoldable pub trades_from : ℕ → List MarketEvent → ℕ
trades_from n [] = n
trades_from n (ev ∷ evs) = trades_from (if makes_tick ev.kind then n + 1 else n) evs

pub last_trade_from : Option MarketEvent → List MarketEvent → Option MarketEvent
last_trade_from l [] = l
last_trade_from l (ev ∷ evs) = last_trade_from (if makes_tick ev.kind then some ev else l) evs

-- the tick of a trade, whatever its price
abbrev pub IsTickOf : ℕ → Option MarketEvent → Option Tick → Type 0
IsTickOf n none t = t ≡ none
IsTickOf n (some ev) t =
    (tick : Tick) × (t ≡ some tick)
    × (tick.timestamp ≡ ev.timestamp)
    × (tick.seq_id ≡ n % u64_mod)
    × (tick.symbol_id ≡ ev.locate)
    × (tick.volume ≡ ev.shares)

module _ {S : Type 0} where
  -- the tick and its number, by the trades before
  abbrev Follows : ℕ → Option MarketEvent → OrderBookConsumer S → Type 0
  Follows n l c = (c.tick_seq ≡ n % u64_mod) × IsTickOf n l (last_tick c)

  Follows-make_tick :
      (n : ℕ) (l : Option MarketEvent) (c : OrderBookConsumer S) (ev : MarketEvent)
      (price : Option ℤ)
      → c.tick_seq ≡ n % u64_mod
      → Follows (n + 1) (some ev) (make_tick c ev price)
  unfolding make_tick last_tick
  Follows-make_tick n l c ev price seq =
      let counted : add64 c.tick_seq 1 ≡ (n + 1) % u64_mod = ground (arith, seq) in
      (counted, (_, refl, refl, counted, refl, refl))

module _ {S : Type 0} (ix : OrderIndex S) where
  pub run : OrderBookConsumer S → List MarketEvent → OrderBookConsumer S
  run c [] = c
  run c (ev ∷ evs) = run (on_event ix c ev) evs

  replace_old-Follows :
      (n : ℕ) (l : Option MarketEvent) (c : OrderBookConsumer S) (ev : MarketEvent)
      (old : Option OrderSlotView)
      → Follows n l c
      → Follows n l (replace_old ix c ev old)
  unfolding replace_old with_book last_tick
  replace_old-Follows n l c ev none h = h
  replace_old-Follows n l c ev (some old) h = h

  handle-Follows :
      (kind : EventType) (n : ℕ) (l : Option MarketEvent) (c : OrderBookConsumer S)
      (ev : MarketEvent)
      → Follows n l c
      → Follows
          (if makes_tick kind then n + 1 else n)
          (if makes_tick kind then some ev else l)
          (handle ix kind c ev)
  unfolding handle with_book handle_add handle_delete handle_cancel handle_replace handle_trade
      handle_execute last_tick
  handle-Follows EventType.add n l c ev h = h
  handle-Follows EventType.delete n l c ev h = h
  handle-Follows EventType.cancel n l c ev h = h
  handle-Follows EventType.replace n l c ev h =
      replace_old-Follows n l c ev (OrderBook.get ix (book_for c ev.locate) ev.order_ref) h
  handle-Follows EventType.trade n l c ev h = Follows-make_tick n l _ ev _ h.0
  handle-Follows EventType.execute n l c ev h = Follows-make_tick n l _ ev _ h.0

  run-Follows :
      (evs : List MarketEvent) (n : ℕ) (l : Option MarketEvent) (c : OrderBookConsumer S)
      → Follows n l c
      → Follows (trades_from n evs) (last_trade_from l evs) (run c evs)
  unfolding on_event run trades_from last_trade_from
  run-Follows [] n l c h = h
  run-Follows (ev ∷ evs) n l c h =
      run-Follows evs _ _ (on_event ix c ev) (handle-Follows ev.kind n l c ev h)

  -- After any events from a new consumer on, there is a tick if and only if there was a trade or an
  -- execution; it has the time, the symbol and the volume of the last of them, and its number is the
  -- number of them, modulo 2^64.
  pub last_trade-IsTickOf :
      (pool : OrderPool) (index : S) (evs : List MarketEvent)
      → let c = run (new_consumer pool index) evs in
        (c.tick_seq ≡ trades_from 0 evs % u64_mod)
        × IsTickOf (trades_from 0 evs) (last_trade_from none evs) (last_tick c)
  unfolding new_consumer last_tick
  last_trade-IsTickOf pool index evs = run-Follows evs 0 none (new_consumer pool index) (refl, refl)
