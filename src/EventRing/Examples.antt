-- ===== src/EventRing/Examples.antt =====
-- A ring with room for two events, its indices behind the first lap.
use nebula_x_trader.Prelude.{ℕ, ◌≡◌, false, List, [], ◌∷◌, arith}
use nebula_x_trader.Prelude.Int.{pos}
use nebula_x_trader.Types.{EventType, OrderSide, MarketEvent}
use nebula_x_trader.EventRing.{EventRing}
use nebula_x_trader.EventRing.Fifo.{contents}
use nebula_x_trader.EventRing.Calls.{
  Call, pushes, pops, peeks, outcomes, queue_outcomes, calls_refine,
}

abbrev event : ℕ → MarketEvent
event n = record {
  kind = EventType.add;
  seq_id = n;
  locate = 3;
  timestamp = 0;
  side = OrderSide.buy;
  price = pos 100;
  shares = 10;
  order_ref = n;
  new_order_ref = 0;
}

abbrev two_slots : EventRing
two_slots = record { slots = event; capacity = 2; head = 5; tail = 6; blocked = false; wakes = 6 }

-- the third push finds the ring full
abbrev calls : List Call
calls = pushes (event 6) ∷ peeks ∷ pushes (event 7) ∷ pops ∷ pops ∷ pops ∷ []

calls_refine_example :
    outcomes two_slots calls ≡ queue_outcomes two_slots.capacity (contents two_slots) calls
calls_refine_example =
    calls_refine calls two_slots (omega arith, omega arith, omega arith, omega arith) (omega arith)
