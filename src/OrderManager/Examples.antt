-- ===== src/OrderManager/Examples.antt =====
-- One order through `OrderManager`: registered, accepted, filled in two parts.
use nebula_x_trader.Prelude.{◌+◌, ◌≡◌, refl, some, List, [], ◌∷◌, arith, count}
use nebula_x_trader.Prelude.Int.{pos, ◌≤ℤ◌, ◌+ℤ◌, ◌*ℤ◌, ◌/ℤ◌}
use nebula_x_trader.Prelude.Dict.{lookup, insert}
use nebula_x_trader.Types.{Order, buy, limit, partial_fill, pending_cancel, filled}
use nebula_x_trader.OrderManager.{
  Entry, empty_manager, entry, status, new_order, on_accept, on_fill, request_cancel, store, retire,
  fill_entry, clamp_fill, open_orders, open_orders_by_strategy,
}
use nebula_x_trader.OrderManager.Calls.{Call, perform, run, AllInRange, Reach}
use nebula_x_trader.OrderManager.Invariant.{IsValid, IsSound, run-IsValid}
use nebula_x_trader.OrderManager.Lifecycle.{Follows, run_reaches}
use nebula_x_trader.OrderManager.Index.{open_orders_exact, listed_by_symbol, listed_by_strategy}
use nebula_x_trader.OrderManager.Fills.{on_fill_counts}
use nebula_x_trader.OrderManager.AveragePrice.{average_price_bounds}

abbrev pub buy_order : Order
buy_order = record {
  order_id = 1;
  strategy_id = 7;
  symbol_id = 3;
  side = buy;
  kind = limit;
  price = pos 1000;
  quantity = 100;
  timestamp = 5;
}

abbrev pub two_fills : List Call
two_fills =
    Call.new buy_order
    ∷ Call.accept 1 42
    ∷ Call.fill 1 30 (pos 1000)
    ∷ Call.fill 1 30 (pos 1003)
    ∷ []

-- the entry after `two_fills`
abbrev pub half_filled : Entry
half_filled = record {
  order = buy_order;
  status = partial_fill;
  exchange_ref = 42;
  filled = 60;
  remaining = 40;
  avg_fill_price = pos 1001;
  submit_time = 5;
  update_time = 3;
}

pub two_fills-entry : entry (run two_fills empty_manager) 1 ≡ some half_filled
unfolding run perform new_order on_accept on_fill store fill_entry clamp_fill lookup insert ◌+ℤ◌
    ◌*ℤ◌ ◌/ℤ◌
two_fills-entry = refl

two_fills-AllInRange : AllInRange two_fills
two_fills-AllInRange = (omega arith, (tt, (omega arith, (omega arith, tt))))

two_fills-IsValid : IsValid (run two_fills empty_manager)
two_fills-IsValid = run-IsValid two_fills two_fills-AllInRange (omega arith)

pub half_filled-IsSound : IsSound 1 half_filled
half_filled-IsSound = two_fills-IsValid.entries 1 half_filled two_fills-entry

two_fills-next_id : (run two_fills empty_manager).next_id ≡ 2
unfolding run perform new_order on_accept on_fill store fill_entry clamp_fill lookup insert ◌+ℤ◌
    ◌*ℤ◌ ◌/ℤ◌
two_fills-next_id = refl

run-IsValid_example : IsValid (run two_fills empty_manager)
run-IsValid_example = run-IsValid two_fills two_fills-AllInRange (omega arith)

-- the order while the request to cancel it is on its way
abbrev pub withdrawn : List Call
withdrawn =
    Call.new buy_order
    ∷ Call.accept 1 42
    ∷ Call.fill 1 30 (pos 1000)
    ∷ Call.fill 1 30 (pos 1003)
    ∷ Call.ask_cancel 1
    ∷ []

pub withdrawn-entry :
    entry (run withdrawn empty_manager) 1
    ≡ some (record half_filled { status = pending_cancel; update_time = 4 })
unfolding run perform new_order on_accept on_fill request_cancel store fill_entry clamp_fill lookup
    insert ◌+ℤ◌ ◌*ℤ◌ ◌/ℤ◌
withdrawn-entry = refl

run_reaches_example :
    (e' : Entry) × (entry (run (Call.fill 1 40 (pos 999) ∷ []) (run two_fills empty_manager)) 1
      ≡ some e')
    × (e'.order ≡ buy_order)
    × Reach partial_fill e'.status
    × Follows (Call.fill 1 40 (pos 999) ∷ []) (run two_fills empty_manager) 1 half_filled
run_reaches_example =
    run_reaches (Call.fill 1 40 (pos 999) ∷ []) (run two_fills empty_manager) (omega arith, tt)
      (omega (arith, two_fills-next_id)) two_fills-IsValid 1 half_filled two_fills-entry

-- the same order, filled to the end
abbrev whole_fill : List Call
whole_fill = Call.new buy_order ∷ Call.accept 1 42 ∷ Call.fill 1 100 (pos 1000) ∷ []

whole_fill-status : status (run whole_fill empty_manager) 1 ≡ filled
unfolding status run perform new_order on_accept on_fill store retire fill_entry clamp_fill lookup
    insert ◌+ℤ◌ ◌*ℤ◌ ◌/ℤ◌
whole_fill-status = refl

whole_fill-next_id : (run whole_fill empty_manager).next_id ≡ 2
unfolding run perform new_order on_accept on_fill store retire fill_entry clamp_fill lookup insert
    ◌+ℤ◌ ◌*ℤ◌ ◌/ℤ◌
whole_fill-next_id = refl

open_orders_exact_example :
    (count 1 (open_orders (run two_fills empty_manager) 3)
      ≡ listed_by_symbol 3 (entry (run two_fills empty_manager) 1))
    × (count 1 (open_orders_by_strategy (run two_fills empty_manager) 3)
        ≡ listed_by_strategy 3 (entry (run two_fills empty_manager) 1))
open_orders_exact_example = open_orders_exact two_fills 1 3 two_fills-AllInRange (omega arith)

on_fill_counts_example :
    (e' : Entry) × (entry (on_fill (run two_fills empty_manager) 1 50 (pos 1000)) 1 ≡ some e')
    × (e'.filled ≡ 100)
    × (e'.filled + e'.remaining ≡ 100)
    × (e'.status ≡ filled)
on_fill_counts_example =
    on_fill_counts (run two_fills empty_manager) 1 50 (pos 1000) half_filled two_fills-entry
      half_filled-IsSound refl (omega arith)

average_price_bounds_example : (pos 1000 ≤ℤ pos 1001) × (pos 1001 ≤ℤ pos 1003)
average_price_bounds_example =
    average_price_bounds 1000 1003 two_fills 1 half_filled
      (
        omega arith,
        (
          tt,
          (
            (omega arith, refl, omega arith, omega arith),
            ((omega arith, refl, omega arith, omega arith), tt),
          ),
        ),
      )
      two_fills-AllInRange (omega arith) two_fills-entry (omega arith)
