-- ===== src/OrderBook/Examples.antt =====
-- A book with one order.
use nebula_x_trader.Prelude.{
  ℕ, ◌+◌, ◌-◌, ◌%◌, ◌^◌, ◌≡◌, ◌≢◌, refl, true, false, Option, none, some, arith, ◌==◌,
  if◌then◌else◌,
}
use nebula_x_trader.Prelude.Int.{ℤ, pos, eqb_ℤ}
use nebula_x_trader.Prelude.Sum.{update}
use nebula_x_trader.Types.{OrderSlot, buy}
use nebula_x_trader.OrderPool.{no_index, allocate, deallocate}
use nebula_x_trader.OrderBook.{
  OrderIndex, OrderBook, add, execute, cancel, reduce, dec_level_qty, unlink_and_free, best_bid,
  bid_volume_at, dec_table, unlink_table,
}
use nebula_x_trader.OrderBook.Levels.{
  Table, PriceLevel, new_table, level_at, set_level, erase, erase_at, rescan_best, best_below, find,
  best_qty, is_better, scan, probe, locate, settle,
}
use nebula_x_trader.OrderBook.Levels.Locate.{IsPrice}
use nebula_x_trader.OrderBook.Levels.Valid.{IsValid}
use nebula_x_trader.OrderBook.Levels.Keep.{new_table-IsValid}
use nebula_x_trader.OrderBook.Levels.Map.{HasRoom, get_or_empty, find-set_level}
use nebula_x_trader.OrderBook.Levels.Erase.{find-erase}
use nebula_x_trader.OrderBook.Levels.Top.{top_of_book}
use nebula_x_trader.OrderBook.Ghost.{ghost}
use nebula_x_trader.OrderBook.Filled.{filled_order_leaves_level}

abbrev no_levels : Table
no_levels = new_table true

abbrev one_order : PriceLevel
one_order = record { head_idx = 0; tail_idx = 0; count = 1; total_qty = 10 }

no_levels-IsValid : IsValid no_levels
no_levels-IsValid = new_table-IsValid true

no_levels-HasRoom : HasRoom no_levels
unfolding new_table
no_levels-HasRoom = (0, omega arith, refl)

find-set_level_example :
    let (i, t) = level_at no_levels (pos 100) in
    ((t.slots i).level ≡ get_or_empty (find no_levels (pos 100)))
    × ((l : PriceLevel)
        → IsValid (set_level t i l)
          × ((q : ℤ)
              → IsPrice q
              → find (set_level t i l) q
                ≡ (if eqb_ℤ (pos 100) q then some l else find no_levels q)))
find-set_level_example =
    find-set_level no_levels (pos 100) no_levels-IsValid no_levels-HasRoom refl
      (omega arith, omega arith)

-- a table with one level at 100
one_level : Table
one_level = set_level (level_at no_levels (pos 100)).1 (level_at no_levels (pos 100)).0 one_order

one_level-IsValid : IsValid one_level
unfolding one_level
one_level-IsValid =
    ((find-set_level no_levels (pos 100) no_levels-IsValid no_levels-HasRoom refl
        (omega arith, omega arith)).1
      one_order).0

one_level-HasRoom : HasRoom one_level
unfolding one_level new_table level_at settle scan probe
one_level-HasRoom = (0, omega arith, refl)

found_at_100 : find one_level (pos 100) ≡ some one_order
unfolding one_level new_table level_at settle scan probe find locate
found_at_100 = refl

find-erase_example :
    IsValid (erase one_level (pos 100))
    × ((q : ℤ)
        → IsPrice q
        → find (erase one_level (pos 100)) q
          ≡ (if eqb_ℤ (pos 100) q then none else find one_level q))
find-erase_example = find-erase one_level (pos 100) one_level-IsValid refl

top_of_book_example :
    (one_level.count ≡ 0 → (q : ℤ) → IsPrice q → find one_level q ≡ none)
    × (one_level.count ≢ 0
        → (l : PriceLevel) × (find one_level one_level.best ≡ some l)
          × (best_qty one_level ≡ l.total_qty)
          × ((q : ℤ)
              → IsPrice q
              → find one_level q ≢ none
              → is_better one_level.is_bid q one_level.best ≡ false))
top_of_book_example = top_of_book one_level one_level-IsValid

-- the index of orders as a function
abbrev by_ref : OrderIndex (ℕ → Option ℕ)
by_ref = record {
  lookup = λ s k. s k;
  insert = λ s k idx. update s k (some idx);
  remove = λ s k. update s k none;
}

abbrev an_order : OrderSlot
an_order = record {
  order_ref = 7;
  side = buy;
  price = pos 100;
  shares = 10;
  remaining = 10;
  sequence = 1;
  prev_idx = no_index;
  next_idx = no_index;
  pool_next_free = 1;
}

abbrev book : OrderBook (ℕ → Option ℕ)
book = record {
  pool = record { storage = λ i. an_order; capacity = 4; free_head = 2 ^ 32 + 1; size = 1 };
  index = λ k. if k == 7 then some 0 else none;
  bids = one_level;
  asks = new_table false;
}

filled_order_leaves_level_example :
    let (done, b') = execute by_ref book 7 10 in
    (done ≡ true)
    × (find b'.bids (pos 100) ≡ some (ghost an_order))
    × ((ghost an_order).count ≡ 2 ^ 32 - 1)
    × ((ghost an_order).total_qty ≡ (2 ^ 32 - 10 % 2 ^ 32) % 2 ^ 32)
    × (is_better b'.bids.is_bid (pos 100) (best_bid b') ≡ false)
filled_order_leaves_level_example =
    filled_order_leaves_level by_ref book 7 0 10 one_order one_level-IsValid one_level-HasRoom refl
      refl refl (omega arith, omega arith) found_at_100 refl (omega arith) (omega arith)

-- the same from an empty book, by its own calls
added : OrderBook (ℕ → Option ℕ)
added =
    (add by_ref
      (record {
        pool = record {
          storage = λ i. record an_order { pool_next_free = i + 1 };
          capacity = 4;
          free_head = 0;
          size = 0;
        };
        index = λ k. none;
        bids = no_levels;
        asks = new_table false;
      })
      7 buy (pos 100) 10 1).1

after_fill :
    let b = (execute by_ref added 7 10).1 in
    (best_bid added ≡ pos 100)
    × (bid_volume_at added (pos 100) ≡ 10)
    × (best_bid b ≡ pos 100)
    × (bid_volume_at b (pos 100) ≡ 2 ^ 32 - 10)
unfolding added new_table level_at settle scan probe find locate add cancel reduce dec_level_qty
    unlink_and_free dec_table unlink_table erase erase_at rescan_best best_below best_bid
    bid_volume_at allocate deallocate
after_fill = (refl, refl, refl, refl)
