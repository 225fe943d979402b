-- ===== src/OrderBook.antt =====
-- `OrderBook` of market/book/order_book.h. The pool of orders and the index of them by reference, which
-- all books share, are a part of the state here. The index is an interface, which stands for `OrderMap`.
pub mod Levels
pub mod Quantities
pub mod Ghost
pub mod Filled
mod Examples
use nebula_x_trader.Prelude.{
  ℕ, ◌+◌, ◌-◌, ◌%◌, ◌^◌, Bool, true, false, not, ◌&&◌, Option, none, some, ◌==◌, ltb, if◌then◌else◌,
}
use nebula_x_trader.Prelude.Int.{ℤ, negsuc}
use nebula_x_trader.Prelude.Sum.{update}
use nebula_x_trader.Types.{OrderSide, buy, sell, no_side, OrderSlot}
use nebula_x_trader.OrderPool.{OrderPool, no_index, allocate, deallocate}
use nebula_x_trader.OrderBook.Levels.{Table, PriceLevel, level_at, set_level, erase, find, best_qty}

-- what the book uses of `OrderMap`; an order is its index in the pool
pub record OrderIndex (S : Type 0) : Type 0 where
  pub lookup : S → ℕ → Option ℕ
  pub insert : S → ℕ → ℕ → S
  pub remove : S → ℕ → S

pub record OrderBook (S : Type 0) : Type 0 where
  pub pool : OrderPool
  pub index : S
  pub bids : Table
  pub asks : Table

-- `struct OrderSlotView`
pub record OrderSlotView : Type 0 where
  pub order_ref : ℕ
  pub side : OrderSide
  pub price : ℤ
  pub shares : ℕ
  pub remaining : ℕ
  pub sequence : ℕ

-- `uint32_t` subtraction; the operands are cast first
abbrev pub sub32 : ℕ → ℕ → ℕ
sub32 a b = (a + 2 ^ 32 - b % 2 ^ 32) % 2 ^ 32

abbrev pub add32 : ℕ → ℕ → ℕ
add32 a b = (a + b) % 2 ^ 32

abbrev pub is_buy : OrderSide → Bool
is_buy buy = true
is_buy sell = false
is_buy no_side = false

-- the table of a side, and the book with another
abbrev pub side_table : {S : Type 0} → OrderBook S → OrderSide → Table
side_table b side = if is_buy side then b.bids else b.asks

abbrev pub with_table : {S : Type 0} → OrderBook S → OrderSide → Table → OrderBook S
with_table b side t = if is_buy side then record b { bids = t } else record b { asks = t }

-- the order at an index of the pool, and a write to it
abbrev pub at : {S : Type 0} → OrderBook S → ℕ → OrderSlot
at b i = b.pool.storage i

abbrev pub write : {S : Type 0} → OrderBook S → ℕ → OrderSlot → OrderBook S
write b i s = record b { pool = record b.pool { storage = update b.pool.storage i s } }

-- `if (idx != UINT32_MAX) pool_.at(idx)->prev_idx = prev`, and the same for `next_idx`
abbrev pub set_prev : {S : Type 0} → OrderBook S → ℕ → ℕ → OrderBook S
set_prev b idx prev =
    if idx == no_index then b else write b idx (record (at b idx) { prev_idx = prev })

abbrev pub set_next : {S : Type 0} → OrderBook S → ℕ → ℕ → OrderBook S
set_next b idx next =
    if idx == no_index then b else write b idx (record (at b idx) { next_idx = next })

-- the level with the order `idx` at its head
abbrev pub push_level : PriceLevel → ℕ → ℕ → PriceLevel
push_level level idx shares = record level {
  head_idx = idx;
  tail_idx = if level.tail_idx == no_index then idx else level.tail_idx;
  count = add32 level.count 1;
  total_qty = add32 level.total_qty shares;
}

-- the level after an order with these neighbours and shares is taken out
abbrev pub pop_level : PriceLevel → OrderSlot → PriceLevel
pop_level level s = record {
  head_idx = if s.prev_idx == no_index then s.next_idx else level.head_idx;
  tail_idx = if s.next_idx == no_index then s.prev_idx else level.tail_idx;
  count = sub32 level.count 1;
  total_qty = sub32 level.total_qty s.shares;
}

-- what `dec_level_qty` does to the table of the side
unfoldable pub dec_table : Table → ℤ → ℕ → Table
dec_table t price shares =
    let (i, t') = level_at t price in
    let level = (t'.slots i).level in
    let qty = sub32 level.total_qty shares in
    let t'' = set_level t' i (record level { total_qty = qty }) in
    if qty == 0 then erase t'' price else t''

-- what `unlink_and_free` does to it
unfoldable pub unlink_table : Table → OrderSlot → Table
unlink_table t s =
    let (i, t') = level_at t s.price in
    let level = pop_level (t'.slots i).level s in
    let t'' = set_level t' i level in if level.count == 0 then erase t'' s.price else t''

module _ {S : Type 0} where
  unfoldable pub dec_level_qty : OrderBook S → OrderSide → ℤ → ℕ → OrderBook S
  dec_level_qty b side price shares = with_table b side (dec_table (side_table b side) price shares)

  unfoldable pub unlink_and_free : OrderBook S → ℕ → OrderBook S
  unlink_and_free b idx =
      let s = at b idx in
      let b1 = set_next b s.prev_idx s.next_idx in
      let b2 = set_prev b1 s.next_idx s.prev_idx in
      let b3 = with_table b2 s.side (unlink_table (side_table b2 s.side) s) in
      record b3 { pool = deallocate b3.pool idx }

module _ {S : Type 0} (ix : OrderIndex S) where
  -- The handle is `UINT32_MAX` where the pool is full.
  unfoldable pub add : OrderBook S → ℕ → OrderSide → ℤ → ℕ → ℕ → ℕ × OrderBook S
  add b order_ref side price shares sequence =
      let (slot, pool) = allocate b.pool in
      elim slot [
        | none ↦ (no_index, b)
        | some idx ↦
            let fresh = record (pool.storage idx) {
              order_ref = order_ref;
              side = side;
              price = price;
              shares = shares;
              remaining = shares;
              sequence = sequence;
              prev_idx = no_index;
              next_idx = no_index;
            } in
            let b1 = write (record b { pool = pool }) idx fresh in
            let (i, t) = level_at (side_table b1 side) price in
            let level = (t.slots i).level in
            let b2 = set_prev b1 level.head_idx idx in
            let b3 =
              set_next b2 (if level.head_idx == no_index then no_index else idx) level.head_idx in
            let b4 = with_table b3 side (set_level t i (push_level level idx shares)) in
            (idx, record b4 { index = ix.insert b4.index order_ref idx })
      ]

  unfoldable pub remove : OrderBook S → ℕ → Bool × OrderBook S
  remove b order_ref = elim (ix.lookup b.index order_ref) [
    | none ↦ (false, b)
    | some idx ↦
        let b' = unlink_and_free b idx in (true, record b' { index = ix.remove b'.index order_ref })
  ]

  -- `cancel` and `execute` after the clamp: `taken` shares of the order are taken, `left` are left
  unfoldable pub reduce : OrderBook S → ℕ → ℕ → ℕ → ℕ → Bool × OrderBook S
  unfolding dec_level_qty unlink_and_free
  reduce b order_ref idx taken left =
      let s = at b idx in
      let b1 = write b idx (record s { remaining = left }) in
      let b2 = dec_level_qty b1 s.side s.price taken in
      let b3 = unlink_and_free b2 idx in
      if left == 0 then (true, record b3 { index = ix.remove b3.index order_ref }) else (true, b2)

  -- `cancel` and `execute`, which are the same but for the names
  unfoldable pub cancel : OrderBook S → ℕ → ℕ → Bool × OrderBook S
  cancel b order_ref cancelled_shares = elim (ix.lookup b.index order_ref) [
    | none ↦ (false, b)
    | some idx ↦
        let s = at b idx in
        let taken = if ltb s.remaining cancelled_shares then s.remaining else cancelled_shares in
        reduce b order_ref idx taken (s.remaining - taken)
  ]

  abbrev pub execute : OrderBook S → ℕ → ℕ → Bool × OrderBook S
  execute b order_ref executed_shares = cancel b order_ref executed_shares

  unfoldable pub replace : OrderBook S → ℕ → ℕ → OrderSide → ℤ → ℕ → ℕ → Bool × OrderBook S
  replace b old_ref new_ref side new_price new_shares new_sequence =
      elim (ix.lookup b.index old_ref) [
        | none ↦ (false, b)
        | some idx ↦
            let seq = if new_sequence == 0 then (at b idx).sequence else new_sequence in
            let (handle, b') = add (remove b old_ref).1 new_ref side new_price new_shares seq in
            (not (handle == no_index), b')
      ]

  pub get : OrderBook S → ℕ → Option OrderSlotView
  get b order_ref = elim (ix.lookup b.index order_ref) [
    | none ↦ none
    | some idx ↦
        let s = at b idx in
        some (record {
          order_ref = s.order_ref;
          side = s.side;
          price = s.price;
          shares = s.shares;
          remaining = s.remaining;
          sequence = s.sequence;
        })
  ]

  pub side_of : OrderBook S → ℕ → OrderSide
  side_of b order_ref = elim (ix.lookup b.index order_ref) [
    | none ↦ no_side
    | some idx ↦ (at b idx).side
  ]

module _ {S : Type 0} where
  unfoldable pub best_bid : OrderBook S → ℤ
  best_bid b = if b.bids.count == 0 then negsuc 0 else b.bids.best

  unfoldable pub best_ask : OrderBook S → ℤ
  best_ask b = if b.asks.count == 0 then negsuc 0 else b.asks.best

  unfoldable pub bid_volume_at : OrderBook S → ℤ → ℕ
  bid_volume_at b price = elim (find b.bids price) [ none ↦ 0 | some level ↦ level.total_qty ]

  unfoldable pub ask_volume_at : OrderBook S → ℤ → ℕ
  ask_volume_at b price = elim (find b.asks price) [ none ↦ 0 | some level ↦ level.total_qty ]

  pub best_bid_volume : OrderBook S → ℕ
  best_bid_volume b = best_qty b.bids

  pub best_ask_volume : OrderBook S → ℕ
  best_ask_volume b = best_qty b.asks

  pub is_empty : OrderBook S → Bool
  is_empty b = b.bids.count == 0 && b.asks.count == 0
