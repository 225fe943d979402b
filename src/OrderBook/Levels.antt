-- ===== src/OrderBook/Levels.antt =====
-- `PriceLevelTable` of market/book/order_book.h: the levels of one side in an open hash table, with the
-- best price kept beside it.
pub mod Locate
pub mod Valid
pub mod Keep
pub mod Lookup
pub mod Map
pub mod Erase
pub mod Top
use nebula_x_trader.Prelude.{
  ℕ, zero, suc, ◌+◌, ◌-◌, ◌*◌, ◌/◌, ◌%◌, ◌^◌, Bool, true, false, ◌||◌, Option, none, some, ◌==◌,
  if◌then◌else◌,
}
use nebula_x_trader.Prelude.Int.{ℤ, pos, negsuc, ltb_ℤ, eqb_ℤ}
use nebula_x_trader.Prelude.Words.{mul64, to_u64}
use nebula_x_trader.Prelude.Sum.{update}
use nebula_x_trader.OrderPool.{no_index}

-- `struct PriceLevel`
pub record PriceLevel : Type 0 where
  pub head_idx : ℕ
  pub tail_idx : ℕ
  pub count : ℕ
  pub total_qty : ℕ

abbrev pub empty_level : PriceLevel
empty_level = record { head_idx = no_index; tail_idx = no_index; count = 0; total_qty = 0 }

-- `INT64_MIN` and `INT64_MAX`
abbrev pub int64_min : ℤ
int64_min = negsuc (2 ^ 63 - 1)

abbrev pub int64_max : ℤ
int64_max = pos (2 ^ 63 - 1)

-- `kEmpty` and `kTombstone`
abbrev pub empty_price : ℤ
empty_price = int64_min

abbrev pub tombstone : ℤ
tombstone = negsuc (2 ^ 63 - 2)

-- `struct Slot`
pub record Slot : Type 0 where
  pub price : ℤ
  pub level : PriceLevel

-- The members. The capacity is 2 ^ cap_bits, `slots` is read below it only.
pub record Table : Type 0 where
  pub is_bid : Bool
  pub best : ℤ
  pub slots : ℕ → Slot
  pub cap_bits : ℕ
  pub count : ℕ

abbrev pub cap : Table → ℕ
cap t = 2 ^ t.cap_bits

-- A slot that is made has the level that `PriceLevel{}` has.
unfoldable pub new_table : Bool → Table
new_table is_bid = record {
  is_bid = is_bid;
  best = if is_bid then int64_min else int64_max;
  slots = λ i. record { price = empty_price; level = empty_level };
  cap_bits = 10;
  count = 0;
}

-- `probe`: the upper bits of the product with the golden ratio
unfoldable pub probe : ℕ → ℤ → ℕ
probe cap_bits price = mul64 (to_u64 price) 0x9E3779B97F4A7C15 / 2 ^ (64 - cap_bits) % 2 ^ cap_bits

-- `is_bid_ ? price > best_ : price < best_`
abbrev pub is_better : Bool → ℤ → ℤ → Bool
is_better is_bid price best = if is_bid then ltb_ℤ best price else ltb_ℤ price best

abbrev pub better : Bool → ℤ → ℤ → ℤ
better is_bid price best = if is_better is_bid price best then price else best

-- The loop of `find`, `erase` and `best_qty` from slot `i` on, with `n` slots to go: where the price
-- stands, if it stands before an empty slot.
unfoldable pub locate : (ℕ → Slot) → ℕ → ℤ → ℕ → ℕ → Option ℕ
locate slots capacity price zero i = none
locate slots capacity price (suc n) i =
    let rest = locate slots capacity price n ((i + 1) % capacity) in
    if eqb_ℤ (slots i).price price
    then some i
    else if eqb_ℤ (slots i).price empty_price
    then none
    else rest

unfoldable pub find : Table → ℤ → Option PriceLevel
find t price = elim (locate t.slots (cap t) price (cap t) (probe t.cap_bits price)) [
  | none ↦ none
  | some i ↦ some (t.slots i).level
]

-- `best_qty`
pub best_qty : Table → ℕ
best_qty t =
    if t.count == 0
    then 0
    else elim (locate t.slots (cap t) t.best (cap t) (probe t.cap_bits t.best)) [
      | none ↦ 0
      | some i ↦ (t.slots i).level.total_qty
    ]

-- a slot that holds no level
abbrev pub is_free : ℤ → Bool
is_free price = eqb_ℤ price empty_price || eqb_ℤ price tombstone

-- the loop of `rescan_best` over the first `n` slots
unfoldable pub best_below : Bool → (ℕ → Slot) → ℕ → ℤ
best_below is_bid slots zero = if is_bid then int64_min else int64_max
best_below is_bid slots (suc n) =
    let best = best_below is_bid slots n in
    if is_free (slots n).price then best else better is_bid (slots n).price best

unfoldable pub rescan_best : Table → Table
rescan_best t = record t { best = best_below t.is_bid t.slots (cap t) }

-- `erase` at the slot that its loop found
unfoldable pub erase_at : Table → ℤ → Option ℕ → Table
unfolding rescan_best
erase_at t price none = t
erase_at t price (some i) =
    let slots' = update t.slots i (record (t.slots i) { price = tombstone }) in
    let t' = record t { slots = slots'; count = t.count - 1 } in
    if eqb_ℤ price t.best then rescan_best t' else t'

unfoldable pub erase : Table → ℤ → Table
unfolding erase_at
erase t price = erase_at t price (locate t.slots (cap t) price (cap t) (probe t.cap_bits price))

-- What the loop of `operator[]` meets: the price, an empty slot, or neither in all slots. `tomb` is the
-- first tombstone on the way, or the capacity.
pub data Scan : Type 0 where
  found vacant : ℕ → Scan
  full : Scan

unfoldable pub scan : (ℕ → Slot) → ℕ → ℤ → ℕ → ℕ → ℕ → Scan
scan slots capacity price zero i tomb = full
scan slots capacity price (suc n) i tomb =
    let tomb' =
      if eqb_ℤ (slots i).price tombstone then (if tomb == capacity then i else tomb) else tomb in
    let rest = scan slots capacity price n ((i + 1) % capacity) tomb' in
    if eqb_ℤ (slots i).price price
    then found i
    else if eqb_ℤ (slots i).price empty_price
    then vacant (if tomb' == capacity then i else tomb')
    else rest

-- the inner loop of `grow`, and the one behind it in `operator[]`: the next empty slot
unfoldable pub next_empty : (ℕ → Slot) → ℕ → ℕ → ℕ → ℕ
next_empty slots capacity zero j = j
next_empty slots capacity (suc n) j =
    let rest = next_empty slots capacity n ((j + 1) % capacity) in
    if eqb_ℤ (slots j).price empty_price then j else rest

-- the loop of `grow` over the first `n` old slots
unfoldable pub rehash : (ℕ → Slot) → ℕ → ℕ → (ℕ → Slot) → ℕ → Slot
rehash old cap_bits zero fresh = fresh
rehash old cap_bits (suc n) fresh =
    let done = rehash old cap_bits n fresh in
    let slot = old n in
    let j = next_empty done (2 ^ cap_bits) (2 ^ cap_bits) (probe cap_bits slot.price) in
    if is_free slot.price then done else update done j slot

unfoldable pub grow : Table → Table
grow t = record t {
  slots =
      rehash t.slots (t.cap_bits + 1) (cap t)
        (λ i. record { price = empty_price; level = empty_level });
  cap_bits = t.cap_bits + 1;
}

-- a new level at a slot
abbrev pub put_at : Table → ℕ → ℤ → Table
put_at t i price = record t {
  slots = update t.slots i (record { price = price; level = empty_level });
  count = t.count + 1;
  best = better t.is_bid price t.best;
}

-- `operator[]` after its loop
unfoldable pub settle : Table → ℤ → Scan → ℕ × Table
unfolding grow
settle t price (found i) = (i, record t { best = better t.is_bid price t.best })
settle t price (vacant i) = (i, put_at t i price)
settle t price full =
    let t' = grow t in
    let i = next_empty t'.slots (cap t') (cap t') (probe t'.cap_bits price) in
    (i, put_at t' i price)

-- `operator[]`: the slot of the price's level, made if there is none, and the table after that
unfoldable pub level_at : Table → ℤ → ℕ × Table
unfolding settle
level_at t price =
    settle t price (scan t.slots (cap t) price (cap t) (probe t.cap_bits price) (cap t))

-- a write through the reference that `operator[]` returned
abbrev pub set_level : Table → ℕ → PriceLevel → Table
set_level t i level = record t { slots = update t.slots i (record (t.slots i) { level = level }) }
