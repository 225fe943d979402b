-- ===== src/OrderManager.antt =====
-- The order book of our own orders, `OrderManager` of oms/order_manager.h.
pub mod Table
pub mod Calls
pub mod Invariant
pub mod Lifecycle
pub mod Index
pub mod Fills
pub mod AveragePrice
pub mod Examples
use nebula_x_trader.Prelude.{
  ℕ, suc, ◌∷◌, Bool, true, false, Option, none, some, List, [], ◌==◌, ltb, leb, if◌then◌else◌,
  length, insert_id, erase_id,
}
use nebula_x_trader.Prelude.Int.{ℤ, pos, ◌+ℤ◌, ◌*ℤ◌, ◌/ℤ◌}
use nebula_x_trader.Prelude.Words.{add64, sub64, to_i64}
use nebula_x_trader.Prelude.Dict.{Dict, lookup, insert}
use nebula_x_trader.Types.{
  Order, OrderStatus, pending, submitted, partial_fill, pending_cancel, cancelled, rejected,
  not_found,
}

-- `struct Entry`
pub record Entry : Type 0 where
  pub order : Order
  pub status : OrderStatus
  pub exchange_ref : ℕ
  pub filled : ℕ
  pub remaining : ℕ
  pub avg_fill_price : ℤ
  pub submit_time : ℕ
  pub update_time : ℕ

-- The private members. An index is a function from the key to the set of ids, empty at a missing
-- key; `clock` is the static counter of `now`.
pub record OrderManager : Type 0 where
  pub orders : Dict Entry
  pub sym_orders : ℕ → List ℕ
  pub strat_orders : ℕ → List ℕ
  pub next_id : ℕ
  pub clock : ℕ

abbrev pub empty_manager : OrderManager
empty_manager = record {
  orders = [];
  sym_orders = λ _. [];
  strat_orders = λ _. [];
  next_id = 1;
  clock = 0;
}

-- a write to one key of an index
abbrev pub update : (ℕ → List ℕ) → ℕ → List ℕ → ℕ → List ℕ
update f k v j = if k == j then v else f j

abbrev pub is_pending : OrderStatus → Bool
is_pending pending = true
is_pending _ = false

-- `status == SUBMITTED || status == PARTIAL_FILL`
abbrev pub is_active : OrderStatus → Bool
is_active submitted = true
is_active partial_fill = true
is_active _ = false

abbrev pub is_pending_cancel : OrderStatus → Bool
is_pending_cancel pending_cancel = true
is_pending_cancel _ = false

-- `now`: the counter is incremented, and its new value returned
abbrev pub now : OrderManager → ℕ
now m = add64 m.clock 1

pub new_order : OrderManager → Order → OrderManager × Order
new_order m o =
    let id = m.next_id in
    let o' = record o { order_id = id } in
    let e : Entry = record {
      order = o';
      status = pending;
      exchange_ref = 0;
      filled = 0;
      remaining = o.quantity;
      avg_fill_price = pos 0;
      submit_time = o.timestamp;
      update_time = o.timestamp;
    } in
    (
      record m {
        orders = insert id e m.orders;
        sym_orders = update m.sym_orders o.symbol_id (insert_id id (m.sym_orders o.symbol_id));
        strat_orders =
            update m.strat_orders o.strategy_id (insert_id id (m.strat_orders o.strategy_id));
        next_id = add64 id 1;
      },
      o',
    )

-- The entry is written back, and the clock moves on.
store : ℕ → Entry → OrderManager → OrderManager
store id e m = record m { orders = insert id e m.orders; clock = now m }

-- A terminal entry also leaves both indexes.
retire : ℕ → Entry → OrderManager → OrderManager
unfolding store
retire id e m =
    let sym = e.order.symbol_id in
    let strat = e.order.strategy_id in
    record (store id e m) {
      sym_orders = update m.sym_orders sym (erase_id id (m.sym_orders sym));
      strat_orders = update m.strat_orders strat (erase_id id (m.strat_orders strat));
    }

pub on_accept : OrderManager → ℕ → ℕ → OrderManager
unfolding store
on_accept m id ref = elim (lookup id m.orders) [
  | none ↦ m
  | some e ↦
      if is_pending e.status
      then store id (record e { status = submitted; exchange_ref = ref; update_time = now m }) m
      else m
]

-- the clamp of `on_fill`: the quantity counted and the new total
pub clamp_fill : Entry → ℕ → ℕ × ℕ
clamp_fill e qty =
    let total = add64 e.filled qty in
    if ltb e.order.quantity total
    then (sub64 e.order.quantity e.filled, e.order.quantity)
    else (qty, total)

-- the entry that `on_fill` leaves, at time `t`
pub fill_entry : Entry → ℕ → ℤ → ℕ → Entry
unfolding clamp_fill
fill_entry e qty price t =
    let (counted, total) = clamp_fill e qty in
    let cost = e.avg_fill_price *ℤ to_i64 e.filled +ℤ price *ℤ to_i64 counted in
    record e {
      filled = total;
      remaining = sub64 e.order.quantity total;
      avg_fill_price = if total == 0 then pos 0 else cost /ℤ to_i64 total;
      update_time = t;
      status = if leb e.order.quantity total then OrderStatus.filled else partial_fill;
    }

pub on_fill : OrderManager → ℕ → ℕ → ℤ → OrderManager
unfolding store retire
on_fill m id qty price = elim (lookup id m.orders) [
  | none ↦ m
  | some e ↦
      if is_active e.status
      then (let e' = fill_entry e qty price (now m) in
          if leb e.order.quantity e'.filled then retire id e' m else store id e' m)
      else m
]

pub request_cancel : OrderManager → ℕ → Bool × OrderManager
unfolding store
request_cancel m id = elim (lookup id m.orders) [
  | none ↦ (false, m)
  | some e ↦
      if is_active e.status
      then (true, store id (record e { status = pending_cancel; update_time = now m }) m)
      else (false, m)
]

pub on_cancel : OrderManager → ℕ → Bool × OrderManager
unfolding retire
on_cancel m id = elim (lookup id m.orders) [
  | none ↦ (false, m)
  | some e ↦
      if is_pending_cancel e.status
      then (true, retire id (record e { status = cancelled; update_time = now m }) m)
      else (false, m)
]

pub on_reject : OrderManager → ℕ → OrderManager
unfolding retire
on_reject m id = elim (lookup id m.orders) [
  | none ↦ m
  | some e ↦
      if is_pending e.status
      then retire id (record e { status = rejected; update_time = now m }) m
      else m
]

abbrev pub entry : OrderManager → ℕ → Option Entry
entry m id = lookup id m.orders

pub status : OrderManager → ℕ → OrderStatus
status m id = elim (lookup id m.orders) [ none ↦ not_found | some e ↦ e.status ]

pub order : OrderManager → ℕ → Option Order
order m id = elim (lookup id m.orders) [ none ↦ none | some e ↦ some e.order ]

pub open_orders : OrderManager → ℕ → List ℕ
open_orders m symbol_id = m.sym_orders symbol_id

pub open_orders_by_strategy : OrderManager → ℕ → List ℕ
open_orders_by_strategy m strategy_id = m.strat_orders strategy_id

pub order_count : OrderManager → ℕ
order_count m = length m.orders

-- the loop of `count_by_status`, over the test `s == st`
pub count_by_status : OrderManager → (OrderStatus → Bool) → ℕ
count_by_status m is_st = count_in m.orders
  where
    count_in : List (ℕ × Entry) → ℕ
    count_in [] = 0
    count_in ((id, e) ∷ rest) = if is_st e.status then suc (count_in rest) else count_in rest
