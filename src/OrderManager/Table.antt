-- ===== src/OrderManager/Table.antt =====
-- What each operation of `OrderManager` does to the table, the indexes and the counters: one
-- lemma for each, so that the other modules keep the operations shut.
use nebula_x_trader.Prelude.{
  ℕ, ◌+◌, ◌<◌, ◌≡◌, refl, none, some, arith, ◌==◌, if◌then◌else◌, Option-cases, inl, inr,
}
use nebula_x_trader.Prelude.Int.{ℤ, pos}
use nebula_x_trader.Prelude.Words.{u64_mod}
use nebula_x_trader.Prelude.Dict.{lookup, lookup-insert}
use nebula_x_trader.Types.{Order, pending, submitted, pending_cancel, cancelled, rejected}
use nebula_x_trader.OrderManager.{
  OrderManager, Entry, is_pending, is_active, is_pending_cancel, now, entry, new_order, on_accept,
  fill_entry, on_fill, request_cancel, on_cancel, on_reject,
}

-- the entry as each report leaves it, at time `t`
abbrev pub accepted : ℕ → ℕ → Entry → Entry
accepted ref t e =
    if is_pending e.status
    then record e { status = submitted; exchange_ref = ref; update_time = t }
    else e

abbrev pub filled_up : ℕ → ℤ → ℕ → Entry → Entry
filled_up qty price t e = if is_active e.status then fill_entry e qty price t else e

abbrev pub cancel_requested : ℕ → Entry → Entry
cancel_requested t e =
    if is_active e.status then record e { status = pending_cancel; update_time = t } else e

abbrev pub cancelled_by : ℕ → Entry → Entry
cancelled_by t e =
    if is_pending_cancel e.status then record e { status = cancelled; update_time = t } else e

abbrev pub rejected_by : ℕ → Entry → Entry
rejected_by t e = if is_pending e.status then record e { status = rejected; update_time = t } else e

-- `f` applied to the entry of `id`, every other entry unchanged
abbrev pub Rewrites : ℕ → (Entry → Entry) → OrderManager → OrderManager → Type 0
Rewrites id f m m' =
    (j : ℕ)
    → entry m' j
      ≡ (if id == j then elim (entry m j) [ none ↦ none | some e ↦ some (f e) ] else entry m j)

pub entry-on_accept :
    (m : OrderManager) (id ref : ℕ) → Rewrites id (accepted ref (now m)) m (on_accept m id ref)
unfolding on_accept
entry-on_accept m id ref j = elim (Option-cases (lookup id m.orders)) [
  | inl e ↦ ground arith
  | inr (e, h) ↦ ground (arith, lookup-insert id j (accepted ref (now m) e) m.orders)
]

pub entry-on_fill :
    (m : OrderManager) (id qty : ℕ) (price : ℤ)
    → Rewrites id (filled_up qty price (now m)) m (on_fill m id qty price)
unfolding on_fill
entry-on_fill m id qty price j = elim (Option-cases (lookup id m.orders)) [
  | inl e ↦ ground arith
  | inr (e, h) ↦ ground (arith, lookup-insert id j (fill_entry e qty price (now m)) m.orders)
]

pub entry-request_cancel :
    (m : OrderManager) (id : ℕ) → Rewrites id (cancel_requested (now m)) m (request_cancel m id).1
unfolding request_cancel
entry-request_cancel m id j = elim (Option-cases (lookup id m.orders)) [
  | inl e ↦ ground arith
  | inr (e, h) ↦ ground (arith, lookup-insert id j (cancel_requested (now m) e) m.orders)
]

pub entry-on_cancel :
    (m : OrderManager) (id : ℕ) → Rewrites id (cancelled_by (now m)) m (on_cancel m id).1
unfolding on_cancel
entry-on_cancel m id j = elim (Option-cases (lookup id m.orders)) [
  | inl e ↦ ground arith
  | inr (e, h) ↦ ground (arith, lookup-insert id j (cancelled_by (now m) e) m.orders)
]

pub entry-on_reject :
    (m : OrderManager) (id : ℕ) → Rewrites id (rejected_by (now m)) m (on_reject m id)
unfolding on_reject
entry-on_reject m id j = elim (Option-cases (lookup id m.orders)) [
  | inl e ↦ ground arith
  | inr (e, h) ↦ ground (arith, lookup-insert id j (rejected_by (now m) e) m.orders)
]

-- the entry that `new_order` makes for the order `o` under `id`
abbrev pub fresh_entry : ℕ → Order → Entry
fresh_entry id o = record {
  order = record o { order_id = id };
  status = pending;
  exchange_ref = 0;
  filled = 0;
  remaining = o.quantity;
  avg_fill_price = pos 0;
  submit_time = o.timestamp;
  update_time = o.timestamp;
}

pub entry-new_order :
    (m : OrderManager) (o : Order) (j : ℕ)
    → entry (new_order m o).0 j
      ≡ (if m.next_id == j then some (fresh_entry m.next_id o) else entry m j)
unfolding new_order
entry-new_order m o j = lookup-insert m.next_id j (fresh_entry m.next_id o) m.orders

-- The order that `new_order` hands back carries the new id.
pub order-new_order :
    (m : OrderManager) (o : Order) → (new_order m o).1 ≡ record o { order_id = m.next_id }
unfolding new_order
order-new_order m o = refl

pub next_id-new_order :
    (m : OrderManager) (o : Order)
    → m.next_id + 1 < u64_mod
    → (new_order m o).0.next_id ≡ m.next_id + 1
unfolding new_order
next_id-new_order m o room = omega arith

-- Only `new_order` moves the next id.
pub next_id-reports :
    (m : OrderManager) (id ref qty : ℕ) (price : ℤ)
    → ((on_accept m id ref).next_id ≡ m.next_id)
      × ((on_fill m id qty price).next_id ≡ m.next_id)
      × ((request_cancel m id).1.next_id ≡ m.next_id)
      × ((on_cancel m id).1.next_id ≡ m.next_id)
      × ((on_reject m id).next_id ≡ m.next_id)
unfolding on_accept on_fill request_cancel on_cancel on_reject
next_id-reports m id ref qty price =
    (ground arith, ground arith, ground arith, ground arith, ground arith)
