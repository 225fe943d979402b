-- ===== src/OrderManager/Invariant.antt =====
-- The invariant of the table of `OrderManager`, and that every call keeps it.
use nebula_x_trader.Prelude.{
  ℕ, ◌+◌, ◌≤◌, ◌<◌, ◌≡◌, none, some, List, [], ◌∷◌, arith, inl, inr, Option-cases, length,
}
use nebula_x_trader.Prelude.Int.{ℤ, pos}
use nebula_x_trader.Prelude.Words.{u64_mod}
use nebula_x_trader.Prelude.Dict.{lookup-nil}
use nebula_x_trader.Types.{
  Order, OrderStatus, pending, submitted, partial_fill, pending_cancel, filled, cancelled, rejected,
  not_found,
}
use nebula_x_trader.OrderManager.{
  OrderManager, Entry, empty_manager, entry, now, clamp_fill, fill_entry, new_order,
}
use nebula_x_trader.OrderManager.Table.{
  Rewrites, accepted, filled_up, cancel_requested, cancelled_by, rejected_by, fresh_entry,
  entry-on_accept, entry-on_fill, entry-request_cancel, entry-on_cancel, entry-on_reject,
  entry-new_order, next_id-new_order, next_id-reports,
}
use nebula_x_trader.OrderManager.Calls.{Call, perform, run, InRange, AllInRange}

-- What the status says of the filled quantity; no stored entry is NOT_FOUND.
abbrev pub Stage : OrderStatus → ℕ → ℕ → Type 0
Stage pending done quantity = done ≡ 0
Stage submitted done quantity = done ≡ 0
Stage partial_fill done quantity = done < quantity
Stage pending_cancel done quantity = done ≤ quantity
Stage filled done quantity = done ≡ quantity
Stage cancelled done quantity = done ≤ quantity
Stage rejected done quantity = done ≡ 0
Stage not_found done quantity = ⊥

pub record IsSound (id : ℕ) (e : Entry) : Type 0 where
  pub own_id : e.order.order_id ≡ id
  pub word : e.order.quantity < u64_mod
  pub split : e.filled + e.remaining ≡ e.order.quantity
  pub stage : Stage e.status e.filled e.order.quantity

pub record IsValid (m : OrderManager) : Type 0 where
  pub unused : (id : ℕ) → m.next_id ≤ id → entry m id ≡ none
  pub entries : (id : ℕ) (e : Entry) → entry m id ≡ some e → IsSound id e

pub empty_manager-IsValid : IsValid empty_manager
empty_manager-IsValid = record {
  unused = λ id h. lookup-nil id;
  entries = λ id e h. absurd (cc (lookup-nil {V = Entry} id));
}

accepted-IsSound : (ref t id : ℕ) (e : Entry) → IsSound id e → IsSound id (accepted ref t e)
accepted-IsSound ref t id e v = ground arith

filled_up-IsSound :
    (qty : ℕ) (price : ℤ) (t id : ℕ) (e : Entry)
    → IsSound id e
    → IsSound id (filled_up qty price t e)
unfolding fill_entry clamp_fill
filled_up-IsSound qty price t id e v = ground arith

cancel_requested-IsSound : (t id : ℕ) (e : Entry) → IsSound id e → IsSound id (cancel_requested t e)
cancel_requested-IsSound t id e v = ground arith

cancelled_by-IsSound : (t id : ℕ) (e : Entry) → IsSound id e → IsSound id (cancelled_by t e)
cancelled_by-IsSound t id e v = ground arith

rejected_by-IsSound : (t id : ℕ) (e : Entry) → IsSound id e → IsSound id (rejected_by t e)
rejected_by-IsSound t id e v = ground arith

Rewrites-IsValid :
    (id : ℕ) (f : Entry → Entry) (m m' : OrderManager)
    → Rewrites id f m m'
    → m'.next_id ≡ m.next_id
    → ((j : ℕ) (e : Entry) → IsSound j e → IsSound j (f e))
    → IsValid m
    → IsValid m'
Rewrites-IsValid id f m m' r same keeps v = record {
  unused = λ j h. ground (arith, r j, v.unused j);
  entries = λ j e' h. elim (Option-cases (entry m j)) [
    | inl gone ↦ ground (arith, r j)
    | inr (e, held) ↦ ground (arith, r j, v.entries j e, keeps j e)
  ];
}

fresh_entry-IsSound : (id : ℕ) (o : Order) → o.quantity < u64_mod → IsSound id (fresh_entry id o)
fresh_entry-IsSound id o h = ground arith

new_order-IsValid :
    (m : OrderManager) (o : Order)
    → o.quantity < u64_mod
    → m.next_id + 1 < u64_mod
    → IsValid m
    → IsValid (new_order m o).0
new_order-IsValid m o word room v = record {
  unused = λ j h. ground (arith, entry-new_order m o j, v.unused j, next_id-new_order m o room);
  entries = λ j e h.
      ground (arith, entry-new_order m o j, v.entries j e, fresh_entry-IsSound m.next_id o word);
}

-- Every call of `OrderManager` keeps the invariant: ids are those handed out, filled and remaining
-- make up the quantity, and the filled quantity suits the status. A new order needs an unused id.
pub perform-IsValid :
    (c : Call) (m : OrderManager)
    → InRange c
    → m.next_id + 1 < u64_mod
    → IsValid m
    → IsValid (perform c m)
unfolding perform
perform-IsValid (Call.new o) m word room v = new_order-IsValid m o word room v
perform-IsValid (Call.accept id ref) m word room v =
    Rewrites-IsValid id (accepted ref (now m)) m _ (entry-on_accept m id ref)
      (next_id-reports m id ref 0 (pos 0)).0 (accepted-IsSound ref (now m)) v
perform-IsValid (Call.fill id qty price) m word room v =
    Rewrites-IsValid id (filled_up qty price (now m)) m _ (entry-on_fill m id qty price)
      (next_id-reports m id 0 qty price).1 (filled_up-IsSound qty price (now m)) v
perform-IsValid (Call.ask_cancel id) m word room v =
    Rewrites-IsValid id (cancel_requested (now m)) m _ (entry-request_cancel m id)
      (next_id-reports m id 0 0 (pos 0)).2 (cancel_requested-IsSound (now m)) v
perform-IsValid (Call.cancel id) m word room v =
    Rewrites-IsValid id (cancelled_by (now m)) m _ (entry-on_cancel m id)
      (next_id-reports m id 0 0 (pos 0)).3 (cancelled_by-IsSound (now m)) v
perform-IsValid (Call.reject id) m word room v =
    Rewrites-IsValid id (rejected_by (now m)) m _ (entry-on_reject m id)
      (next_id-reports m id 0 0 (pos 0)).4 (rejected_by-IsSound (now m)) v

-- An id is handed out by at most one per call.
pub next_id-perform :
    (c : Call) (m : OrderManager) → m.next_id + 1 < u64_mod → (perform c m).next_id ≤ m.next_id + 1
unfolding perform
next_id-perform (Call.new o) m room = omega (arith, next_id-new_order m o room)
next_id-perform (Call.accept id ref) m room = omega (arith, (next_id-reports m id ref 0 (pos 0)).0)
next_id-perform (Call.fill id qty price) m room =
    omega (arith, (next_id-reports m id 0 qty price).1)
next_id-perform (Call.ask_cancel id) m room = omega (arith, (next_id-reports m id 0 0 (pos 0)).2)
next_id-perform (Call.cancel id) m room = omega (arith, (next_id-reports m id 0 0 (pos 0)).3)
next_id-perform (Call.reject id) m room = omega (arith, (next_id-reports m id 0 0 (pos 0)).4)

run-IsValid_from :
    (cs : List Call) (m : OrderManager)
    → AllInRange cs
    → m.next_id + length cs < u64_mod
    → IsValid m
    → IsValid (run cs m)
unfolding run
run-IsValid_from [] m words room v = v
run-IsValid_from (c ∷ cs) m words room v =
    run-IsValid_from cs (perform c m) words.1 (omega (arith, next_id-perform c m (omega arith)))
      (perform-IsValid c m words.0 (omega arith) v)

-- After any history of fewer than 2^64 - 1 calls on a new manager, with 64-bit quantities, ids that
-- are not yet given out have no entry, and every entry is stored under its own id, its filled and
-- its remaining quantity add up to the ordered one, and its filled quantity fits its status: zero
-- for PENDING, SUBMITTED and REJECTED, less than ordered for PARTIAL_FILL, all for FILLED.
pub run-IsValid :
    (cs : List Call) → AllInRange cs → length cs + 1 < u64_mod → IsValid (run cs empty_manager)
run-IsValid cs words short =
    run-IsValid_from cs empty_manager words (omega arith) empty_manager-IsValid
