-- ===== src/OrderManager/Index.antt =====
-- The two indexes of `OrderManager` list exactly the live orders, each once.
use nebula_x_trader.Prelude.{
  ℕ, ◌+◌, ◌<◌, ◌≡◌, refl, sym, ◌∙◌, leb, not, Bool, true, false, Option, none, some, List, [], ◌∷◌,
  arith, ◌==◌, if◌then◌else◌, inl, inr, Bool-cases, Option-cases, length, count, count-insert_id,
  count-erase_id, count-nil,
}
use nebula_x_trader.Prelude.Int.{ℤ}
use nebula_x_trader.Prelude.Words.{u64_mod}
use nebula_x_trader.Prelude.Dict.{lookup-insert, lookup-nil}
use nebula_x_trader.Types.{
  Order, OrderStatus, pending, submitted, partial_fill, pending_cancel, cancelled, rejected,
}
use nebula_x_trader.OrderManager.{
  OrderManager, Entry, empty_manager, entry, now, is_pending, is_active, is_pending_cancel, store,
  retire, fill_entry, new_order, on_accept, on_fill, request_cancel, on_cancel, on_reject,
  open_orders, open_orders_by_strategy,
}
use nebula_x_trader.OrderManager.Invariant.{IsValid, perform-IsValid, empty_manager-IsValid}
use nebula_x_trader.OrderManager.Calls.{Call, perform, run, AllInRange}
use nebula_x_trader.OrderManager.Table.{fresh_entry}
use nebula_x_trader.OrderManager.Invariant.{next_id-perform}

-- PENDING, SUBMITTED, PARTIAL_FILL and PENDING_CANCEL.
abbrev pub is_live : OrderStatus → Bool
is_live pending = true
is_live submitted = true
is_live partial_fill = true
is_live pending_cancel = true
is_live _ = false

-- how often an entry has to be listed under a symbol, and under a strategy
abbrev pub listed_by_symbol : ℕ → Option Entry → ℕ
listed_by_symbol s none = 0
listed_by_symbol s (some e) =
    if e.order.symbol_id == s then (if is_live e.status then 1 else 0) else 0

abbrev pub listed_by_strategy : ℕ → Option Entry → ℕ
listed_by_strategy s none = 0
listed_by_strategy s (some e) =
    if e.order.strategy_id == s then (if is_live e.status then 1 else 0) else 0

pub record IsIndexed (m : OrderManager) : Type 0 where
  pub by_symbol : (id s : ℕ) → count id (m.sym_orders s) ≡ listed_by_symbol s (entry m id)
  pub by_strategy : (id s : ℕ) → count id (m.strat_orders s) ≡ listed_by_strategy s (entry m id)

empty_manager-IsIndexed : IsIndexed empty_manager
empty_manager-IsIndexed = record {
  by_symbol = λ id s. rw (lookup-nil {V = Entry} id) (count-nil id);
  by_strategy = λ id s. rw (lookup-nil {V = Entry} id) (count-nil id);
}

-- A stored entry stays as live as it was; a retired one is no longer live.
store-IsIndexed :
    (id : ℕ) (e e' : Entry) (m : OrderManager)
    → entry m id ≡ some e
    → e'.order ≡ e.order
    → is_live e'.status ≡ is_live e.status
    → IsIndexed m
    → IsIndexed (store id e' m)
unfolding store
store-IsIndexed id e e' m held same live v = record {
  by_symbol = λ j s. ground (arith, v.by_symbol j s, lookup-insert id j e' m.orders);
  by_strategy = λ j s. ground (arith, v.by_strategy j s, lookup-insert id j e' m.orders);
}

retire-IsIndexed :
    (id : ℕ) (e e' : Entry) (m : OrderManager)
    → entry m id ≡ some e
    → e'.order ≡ e.order
    → is_live e'.status ≡ false
    → IsIndexed m
    → IsIndexed (retire id e' m)
unfolding retire store
retire-IsIndexed id e e' m held same live v = record {
  by_symbol = λ j s. ground (
    arith,
    v.by_symbol j s,
    lookup-insert id j e' m.orders,
    count-erase_id id j (m.sym_orders e'.order.symbol_id),
  );
  by_strategy = λ j s. ground (
    arith,
    v.by_strategy j s,
    lookup-insert id j e' m.orders,
    count-erase_id id j (m.strat_orders e'.order.strategy_id),
  );
}

new_order-IsIndexed :
    (m : OrderManager) (o : Order) → IsValid m → IsIndexed m → IsIndexed (new_order m o).0
unfolding new_order
new_order-IsIndexed m o ok v = record {
  by_symbol = λ j s. ground (
    arith,
    v.by_symbol j s,
    ok.unused m.next_id,
    lookup-insert m.next_id j (fresh_entry m.next_id o) m.orders,
    count-insert_id m.next_id j (m.sym_orders o.symbol_id),
  );
  by_strategy = λ j s. ground (
    arith,
    v.by_strategy j s,
    ok.unused m.next_id,
    lookup-insert m.next_id j (fresh_entry m.next_id o) m.orders,
    count-insert_id m.next_id j (m.strat_orders o.strategy_id),
  );
}

pending-is_live : (s : OrderStatus) → is_pending s ≡ true → is_live s ≡ true
pending-is_live pending h = refl
pending-is_live s h = cc

active-is_live : (s : OrderStatus) → is_active s ≡ true → is_live s ≡ true
active-is_live submitted h = refl
active-is_live partial_fill h = refl
active-is_live s h = cc

fill_entry-order :
    (e : Entry) (qty : ℕ) (price : ℤ) (t : ℕ) → (fill_entry e qty price t).order ≡ e.order
unfolding fill_entry
fill_entry-order e qty price t = refl

fill_entry-is_live :
    (e : Entry) (qty : ℕ) (price : ℤ) (t : ℕ)
    → is_live (fill_entry e qty price t).status
      ≡ not (leb e.order.quantity (fill_entry e qty price t).filled)
unfolding fill_entry
fill_entry-is_live e qty price t = ground arith

on_accept-IsIndexed : (m : OrderManager) (id ref : ℕ) → IsIndexed m → IsIndexed (on_accept m id ref)
unfolding on_accept
on_accept-IsIndexed m id ref v = elim (Option-cases (entry m id)) [
  | inl gone ↦ rw (gone, on_accept) v
  | inr (e, held) ↦ elim (Bool-cases (is_pending e.status)) [
    | inl h ↦
        rw (held, on_accept, h)
          (store-IsIndexed id e
            (record e { status = submitted; exchange_ref = ref; update_time = now m }) m held refl
            (sym (pending-is_live e.status h)) v)
    | inr h ↦ rw (held, on_accept, h) v
  ]
]

on_fill-IsIndexed :
    (m : OrderManager) (id qty : ℕ) (price : ℤ) → IsIndexed m → IsIndexed (on_fill m id qty price)
unfolding on_fill
on_fill-IsIndexed m id qty price v = elim (Option-cases (entry m id)) [
  | inl gone ↦ rw (gone, on_fill) v
  | inr (e, held) ↦ elim (Bool-cases (is_active e.status)) [
    | inl h ↦
        let e' : Entry = fill_entry e qty price (now m) in
        elim (Bool-cases (leb e.order.quantity e'.filled)) [
          | inl full ↦
              rw (held, on_fill, h, full)
                (retire-IsIndexed id e e' m held (fill_entry-order e qty price (now m))
                  (fill_entry-is_live e qty price (now m) ∙ rw full) v)
          | inr part ↦
              rw (held, on_fill, h, part)
                (store-IsIndexed id e e' m held (fill_entry-order e qty price (now m))
                  (fill_entry-is_live e qty price (now m) ∙ rw (part, active-is_live e.status h)) v)
        ]
    | inr h ↦ rw (held, on_fill, h) v
  ]
]

request_cancel-IsIndexed :
    (m : OrderManager) (id : ℕ) → IsIndexed m → IsIndexed (request_cancel m id).1
unfolding request_cancel
request_cancel-IsIndexed m id v = elim (Option-cases (entry m id)) [
  | inl gone ↦ rw (gone, request_cancel) v
  | inr (e, held) ↦ elim (Bool-cases (is_active e.status)) [
    | inl h ↦
        rw (held, request_cancel, h)
          (store-IsIndexed id e (record e { status = pending_cancel; update_time = now m }) m held
            refl (sym (active-is_live e.status h)) v)
    | inr h ↦ rw (held, request_cancel, h) v
  ]
]

on_cancel-IsIndexed : (m : OrderManager) (id : ℕ) → IsIndexed m → IsIndexed (on_cancel m id).1
unfolding on_cancel
on_cancel-IsIndexed m id v = elim (Option-cases (entry m id)) [
  | inl gone ↦ rw (gone, on_cancel) v
  | inr (e, held) ↦ elim (Bool-cases (is_pending_cancel e.status)) [
    | inl h ↦
        rw (held, on_cancel, h)
          (retire-IsIndexed id e (record e { status = cancelled; update_time = now m }) m held refl
            refl v)
    | inr h ↦ rw (held, on_cancel, h) v
  ]
]

on_reject-IsIndexed : (m : OrderManager) (id : ℕ) → IsIndexed m → IsIndexed (on_reject m id)
unfolding on_reject
on_reject-IsIndexed m id v = elim (Option-cases (entry m id)) [
  | inl gone ↦ rw (gone, on_reject) v
  | inr (e, held) ↦ elim (Bool-cases (is_pending e.status)) [
    | inl h ↦
        rw (held, on_reject, h)
          (retire-IsIndexed id e (record e { status = rejected; update_time = now m }) m held refl
            refl v)
    | inr h ↦ rw (held, on_reject, h) v
  ]
]

-- Every call keeps both indexes exact.
perform-IsIndexed :
    (c : Call) (m : OrderManager) → IsValid m → IsIndexed m → IsIndexed (perform c m)
unfolding perform
perform-IsIndexed (Call.new o) m ok v = new_order-IsIndexed m o ok v
perform-IsIndexed (Call.accept id ref) m ok v = on_accept-IsIndexed m id ref v
perform-IsIndexed (Call.fill id qty price) m ok v = on_fill-IsIndexed m id qty price v
perform-IsIndexed (Call.ask_cancel id) m ok v = request_cancel-IsIndexed m id v
perform-IsIndexed (Call.cancel id) m ok v = on_cancel-IsIndexed m id v
perform-IsIndexed (Call.reject id) m ok v = on_reject-IsIndexed m id v

run-IsIndexed :
    (cs : List Call) (m : OrderManager)
    → AllInRange cs
    → m.next_id + length cs < u64_mod
    → IsValid m
    → IsIndexed m
    → IsIndexed (run cs m)
unfolding run
run-IsIndexed [] m words room ok v = v
run-IsIndexed (c ∷ cs) m words room ok v =
    run-IsIndexed cs (perform c m) words.1 (omega (arith, next_id-perform c m (omega arith)))
      (perform-IsValid c m words.0 (omega arith) ok) (perform-IsIndexed c m ok v)

-- After any history of fewer than 2^64 - 1 calls on a new manager, with 64-bit quantities, `open_orders` lists an id exactly once if its order
-- is of that symbol and in no terminal status, and never otherwise; so too by strategy.
pub open_orders_exact :
    (cs : List Call) (id key : ℕ)
    → AllInRange cs
    → length cs + 1 < u64_mod
    → let m = run cs empty_manager in
      (count id (open_orders m key) ≡ listed_by_symbol key (entry m id))
      × (count id (open_orders_by_strategy m key) ≡ listed_by_strategy key (entry m id))
unfolding open_orders open_orders_by_strategy
open_orders_exact cs id key words short =
    let v =
      run-IsIndexed cs empty_manager words (omega arith) empty_manager-IsValid
        empty_manager-IsIndexed in
    (v.by_symbol id key, v.by_strategy id key)
