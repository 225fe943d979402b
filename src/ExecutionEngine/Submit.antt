-- ===== src/ExecutionEngine/Submit.antt =====
-- What `submit_signal` does with an order, on every branch.
use mathlib.Core.Path.{subst, subst₂}
use nebula_x_trader.Prelude.{
  ℕ, ◌<◌, ◌≡◌, refl, sym, ap, true, none, some, List, if◌then◌else◌, length, arith, ◌^◌, ◌⊎◌,
  Bool-cases, Option-cases, inl, inr,
}
use nebula_x_trader.Prelude.Int.{ℤ, pos, eqb_ℤ}
use nebula_x_trader.Prelude.Words.{u64_mod}
use nebula_x_trader.Types.{Order, OrderStatus, Signal, OrderType, pending, filled, rejected}
use nebula_x_trader.OrderCodec.{OrderCodec}
use nebula_x_trader.OrderManager.{
  OrderManager, Entry, entry, now, on_accept, on_reject, new_order, fill_entry,
}
use nebula_x_trader.OrderManager.Table.{
  fresh_entry, accepted, rejected_by, entry-new_order, order-new_order, entry-on_accept,
  entry-on_fill, entry-on_reject,
}
use nebula_x_trader.OrderManager.Fills.{fill_entry-whole}
use nebula_x_trader.RiskManager
use nebula_x_trader.ExecutionEngine.Drops.{Undesired, dropped-Undesired, kept-Desired}
use nebula_x_trader.ExecutionEngine.{
  Engine, transmit, send_order, fill_order, route, place, order_quantity, signal_order, is_dropped,
  submit_signal,
}

module _ {K : Type 0} (proto : OrderCodec K) where
  -- How an order has to end, from the answers of the codec `k` and of the sender.
  pub sent_status : Engine K → Order → (List (List ℕ) → List ℕ → ℤ) → K → OrderStatus
  sent_status e o send k = elim (proto.encode_order k o 256).0 [
    | none ↦ rejected
    | some bytes ↦ if eqb_ℤ (send e.sent bytes) (pos (length bytes)) then pending else rejected
  ]

  pub outcome : Engine K → Order → OrderStatus
  unfolding sent_status
  outcome e o =
      if RiskManager.check_order e.risk o
      then (elim e.link [
        | none ↦ filled
        | some send ↦ elim e.codec [ none ↦ rejected | some k ↦ sent_status e o send k ]
      ])
      else rejected

  -- the entry of an order that was registered as `o` in the manager `m`
  abbrev Registered : OrderManager → Order → Type 0
  Registered m o = entry m o.order_id ≡ some (fresh_entry o.order_id o)

  -- what became of the order: its entry is there, unchanged in its terms
  abbrev pub Became : OrderManager → Order → OrderStatus → Type 0
  Became m o s = (e : Entry) × (entry m o.order_id ≡ some e) × (e.order ≡ o) × (e.status ≡ s)

  rejected-Became :
      (m : OrderManager) (o : Order) → Registered m o → Became (on_reject m o.order_id) o rejected
  rejected-Became m o h = (
    rejected_by (now m) (fresh_entry o.order_id o),
    ground (arith, entry-on_reject m o.order_id o.order_id),
    refl,
    refl,
  )

  fill_order-Became :
      (e : Engine K) (o : Order)
      → o.quantity < u64_mod
      → Registered e.manager o
      → Became (fill_order e o).manager o filled
  unfolding fill_order
  fill_order-Became e o word h =
      let m = e.manager in
      let m' = on_accept m o.order_id 0 in
      let e1 : Entry = accepted 0 (now m) (fresh_entry o.order_id o) in
      let whole = fill_entry-whole e1 o.price (now m') refl word in
      (
        fill_entry e1 o.quantity o.price (now m'),
        ground (
          arith,
          entry-on_accept m o.order_id 0 o.order_id,
          entry-on_fill m' o.order_id o.quantity o.price o.order_id,
        ),
        whole.2,
        whole.0,
      )

  send_order-Became :
      (e : Engine K) (o : Order) (send : List (List ℕ) → List ℕ → ℤ) (k : K)
      → e.codec ≡ some k
      → Registered e.manager o
      → Became (send_order proto e send o).manager o (sent_status e o send k)
  unfolding send_order transmit sent_status
  send_order-Became e o send k ready h = elim (Option-cases (proto.encode_order k o 256).0) [
    | inl failed ↦ rw (ready, send_order, failed, sent_status) (rejected-Became e.manager o h)
    | inr (bytes, framed) ↦ elim (Bool-cases (eqb_ℤ (send e.sent bytes) (pos (length bytes)))) [
      | inl done ↦
          rw (ready, send_order, framed, sent_status, done)
            (fresh_entry o.order_id o, h, refl, refl)
      | inr short ↦
          rw (ready, send_order, framed, sent_status, short) (rejected-Became e.manager o h)
    ]
  ]

  send_order-Outcome :
      (e : Engine K) (o : Order) (send : List (List ℕ) → List ℕ → ℤ)
      → Registered e.manager o
      → Became
          (send_order proto e send o).manager
          o
          (elim e.codec [ none ↦ rejected | some k ↦ sent_status e o send k ])
  unfolding send_order sent_status
  send_order-Outcome e o send h = elim (Option-cases e.codec) [
    | inl missing ↦ rw (missing, send_order) (rejected-Became e.manager o h)
    | inr (k, ready) ↦
        subst (Became (send_order proto e send o).manager o) (rw ready)
          (send_order-Became e o send k ready h)
  ]

  route_linked :
      (e : Engine K) (o : Order) (send : List (List ℕ) → List ℕ → ℤ)
      → RiskManager.check_order e.risk o ≡ true
      → e.link ≡ some send
      → route proto e o ≡ send_order proto e send o
  unfolding route
  route_linked e o send passed linked = ground arith

  outcome_linked :
      (e : Engine K) (o : Order) (send : List (List ℕ) → List ℕ → ℤ)
      → RiskManager.check_order e.risk o ≡ true
      → e.link ≡ some send
      → outcome e o ≡ (elim e.codec [ none ↦ rejected | some k ↦ sent_status e o send k ])
  unfolding outcome
  outcome_linked e o send passed linked = ground arith

  route-Became :
      (e : Engine K) (o : Order)
      → o.quantity < u64_mod
      → Registered e.manager o
      → Became (route proto e o).manager o (outcome e o)
  unfolding route outcome
  route-Became e o word h = elim (Bool-cases (RiskManager.check_order e.risk o)) [
    | inl passed ↦ elim (Option-cases e.link) [
      | inl unlinked ↦ rw (passed, unlinked, route, outcome) (fill_order-Became e o word h)
      | inr (send, linked) ↦
          subst₂ (λ (e' : Engine K) s. Became e'.manager o s)
            (sym (route_linked e o send passed linked))
            (sym (outcome_linked e o send passed linked)) (send_order-Outcome e o send h)
    ]
    | inr blocked ↦ rw (blocked, route, outcome) (rejected-Became e.manager o h)
  ]

  -- the order as it is registered
  abbrev pub registered : Engine K → Order → Order
  registered e order = record order { order_id = e.manager.next_id }

  outcome-manager :
      (e : Engine K) (m : OrderManager) (o : Order)
      → outcome (record e { manager = m }) o ≡ outcome e o
  unfolding outcome sent_status
  outcome-manager e m o = refl

  place-Became :
      (e : Engine K) (order : Order)
      → order.quantity < u64_mod
      → ((place proto e order).1 ≡ e.manager.next_id)
        × Became
            (place proto e order).0.manager
            (registered e order)
            (outcome e (registered e order))
  unfolding place
  place-Became e order word =
      let o = registered e order in
      let e' = record e { manager = (new_order e.manager order).0 } in
      let h : Registered e'.manager o =
        ground (arith, entry-new_order e.manager order e.manager.next_id) in
      (
        ap (λ (x : Order). x.order_id) (order-new_order e.manager order),
        rw order-new_order (
            subst (Became (route proto e' o).manager o) (outcome-manager e e'.manager o)
              (route-Became e' o word h)),
      )

pub order_quantity-lt : (base : ℕ) (strength : ℤ) → order_quantity base strength < 2 ^ 51
unfolding order_quantity
order_quantity-lt base strength = omega arith

order_word :
    (sig : Signal) (strategy_id : ℕ) (kind : OrderType) (base : ℕ)
    → (signal_order sig strategy_id kind (order_quantity base sig.strength)).quantity < u64_mod
unfolding signal_order
order_word sig strategy_id kind base = omega (arith, order_quantity-lt base sig.strength)

-- `submit_signal` drops a signal with no side, a negative price, no price for a limit order or a
-- quantity of zero, and then changes nothing and returns 0. It registers any other under the next
-- id, which it returns, and the order ends in the status that the risk check, the codec and the
-- sender decide: FILLED without a sender, PENDING if all of its frame went out, else REJECTED.
pub submit_signal-outcome :
    {K : Type 0} (proto : OrderCodec K) (e : Engine K) (sig : Signal) (strategy_id : ℕ)
    (kind : OrderType)
    → let qty = order_quantity e.base_qty sig.strength in
      let o = registered proto e (signal_order sig strategy_id kind qty) in
      let (e', id) = submit_signal proto e sig strategy_id kind in
      (Undesired sig kind qty × (e' ≡ e) × (id ≡ 0))
      ⊎ ((¬ (Undesired sig kind qty))
          × (id ≡ e.manager.next_id)
          × Became proto e'.manager o (outcome proto e o))
unfolding submit_signal
submit_signal-outcome proto e sig strategy_id kind =
    let qty = order_quantity e.base_qty sig.strength in
    let placed =
      place-Became proto e (signal_order sig strategy_id kind qty)
        (order_word sig strategy_id kind e.base_qty) in
    elim (Bool-cases (is_dropped sig kind qty)) [
      | inl dropped ↦
          rw (dropped, submit_signal) (inl (dropped-Undesired sig kind qty dropped, refl, refl))
      | inr taken ↦
          rw (taken, submit_signal) (inr (kept-Desired sig kind qty taken, placed.0, placed.1))
    ]
