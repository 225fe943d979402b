-- ===== src/ExecutionEngine/Reports.antt =====
-- What an execution report does to the two managers: where they agree, and where they part.
use nebula_x_trader.Prelude.{
  ℕ, ◌+◌, ◌≤◌, ◌<◌, ◌≡◌, refl, true, false, some, ◌==◌, arith, Bool-cases, inl, inr,
}
use nebula_x_trader.Prelude.Int.{ℤ}
use nebula_x_trader.Prelude.Words.{u64_mod}
use nebula_x_trader.Types.{Order, OrderSide, buy, sell, no_side, Fill}
use nebula_x_trader.OrderCodec.{OrderCodec}
use nebula_x_trader.OrderManager.{
  OrderManager, Entry, entry, now, is_active, request_cancel, on_fill,
}
use nebula_x_trader.OrderManager.Table.{cancel_requested, entry-request_cancel, entry-on_fill}
use nebula_x_trader.OrderManager.Invariant.{IsSound}
use nebula_x_trader.OrderManager.Lifecycle.{order-entry}
use nebula_x_trader.OrderManager.Fills.{on_fill_counts}
use nebula_x_trader.RiskManager.{position}
use nebula_x_trader.RiskManager.Limits.{moved, position-on_fill}
use nebula_x_trader.ExecutionEngine.{Engine, execute, on_order_report}
use nebula_x_trader.ExecutionEngine.Flatten.{flatten_on_drawdown-keeps, risk-flatten_on_drawdown}

-- The position can take the report: a buy stays in 64 bits, and what is sold is held.
abbrev pub CanMove : OrderSide → ℕ → ℕ → Type 0
CanMove buy before qty = before + qty < u64_mod
CanMove sell before qty = (qty ≤ before) × (before < u64_mod)
CanMove no_side before qty = ⊥

-- The position moves by the quantity: up for a buy, down for a sale.
abbrev pub HasMoved : OrderSide → ℕ → ℕ → ℕ → Type 0
HasMoved buy before qty after = after ≡ before + qty
HasMoved sell before qty after = after + qty ≡ before
HasMoved no_side before qty after = after ≡ before

moved-HasMoved :
    (side : OrderSide) (before qty : ℕ)
    → CanMove side before qty
    → HasMoved side before qty (moved side before qty)
moved-HasMoved buy before qty h = ground arith
moved-HasMoved sell before qty h = ground arith
moved-HasMoved no_side before qty h = absurd h

-- The filled quantity under `id` is `f`.
abbrev pub Filled : ℕ → ℕ → OrderManager → Type 0
Filled id f m = (x : Entry) × (entry m id ≡ some x) × (x.filled ≡ f)

request_cancel-Filled :
    (id f : ℕ) (m : OrderManager) (k : ℕ) → Filled id f m → Filled id f (request_cancel m k).1
request_cancel-Filled id f m k (x, held, at) = elim (Bool-cases (k == id)) [
  | inl hit ↦
      (cancel_requested (now m) x, ground (arith, entry-request_cancel m k id), ground arith)
  | inr miss ↦ (x, ground (arith, entry-request_cancel m k id), at)
]

module _ {K : Type 0} (proto : OrderCodec K) where
  execute-Filled :
      (e : Engine K) (o : Order) (id qty f : ℕ) (price : ℤ)
      → Filled id f (on_fill e.manager id qty price)
      → Filled id f (execute proto e o id qty price).manager
  unfolding execute
  execute-Filled e o id qty f price h =
      flatten_on_drawdown-keeps proto (Filled id f) (λ m k. request_cancel-Filled id f m k) _ h

  execute-position :
      (e : Engine K) (o : Order) (id qty : ℕ) (price : ℤ)
      → position (execute proto e o id qty price).risk o.symbol_id
        ≡ moved o.side (position e.risk o.symbol_id) qty
  unfolding execute
  execute-position e o id qty price = rw risk-flatten_on_drawdown (position-on_fill e.risk o qty)

  -- an execution report of a known order
  report_executes :
      (e : Engine K) (f : Fill) (x : Entry)
      → entry e.manager f.order_id ≡ some x
      → f.kind ≡ b'E'
      → on_order_report proto e f ≡ execute proto e x.order f.order_id f.filled_qty f.fill_price
  unfolding on_order_report
  report_executes e f x held kind = ground (arith, order-entry e.manager f.order_id x held)

  report_position :
      (e : Engine K) (f : Fill) (x : Entry)
      → entry e.manager f.order_id ≡ some x
      → f.kind ≡ b'E'
      → CanMove x.order.side (position e.risk x.order.symbol_id) f.filled_qty
      → HasMoved x.order.side
          (position e.risk x.order.symbol_id)
          f.filled_qty
          (position (on_order_report proto e f).risk x.order.symbol_id)
  report_position e f x held kind room =
      rw
        (
          report_executes e f x held kind,
          execute-position e x.order f.order_id f.filled_qty f.fill_price,
        )
        (moved-HasMoved x.order.side (position e.risk x.order.symbol_id) f.filled_qty room)

  -- An execution report of an active order that buys or sells moves the position of its symbol by the whole report: up for a
  -- buy, which must stay in 64 bits, and down for a sale, which must be held. A report that stays within
  -- what is left of the order moves its filled quantity by as much; one for more fills the order, and no
  -- more, so that the two managers part. The sum of the filled quantity and the report is in 64 bits.
  pub execution_agrees :
      (e : Engine K) (f : Fill) (x : Entry)
      → entry e.manager f.order_id ≡ some x
      → IsSound f.order_id x
      → is_active x.status ≡ true
      → f.kind ≡ b'E'
      → x.filled + f.filled_qty < u64_mod
      → CanMove x.order.side (position e.risk x.order.symbol_id) f.filled_qty
      → let e' = on_order_report proto e f in
        HasMoved x.order.side
          (position e.risk x.order.symbol_id)
          f.filled_qty
          (position e'.risk x.order.symbol_id)
        × (x.filled + f.filled_qty ≤ x.order.quantity
            → Filled f.order_id (x.filled + f.filled_qty) e'.manager)
        × (x.order.quantity < x.filled + f.filled_qty
            → Filled f.order_id x.order.quantity e'.manager)
  execution_agrees e f x held v active kind room can =
      let (y, now_held, counted, _, _) =
        on_fill_counts e.manager f.order_id f.filled_qty f.fill_price x held v active room in
      let executes = report_executes e f x held kind in
      (
        report_position e f x held kind can,
        λ fits. rw executes (
            execute-Filled e x.order f.order_id f.filled_qty (x.filled + f.filled_qty) f.fill_price
              (y, now_held, omega arith)),
        λ excess. rw executes (
            execute-Filled e x.order f.order_id f.filled_qty x.order.quantity f.fill_price
              (y, now_held, omega arith)),
      )

  -- An execution report of an order to buy or sell that is known but not active, such as one that crosses with the
  -- request to cancel it, is dropped by the order manager and booked by the risk manager: the filled
  -- quantity stays, and the position moves by the whole report, up for a buy that stays in 64 bits, down
  -- for a sale of no more than is held.
  pub late_execution_diverges :
      (e : Engine K) (f : Fill) (x : Entry)
      → entry e.manager f.order_id ≡ some x
      → is_active x.status ≡ false
      → f.kind ≡ b'E'
      → CanMove x.order.side (position e.risk x.order.symbol_id) f.filled_qty
      → let e' = on_order_report proto e f in
        Filled f.order_id x.filled e'.manager
        × HasMoved x.order.side
            (position e.risk x.order.symbol_id)
            f.filled_qty
            (position e'.risk x.order.symbol_id)
  late_execution_diverges e f x held idle kind can = (
    rw (report_executes e f x held kind) (
        execute-Filled e x.order f.order_id f.filled_qty x.filled f.fill_price (
          x,
          ground (arith, entry-on_fill e.manager f.order_id f.filled_qty f.fill_price f.order_id),
          refl,
        )),
    report_position e f x held kind can,
  )
