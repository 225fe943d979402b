-- ===== src/ExecutionEngine.antt =====
-- The execution engine of execution/execution_engine.h: signals become orders, and reports drive the
-- order manager and the risk manager. A call holds the engine's mutex, so calls are atomic here.
pub mod Book
pub mod Drops
pub mod Submit
pub mod Flatten
pub mod Reports
pub mod Cancel
pub mod Limits
mod Examples
use nebula_x_trader.Prelude.{
  ℕ, ◌/◌, Bool, true, false, not, ◌&&◌, ◌||◌, Option, none, some, List, [], ◌∷◌, ◌==◌,
  if◌then◌else◌, length,
}
use nebula_x_trader.Prelude.Int.{ℤ, pos, ltb_ℤ, leb_ℤ, eqb_ℤ}
use nebula_x_trader.Prelude.Words.{mul64, to_u64}
use nebula_x_trader.Types.{
  Order, OrderSide, buy, sell, no_side, OrderType, market, limit, iceberg, Signal, Fill, BookQuote,
  strength_scale,
}
use nebula_x_trader.OrderCodec.{OrderCodec}
use nebula_x_trader.OrderManager
use nebula_x_trader.OrderManager.{OrderManager, Entry, is_active}
use nebula_x_trader.RiskManager
use nebula_x_trader.RiskManager.{RiskManager}

-- The members. `link` is the sender, if one is set: what `send` answers to a frame, given the frames
-- sent before it, newest first. `sent` are those frames.
pub record Engine (K : Type 0) : Type 0 where
  pub manager : OrderManager
  pub risk : RiskManager
  pub link : Option (List (List ℕ) → List ℕ → ℤ)
  pub codec : Option K
  pub sent : List (List ℕ)
  pub base_qty : ℕ
  pub flatten_issued : Bool
  pub book_waiting : Bool
  pub book_result : BookQuote

-- the constructor: no sender, no codec, and 100 shares at full strength
abbrev pub new_engine : {K : Type 0} → OrderManager → RiskManager → Engine K
new_engine om rm = record {
  manager = om;
  risk = rm;
  link = none;
  codec = none;
  sent = [];
  base_qty = 100;
  flatten_issued = false;
  book_waiting = false;
  book_result = record { symbol_id = 0; bid = pos 0; bid_vol = 0; ask = pos 0; ask_vol = 0 };
}

abbrev pub set_base_qty : {K : Type 0} → ℕ → Engine K → Engine K
set_base_qty qty e = record e { base_qty = qty }

abbrev pub set_sender : {K : Type 0} → Option (List (List ℕ) → List ℕ → ℤ) → Engine K → Engine K
set_sender sender e = record e { link = sender }

abbrev pub set_codec : {K : Type 0} → Option K → Engine K → Engine K
set_codec codec e = record e { codec = codec }

-- `quantity = base_qty × strength / kStrengthScale`, in 64 bits
pub order_quantity : ℕ → ℤ → ℕ
order_quantity base strength = mul64 base (to_u64 strength) / strength_scale

abbrev pub is_no_side : OrderSide → Bool
is_no_side no_side = true
is_no_side _ = false

abbrev pub is_limit : OrderType → Bool
is_limit limit = true
is_limit _ = false

-- the signals that `submit_signal` drops
pub is_dropped : Signal → OrderType → ℕ → Bool
is_dropped sig kind qty =
    is_no_side sig.side
    || ltb_ℤ sig.price (pos 0)
    || (is_limit kind && leb_ℤ sig.price (pos 0))
    || qty == 0

-- the order of a signal; its id comes from the order manager
pub signal_order : Signal → ℕ → OrderType → ℕ → Order
signal_order sig strategy_id kind qty = record {
  order_id = 0;
  strategy_id = strategy_id;
  symbol_id = sig.locate;
  side = sig.side;
  kind = kind;
  price = sig.price;
  quantity = qty;
  timestamp = sig.timestamp;
}

-- a frame handed to the sender: whether all of it went out, and the engine after that
pub transmit : {K : Type 0} → Engine K → (List (List ℕ) → List ℕ → ℤ) → List ℕ → Bool × Engine K
transmit e send frame =
    (eqb_ℤ (send e.sent frame) (pos (length frame)), record e { sent = frame ∷ e.sent })

abbrev pub reject : {K : Type 0} → ℕ → Engine K → Engine K
reject id e = record e { manager = OrderManager.on_reject e.manager id }

-- the branch of `submit_signal` without a sender: accepted and filled at once
pub fill_order : {K : Type 0} → Engine K → Order → Engine K
fill_order e o =
    let m = OrderManager.on_accept e.manager o.order_id 0 in
    record e {
      manager = OrderManager.on_fill m o.order_id o.quantity o.price;
      risk = RiskManager.on_fill e.risk o o.quantity;
    }

module _ {K : Type 0} (proto : OrderCodec K) where
  -- the branch of `submit_signal` with a sender
  pub send_order : Engine K → (List (List ℕ) → List ℕ → ℤ) → Order → Engine K
  unfolding transmit
  send_order e send o = elim e.codec [
    | none ↦ reject o.order_id e
    | some k ↦
        let (frame, k') = proto.encode_order k o 256 in
        let e' = record e { codec = some k' } in
        elim frame [
          | none ↦ reject o.order_id e'
          | some bytes ↦
              let (done, e'') = transmit e' send bytes in
              if done then e'' else reject o.order_id e''
        ]
  ]

  -- `submit_signal` once the order is registered: the check, and the sending or the filling
  pub route : Engine K → Order → Engine K
  route e o =
      if RiskManager.check_order e.risk o
      then elim e.link [ none ↦ fill_order e o | some send ↦ send_order e send o ]
      else reject o.order_id e

  -- `submit_signal` from the registration of the order on
  pub place : Engine K → Order → Engine K × ℕ
  place e order =
      let (m, o) = OrderManager.new_order e.manager order in
      (route (record e { manager = m }) o, o.order_id)

  pub submit_signal : Engine K → Signal → ℕ → OrderType → Engine K × ℕ
  submit_signal e sig strategy_id kind =
      let qty = order_quantity e.base_qty sig.strength in
      if is_dropped sig kind qty then (e, 0) else place e (signal_order sig strategy_id kind qty)

  -- one order of the iteration in `flatten_on_drawdown`
  pub flatten_one : ℕ → Entry → Engine K → Engine K
  unfolding transmit
  flatten_one id entry e =
      if is_active entry.status
      then (elim e.link [
        | none ↦ record e { manager = (OrderManager.request_cancel e.manager id).1 }
        | some send ↦ elim e.codec [
          | none ↦ record e { manager = (OrderManager.request_cancel e.manager id).1 }
          | some k ↦
              let (frame, k') = proto.encode_cancel_request k id 64 in
              let e' = record e { codec = some k' } in
              elim frame [
                | none ↦ e'
                | some bytes ↦
                    let (done, e'') = transmit e' send bytes in
                    if done
                    then record e'' { manager = (OrderManager.request_cancel e''.manager id).1 }
                    else e''
              ]
        ]
      ])
      else e

  -- The iteration visits each order once, and changes no other, so the table as it was serves.
  pub flatten_each : List (ℕ × Entry) → Engine K → Engine K
  flatten_each [] e = e
  flatten_each ((id, entry) ∷ rest) e = flatten_each rest (flatten_one id entry e)

  pub flatten_on_drawdown : Engine K → Engine K
  flatten_on_drawdown e =
      if e.flatten_issued
      then e
      else if RiskManager.drawdown_flatten e.risk
      then flatten_each e.manager.orders (record e { flatten_issued = true })
      else e

  -- an execution: both managers, then the drawdown
  pub execute : Engine K → Order → ℕ → ℕ → ℤ → Engine K
  execute e o id qty price = flatten_on_drawdown (record e {
    manager = OrderManager.on_fill e.manager id qty price;
    risk = RiskManager.on_fill e.risk o qty;
  })

  pub on_order_fill : Engine K → ℕ → ℕ → ℤ → Engine K
  on_order_fill e id qty price = elim (OrderManager.order e.manager id) [
    | none ↦ e
    | some o ↦ execute e o id qty price
  ]

  pub on_order_report : Engine K → Fill → Engine K
  on_order_report e f = elim (OrderManager.order e.manager f.order_id) [
    | none ↦ e
    | some o ↦
        if f.kind == b'A'
        then record e { manager = OrderManager.on_accept e.manager f.order_id f.exchange_ref }
        else if f.kind == b'E'
        then execute e o f.order_id f.filled_qty f.fill_price
        else if f.kind == b'C'
        then record e { manager = (OrderManager.on_cancel e.manager f.order_id).1 }
        else if f.kind == b'J'
        then record e { manager = OrderManager.on_reject e.manager f.order_id }
        else e
  ]

  pub cancel_order : Engine K → ℕ → Bool × Engine K
  unfolding transmit
  cancel_order e id = elim e.link [
    | none ↦ (false, e)
    | some send ↦ elim e.codec [
      | none ↦ (false, e)
      | some k ↦
          let (asked, m) = OrderManager.request_cancel e.manager id in
          if asked
          then (let (frame, k') = proto.encode_cancel_request k id 64 in
              let e' = record e { manager = m; codec = some k' } in
              elim frame [ none ↦ (false, e') | some bytes ↦ transmit e' send bytes ])
          else (false, e)
    ]
  ]
