-- ===== src/OrderManager/Calls.antt =====
-- A client's calls of `OrderManager` in order, and the lifecycle that the comment on the class
-- draws, as a step relation on statuses.
use nebula_x_trader.Prelude.{ℕ, ◌<◌, List, [], ◌∷◌}
use nebula_x_trader.Prelude.Int.{ℤ}
use nebula_x_trader.Prelude.Words.{u64_mod}
use nebula_x_trader.Types.{
  Order, OrderStatus, pending, submitted, partial_fill, pending_cancel, filled, cancelled, rejected,
}
use nebula_x_trader.OrderManager.{
  OrderManager, new_order, on_accept, on_fill, request_cancel, on_cancel, on_reject,
}

pub data Call : Type 0 where
  new : Order → Call
  accept : ℕ → ℕ → Call
  fill : ℕ → ℕ → ℤ → Call
  ask_cancel cancel reject : ℕ → Call

unfoldable pub perform : Call → OrderManager → OrderManager
perform (new o) m = (new_order m o).0
perform (accept id ref) m = on_accept m id ref
perform (fill id qty price) m = on_fill m id qty price
perform (ask_cancel id) m = (request_cancel m id).1
perform (cancel id) m = (on_cancel m id).1
perform (reject id) m = on_reject m id

unfoldable pub run : List Call → OrderManager → OrderManager
run [] m = m
run (c ∷ cs) m = run cs (perform c m)

-- Quantities are 64-bit words.
abbrev pub InRange : Call → Type 0
InRange (new o) = o.quantity < u64_mod
InRange (accept id ref) = Unit
InRange (fill id qty price) = qty < u64_mod
InRange (ask_cancel id) = Unit
InRange (cancel id) = Unit
InRange (reject id) = Unit

abbrev pub AllInRange : List Call → Type 0
AllInRange [] = Unit
AllInRange (c ∷ cs) = InRange c × AllInRange cs

-- One report moves the status of an order along one of these.
pub data Step : OrderStatus → OrderStatus → Type 0 where
  accepted : Step pending submitted
  refused : Step pending rejected
  first_part : Step submitted partial_fill
  next_part : Step partial_fill partial_fill
  filled_at_once : Step submitted filled
  filled_up : Step partial_fill filled
  withdrawn : Step submitted pending_cancel
  rest_withdrawn : Step partial_fill pending_cancel
  confirmed : Step pending_cancel cancelled

pub data Reach (s : OrderStatus) : OrderStatus → Type 0 where
  here : Reach s s
  next : {t u : OrderStatus} → Reach s t → Step t u → Reach s u
