-- ===== src/OrderManager/Fills.antt =====
-- What an execution report counts: the clamp to the ordered quantity, its wrap-around, and the
-- average price.
use nebula_x_trader.Prelude.{ℕ, ◌+◌, ◌≤◌, ◌<◌, ◌≡◌, refl, true, some, arith, leb, if◌then◌else◌}
use Prim.Native.Nat.{min}
use nebula_x_trader.Prelude.Int.{ℤ}
use nebula_x_trader.Prelude.Words.{u64_mod}
use nebula_x_trader.Types.{partial_fill, filled}
use nebula_x_trader.OrderManager.{
  OrderManager, Entry, entry, now, is_active, clamp_fill, fill_entry, on_fill,
}
use nebula_x_trader.OrderManager.Table.{entry-on_fill}
use nebula_x_trader.OrderManager.Invariant.{IsSound}

-- An execution of an active, sound order counts as far as the order reaches: the filled quantity is the
-- sum or the ordered quantity, whichever is less, the remainder is what is left, and the order is
-- FILLED exactly when nothing is. The sum must not leave the 64 bits.
pub on_fill_counts :
    (m : OrderManager) (id qty : ℕ) (price : ℤ) (e : Entry)
    → entry m id ≡ some e
    → IsSound id e
    → is_active e.status ≡ true
    → e.filled + qty < u64_mod
    → (e' : Entry) × (entry (on_fill m id qty price) id ≡ some e')
      × (e'.filled ≡ min (e.filled + qty) e.order.quantity)
      × (e'.filled + e'.remaining ≡ e.order.quantity)
      × (e'.status ≡ (if leb e.order.quantity (e.filled + qty) then filled else partial_fill))
unfolding fill_entry clamp_fill
on_fill_counts m id qty price e held v active room = (
  fill_entry e qty price (now m),
  ground (arith, entry-on_fill m id qty price id),
  ground arith,
  ground arith,
  ground arith,
)

-- An execution of an active, sound order for a 64-bit quantity that takes the sum past the 64 bits is
-- not clamped to what is left: the new filled quantity is the sum less 2^64, and below the old one.
on_fill_wraps :
    (m : OrderManager) (id qty : ℕ) (price : ℤ) (e : Entry)
    → entry m id ≡ some e
    → IsSound id e
    → is_active e.status ≡ true
    → qty < u64_mod
    → u64_mod ≤ e.filled + qty
    → (e' : Entry) × (entry (on_fill m id qty price) id ≡ some e')
      × (e'.filled + u64_mod ≡ e.filled + qty)
      × (e'.filled < e.filled)
unfolding fill_entry clamp_fill
on_fill_wraps m id qty price e held v active word wraps = (
  fill_entry e qty price (now m),
  ground (arith, entry-on_fill m id qty price id),
  ground arith,
  ground arith,
)

-- An execution of the whole of an order of which nothing is filled yet.
pub fill_entry-whole :
    (e : Entry) (price : ℤ) (t : ℕ)
    → e.filled ≡ 0
    → e.order.quantity < u64_mod
    → ((fill_entry e e.order.quantity price t).status ≡ filled)
      × ((fill_entry e e.order.quantity price t).filled ≡ e.order.quantity)
      × ((fill_entry e e.order.quantity price t).order ≡ e.order)
unfolding fill_entry clamp_fill
fill_entry-whole e price t none_yet word = (ground arith, ground arith, refl)
