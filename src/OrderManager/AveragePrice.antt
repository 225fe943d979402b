-- ===== src/OrderManager/AveragePrice.antt =====
-- The average fill price of an order lies within the range of the prices that it was filled at.
use nebula_x_trader.Prelude.{
  ℕ, ◌+◌, ◌*◌, ◌/◌, ◌^◌, ◌≤◌, ◌<◌, ◌≡◌, refl, some, List, [], ◌∷◌, arith, ◌==◌, inl, inr,
  Bool-cases, Option-cases, length,
}
use nebula_x_trader.Prelude.Int.{pos, pos_part, ◌≤ℤ◌}
use nebula_x_trader.Prelude.Mean.{mul_mono, mul_cancel, mean_bounds, mean_price}
use nebula_x_trader.Prelude.Dict.{lookup-nil}
use nebula_x_trader.Prelude.Words.{u64_mod}
use nebula_x_trader.Types.{Order}
use nebula_x_trader.OrderManager.{
  OrderManager, Entry, entry, now, is_active, is_pending, is_pending_cancel, on_accept,
  request_cancel, on_cancel, on_reject, clamp_fill, fill_entry, on_fill, empty_manager, new_order,
}
use nebula_x_trader.OrderManager.Table.{
  Rewrites, accepted, filled_up, cancel_requested, cancelled_by, rejected_by, fresh_entry,
  entry-on_accept, entry-on_fill, entry-request_cancel, entry-on_cancel, entry-on_reject,
  entry-new_order,
}
use nebula_x_trader.OrderManager.Invariant.{
  IsSound, IsValid, perform-IsValid, next_id-perform, empty_manager-IsValid,
}
use nebula_x_trader.OrderManager.Calls.{Call, perform, run, AllInRange}

-- what the clamp counts, for quantities below 2^63
clamp_fill_sum :
    (e : Entry) (qty id : ℕ)
    → IsSound id e
    → e.order.quantity < 2 ^ 63
    → qty < 2 ^ 63
    → ((clamp_fill e qty).1 ≡ e.filled + (clamp_fill e qty).0) × ((clamp_fill e qty).1 < 2 ^ 63)
unfolding clamp_fill
clamp_fill_sum e qty id v small word = (ground arith, ground arith)

module _ (lo hi : ℕ) where
  -- The order is of less than 2^63 shares; once some are filled, the average is within bounds.
  pub record IsPriced (e : Entry) : Type 0 where
    pub average : ℕ
    pub shown : e.avg_fill_price ≡ pos average
    pub above : lo * e.filled ≤ average * e.filled
    pub below : average * e.filled ≤ hi * e.filled
    pub small : e.order.quantity < 2 ^ 63

  filled_up-IsPriced :
      (qty p t id : ℕ) (e : Entry)
      → qty < 2 ^ 63
      → lo ≤ p
      → p ≤ hi
      → IsSound id e
      → IsPriced e
      → IsPriced (filled_up qty (pos p) t e)
  unfolding fill_entry
  filled_up-IsPriced qty p t id e word above below v w = elim (Bool-cases (is_active e.status)) [
    | inl active ↦
        let c : ℕ = (clamp_fill e qty).0 in
        let sum = clamp_fill_sum e qty id v w.small word in
        elim (Bool-cases ((clamp_fill e qty).1 == 0)) [
          | inl none_yet ↦ rw active (record {
            average = 0;
            shown = rw none_yet;
            above = ground arith;
            below = ground arith;
            small = w.small;
          })
          | inr some_qty ↦
              let bounds =
                mean_bounds lo hi w.average e.filled p c w.above w.below above below
                  (ground arith) in
              rw active (record {
                average = (w.average * e.filled + p * c) / (e.filled + c);
                shown =
                    rw (some_qty, w.shown, sum.0) (mean_price w.average e.filled p c (omega arith));
                above = mul_mono lo _ (clamp_fill e qty).1 bounds.0;
                below = mul_mono _ hi (clamp_fill e qty).1 bounds.1;
                small = w.small;
              })
        ]
    | inr idle ↦ rw idle w
  ]

  fresh_entry-IsPriced : (id : ℕ) (o : Order) → o.quantity < 2 ^ 63 → IsPriced (fresh_entry id o)
  fresh_entry-IsPriced id o h = record {
    average = 0;
    shown = refl;
    above = omega arith;
    below = omega arith;
    small = h;
  }

  accepted-IsPriced : (ref t : ℕ) (e : Entry) → IsPriced e → IsPriced (accepted ref t e)
  accepted-IsPriced ref t e w = elim (Bool-cases (is_pending e.status)) [
    | inl h ↦ rw h (record {
      average = w.average;
      shown = w.shown;
      above = w.above;
      below = w.below;
      small = w.small;
    })
    | inr h ↦ rw h w
  ]

  cancel_requested-IsPriced : (t : ℕ) (e : Entry) → IsPriced e → IsPriced (cancel_requested t e)
  cancel_requested-IsPriced t e w = elim (Bool-cases (is_active e.status)) [
    | inl h ↦ rw h (record {
      average = w.average;
      shown = w.shown;
      above = w.above;
      below = w.below;
      small = w.small;
    })
    | inr h ↦ rw h w
  ]

  cancelled_by-IsPriced : (t : ℕ) (e : Entry) → IsPriced e → IsPriced (cancelled_by t e)
  cancelled_by-IsPriced t e w = elim (Bool-cases (is_pending_cancel e.status)) [
    | inl h ↦ rw h (record {
      average = w.average;
      shown = w.shown;
      above = w.above;
      below = w.below;
      small = w.small;
    })
    | inr h ↦ rw h w
  ]

  rejected_by-IsPriced : (t : ℕ) (e : Entry) → IsPriced e → IsPriced (rejected_by t e)
  rejected_by-IsPriced t e w = elim (Bool-cases (is_pending e.status)) [
    | inl h ↦ rw h (record {
      average = w.average;
      shown = w.shown;
      above = w.above;
      below = w.below;
      small = w.small;
    })
    | inr h ↦ rw h w
  ]

  abbrev pub AllPriced : OrderManager → Type 0
  AllPriced m = (id : ℕ) (e : Entry) → entry m id ≡ some e → IsPriced e

  Rewrites-AllPriced :
      (id : ℕ) (f : Entry → Entry) (m m' : OrderManager)
      → Rewrites id f m m'
      → IsValid m
      → ((j : ℕ) (e : Entry) → IsSound j e → IsPriced e → IsPriced (f e))
      → AllPriced m
      → AllPriced m'
  Rewrites-AllPriced id f m m' r v keeps w j e' h = elim (Option-cases (entry m j)) [
    | inl gone ↦ ground (arith, r j)
    | inr (e, held) ↦ ground (arith, r j, w j e, keeps j e (v.entries j e held) (w j e held))
  ]

  -- Fill prices lie between `lo` and `hi`, and quantities are below 2^63.
  abbrev pub IsBounded : Call → Type 0
  IsBounded (Call.new o) = o.quantity < 2 ^ 63
  IsBounded (Call.accept id ref) = Unit
  IsBounded (Call.fill id qty price) =
      (qty < 2 ^ 63)
      × (price ≡ pos (pos_part price))
      × (lo ≤ pos_part price)
      × (pos_part price ≤ hi)
  IsBounded (Call.ask_cancel id) = Unit
  IsBounded (Call.cancel id) = Unit
  IsBounded (Call.reject id) = Unit

  abbrev pub AllBounded : List Call → Type 0
  AllBounded [] = Unit
  AllBounded (c ∷ cs) = IsBounded c × AllBounded cs

  new_order-AllPriced :
      (m : OrderManager) (o : Order)
      → o.quantity < 2 ^ 63
      → AllPriced m
      → AllPriced (new_order m o).0
  new_order-AllPriced m o small w j e h =
      ground (arith, entry-new_order m o j, w j e, fresh_entry-IsPriced m.next_id o small)

  perform-AllPriced :
      (c : Call) (m : OrderManager)
      → IsBounded c
      → IsValid m
      → AllPriced m
      → AllPriced (perform c m)
  unfolding perform
  perform-AllPriced (Call.new o) m b v w = new_order-AllPriced m o b w
  perform-AllPriced (Call.accept id ref) m b v w =
      Rewrites-AllPriced id (accepted ref (now m)) m (on_accept m id ref) (entry-on_accept m id ref)
        v (λ j e s p. accepted-IsPriced ref (now m) e p) w
  perform-AllPriced (Call.fill id qty price) m b v w =
      Rewrites-AllPriced id (filled_up qty price (now m)) m (on_fill m id qty price)
        (entry-on_fill m id qty price) v
        (λ j e s p. rw b.1 (filled_up-IsPriced qty (pos_part price) (now m) j e b.0 b.2 b.3 s p)) w
  perform-AllPriced (Call.ask_cancel id) m b v w =
      Rewrites-AllPriced id (cancel_requested (now m)) m (request_cancel m id).1
        (entry-request_cancel m id) v (λ j e s p. cancel_requested-IsPriced (now m) e p) w
  perform-AllPriced (Call.cancel id) m b v w =
      Rewrites-AllPriced id (cancelled_by (now m)) m (on_cancel m id).1 (entry-on_cancel m id) v
        (λ j e s p. cancelled_by-IsPriced (now m) e p) w
  perform-AllPriced (Call.reject id) m b v w =
      Rewrites-AllPriced id (rejected_by (now m)) m (on_reject m id) (entry-on_reject m id) v
        (λ j e s p. rejected_by-IsPriced (now m) e p) w

  run-AllPriced :
      (cs : List Call) (m : OrderManager)
      → AllBounded cs
      → AllInRange cs
      → m.next_id + length cs < u64_mod
      → IsValid m
      → AllPriced m
      → AllPriced (run cs m)
  unfolding run
  run-AllPriced [] m bounded words room v w = w
  run-AllPriced (c ∷ cs) m bounded words room v w =
      run-AllPriced cs (perform c m) bounded.1 words.1
        (omega (arith, next_id-perform c m (omega arith)))
        (perform-IsValid c m words.0 (omega arith) v) (perform-AllPriced c m bounded.0 v w)

  IsPriced-bounds :
      (e : Entry)
      → IsPriced e
      → 0 < e.filled
      → (pos lo ≤ℤ e.avg_fill_price) × (e.avg_fill_price ≤ℤ pos hi)
  IsPriced-bounds e w some_qty = rw w.shown (
    omega (arith, mul_cancel lo w.average e.filled some_qty w.above),
    omega (arith, mul_cancel w.average hi e.filled some_qty w.below),
  )

-- If every fill of a history is at a price from `lo` to `hi`, then the average fill price of every
-- order of which something is filled is from `lo` to `hi` too: the division, which rounds down,
-- never leaves the range. Quantities are
-- below 2^63, where the casts to `int64_t` are exact; the products are taken without overflow. The
-- history is of fewer than 2^64 - 1 calls on a new manager.
pub average_price_bounds :
    (lo hi : ℕ) (cs : List Call) (id : ℕ) (e : Entry)
    → AllBounded lo hi cs
    → AllInRange cs
    → length cs + 1 < u64_mod
    → entry (run cs empty_manager) id ≡ some e
    → 0 < e.filled
    → (pos lo ≤ℤ e.avg_fill_price) × (e.avg_fill_price ≤ℤ pos hi)
average_price_bounds lo hi cs id e bounded words short held some_qty =
    IsPriced-bounds lo hi e
      (run-AllPriced lo hi cs empty_manager bounded words (omega arith) empty_manager-IsValid
        (λ j e' h. absurd (cc (lookup-nil {V = Entry} j))) id e held)
      some_qty
