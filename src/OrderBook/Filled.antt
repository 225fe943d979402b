-- ===== src/OrderBook/Filled.antt =====
-- A buy order that is alone at its price and is filled or cancelled whole.
use mathlib.Core.Path.{subst, ap₂}
use nebula_x_trader.Prelude.{
  ℕ, ◌-◌, ◌%◌, ◌^◌, ◌<◌, ◌≤◌, ◌≡◌, ◌≢◌, refl, sym, ap, ◌∙◌, true, false, some, arith, ◌==◌, ltb,
  if◌then◌else◌, Bool-cases, inl, inr,
}
use nebula_x_trader.Prelude.Words.{IsInt64}
use nebula_x_trader.Types.{OrderSlot, OrderSide, buy}
use nebula_x_trader.OrderPool.{no_index}
use nebula_x_trader.OrderBook.{
  OrderIndex, OrderBook, dec_table, unlink_table, at, write, set_prev, set_next, with_table,
  side_table, dec_level_qty, unlink_and_free, reduce, cancel, execute, best_bid,
}
use nebula_x_trader.OrderBook.Levels.{Table, PriceLevel, find, is_better}
use nebula_x_trader.OrderBook.Levels.Locate.{IsPrice}
use nebula_x_trader.OrderBook.Levels.Valid.{IsValid}
use nebula_x_trader.OrderBook.Levels.Map.{HasRoom}
use nebula_x_trader.OrderBook.Ghost.{ghost, filled_level_stays}

module _ {S : Type 0} where
  bids-set_next : (b : OrderBook S) (i n : ℕ) → (set_next b i n).bids ≡ b.bids
  bids-set_next b i n = elim (Bool-cases (i == no_index)) [ inl e ↦ rw e refl | inr e ↦ rw e refl ]

  bids-set_prev : (b : OrderBook S) (i n : ℕ) → (set_prev b i n).bids ≡ b.bids
  bids-set_prev b i n = elim (Bool-cases (i == no_index)) [ inl e ↦ rw e refl | inr e ↦ rw e refl ]

  bids-unlink :
      (b : OrderBook S) (idx : ℕ)
      → (at b idx).side ≡ buy
      → (unlink_and_free b idx).bids ≡ unlink_table b.bids (at b idx)
  unfolding unlink_and_free
  bids-unlink b idx side =
      let s = at b idx in
      let b2 = set_prev (set_next b s.prev_idx s.next_idx) s.next_idx s.prev_idx in
      let same : b2.bids ≡ b.bids =
        bids-set_prev (set_next b s.prev_idx s.next_idx) s.next_idx s.prev_idx
        ∙ bids-set_next b s.prev_idx s.next_idx in
      on_side s.side s b2 side ∙ ap (λ (t : Table). unlink_table t s) same
    where
      on_side :
          (d : OrderSide) (s : OrderSlot) (c : OrderBook S)
          → d ≡ buy
          → (with_table c d (unlink_table (side_table c d) s)).bids ≡ unlink_table c.bids s
      on_side d s c e =
          subst
            (λ (d : OrderSide).
              (with_table c d (unlink_table (side_table c d) s)).bids ≡ unlink_table c.bids s)
            (sym e) refl

  -- the book of `cancel` after all of the order's shares are taken off the level
  filled : OrderBook S → ℕ → OrderBook S
  filled b idx =
      let s = at b idx in
      dec_level_qty (write b idx (record s { remaining = 0 })) s.side s.price s.remaining

  at-filled :
      (b : OrderBook S) (idx : ℕ) → at (filled b idx) idx ≡ record (at b idx) { remaining = 0 }
  unfolding filled dec_level_qty
  at-filled b idx = by_side (at b idx).side
    where
      by_side :
          (d : OrderSide)
          → at
              (dec_level_qty
                (write b idx (record (at b idx) { remaining = 0 }))
                d
                (at b idx).price
                (at b idx).remaining)
              idx
            ≡ record (at b idx) { remaining = 0 }
      by_side buy = ground arith
      by_side OrderSide.sell = ground arith
      by_side OrderSide.no_side = ground arith

  bids-filled :
      (b : OrderBook S) (idx : ℕ)
      → (at b idx).side ≡ buy
      → (filled b idx).bids ≡ dec_table b.bids (at b idx).price (at b idx).remaining
  unfolding filled dec_level_qty
  bids-filled b idx side =
      subst
        (λ (d : OrderSide).
          (dec_level_qty (write b idx (record (at b idx) { remaining = 0 })) d (at b idx).price
            (at b idx).remaining).bids
          ≡ dec_table b.bids (at b idx).price (at b idx).remaining)
        (sym side) refl

module _ {S : Type 0} (ix : OrderIndex S) where
  cancel_all :
      (b : OrderBook S) (order_ref idx shares : ℕ)
      → ix.lookup b.index order_ref ≡ some idx
      → (at b idx).remaining ≤ shares
      → ((cancel ix b order_ref shares).0 ≡ true)
        × ((cancel ix b order_ref shares).1.bids ≡ (unlink_and_free (filled b idx) idx).bids)
  unfolding filled reduce cancel
  cancel_all b order_ref idx shares known all = rw (cancelled, clamped, nothing_left) (refl, refl)
    where
      cancelled :
          cancel ix b order_ref shares
          ≡ reduce ix b order_ref idx
              (if ltb (at b idx).remaining shares then (at b idx).remaining else shares)
              ((at b idx).remaining
                - (if ltb (at b idx).remaining shares then (at b idx).remaining else shares))
      cancelled = rw (known, cancel) refl

      clamped :
          (if ltb (at b idx).remaining shares then (at b idx).remaining else shares)
          ≡ (at b idx).remaining
      clamped = ground arith

      nothing_left : (at b idx).remaining - (at b idx).remaining ≡ 0
      nothing_left = omega arith

  -- Where a buy order is executed with all that remains of it or more, and its level has just that
  -- quantity, as when it is alone at its price, `execute` reports success and leaves a level at the price,
  -- with 2^32 - 1 orders and a quantity of 2^32 less the order's original shares, modulo 2^32; the best bid
  -- is no worse than this price. The bids are a valid table with a slot that was never used, and the price
  -- is an `int64_t` and neither of the two that mark a slot as free.
  pub filled_order_leaves_level :
      (b : OrderBook S) (order_ref idx shares : ℕ) (l : PriceLevel)
      → IsValid b.bids
      → HasRoom b.bids
      → ix.lookup b.index order_ref ≡ some idx
      → (at b idx).side ≡ buy
      → IsPrice (at b idx).price
      → IsInt64 (at b idx).price
      → find b.bids (at b idx).price ≡ some l
      → l.total_qty ≡ (at b idx).remaining
      → l.total_qty < 2 ^ 32
      → (at b idx).remaining ≤ shares
      → let (done, b') = execute ix b order_ref shares in
        (done ≡ true)
        × (find b'.bids (at b idx).price ≡ some (ghost (at b idx)))
        × ((ghost (at b idx)).count ≡ 2 ^ 32 - 1)
        × ((ghost (at b idx)).total_qty ≡ (2 ^ 32 - (at b idx).shares % 2 ^ 32) % 2 ^ 32)
        × (is_better b'.bids.is_bid (at b idx).price (best_bid b') ≡ false)
  unfolding best_bid
  filled_order_leaves_level b order_ref idx shares l v room known side price range there qty small
        all =
      let (done, same) = cancel_all b order_ref idx shares known all in
      let side' : (at (filled b idx) idx).side ≡ buy =
        ap (λ (s : OrderSlot). s.side) (at-filled b idx) ∙ side in
      let bids' : (cancel ix b order_ref shares).1.bids
          ≡ unlink_table (dec_table b.bids (at b idx).price (at b idx).remaining)
              (record (at b idx) { remaining = 0 }) =
        same
        ∙ bids-unlink (filled b idx) idx side'
        ∙ ap₂ unlink_table (bids-filled b idx side) (at-filled b idx) in
      let (stands, count, total, best, some_left) =
        filled_level_stays b.bids (record (at b idx) { remaining = 0 }) l v room price range there
          (at b idx).remaining (omega arith) in
      (
        done,
        ap (λ (t : Table). find t (at b idx).price) bids' ∙ stands,
        count,
        total,
        best_of (cancel ix b order_ref shares).1 (rw bids' best) (rw bids' some_left),
      )
    where
      best_of :
          (b' : OrderBook S)
          → is_better b'.bids.is_bid (at b idx).price b'.bids.best ≡ false
          → b'.bids.count ≢ 0
          → is_better b'.bids.is_bid (at b idx).price (best_bid b') ≡ false
      best_of b' best some_left = elim (Bool-cases (b'.bids.count == 0)) [
        | inl none_left ↦ absurd (some_left (ground arith))
        | inr some_there ↦ rw (some_there, best_bid) best
      ]
