-- ===== src/RiskManager/AtMark.antt =====
-- A fill at the marked price neither makes nor loses money, but for the rounding of the average.
use nebula_x_trader.Prelude.{
  ℕ, ◌+◌, ◌*◌, ◌/◌, ◌%◌, ◌^◌, ◌<◌, ◌≡◌, ◌≢◌, refl, sym, ap, ◌∙◌, true, false, arith, ◌==◌, ltb,
  if◌then◌else◌,
}
use mathlib.Core.Path.{ap₂}
use native.Mathlib.Nat.{div-add-mod}
use nebula_x_trader.Prelude.Int.{
  ℤ, pos, pos_part, neg_part, ◌+ℤ◌, ◌-ℤ◌, ◌*ℤ◌, ◌<ℤ◌, int_laws, -ℤ_parts,
}
use nebula_x_trader.Prelude.Int.Ring.{*ℤ_parts}
use nebula_x_trader.Prelude.Mean.{mean_price}
use nebula_x_trader.Prelude.Words.{IsInt64, to_i64-to_u64, add64, to_i64, to_i64_small}
use nebula_x_trader.Types.{Order, buy, sell}
use nebula_x_trader.RiskManager.{
  RiskManager, max_locate, locate_idx, fetch_add, floating, unrealized, equity, buy_fill, sell_fill,
  book_fill, on_fill,
}
use nebula_x_trader.RiskManager.Equity.{equity_move, equity-update_equity, locate_idx-lt}

fetch_add-exact : (a b : ℤ) → IsInt64 (a +ℤ b) → fetch_add a b ≡ a +ℤ b
fetch_add-exact a b h = to_i64-to_u64 (a +ℤ b) h

zero_mul : (z : ℤ) → pos 0 *ℤ z ≡ pos 0
unfolding ◌*ℤ◌
zero_mul z = ground arith

-- With a mark, what a position floats is its size times the distance to the average cost.
floating_lem :
    (n : ℕ) (mark avg : ℤ)
    → n < 2 ^ 63
    → pos 0 <ℤ mark
    → floating n mark avg ≡ pos n *ℤ (mark -ℤ avg)
unfolding floating
floating_lem n mark avg small marked = ground (arith, to_i64_small n, zero_mul (mark -ℤ avg))

sell_balance : (k f : ℕ) (d a : ℤ) → (a +ℤ d *ℤ pos f) +ℤ pos k *ℤ d ≡ a +ℤ pos (f + k) *ℤ d
sell_balance k f d a =
    omega (int_laws, *ℤ_parts d (pos f), *ℤ_parts (pos k) d, *ℤ_parts (pos (f + k)) d)

buy_balance :
    (n f a p avg : ℕ)
    → (n + f) * avg + (a * n + p * f) % (n + f) ≡ a * n + p * f
    → pos (n + f) *ℤ (pos p -ℤ pos avg)
      ≡ pos n *ℤ (pos p -ℤ pos a) +ℤ pos ((a * n + p * f) % (n + f))
buy_balance n f a p avg h = omega (
  int_laws,
  *ℤ_parts (pos (n + f)) (pos p -ℤ pos avg),
  *ℤ_parts (pos n) (pos p -ℤ pos a),
  ap (λ (t : ℕ). (n + f) * t) (-ℤ_parts (pos p) (pos avg)),
  ap (λ (t : ℕ). n * t) (-ℤ_parts (pos p) (pos a)),
  h,
)

sell_elsewhere :
    (r : RiskManager) (k : ℕ) (price : ℤ) (f l : ℕ)
    → l ≢ k
    → unrealized (sell_fill r k price f) l ≡ unrealized r l
unfolding sell_fill
sell_elsewhere r k price f l ne = ground arith

buy_elsewhere :
    (r : RiskManager) (k : ℕ) (price : ℤ) (f l : ℕ)
    → l ≢ k
    → unrealized (buy_fill r k price f) l ≡ unrealized r l
unfolding buy_fill
buy_elsewhere r k price f l ne = ground arith

-- what floats after a sale of `f` shares of `f + k`
sold_floats :
    (r : RiskManager) (l f k : ℕ)
    → r.qty l ≡ f + k
    → r.qty l < 2 ^ 63
    → pos 0 <ℤ r.mark_price l
    → unrealized (sell_fill r l (r.mark_price l) f) l ≡ pos k *ℤ (r.mark_price l -ℤ r.avg_cost l)
unfolding sell_fill
sold_floats r l f k held small marked = ground (
  arith,
  floating_lem k (r.mark_price l) (r.avg_cost l),
  floating_lem k (r.mark_price l) (pos 0),
  zero_mul (r.mark_price l -ℤ r.avg_cost l),
  zero_mul (r.mark_price l -ℤ pos 0),
)

sold_realizes :
    (r : RiskManager) (l f k : ℕ)
    → r.qty l ≡ f + k
    → r.qty l < 2 ^ 63
    → IsInt64 (r.realized_pnl +ℤ (r.mark_price l -ℤ r.avg_cost l) *ℤ pos f)
    → (sell_fill r l (r.mark_price l) f).realized_pnl
      ≡ r.realized_pnl +ℤ (r.mark_price l -ℤ r.avg_cost l) *ℤ pos f
unfolding sell_fill
sold_realizes r l f k held small fits =
    rw (sold_all (r.qty l) f k held small)
      (fetch_add-exact r.realized_pnl ((r.mark_price l -ℤ r.avg_cost l) *ℤ pos f) fits)
  where
    sold_all : (n f k : ℕ) → n ≡ f + k → n < 2 ^ 63 → to_i64 (if ltb f n then f else n) ≡ pos f
    sold_all n f k h small = ground arith

bought_floats :
    (r : RiskManager) (l f p a : ℕ)
    → r.qty l + f < 2 ^ 63
    → 0 < f
    → r.mark_price l ≡ pos p
    → 0 < p
    → r.avg_cost l ≡ pos a
    → let n = r.qty l in
      unrealized (buy_fill r l (pos p) f) l
      ≡ pos (n + f) *ℤ (pos p -ℤ pos ((a * n + p * f) / (n + f)))
unfolding buy_fill
bought_floats r l f p a room some_qty marked positive avg =
    rw (hit, new_qty, nonzero, marked, avg, mean_price a (r.qty l) p f room)
      (floating_lem (r.qty l + f) (pos p) _ room (omega arith))
  where
    hit : (l == l) ≡ true
    hit = ground arith

    nonzero : (r.qty l + f == 0) ≡ false
    nonzero = ground arith

    new_qty : add64 (r.qty l) f ≡ r.qty l + f
    new_qty = ground arith

balance :
    (e' e a a' u u' c : ℤ) → e' +ℤ (a +ℤ u) ≡ e +ℤ (a' +ℤ u') → a' +ℤ u' ≡ a +ℤ u +ℤ c → e' ≡ e +ℤ c
balance e' e a a' u u' c h k =
    omega (int_laws, ap pos_part h, ap neg_part h, ap pos_part k, ap neg_part k)

sell_fill_at_mark :
    (r : RiskManager) (l f k : ℕ)
    → l < max_locate
    → r.qty l ≡ f + k
    → r.qty l < 2 ^ 63
    → pos 0 <ℤ r.mark_price l
    → IsInt64 (r.realized_pnl +ℤ (r.mark_price l -ℤ r.avg_cost l) *ℤ pos f)
    → equity (sell_fill r l (r.mark_price l) f) ≡ equity r +ℤ pos 0
unfolding sell_fill
sell_fill_at_mark r l f k below held small positive fits =
    let d = r.mark_price l -ℤ r.avg_cost l in
    let r' = sell_fill r l (r.mark_price l) f in
    balance (equity r') (equity r) r.realized_pnl r'.realized_pnl (unrealized r l) (unrealized r' l)
      (pos 0) (equity_move r r' l below refl (sell_elsewhere r l (r.mark_price l) f))
      (ap₂ ◌+ℤ◌ (sold_realizes r l f k held small fits) (sold_floats r l f k held small positive)
        ∙ sell_balance k f d r.realized_pnl
        ∙ ap (λ n. r.realized_pnl +ℤ pos n *ℤ d) (sym held)
        ∙ ap (λ u. r.realized_pnl +ℤ u)
            (sym (floating_lem (r.qty l) (r.mark_price l) (r.avg_cost l) small positive))
        ∙ add_zero (r.realized_pnl +ℤ unrealized r l))
  where
    add_zero : (z : ℤ) → z ≡ z +ℤ pos 0
    add_zero z = omega int_laws

buy_fill_at_mark :
    (r : RiskManager) (l f p a : ℕ)
    → l < max_locate
    → r.mark_price l ≡ pos p
    → 0 < p
    → r.avg_cost l ≡ pos a
    → 0 < f
    → r.qty l + f < 2 ^ 63
    → equity (buy_fill r l (pos p) f) ≡ equity r +ℤ pos ((a * r.qty l + p * f) % (r.qty l + f))
unfolding buy_fill
buy_fill_at_mark r l f p a below marked positive avg some_qty room =
    let n = r.qty l in
    let r' = buy_fill r l (pos p) f in
    balance (equity r') (equity r) r.realized_pnl r.realized_pnl (unrealized r l) (unrealized r' l)
      _ (equity_move r r' l below refl (buy_elsewhere r l (pos p) f))
      (ap (λ u. r.realized_pnl +ℤ u)
          (bought_floats r l f p a room some_qty marked positive avg
            ∙ buy_balance n f a p ((a * n + p * f) / (n + f)) (div-add-mod (a * n + p * f) (n + f))
            ∙ ap (λ u. u +ℤ pos ((a * n + p * f) % (n + f))) (sym floats))
        ∙ add_assoc r.realized_pnl (unrealized r l) (pos ((a * n + p * f) % (n + f))))
  where
    add_assoc : (x y z : ℤ) → x +ℤ (y +ℤ z) ≡ x +ℤ y +ℤ z
    add_assoc x y z = omega int_laws

    floats : unrealized r l ≡ pos (r.qty l) *ℤ (pos p -ℤ pos a)
    floats = rw (marked, avg) (floating_lem (r.qty l) (pos p) (pos a) (omega arith) (omega arith))

on_fill-sell :
    (r : RiskManager) (o : Order) (f : ℕ)
    → o.side ≡ sell
    → equity (on_fill r o f) ≡ equity (sell_fill r (locate_idx o.symbol_id) o.price f)
unfolding on_fill book_fill
on_fill-sell r o f side = rw (equity-update_equity (book_fill r o f), book_fill, side)

on_fill-buy :
    (r : RiskManager) (o : Order) (f : ℕ)
    → o.side ≡ buy
    → equity (on_fill r o f) ≡ equity (buy_fill r (locate_idx o.symbol_id) o.price f)
unfolding on_fill book_fill
on_fill-buy r o f side = rw (equity-update_equity (book_fill r o f), book_fill, side)

-- A sale at the marked price of shares that are held moves profit from floating to realized, and
-- leaves the equity as it was. The position is below 2^63 and the realized profit fits its 64 bits.
sell_at_mark :
    (r : RiskManager) (o : Order) (f k : ℕ)
    → let l = locate_idx o.symbol_id in
      o.side ≡ sell
      → r.qty l ≡ f + k
      → r.qty l < 2 ^ 63
      → o.price ≡ r.mark_price l
      → pos 0 <ℤ o.price
      → IsInt64 (r.realized_pnl +ℤ (o.price -ℤ r.avg_cost l) *ℤ pos f)
      → equity (on_fill r o f) ≡ equity r
sell_at_mark r o f k side held small at_mark positive fits =
    let l = locate_idx o.symbol_id in
    on_fill-sell r o f side
    ∙ ap (λ x. equity (sell_fill r l x f)) at_mark
    ∙ sell_fill_at_mark r l f k (locate_idx-lt o.symbol_id) held small (rw at_mark at positive)
        (rw at_mark at fits)
    ∙ drop_zero (equity r)
  where
    drop_zero : (z : ℤ) → z +ℤ pos 0 ≡ z
    drop_zero z = omega int_laws

-- A purchase at the marked price leaves the equity as it was, but for the remainder of the division
-- that makes the average cost: that many cents, fewer than the new position has shares, come on top.
buy_at_mark :
    (r : RiskManager) (o : Order) (f p a : ℕ)
    → let l = locate_idx o.symbol_id in
      o.side ≡ buy
      → o.price ≡ pos p
      → r.mark_price l ≡ pos p
      → 0 < p
      → r.avg_cost l ≡ pos a
      → 0 < f
      → r.qty l + f < 2 ^ 63
      → equity (on_fill r o f) ≡ equity r +ℤ pos ((a * r.qty l + p * f) % (r.qty l + f))
buy_at_mark r o f p a side price marked positive avg some_qty room =
    let l = locate_idx o.symbol_id in
    on_fill-buy r o f side
    ∙ ap (λ x. equity (buy_fill r l x f)) price
    ∙ buy_fill_at_mark r l f p a (locate_idx-lt o.symbol_id) marked positive avg some_qty room
