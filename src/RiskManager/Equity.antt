-- ===== src/RiskManager/Equity.antt =====
-- The marked-to-market equity: what a mark and a fill do to it.
use nebula_x_trader.Prelude.{ℕ, ◌<◌, ◌≡◌, ◌≢◌, refl, ap, ◌∙◌, arith}
use nebula_x_trader.Prelude.Int.{ℤ, pos_part, neg_part, ◌+ℤ◌, int_laws}
use nebula_x_trader.RiskManager.{
  RiskManager, max_locate, locate_idx, floating, unrealized, equity, update_equity, mark,
}
use nebula_x_trader.Prelude.Sum.{update, sum_below, sum_below-update}

pub locate_idx-lt : (s : ℕ) → locate_idx s < max_locate
locate_idx-lt s = ground arith

-- The peak is no part of the equity.
equity-peak : (r : RiskManager) (p : ℤ) → equity (record r { equity_peak = p }) ≡ equity r
unfolding equity
equity-peak r p = refl

pub equity-update_equity : (r : RiskManager) → equity (update_equity r) ≡ equity r
unfolding update_equity
equity-update_equity r = ground (arith, equity-peak r (equity r))

-- Where two managers differ in one locate and in what they realized, so does their equity.
pub equity_move :
    (r r' : RiskManager) (k : ℕ)
    → k < max_locate
    → r'.initial_equity ≡ r.initial_equity
    → ((l : ℕ) → l ≢ k → unrealized r' l ≡ unrealized r l)
    → equity r' +ℤ (r.realized_pnl +ℤ unrealized r k)
      ≡ equity r +ℤ (r'.realized_pnl +ℤ unrealized r' k)
unfolding equity
equity_move r r' k below initial same = rw initial (
    regroup r.initial_equity r.realized_pnl r'.realized_pnl (sum_below (unrealized r) max_locate)
      (sum_below (unrealized r') max_locate) (unrealized r k) (unrealized r' k)
      (sum_below-update (unrealized r) (unrealized r') k max_locate same below))
  where
    regroup :
        (i a a' s s' u u' : ℤ)
        → s' +ℤ u ≡ s +ℤ u'
        → i +ℤ a' +ℤ s' +ℤ (a +ℤ u) ≡ i +ℤ a +ℤ s +ℤ (a' +ℤ u')
    regroup i a a' s s' u u' h = omega (int_laws, ap pos_part h, ap neg_part h)

abbrev set_mark : RiskManager → ℕ → ℤ → RiskManager
set_mark r l price = record r { mark_price = update r.mark_price l price }

mark_lem :
    (r : RiskManager) (s : ℕ) (price : ℤ)
    → mark r s price ≡ update_equity (set_mark r (locate_idx s) price)
unfolding mark
mark_lem r s price = refl

set_mark_elsewhere :
    (r : RiskManager) (k : ℕ) (price : ℤ) (l : ℕ)
    → l ≢ k
    → unrealized (set_mark r k price) l ≡ unrealized r l
set_mark_elsewhere r k price l ne = ground arith

equity-set_mark :
    (r : RiskManager) (l : ℕ) (price : ℤ)
    → l < max_locate
    → equity (set_mark r l price) +ℤ unrealized r l
      ≡ equity r +ℤ floating (r.qty l) price (r.avg_cost l)
equity-set_mark r l price below =
    cancel (equity (set_mark r l price)) (equity r) r.realized_pnl (unrealized r l)
      (floating (r.qty l) price (r.avg_cost l))
      (equity_move r (set_mark r l price) l below refl (set_mark_elsewhere r l price)
        ∙ ap (λ m. equity r +ℤ (r.realized_pnl +ℤ floating (r.qty l) m (r.avg_cost l)))
            (written r l price))
  where
    cancel : (e' e a u u' : ℤ) → e' +ℤ (a +ℤ u) ≡ e +ℤ (a +ℤ u') → e' +ℤ u ≡ e +ℤ u'
    cancel e' e a u u' h = omega (int_laws, ap pos_part h, ap neg_part h)

    written : (r : RiskManager) (l : ℕ) (price : ℤ) → update r.mark_price l price l ≡ price
    written r l price = ground arith

-- Marking a symbol moves the equity by the change of that symbol's floating result alone.
pub equity-mark :
    (r : RiskManager) (s : ℕ) (price : ℤ)
    → let l = locate_idx s in
      equity (mark r s price) +ℤ unrealized r l
      ≡ equity r +ℤ floating (r.qty l) price (r.avg_cost l)
equity-mark r s price =
    rw (mark_lem, equity-update_equity (set_mark r (locate_idx s) price))
      (equity-set_mark r (locate_idx s) price (locate_idx-lt s))
