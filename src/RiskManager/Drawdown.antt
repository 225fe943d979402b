-- ===== src/RiskManager/Drawdown.antt =====
-- The high-water mark of the equity, and the pause that a drawdown brings.
use mathlib.Core.Path.{subst₂}
use nebula_x_trader.Prelude.{
  ℕ, ◌≡◌, refl, sym, ap, ◌∙◌, false, List, [], ◌∷◌, ◌++◌, suc, take, arith, if◌then◌else◌, ◌⊎◌, inl,
  inr,
}
use nebula_x_trader.Prelude.Int.{ℤ, pos, ◌+ℤ◌, ◌-ℤ◌, ◌≤ℤ◌, ltb_ℤ, int_laws}
use nebula_x_trader.Types.{Order}
use nebula_x_trader.RiskManager.{
  RiskManager, equity, drawdown, drawdown_paused, update_equity, book_fill, buy_fill, sell_fill,
  on_fill, mark, locate_idx,
}
use nebula_x_trader.Prelude.Sum.{update}
use nebula_x_trader.RiskManager.Equity.{equity-update_equity}

-- A fill of a quantity, or a mark of a symbol at a price.
pub data Event : Type 0 where
  fill : Order → ℕ → Event
  quote : ℕ → ℤ → Event

unfoldable pub step : RiskManager → Event → RiskManager
step r (fill o f) = on_fill r o f
step r (quote s price) = mark r s price

pub run : RiskManager → List Event → RiskManager
run r [] = r
run r (e ∷ es) = run (step r e) es

peak_choice :
    (r : RiskManager)
    → (update_equity r).equity_peak
      ≡ (if ltb_ℤ r.equity_peak (equity r) then equity r else r.equity_peak)
unfolding update_equity
peak_choice r = ground arith

-- `r` covers its equity, and its peak is the old peak `p` or, above it, the equity.
abbrev Tops : ℤ → RiskManager → Type 0
Tops p r =
    (equity r ≤ℤ r.equity_peak)
    × (p ≤ℤ r.equity_peak)
    × ((r.equity_peak ≡ p) ⊎ (r.equity_peak ≡ equity r))

-- `update_equity` leaves the peak at the higher of the old peak and the equity.
peak-update_equity : (r : RiskManager) → Tops r.equity_peak (update_equity r)
peak-update_equity r = ground (arith, equity-update_equity r, peak_choice r)

step-update_equity :
    (r : RiskManager) (e : Event)
    → (u : RiskManager) × (step r e ≡ update_equity u)
      × (u.equity_peak ≡ r.equity_peak)
      × (u.max_drawdown_pause ≡ r.max_drawdown_pause)
unfolding step on_fill mark book_fill buy_fill sell_fill
step-update_equity r (fill o f) = (book_fill r o f, refl, ground arith, ground arith)
step-update_equity r (quote s price) =
    (record r { mark_price = update r.mark_price (locate_idx s) price }, refl, refl, refl)

-- One event: the peak covers the equity, does not fall, and moves only to the equity.
peak-step : (r : RiskManager) (e : Event) → Tops r.equity_peak (step r e)
peak-step r e =
    let (u, s, same, _) = step-update_equity r e in subst₂ Tops same (sym s) (peak-update_equity u)

peak_grows : (es : List Event) (r : RiskManager) → r.equity_peak ≤ℤ (run r es).equity_peak
unfolding run
peak_grows [] r = omega arith
peak_grows (e ∷ es) r = omega (arith, (peak-step r e).1, peak_grows es (step r e))

-- The peak covers the equity after every prefix of the events, when it did so at first.
peak_covers :
    (es fs : List Event) (r : RiskManager)
    → equity r ≤ℤ r.equity_peak
    → equity (run r es) ≤ℤ (run r (es ++ fs)).equity_peak
unfolding run
peak_covers [] fs r h = omega (arith, h, peak_grows fs r)
peak_covers (e ∷ es) fs r h = peak_covers es fs (step r e) (peak-step r e).0

peak_attained :
    (es : List Event) (r : RiskManager)
    → ((run r es).equity_peak ≡ r.equity_peak)
      ⊎ ((n : ℕ) × ((run r es).equity_peak ≡ equity (run r (take n es))))
unfolding run
peak_attained [] r = inl refl
peak_attained (e ∷ es) r = elim (peak_attained es (step r e)) [
  | inl stays ↦ elim (peak-step r e).2 [
    | inl old ↦ inl (stays ∙ old)
    | inr new ↦ inr (1, stays ∙ new)
  ]
  | inr (n, at) ↦ inr (suc n, at)
]

-- `equity_peak` is the high-water mark: if it covers the equity at first, then whatever fills and quotes come, it is at least the equity
-- after each of them, and it is the peak of the start or the equity at one of these points.
pub high_water_mark :
    (es fs : List Event) (r : RiskManager)
    → equity r ≤ℤ r.equity_peak
    → let peak = (run r (es ++ fs)).equity_peak in
      (equity (run r es) ≤ℤ peak)
      × (r.equity_peak ≤ℤ peak)
      × ((peak ≡ r.equity_peak) ⊎ ((n : ℕ) × (peak ≡ equity (run r (take n (es ++ fs))))))
high_water_mark es fs r h =
    (peak_covers es fs r h, peak_grows (es ++ fs) r, peak_attained (es ++ fs) r)

max_drawdown_pause_of : RiskManager → ℤ
max_drawdown_pause_of r = r.max_drawdown_pause

pause_kept : (r : RiskManager) → (update_equity r).max_drawdown_pause ≡ r.max_drawdown_pause
unfolding update_equity
pause_kept r = ground arith

not_above : (a b : ℤ) → b ≤ℤ a → ltb_ℤ a b ≡ false
not_above a b h = ground arith

-- the drawdown after an event that ends at the peak `p` or the equity
within : (p q e t : ℤ) → (q ≡ p) ⊎ (q ≡ e) → pos 0 ≤ℤ t → p ≤ℤ e +ℤ t → q -ℤ e ≤ℤ t
within p q e t (inl at) h k = rw at (omega (int_laws, h, k))
within p q e t (inr at) h k = rw at (omega (int_laws, h, k))

-- The pause does not latch: whether or not orders were paused, an event that brings the equity
-- back to within the threshold, which is not negative, of the peak before it lifts the pause.
pause_is_lifted :
    (r : RiskManager) (e : Event)
    → pos 0 ≤ℤ r.max_drawdown_pause
    → r.equity_peak ≤ℤ equity (step r e) +ℤ r.max_drawdown_pause
    → drawdown_paused (step r e) ≡ false
unfolding drawdown_paused drawdown max_drawdown_pause_of
pause_is_lifted r e threshold back =
    let (u, s, same, pause) = step-update_equity r e in
    let kept : (step r e).max_drawdown_pause ≡ r.max_drawdown_pause =
      ap max_drawdown_pause_of s ∙ pause_kept u ∙ pause in
    simp kept (
      not_above r.max_drawdown_pause ((step r e).equity_peak -ℤ equity (step r e)) (
        within r.equity_peak (step r e).equity_peak (equity (step r e)) r.max_drawdown_pause
          (peak-step r e).2 threshold back))
