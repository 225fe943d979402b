-- ===== src/OrderBook/Levels/Top.antt =====
-- The best price and its quantity.
use mathlib.Core.Path.{subst}
use nebula_x_trader.Prelude.{
  ℕ, ◌<◌, ◌≡◌, ◌≢◌, refl, sym, ap, ◌∙◌, false, none, some, arith, ◌==◌, inl, inr,
}
use nebula_x_trader.Prelude.Int.{ℤ}
use nebula_x_trader.OrderBook.Levels.{
  Table, PriceLevel, cap, probe, is_free, is_better, locate, find, best_qty,
}
use nebula_x_trader.OrderBook.Levels.Locate.{IsPrice}
use nebula_x_trader.OrderBook.Levels.Valid.{IsValid, true-ne-false, used-eq-zero}
use nebula_x_trader.OrderBook.Levels.Lookup.{find-at, find-absent, stands}

-- In a valid table without levels no price is found. Otherwise the best price stands in the table, its
-- quantity is what `best_qty` returns, and no price that is found is better.
pub top_of_book :
    (t : Table)
    → IsValid t
    → (t.count ≡ 0 → (q : ℤ) → IsPrice q → find t q ≡ none)
      × (t.count ≢ 0
          → (l : PriceLevel) × (find t t.best ≡ some l)
            × (best_qty t ≡ l.total_qty)
            × ((q : ℤ) → IsPrice q → find t q ≢ none → is_better t.is_bid q t.best ≡ false))
unfolding best_qty
top_of_book t v = (
  λ none_used q price. find-absent v (λ j b at. true-ne-false (
      sym ((used-eq-zero t.slots (cap t)).0 (sym v.counted ∙ none_used) j b)
      ∙ ap is_free at
      ∙ price)),
  λ some_used. elim v.best_ok.attained [
    | inl (none_there, at_worst) ↦
        absurd (some_used (v.counted ∙ (used-eq-zero t.slots (cap t)).1 none_there))
    | inr (i, b, price, at) ↦ (
      (t.slots i).level,
      find-at i v b (subst IsPrice at price) at,
      best_there i b price at (some_count t.count some_used),
      λ q q_price there. elim (stands q v q_price) [
        | inl absent ↦ absurd (there (find-absent v absent))
        | inr (j, b', at') ↦
            subst (λ (x : ℤ). IsPrice x → is_better t.is_bid x t.best ≡ false) at'
              (v.best_ok.bound j b') q_price
      ],
    )
  ],
)
  where
    some_count : (n : ℕ) → n ≢ 0 → (n == 0) ≡ false
    some_count n h = ground (arith, h)

    best_there :
        (i : ℕ)
        → i < cap t
        → IsPrice (t.slots i).price
        → (t.slots i).price ≡ t.best
        → (t.count == 0) ≡ false
        → best_qty t ≡ (t.slots i).level.total_qty
    best_there i b price at some_left =
        let there =
          subst (λ (x : ℤ). locate t.slots (cap t) x (cap t) (probe t.cap_bits x) ≡ some i) at
            (v.located i b price) in
        rw (some_left, there, best_qty) refl
