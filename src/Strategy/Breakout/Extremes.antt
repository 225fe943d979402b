-- ===== src/Strategy/Breakout/Extremes.antt =====
-- A breakout is a trade beyond every price of the window.
use nebula_x_trader.Prelude.{
  ℕ, zero, suc, ◌≤◌, ◌≡◌, true, false, some, List, [], ◌∷◌, leb, if◌then◌else◌, arith, length,
  get_elem?,
}
use nebula_x_trader.Prelude.Int.{ℤ, pos, ◌≤ℤ◌, ◌<ℤ◌, ltb_ℤ}
use nebula_x_trader.Types.{buy, sell, MarketEvent}
use nebula_x_trader.Strategy.Breakout.{PriceBreakout, is_trade, highest, lowest, judge, on_event}

-- The highest of a list is at least the first price, and at least each other.
highest-first : (p : ℤ) (ps : List ℤ) → p ≤ℤ highest p ps
unfolding highest
highest-first p [] = omega arith
highest-first p (q ∷ qs) = ground (arith, highest-first (if ltb_ℤ p q then q else p) qs)

highest-all :
    (p : ℤ) (ps : List ℤ) (i : ℕ) (x : ℤ) → get_elem? (p ∷ ps) i ≡ some x → x ≤ℤ highest p ps
unfolding highest
highest-all p ps zero x h = ground (arith, highest-first p ps)
highest-all p [] (suc i) x h = absurd (cc)
highest-all p (q ∷ qs) (suc zero) x h =
    ground (arith, highest-first (if ltb_ℤ p q then q else p) qs)
highest-all p (q ∷ qs) (suc (suc i)) x h = highest-all (if ltb_ℤ p q then q else p) qs (suc i) x h

lowest-first : (p : ℤ) (ps : List ℤ) → lowest p ps ≤ℤ p
unfolding lowest
lowest-first p [] = omega arith
lowest-first p (q ∷ qs) = ground (arith, lowest-first (if ltb_ℤ q p then q else p) qs)

lowest-all :
    (p : ℤ) (ps : List ℤ) (i : ℕ) (x : ℤ) → get_elem? (p ∷ ps) i ≡ some x → lowest p ps ≤ℤ x
unfolding lowest
lowest-all p ps zero x h = ground (arith, lowest-first p ps)
lowest-all p [] (suc i) x h = absurd (cc)
lowest-all p (q ∷ qs) (suc zero) x h = ground (arith, lowest-first (if ltb_ℤ q p then q else p) qs)
lowest-all p (q ∷ qs) (suc (suc i)) x h = lowest-all (if ltb_ℤ q p then q else p) qs (suc i) x h

judge-beyond :
    (price : ℤ) (prices : List ℤ) (f : PriceBreakout) (i : ℕ) (x : ℤ)
    → get_elem? prices i ≡ some x
    → ((judge price prices f).current ≡ buy → x <ℤ price)
      × ((judge price prices f).current ≡ sell → price <ℤ x)
unfolding judge
judge-beyond price [] f i x h = absurd (cc)
judge-beyond price (p ∷ ps) f i x h =
    (λ up. ground (arith, highest-all p ps i x h), λ down. ground (arith, lowest-all p ps i x h))

-- When the window is full, a trade with a price makes the signal BUY only if its price is above every
-- price of the window, and SELL only if it is below every one.
breakout_is_beyond :
    (ev : MarketEvent) (f : PriceBreakout) (i : ℕ) (x : ℤ)
    → is_trade ev.kind ≡ true
    → pos 0 ≤ℤ ev.price
    → f.window ≤ length f.prices
    → get_elem? f.prices i ≡ some x
    → ((on_event ev f).current ≡ buy → x <ℤ ev.price)
      × ((on_event ev f).current ≡ sell → ev.price <ℤ x)
unfolding on_event
breakout_is_beyond ev f i x traded priced full held =
    let seen = record f { locate = ev.locate; last_ts = ev.timestamp; last_price = ev.price } in
    let beyond = judge-beyond ev.price f.prices seen i x held in
    rw (traded, on_event, priced_test ev.price priced, full_test f.window (length f.prices) full)
      beyond
  where
    priced_test : (z : ℤ) → pos 0 ≤ℤ z → ltb_ℤ z (pos 0) ≡ false
    priced_test z h = ground arith

    full_test : (w n : ℕ) → w ≤ n → leb w n ≡ true
    full_test w n h = ground arith
