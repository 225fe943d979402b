-- ===== src/Strategy/OrderFlow/Window.antt =====
-- The flow is the sum of the window, and so follows the last 1024 events only.
use nebula_x_trader.Prelude.{
  ℕ, ◌+◌, ◌%◌, ◌<◌, ◌≤◌, ◌≡◌, refl, sym, ap, ◌∙◌, List, [], ◌∷◌, ltb, if◌then◌else◌, arith, length,
  Bool-cases, inl, inr,
}
use nebula_x_trader.Prelude.Int.{ℤ, pos, pos_part, neg_part, ◌+ℤ◌, ◌-ℤ◌, int_laws}
use nebula_x_trader.Prelude.Words.{u64_mod, to_i64}
use nebula_x_trader.Prelude.Sum.{update, sum_below, sum_below-update, sum_below-zero}
use nebula_x_trader.Types.{OrderSide, MarketEvent}
use nebula_x_trader.Strategy.OrderFlow.{
  OrderFlow, window_size, delta_of, slide, decide, on_event, reset,
}

-- The flow is the sum of the window, whose cells that are not yet written are zero.
pub record IsWindowSum (f : OrderFlow) : Type 0 where
  pub total : f.ofi ≡ sum_below f.win window_size
  pub empty : (i : ℕ) → f.widx ≤ i → f.win i ≡ pos 0

replaced :
    (s s' o old new kept : ℤ) → s' +ℤ old ≡ s +ℤ new → o ≡ s → kept ≡ o -ℤ old → kept +ℤ new ≡ s'
replaced s s' o old new kept h at k = omega (
  int_laws,
  ap pos_part h,
  ap neg_part h,
  ap pos_part at,
  ap neg_part at,
  ap pos_part k,
  ap neg_part k,
)

slide-IsWindowSum :
    (d : ℤ) (f : OrderFlow) → f.widx + 1 < u64_mod → IsWindowSum f → IsWindowSum (slide d f)
unfolding slide
slide-IsWindowSum d f short v =
    let i : ℕ = f.widx % 1024 in
    let win' = update f.win i d in
    record {
      total =
          replaced (sum_below f.win 1024) (sum_below win' 1024) f.ofi (f.win i) d
            (if ltb f.widx 1024 then f.ofi else f.ofi -ℤ f.win i)
            (sum_below-update f.win win' i 1024 (λ l ne. ground arith) (omega arith)
              ∙ ap (λ (z : ℤ). sum_below f.win 1024 +ℤ z) (written i))
            v.total kept;
      empty = λ j h. ground (arith, v.empty j);
    }
  where
    written : (i : ℕ) → update f.win i d i ≡ d
    written i = ground arith

    minus_zero : (z w : ℤ) → w ≡ pos 0 → z ≡ z -ℤ w
    minus_zero z w h = omega (int_laws, ap pos_part h, ap neg_part h)

    first_round : f.widx < 1024 → f.win (f.widx % 1024) ≡ pos 0
    first_round h = v.empty (f.widx % 1024) (omega arith)

    kept :
        (if ltb f.widx 1024 then f.ofi else f.ofi -ℤ f.win (f.widx % 1024))
        ≡ f.ofi -ℤ f.win (f.widx % 1024)
    kept = elim (Bool-cases (ltb f.widx 1024)) [
      | inl early ↦ rw early (minus_zero f.ofi (f.win (f.widx % 1024)) (first_round (ground arith)))
      | inr late ↦ rw late refl
    ]

on_event-IsWindowSum :
    (ev : MarketEvent) (side : OrderSide) (f : OrderFlow)
    → f.widx + 1 < u64_mod
    → IsWindowSum f
    → IsWindowSum (on_event ev side f) × ((on_event ev side f).widx ≡ f.widx + 1)
unfolding on_event decide slide
on_event-IsWindowSum ev side f short v =
    let f' : OrderFlow = record f { locate = ev.locate; last_ts = ev.timestamp } in
    let w =
      slide-IsWindowSum (delta_of ev.kind side (to_i64 ev.shares)) f' short
        (record { total = v.total; empty = v.empty }) in
    (record { total = w.total; empty = w.empty }, omega arith)

-- events with the side of their order
pub run : List (MarketEvent × OrderSide) → OrderFlow → OrderFlow
run [] f = f
run ((ev, side) ∷ rest) f = run rest (on_event ev side f)

run-IsWindowSum :
    (evs : List (MarketEvent × OrderSide)) (f : OrderFlow)
    → f.widx + length evs < u64_mod
    → IsWindowSum f
    → IsWindowSum (run evs f)
unfolding run
run-IsWindowSum [] f short v = v
run-IsWindowSum ((ev, side) ∷ rest) f short v =
    let kept = on_event-IsWindowSum ev side f (omega arith) v in
    run-IsWindowSum rest (on_event ev side f) (omega (arith, kept.1)) kept.0

-- After a reset, whatever came before, and any number of events below 2^64, the flow is the sum of
-- the 1024 cells of the window, those not yet written counting zero: what an event once added leaves
-- the flow when its cell is written again.
pub flow_follows_window :
    (f : OrderFlow) (evs : List (MarketEvent × OrderSide))
    → length evs < u64_mod
    → (run evs (reset f)).ofi ≡ sum_below (run evs (reset f)).win window_size
unfolding reset
flow_follows_window f evs short =
    (run-IsWindowSum evs (reset f) (omega arith) (record {
      total = sym (sum_below-zero (λ i. pos 0) window_size (λ i. refl));
      empty = λ i h. refl;
    })).total
