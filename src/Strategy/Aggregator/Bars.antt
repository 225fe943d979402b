-- ===== src/Strategy/Aggregator/Bars.antt =====
-- What the bars promise: the order of their prices, and the trades they stand for.
use nebula_x_trader.Prelude.{
  ℕ, suc, ◌+◌, ◌*◌, ◌/◌, ◌%◌, ◌^◌, ◌<◌, ◌≤◌, ◌≡◌, refl, sym, ap, List, [], ◌∷◌, ◌==◌, leb,
  if◌then◌else◌, length, arith, Bool-cases, inl, inr,
}
use mathlib.Core.Path.{subst}
use native.Mathlib.Nat.{mul_comm}
use nebula_x_trader.Prelude.Int.{pos, ◌≤ℤ◌, ltb_ℤ}
use nebula_x_trader.Prelude.Words.{u64_mod}
use nebula_x_trader.Types.{MarketEvent}
use nebula_x_trader.Strategy.Aggregator.{
  KLine, KLineAggregator, Mode, new_aggregator, push, start_new, extend_bar, on_timed_trade,
  on_counted_trade, on_trade,
}

-- The lowest price is at most, and the highest at least, the first and the last; none is negative.
pub record IsBar (k : KLine) : Type 0 where
  pub low_open : k.low ≤ℤ k.open_price
  pub low_close : k.low ≤ℤ k.close
  pub open_high : k.open_price ≤ℤ k.high
  pub close_high : k.close ≤ℤ k.high
  pub not_negative : pos 0 ≤ℤ k.low

extend_bar-IsBar :
    (ev : MarketEvent) (k : KLine) → pos 0 ≤ℤ ev.price → IsBar k → IsBar (extend_bar ev k)
unfolding extend_bar
extend_bar-IsBar ev k h v = record {
  low_open = ground (arith, v.low_open);
  low_close = ground (arith, v.low_close);
  open_high = ground (arith, v.open_high);
  close_high = ground (arith, v.close_high);
  not_negative = ground (arith, v.not_negative);
}

abbrev pub AllBars : List KLine → Type 0
AllBars [] = Unit
AllBars (k ∷ ks) = IsBar k × AllBars ks

abbrev HasBars : KLineAggregator → Type 0
HasBars a = IsBar a.cur × AllBars a.bars

push-HasBars : (a : KLineAggregator) → HasBars a → HasBars (push a)
unfolding push
push-HasBars a v = (v.0, (v.0, v.1))

start_new-HasBars :
    (ev : MarketEvent) (ts : ℕ) (a : KLineAggregator)
    → pos 0 ≤ℤ ev.price
    → AllBars a.bars
    → HasBars (start_new ev ts a)
unfolding start_new
start_new-HasBars ev ts a h v = (
  record {
    low_open = omega arith;
    low_close = omega arith;
    open_high = omega arith;
    close_high = omega arith;
    not_negative = h;
  },
  v,
)

on_timed_trade-HasBars :
    (w : ℕ) (ev : MarketEvent) (a : KLineAggregator)
    → pos 0 ≤ℤ ev.price
    → HasBars a
    → HasBars (on_timed_trade w ev a)
unfolding on_timed_trade
on_timed_trade-HasBars w ev a h v = elim (Bool-cases (a.cur.symbol_id == 0)) [
  | inl none_yet ↦ rw (none_yet, on_timed_trade) (start_new-HasBars ev _ a h v.1)
  | inr some_bar ↦ elim (Bool-cases ((ev.timestamp / w * w) % 2 ^ 64 == a.cur_win_start)) [
    | inl inside ↦ rw (some_bar, on_timed_trade, inside) (extend_bar-IsBar ev a.cur h v.0, v.1)
    | inr outside ↦
        rw (some_bar, on_timed_trade, outside)
          (start_new-HasBars ev _ (push a) h (push-HasBars a v).1)
  ]
]

on_counted_trade-HasBars :
    (n : ℕ) (ev : MarketEvent) (a : KLineAggregator)
    → pos 0 ≤ℤ ev.price
    → HasBars a
    → HasBars (on_counted_trade n ev a)
unfolding on_counted_trade
on_counted_trade-HasBars n ev a h v = elim (Bool-cases (a.cur.symbol_id == 0)) [
  | inl none_yet ↦ rw (none_yet, on_counted_trade) (start_new-HasBars ev ev.timestamp a h v.1)
  | inr some_bar ↦ elim (Bool-cases (leb n a.cur_tick_cnt)) [
    | inl full ↦
        rw (some_bar, on_counted_trade, full)
          (start_new-HasBars ev ev.timestamp (push a) h (push-HasBars a v).1)
    | inr room ↦ rw (some_bar, on_counted_trade, room) (extend_bar-IsBar ev a.cur h v.0, v.1)
  ]
]

on_trade-HasBars : (ev : MarketEvent) (a : KLineAggregator) → HasBars a → HasBars (on_trade ev a)
unfolding on_trade
on_trade-HasBars ev a v = elim (Bool-cases (ltb_ℤ ev.price (pos 0))) [
  | inl unpriced ↦ rw (unpriced, on_trade) v
  | inr priced ↦ rw (priced, on_trade) (by_mode a.mode (ground arith))
]
  where
    by_mode :
        (m : Mode)
        → pos 0 ≤ℤ ev.price
        → HasBars (elim m [
          | Mode.by_time w ↦ on_timed_trade w ev a
          | Mode.by_count n ↦ on_counted_trade n ev a
        ])
    by_mode (Mode.by_time w) h = on_timed_trade-HasBars w ev a h v
    by_mode (Mode.by_count n) h = on_counted_trade-HasBars n ev a h v

-- the trades of a stream, one after the other
pub run : List MarketEvent → KLineAggregator → KLineAggregator
run [] a = a
run (ev ∷ evs) a = run evs (on_trade ev a)

run-HasBars : (evs : List MarketEvent) (a : KLineAggregator) → HasBars a → HasBars (run evs a)
unfolding run
run-HasBars [] a v = v
run-HasBars (ev ∷ evs) a v = run-HasBars evs (on_trade ev a) (on_trade-HasBars ev a v)

-- Whatever events a new aggregator sees, in windows of time or of trades: in every bar that it hands
-- on, the lowest price is at most the first and the last, the highest at least, and none is negative.
bars_are_ordered :
    (mode : Mode) (evs : List MarketEvent) → AllBars (run evs (new_aggregator mode)).bars
bars_are_ordered mode evs =
    (run-HasBars evs (new_aggregator mode) (
      record {
        low_open = omega arith;
        low_close = omega arith;
        open_high = omega arith;
        close_high = omega arith;
        not_negative = omega arith;
      },
      tt,
    )).1

-- the trades with a price
pub priced_trades : List MarketEvent → ℕ
priced_trades [] = 0
priced_trades (ev ∷ evs) =
    let rest = priced_trades evs in if ltb_ℤ ev.price (pos 0) then rest else suc rest

abbrev pub AllLocated : List MarketEvent → Type 0
AllLocated [] = Unit
AllLocated (ev ∷ evs) = (0 < ev.locate) × AllLocated evs

-- After `t` trades in windows of `n`: full bars, and the rest in the current one.
record IsCounted (n t : ℕ) (a : KLineAggregator) : Type 0 where
  counts : a.mode ≡ Mode.by_count n
  total : length a.bars * n + a.cur_tick_cnt ≡ t
  room : a.cur_tick_cnt ≤ n
  fresh : a.cur.symbol_id ≡ 0 → a.cur_tick_cnt ≡ 0

bar_more : (l n : ℕ) → suc l * n ≡ l * n + n
bar_more l n = omega (arith, mul_comm (suc l) n, mul_comm l n)

on_counted_trade-IsCounted :
    (n t : ℕ) (ev : MarketEvent) (a : KLineAggregator)
    → 0 < n
    → n < u64_mod
    → 0 < ev.locate
    → IsCounted n t a
    → IsCounted n (suc t) (on_counted_trade n ev a)
unfolding on_counted_trade start_new push extend_bar
on_counted_trade-IsCounted n t ev a some word located v = elim (Bool-cases (a.cur.symbol_id == 0)) [
  | inl none_yet ↦
      rw (none_yet, on_counted_trade)
        (record {
          counts = v.counts;
          total = omega (arith, v.total, v.fresh (ground arith));
          room = omega arith;
          fresh = λ h. absurd (omega arith);
        })
  | inr some_bar ↦ elim (Bool-cases (leb n a.cur_tick_cnt)) [
    | inl full ↦
        rw (some_bar, on_counted_trade, full)
          (record {
            counts = v.counts;
            total = ground (arith, v.total, v.room, bar_more (length a.bars) n);
            room = omega arith;
            fresh = λ h. absurd (omega arith);
          })
    | inr partly ↦
        rw (some_bar, on_counted_trade, partly)
          (record {
            counts = v.counts;
            total = ground (arith, v.total);
            room = ground arith;
            fresh = λ h. absurd (ground arith);
          })
  ]
]

on_trade_counted :
    (n : ℕ) (ev : MarketEvent) (a : KLineAggregator)
    → a.mode ≡ Mode.by_count n
    → on_trade ev a ≡ (if ltb_ℤ ev.price (pos 0) then a else on_counted_trade n ev a)
unfolding on_trade
on_trade_counted n ev a h =
    ap
      (λ (m : Mode). if ltb_ℤ ev.price (pos 0) then a else elim m [
        | Mode.by_time w ↦ on_timed_trade w ev a
        | Mode.by_count k ↦ on_counted_trade k ev a
      ])
      h

run-IsCounted :
    (evs : List MarketEvent) (n t : ℕ) (a : KLineAggregator)
    → 0 < n
    → n < u64_mod
    → AllLocated evs
    → IsCounted n t a
    → IsCounted n (t + priced_trades evs) (run evs a)
unfolding run priced_trades
run-IsCounted [] n t a some word located v = record {
  counts = v.counts;
  total = omega (arith, v.total);
  room = v.room;
  fresh = v.fresh;
}
run-IsCounted (ev ∷ evs) n t a some word located v =
    subst (λ (b : KLineAggregator). IsCounted n (t + priced_trades (ev ∷ evs)) (run evs b))
      (sym (on_trade_counted n ev a v.counts))
      (elim (Bool-cases (ltb_ℤ ev.price (pos 0))) [
        | inl unpriced ↦ rw unpriced (run-IsCounted evs n t a some word located.1 v)
        | inr priced ↦ rw priced (
            subst (λ (k : ℕ). IsCounted n k (run evs (on_counted_trade n ev a))) (omega arith)
              (run-IsCounted evs n (suc t) (on_counted_trade n ev a) some word located.1
                (on_counted_trade-IsCounted n t ev a some word located.0 v)))
      ])

-- In windows of `n` trades no trade is lost: of a stream of trades of symbols other than 0, the bars
-- that a new aggregator hands on, at `n` trades each, and the trades in its current bar, at most `n`,
-- make up all trades with a price.
pub trades_conserved :
    (n : ℕ) (evs : List MarketEvent)
    → 0 < n
    → n < u64_mod
    → AllLocated evs
    → let a = run evs (new_aggregator (Mode.by_count n)) in
      (length a.bars * n + a.cur_tick_cnt ≡ priced_trades evs) × (a.cur_tick_cnt ≤ n)
trades_conserved n evs some word located =
    let v =
      run-IsCounted evs n 0 (new_aggregator (Mode.by_count n)) some word located
        (record { counts = refl; total = omega arith; room = omega arith; fresh = λ h. refl }) in
    (omega (arith, v.total), v.room)
