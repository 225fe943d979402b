-- ===== src/Strategy/Examples.antt =====
-- The strategies' parts at concrete signals and trades.
use nebula_x_trader.Prelude.{◌+◌, ◌*◌, ◌≤◌, ◌≡◌, refl, List, [], ◌∷◌, arith, length}
use nebula_x_trader.Prelude.Int.{ℤ, pos, negsuc, ◌≤ℤ◌}
use nebula_x_trader.Prelude.Sum.{sum_below}
use nebula_x_trader.Types.{OrderSide, buy, sell, no_side, Signal, EventType, MarketEvent}
use nebula_x_trader.Strategy.Combiner.{SignalCombiner, combine}
use nebula_x_trader.Strategy.Combiner.Strength.{IsStrength, combined_signal}
use nebula_x_trader.Strategy.Arbitrate.{ArbSignal, Votes, arbitrate_decide}
use nebula_x_trader.Strategy.Arbitrate.Net.{majority, IsDecision}
use nebula_x_trader.Strategy.Arbitrate.Vote.{vote_decides}
use nebula_x_trader.Strategy.Aggregator.{Mode, new_aggregator}
use nebula_x_trader.Strategy.Aggregator.Bars.{AllBars, priced_trades, trades_conserved}
use nebula_x_trader.Strategy.Aggregator.Bars
use nebula_x_trader.Strategy.Breakout.{PriceBreakout, new_breakout}
use nebula_x_trader.Strategy.Volume.{VolumeBreakout}
use nebula_x_trader.Strategy.Volume.Strength
use nebula_x_trader.Strategy.OrderFlow.{new_order_flow, reset}
use nebula_x_trader.Strategy.OrderFlow.Window
use nebula_x_trader.Strategy.OrderFlow.Window.{flow_follows_window}

abbrev a_signal : OrderSide → ℤ → Signal
a_signal side strength = record {
  side = side;
  locate = 3;
  price = pos 100;
  timestamp = 7;
  strength = strength;
}

abbrev combiner : SignalCombiner
combiner = record {
  primary = a_signal buy (pos 6_000);
  slaves = a_signal buy (pos 3_000) ∷ a_signal sell (pos 1_000) ∷ [];
}

combined_signal_example :
    ((combine combiner).side ≡ buy)
    × ((combine combiner).locate ≡ 3)
    × ((combine combiner).price ≡ pos 100)
    × IsStrength combiner (combine combiner).strength
combined_signal_example = combined_signal combiner

abbrev a_vote : OrderSide → ℤ → ArbSignal
a_vote side strength = record { side = side; locate = 3; strength = strength; seq = 12 }

abbrev votes : Votes
votes = (a_vote buy (pos 9_000), pos 5_000) ∷ (a_vote sell (pos 4_000), pos 2_000) ∷ []

vote_decides_example :
    let d = arbitrate_decide votes 0 (pos 1_000) in
    IsDecision (majority votes) (pos 1_000) d × (pos 0 ≤ℤ d.strength) × (d.strength ≤ℤ pos 10_000)
vote_decides_example =
    vote_decides votes 0 (pos 1_000) (a_vote buy (pos 9_000)) (pos 5_000) refl
      ((9_000, 5_000, refl, refl, omega arith), ((4_000, 2_000, refl, refl, omega arith), tt))

abbrev a_trade : ℤ → MarketEvent
a_trade price = record {
  kind = EventType.trade;
  seq_id = 1;
  locate = 3;
  timestamp = 7;
  side = buy;
  price = price;
  shares = 10;
  order_ref = 4;
  new_order_ref = 0;
}

abbrev trades : List MarketEvent
trades = a_trade (pos 100) ∷ a_trade (negsuc 0) ∷ a_trade (pos 98) ∷ a_trade (pos 105) ∷ []

trades_conserved_example :
    let a = Bars.run trades (new_aggregator (Mode.by_count 2)) in
    (length a.bars * 2 + a.cur_tick_cnt ≡ priced_trades trades) × (a.cur_tick_cnt ≤ 2)
trades_conserved_example =
    trades_conserved 2 trades (omega arith) (omega arith)
      (omega arith, (omega arith, (omega arith, (omega arith, tt))))

flow_follows_window_example :
    let f =
      Window.run
        ((a_trade (pos 100), buy) ∷ (a_trade (pos 98), sell) ∷ [])
        (reset (new_order_flow (pos 500))) in
    f.ofi ≡ sum_below f.win 1024
flow_follows_window_example =
    flow_follows_window (new_order_flow (pos 500))
      ((a_trade (pos 100), buy) ∷ (a_trade (pos 98), sell) ∷ []) (omega arith)

abbrev breakout : PriceBreakout
breakout = record (new_breakout 3) { prices = pos 100 ∷ pos 98 ∷ pos 105 ∷ [] }

abbrev volumes : VolumeBreakout
volumes = record {
  window = 2;
  threshold = 15;
  vols = 4 ∷ 9 ∷ [];
  current = no_side;
  locate = 0;
  last_price = pos 0;
  last_ts = 0;
  strength = pos 0;
}

volumes-total : Strength.total (9 ∷ 10 ∷ []) ≡ 19
unfolding Strength.total
volumes-total = refl
