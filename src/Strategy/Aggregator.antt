-- ===== src/Strategy/Aggregator.antt =====
-- `KLineAggregator` of strategy/kline/kline_aggregator.h and `KLineConsumer` of kline_consumer.h.
pub mod Bars
use nebula_x_trader.Prelude.{
  ℕ, suc, ◌+◌, ◌*◌, ◌/◌, Bool, true, false, not, ◌||◌, List, [], ◌∷◌, ◌++◌, ◌==◌, ltb, leb,
  if◌then◌else◌, length, drop,
}
use nebula_x_trader.Prelude.Int.{ℤ, pos, ltb_ℤ}
use nebula_x_trader.Prelude.Words.{add64, mul64}
use nebula_x_trader.Types.{MarketEvent}

pub record KLine : Type 0 where
  pub symbol_id : ℕ
  pub timestamp : ℕ
  pub open_price : ℤ
  pub high : ℤ
  pub low : ℤ
  pub close : ℤ
  pub volume : ℕ

-- `Mode`, with the parameter that belongs to it
pub data Mode : Type 0 where
  by_time by_count : ℕ → Mode

-- The members; `bars` are the bars that the sink was called with, the newest first.
pub record KLineAggregator : Type 0 where
  pub mode : Mode
  pub cur : KLine
  pub cur_win_start : ℕ
  pub cur_tick_cnt : ℕ
  pub emitted : ℕ
  pub bars : List KLine

-- `KLine{}`
abbrev pub no_bar : KLine
no_bar = record {
  symbol_id = 0;
  timestamp = 0;
  open_price = pos 0;
  high = pos 0;
  low = pos 0;
  close = pos 0;
  volume = 0;
}

abbrev pub new_aggregator : Mode → KLineAggregator
new_aggregator mode = record {
  mode = mode;
  cur = no_bar;
  cur_win_start = 0;
  cur_tick_cnt = 0;
  emitted = 0;
  bars = [];
}

pub push : KLineAggregator → KLineAggregator
push a = record a { bars = a.cur ∷ a.bars; emitted = add64 a.emitted 1 }

pub start_new : MarketEvent → ℕ → KLineAggregator → KLineAggregator
start_new ev ts a = record a {
  cur = record {
    symbol_id = ev.locate;
    timestamp = ts;
    open_price = ev.price;
    high = ev.price;
    low = ev.price;
    close = ev.price;
    volume = ev.shares;
  };
}

pub extend_bar : MarketEvent → KLine → KLine
extend_bar ev k = record k {
  close = ev.price;
  high = if ltb_ℤ k.high ev.price then ev.price else k.high;
  low = if ltb_ℤ ev.price k.low then ev.price else k.low;
  volume = add64 k.volume ev.shares;
}

abbrev pub extend : MarketEvent → KLineAggregator → KLineAggregator
extend ev a = record a { cur = extend_bar ev a.cur }

-- the branch of windows of time
pub on_timed_trade : ℕ → MarketEvent → KLineAggregator → KLineAggregator
on_timed_trade window_ns ev a =
    let win_start = mul64 (ev.timestamp / window_ns) window_ns in
    if a.cur.symbol_id == 0 || not (win_start == a.cur_win_start)
    then record (start_new ev win_start (if a.cur.symbol_id == 0 then a else push a)) {
      cur_win_start = win_start;
    }
    else extend ev a

-- the branch of windows of a number of trades
pub on_counted_trade : ℕ → MarketEvent → KLineAggregator → KLineAggregator
on_counted_trade tick_count ev a =
    if a.cur.symbol_id == 0
    then record (start_new ev ev.timestamp a) { cur_tick_cnt = 1 }
    else if leb tick_count a.cur_tick_cnt
    then record (start_new ev ev.timestamp (push a)) { cur_tick_cnt = 1 }
    else record (extend ev a) { cur_tick_cnt = add64 a.cur_tick_cnt 1 }

pub on_trade : MarketEvent → KLineAggregator → KLineAggregator
on_trade ev a = if ltb_ℤ ev.price (pos 0) then a else elim a.mode [
  | by_time window_ns ↦ on_timed_trade window_ns ev a
  | by_count tick_count ↦ on_counted_trade tick_count ev a
]

pub flush : KLineAggregator → KLineAggregator
flush a = record (if a.cur.symbol_id == 0 then a else push a) {
  cur = no_bar;
  cur_win_start = 0;
  cur_tick_cnt = 0;
}

-- `KLineConsumer`: the closes of the last `keep` bars, the oldest first
pub on_bar : ℕ → KLine → List ℤ → List ℤ
on_bar keep bar closes =
    let all = closes ++ (bar.close ∷ []) in if ltb keep (length all) then drop 1 all else all
