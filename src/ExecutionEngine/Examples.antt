-- ===== src/ExecutionEngine/Examples.antt =====
-- The execution engine with a plain codec: simulated, linked, and with a sender that fails.
use nebula_x_trader.Prelude.{
  ℕ, ◌+◌, ◌≤◌, ◌<◌, ◌≡◌, refl, false, some, none, List, [], ◌∷◌, arith, length, ◌⊎◌,
}
use nebula_x_trader.Prelude.Int.{ℤ, pos, negsuc}
use nebula_x_trader.Types.{BookQuote, Signal, Fill, sell, limit, market, pending_cancel}
use nebula_x_trader.OrderCodec.{OrderCodec}
use nebula_x_trader.OrderManager.{status, is_active, empty_manager}
use nebula_x_trader.OrderManager.Calls.{run}
use nebula_x_trader.OrderManager.Examples.{
  two_fills, two_fills-entry, half_filled, half_filled-IsSound, withdrawn, withdrawn-entry,
}
use nebula_x_trader.RiskManager.{position}
use nebula_x_trader.Prelude.Words.{u64_mod}
use nebula_x_trader.RiskManager.Limits.{position_lem}
use nebula_x_trader.RiskManager.Examples.{held, broken, broken-drawdown_flatten}
use nebula_x_trader.ExecutionEngine.{
  Engine, new_engine, set_sender, set_codec, submit_signal, order_quantity, signal_order,
  flatten_on_drawdown, on_order_report, cancel_order,
}
use nebula_x_trader.ExecutionEngine.Book.{submit_market_as_limit}
use nebula_x_trader.ExecutionEngine.Book.Quotes.{NotPlaced, Quoted, market_order_at_quote}
use nebula_x_trader.ExecutionEngine.Drops.{Undesired}
use nebula_x_trader.ExecutionEngine.Submit.{submit_signal-outcome, outcome, registered, Became}
use nebula_x_trader.ExecutionEngine.Flatten.{flatten_leaves_none_active}
use nebula_x_trader.ExecutionEngine.Reports.{Filled, execution_agrees, late_execution_diverges}
use nebula_x_trader.ExecutionEngine.Cancel.{cancel_marks_before_sending}
use nebula_x_trader.ExecutionEngine.Limits.{InLimit, submit_all, simulated_positions-InLimit}

-- a codec whose frames are the id alone
abbrev id_codec : OrderCodec Unit
id_codec = record {
  encode_order = λ k o cap. (some (o.order_id ∷ []), k);
  decode_order = λ k frame. none;
  encode_fill = λ k id qty price cap. (none, k);
  decode_fill = λ k frame. (none, k);
  encode_cancel_request = λ k id cap. (some (id ∷ []), k);
  encode_book_query = λ k symbol cap. (some (symbol ∷ []), k);
  decode_book = λ k frame. none;
}

abbrev simulated : Engine Unit
simulated = new_engine empty_manager held

-- a sender that takes every frame, and one that takes none
abbrev takes_all : List (List ℕ) → List ℕ → ℤ
takes_all before frame = pos (length frame)

abbrev takes_none : List (List ℕ) → List ℕ → ℤ
takes_none before frame = negsuc 0

abbrev half_strength : Signal
half_strength = record {
  side = sell;
  locate = 3;
  price = pos 10;
  timestamp = 5;
  strength = pos 5_000;
}

abbrev linked : Engine Unit
linked = set_codec (some tt) (set_sender (some takes_all) simulated)

submit_signal-outcome_example :
    let qty = order_quantity 100 (pos 5_000) in
    let o = registered id_codec linked (signal_order half_strength 7 limit qty) in
    let (e', id) = submit_signal id_codec linked half_strength 7 limit in
    (Undesired half_strength limit qty × (e' ≡ linked) × (id ≡ 0))
    ⊎ ((¬ (Undesired half_strength limit qty))
        × (id ≡ 1)
        × Became id_codec e'.manager o (outcome id_codec linked o))
submit_signal-outcome_example = submit_signal-outcome id_codec linked half_strength 7 limit

simulated_positions-InLimit_example :
    InLimit
      (submit_all id_codec simulated
        ((half_strength, 7, limit) ∷ (half_strength, 7, market) ∷ [])).risk
simulated_positions-InLimit_example =
    simulated_positions-InLimit id_codec
      ((half_strength, 7, limit) ∷ (half_strength, 7, market) ∷ []) simulated refl held-InLimit
  where
    held-InLimit : InLimit held
    held-InLimit = (omega arith, λ l. ground arith)

-- with an order half filled
abbrev trading : Engine Unit
trading = record simulated { manager = run two_fills empty_manager }

flatten_leaves_none_active_example :
    is_active (status (flatten_on_drawdown id_codec (record trading { risk = broken })).manager 1)
    ≡ false
flatten_leaves_none_active_example =
    flatten_leaves_none_active id_codec (record trading { risk = broken }) 1 refl refl
      broken-drawdown_flatten

abbrev execution : ℕ → Fill
execution qty = record {
  kind = b'E';
  order_id = 1;
  exchange_ref = 42;
  filled_qty = qty;
  fill_price = pos 1000;
}

small_position : (qty : ℕ) → qty ≤ 1_000 → position held 3 + qty < u64_mod
small_position qty few = omega (arith, position_lem held 3)

execution_agrees_example :
    let e' = on_order_report id_codec trading (execution 30) in
    (position e'.risk 3 ≡ position held 3 + 30)
    × (60 + 30 ≤ 100 → Filled 1 (60 + 30) e'.manager)
    × (100 < 60 + 30 → Filled 1 100 e'.manager)
execution_agrees_example =
    execution_agrees id_codec trading (execution 30) half_filled two_fills-entry half_filled-IsSound
      refl refl (omega arith) (small_position 30 (omega arith))

late_execution_diverges_example :
    let late = record simulated { manager = run withdrawn empty_manager } in
    Filled 1 60 (on_order_report id_codec late (execution 30)).manager
    × (position (on_order_report id_codec late (execution 30)).risk 3 ≡ position held 3 + 30)
late_execution_diverges_example =
    late_execution_diverges id_codec (record simulated { manager = run withdrawn empty_manager })
      (execution 30) (record half_filled { status = pending_cancel; update_time = 4 })
      withdrawn-entry refl refl (small_position 30 (omega arith))

cancel_marks_before_sending_example :
    let cut = record trading { link = some takes_none; codec = some tt } in
    let (sent, e') = cancel_order id_codec cut 1 in
    (sent ≡ false)
    × (status e'.manager 1 ≡ pending_cancel)
    × (cancel_order id_codec e' 1 ≡ (false, e'))
cancel_marks_before_sending_example =
    cancel_marks_before_sending id_codec
      (record trading { link = some takes_none; codec = some tt }) 1 half_filled takes_none tt refl
      refl two_fills-entry refl

abbrev quote : BookQuote
quote = record { symbol_id = 3; bid = pos 9; bid_vol = 10; ask = pos 11; ask_vol = 20 }

market_order_at_quote_example :
    let r = submit_market_as_limit id_codec linked half_strength 7 (quote ∷ []) in
    NotPlaced id_codec linked r ⊎ Quoted id_codec half_strength (quote ∷ []) r
market_order_at_quote_example = market_order_at_quote id_codec linked half_strength 7 (quote ∷ [])
