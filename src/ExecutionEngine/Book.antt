-- ===== src/ExecutionEngine/Book.antt =====
-- The book query of the execution engine, `query_book`, `on_book_quote` and
-- `submit_market_as_limit`. What other threads do while the query waits is a list of the quotes that
-- the report thread delivers before the wait ends.
pub mod Quotes
use nebula_x_trader.Prelude.{ℕ, true, false, Option, none, some, List, [], ◌∷◌, ◌==◌, if◌then◌else◌}
use nebula_x_trader.Prelude.Int.{ℤ, pos, leb_ℤ}
use nebula_x_trader.Types.{OrderSide, buy, limit, Signal, BookQuote}
use nebula_x_trader.OrderCodec.{OrderCodec}
use nebula_x_trader.ExecutionEngine.{Engine, transmit, submit_signal, is_no_side}

-- The callback of the report thread.
pub on_book_quote : {K : Type 0} → Engine K → BookQuote → Engine K
on_book_quote e q =
    if e.book_waiting
    then record e { book_result = q; book_waiting = false }
    else record e { book_result = q }

pub deliver : {K : Type 0} → Engine K → List BookQuote → Engine K
deliver e [] = e
deliver e (q ∷ qs) = deliver (on_book_quote e q) qs

-- the end of `query_book`: a wait that timed out, a quote of another symbol, or the answer
pub take_quote : {K : Type 0} → Engine K → ℕ → Option BookQuote × Engine K
take_quote e symbol_id =
    if e.book_waiting
    then (none, record e { book_waiting = false })
    else if e.book_result.symbol_id == symbol_id
    then (some e.book_result, e)
    else (none, e)

module _ {K : Type 0} (proto : OrderCodec K) where
  pub query_book : Engine K → ℕ → List BookQuote → Option BookQuote × Engine K
  unfolding take_quote
  query_book e symbol_id quotes = elim e.link [
    | none ↦ (none, e)
    | some send ↦ elim e.codec [
      | none ↦ (none, e)
      | some k ↦
          let (frame, k') = proto.encode_book_query k symbol_id 32 in
          let asked = record e { codec = some k'; book_waiting = true } in
          elim frame [
            | none ↦ (none, record asked { book_waiting = false })
            | some bytes ↦
                let (done, e') = transmit asked send bytes in
                if done
                then take_quote (deliver e' quotes) symbol_id
                else (none, record e' { book_waiting = false })
          ]
    ]
  ]

  -- the price that a market order takes: the ask for a buy, else the bid
  abbrev pub opposite_price : OrderSide → BookQuote → ℤ
  opposite_price buy q = q.ask
  opposite_price _ q = q.bid

  pub submit_market_as_limit : Engine K → Signal → ℕ → List BookQuote → Engine K × ℕ
  submit_market_as_limit e sig strategy_id quotes =
      if is_no_side sig.side
      then (e, 0)
      else (let (answer, e') = query_book e sig.locate quotes in
          elim answer [
            | none ↦ (e', 0)
            | some q ↦
                let price = opposite_price sig.side q in
                if leb_ℤ price (pos 0)
                then (e', 0)
                else submit_signal proto e' (record sig { price = price }) strategy_id limit
          ])
