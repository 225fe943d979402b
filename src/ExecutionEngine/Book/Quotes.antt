-- ===== src/ExecutionEngine/Book/Quotes.antt =====
-- The answer of a book query, and the limit order that a market order becomes.
use nebula_x_trader.Prelude.{
  ℕ, ◌≡◌, refl, sym, ap, ◌∙◌, true, false, Option, none, some, List, [], ◌∷◌, length, arith,
  Option-cases, Bool-cases, inl, inr, ◌⊎◌,
}
use nebula_x_trader.Prelude.Int.{ℤ, pos, leb_ℤ, ◌<ℤ◌, eqb_ℤ}
use nebula_x_trader.Types.{Order, OrderSide, buy, sell, no_side, limit, Signal, BookQuote}
use nebula_x_trader.OrderCodec.{OrderCodec}
use nebula_x_trader.OrderManager.{Entry, entry}
use nebula_x_trader.ExecutionEngine.{Engine, transmit, submit_signal, is_no_side, signal_order}
use nebula_x_trader.ExecutionEngine.Submit.{submit_signal-outcome}
use nebula_x_trader.ExecutionEngine.Book.{
  on_book_quote, deliver, take_quote, query_book, opposite_price, submit_market_as_limit,
}

-- the newest of the quotes
abbrev pub latest : List BookQuote → Option BookQuote
latest [] = none
latest (q ∷ qs) = elim (latest qs) [ none ↦ some q | some newer ↦ some newer ]

-- the price that the other side of the book offers: the ask for a buy, the bid for a sale
abbrev pub IsOffered : OrderSide → BookQuote → ℤ → Type 0
IsOffered side q price = ((side ≡ buy) × (price ≡ q.ask)) ⊎ ((side ≡ sell) × (price ≡ q.bid))

module _ {K : Type 0} where
  deliver-manager : (qs : List BookQuote) (e : Engine K) → (deliver e qs).manager ≡ e.manager
  unfolding deliver on_book_quote
  deliver-manager [] e = refl
  deliver-manager (q ∷ qs) e = deliver-manager qs (on_book_quote e q) ∙ ground arith

  deliver-result :
      (qs : List BookQuote) (e : Engine K)
      → (deliver e qs).book_result ≡ (elim (latest qs) [ none ↦ e.book_result | some q ↦ q ])
  unfolding deliver on_book_quote
  deliver-result [] e = refl
  deliver-result (q ∷ qs) e = elim (Option-cases (latest qs)) [
    | inl none_newer ↦ deliver-result qs (on_book_quote e q) ∙ ground arith
    | inr (newer, at) ↦ deliver-result qs (on_book_quote e q) ∙ ground arith
  ]

  -- Once a quote came, nothing waits.
  deliver-waiting :
      (qs : List BookQuote) (e : Engine K)
      → (deliver e qs).book_waiting ≡ (elim (latest qs) [ none ↦ e.book_waiting | some q ↦ false ])
  unfolding deliver on_book_quote
  deliver-waiting [] e = refl
  deliver-waiting (q ∷ qs) e = elim (Option-cases (latest qs)) [
    | inl none_newer ↦ deliver-waiting qs (on_book_quote e q) ∙ ground arith
    | inr (newer, at) ↦ deliver-waiting qs (on_book_quote e q) ∙ ground arith
  ]

  take_quote-answer :
      (e : Engine K) (s : ℕ) (q : BookQuote) (qs : List BookQuote)
      → e.book_waiting ≡ true
      → (take_quote (deliver e qs) s).0 ≡ some q
      → (q.symbol_id ≡ s) × (latest qs ≡ some q)
  unfolding take_quote
  take_quote-answer e s q qs waits h = elim (Option-cases (latest qs)) [
    | inl silent ↦ absurd (ground (arith, deliver-waiting qs e))
    | inr (newest, at) ↦ (
      ground (arith, deliver-waiting qs e, deliver-result qs e),
      ground (arith, deliver-waiting qs e, deliver-result qs e),
    )
  ]

  take_quote-manager : (e : Engine K) (s : ℕ) → (take_quote e s).1.manager ≡ e.manager
  unfolding take_quote
  take_quote-manager e s = ground arith

  take_quote-waiting : (e : Engine K) (s : ℕ) → (take_quote e s).1.book_waiting ≡ false
  unfolding take_quote
  take_quote-waiting e s = ground arith

module _ {K : Type 0} (proto : OrderCodec K) where
  -- `query_book` fails and changes nothing but the codec and the frames sent, or it waits.
  abbrev Failed : Engine K → Option BookQuote × Engine K → Type 0
  Failed e (answer, e') = (answer ≡ none) × (e'.manager ≡ e.manager)

  abbrev Waited : Engine K → ℕ → List BookQuote → Option BookQuote × Engine K → Type 0
  Waited e s qs r =
      (w : Engine K) × (w.book_waiting ≡ true)
      × (w.manager ≡ e.manager)
      × (r ≡ take_quote (deliver w qs) s)

  query_book-cases :
      (e : Engine K) (s : ℕ) (qs : List BookQuote)
      → Failed e (query_book proto e s qs) ⊎ Waited e s qs (query_book proto e s qs)
  unfolding query_book transmit
  query_book-cases e s qs = elim (Option-cases e.link) [
    | inl unlinked ↦ rw (unlinked, query_book) (inl (refl, refl))
    | inr (send, linked) ↦ elim (Option-cases e.codec) [
      | inl missing ↦ rw (linked, missing, query_book) (inl (refl, refl))
      | inr (k, ready) ↦ elim (Option-cases (proto.encode_book_query k s 32).0) [
        | inl failed ↦ rw (linked, ready, query_book, failed) (inl (refl, refl))
        | inr (bytes, framed) ↦ elim (Bool-cases (eqb_ℤ (send e.sent bytes) (pos (length bytes)))) [
          | inl done ↦
              rw (linked, ready, query_book, framed, done)
                (inr (
                  record e {
                    codec = some (proto.encode_book_query k s 32).1;
                    book_waiting = true;
                    sent = bytes ∷ e.sent;
                  },
                  refl,
                  refl,
                  refl,
                ))
          | inr short ↦ rw (linked, ready, query_book, framed, short) (inl (refl, refl))
        ]
      ]
    ]
  ]

  query_book-manager :
      (e : Engine K) (s : ℕ) (qs : List BookQuote) → (query_book proto e s qs).1.manager ≡ e.manager
  query_book-manager e s qs = elim (query_book-cases e s qs) [
    | inl (fails, same) ↦ same
    | inr (w, waits, same, at) ↦
        ap (λ (r : Option BookQuote × Engine K). r.1.manager) at
        ∙ take_quote-manager (deliver w qs) s
        ∙ deliver-manager qs w
        ∙ same
  ]

  query_book-answer :
      (e : Engine K) (s : ℕ) (qs : List BookQuote) (q : BookQuote)
      → (query_book proto e s qs).0 ≡ some q
      → (q.symbol_id ≡ s) × (latest qs ≡ some q)
  query_book-answer e s qs q h = elim (query_book-cases e s qs) [
    | inl (fails, same) ↦ absurd (cc)
    | inr (w, waits, same, at) ↦
        take_quote-answer w s q qs waits
          (sym (ap (λ (r : Option BookQuote × Engine K). r.0) at) ∙ h)
  ]

  -- A limit order at the price that the newest quote has on the other side of the book.
  abbrev pub Quoted : Signal → List BookQuote → Engine K × ℕ → Type 0
  Quoted sig qs (e', id) =
      (q : BookQuote) × (x : Entry) × (latest qs ≡ some q)
      × (q.symbol_id ≡ sig.locate)
      × (entry e'.manager id ≡ some x)
      × (pos 0 <ℤ x.order.price)
      × IsOffered sig.side q x.order.price
      × (x.order.side ≡ sig.side)
      × (x.order.kind ≡ limit)
      × (x.order.symbol_id ≡ sig.locate)

  opposite_price-IsOffered :
      (side : OrderSide) (q : BookQuote)
      → is_no_side side ≡ false
      → IsOffered side q (opposite_price proto side q)
  opposite_price-IsOffered buy q sided = inl (refl, refl)
  opposite_price-IsOffered sell q sided = inr (refl, refl)
  opposite_price-IsOffered no_side q sided = cc

  abbrev pub NotPlaced : Engine K → Engine K × ℕ → Type 0
  NotPlaced e (e', id) = (id ≡ 0) × (e'.manager ≡ e.manager)

  submitted_at :
      (e w : Engine K) (sig : Signal) (strategy_id : ℕ) (qs : List BookQuote) (q : BookQuote)
      → w.manager ≡ e.manager
      → latest qs ≡ some q
      → q.symbol_id ≡ sig.locate
      → pos 0 <ℤ opposite_price proto sig.side q
      → is_no_side sig.side ≡ false
      → let r =
          submit_signal proto w
            (record sig { price = opposite_price proto sig.side q })
            strategy_id
            limit in
        NotPlaced e r ⊎ Quoted sig qs r
  unfolding signal_order
  submitted_at e w sig strategy_id qs q same newest symbol positive sided =
      elim (submit_signal-outcome proto w (record sig { price = opposite_price proto sig.side q })
        strategy_id limit) [
          | inl (dropped, unchanged, none_given) ↦
              inl (none_given, ap (λ (v : Engine K). v.manager) unchanged ∙ same)
          | inr (taken, given, (x, held, terms, ends)) ↦ inr (
            q,
            x,
            newest,
            symbol,
            rw given held,
            rw (ap (λ (o : Order). o.price) terms) positive,
            rw (ap (λ (o : Order). o.price) terms) (opposite_price-IsOffered sig.side q sided),
            ap (λ (o : Order). o.side) terms,
            ap (λ (o : Order). o.kind) terms,
            ap (λ (o : Order). o.symbol_id) terms,
          )
        ]

  -- `submit_market_as_limit` places nothing and leaves the order manager alone, or it places a limit
  -- order of the signal's side and symbol at the price on the other side of the book (the ask for a
  -- buy, the bid for a sale), which is positive. That price is the one of the newest quote that came
  -- while the query waited, and that quote is of the symbol: neither an older quote nor one of
  -- another symbol sets a price.
  pub market_order_at_quote :
      (e : Engine K) (sig : Signal) (strategy_id : ℕ) (qs : List BookQuote)
      → let r = submit_market_as_limit proto e sig strategy_id qs in NotPlaced e r ⊎ Quoted sig qs r
  unfolding submit_market_as_limit
  market_order_at_quote e sig strategy_id qs = elim (Bool-cases (is_no_side sig.side)) [
    | inl idle ↦ rw (idle, submit_market_as_limit) (inl (refl, refl))
    | inr sided ↦ elim (Option-cases (query_book proto e sig.locate qs).0) [
      | inl silent ↦
          rw (sided, submit_market_as_limit, silent)
            (inl (refl, query_book-manager e sig.locate qs))
      | inr (q, answered) ↦
          let (symbol, newest) = query_book-answer e sig.locate qs q answered in
          elim (Bool-cases (leb_ℤ (opposite_price proto sig.side q) (pos 0))) [
            | inl unpriced ↦
                rw (sided, submit_market_as_limit, answered, unpriced)
                  (inl (refl, query_book-manager e sig.locate qs))
            | inr priced ↦
                rw (sided, submit_market_as_limit, answered, priced)
                  (submitted_at e (query_book proto e sig.locate qs).1 sig strategy_id qs q
                    (query_book-manager e sig.locate qs) newest symbol (ground arith) sided)
          ]
    ]
  ]
