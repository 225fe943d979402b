-- ===== src/ItchParser/Messages.antt =====
-- The messages of docs/design/itch5_protocol.md, written field by field, and what the parser makes
-- of them.
mod Examples
use nebula_x_trader.Prelude.{
  ℕ, ◌+◌, ◌/◌, ◌^◌, ◌<◌, ◌≡◌, refl, ◌∙◌, Bool, true, false, List, [], ◌∷◌, ◌==◌, if◌then◌else◌,
  arith, length,
}
use nebula_x_trader.Prelude.Int.{ℤ, pos, negsuc}
use nebula_x_trader.Prelude.Words.{add64, u64_mod}
use nebula_x_trader.Prelude.Bytes.{to_be, from_be, flat, slice, byte, from_be-to_be}
use nebula_x_trader.Types.{OrderSide, buy, sell, no_side, EventType, MarketEvent}
use nebula_x_trader.ItchParser.{
  ItchParser, emit, parse_a, parse_d, parse_x, parse_u, parse_p, parse_e, parse_c, dispatch, feed,
  feed_seq,
}

-- the fields that every message has
pub record Header : Type 0 where
  pub locate : ℕ
  pub track : ℕ
  pub timestamp : ℕ
  pub order_ref : ℕ

-- `stock`, `attribution` and `match` are bytes that the parser skips.
pub data Message : Type 0 where
  add : Header → Bool → (shares stock price : ℕ) → Message
  add_mpid : Header → Bool → (shares stock price attribution : ℕ) → Message
  delete : Header → Message
  cancel : Header → (shares : ℕ) → Message
  replace : Header → (new_ref shares price : ℕ) → Message
  trade : Header → Bool → (shares stock price match_number : ℕ) → Message
  executed : Header → (shares match_number : ℕ) → Message

abbrev header : ℕ → Header → List ℕ
header kind h = flat (
    (kind ∷ [])
    ∷ to_be 2 h.locate
    ∷ to_be 2 h.track
    ∷ to_be 6 h.timestamp
    ∷ to_be 8 h.order_ref
    ∷ [])

-- whether the order sells
abbrev side_field : Bool → ℕ
side_field sells = if sells then b'S' else b'B'

abbrev side_of : Bool → OrderSide
side_of sells = if sells then sell else buy

-- the bytes of a message
pub encode : Message → List ℕ
encode (add h s shares stock price) =
    flat (header b'A' h ∷ (side_field s ∷ []) ∷ to_be 4 shares ∷ to_be 8 stock ∷ to_be 4 price ∷ [])
encode (add_mpid h s shares stock price attribution) = flat (
    header b'F' h
    ∷ (side_field s ∷ [])
    ∷ to_be 4 shares
    ∷ to_be 8 stock
    ∷ to_be 4 price
    ∷ to_be 4 attribution
    ∷ [])
encode (delete h) = header b'D' h
encode (cancel h shares) = flat (header b'X' h ∷ to_be 4 shares ∷ [])
encode (replace h new_ref shares price) =
    flat (header b'U' h ∷ to_be 8 new_ref ∷ to_be 4 shares ∷ to_be 4 price ∷ [])
encode (trade h s shares stock price match_number) = flat (
    header b'P' h
    ∷ (side_field s ∷ [])
    ∷ to_be 4 shares
    ∷ to_be 8 stock
    ∷ to_be 4 price
    ∷ to_be 8 match_number
    ∷ [])
encode (executed h shares match_number) =
    flat (header b'E' h ∷ to_be 4 shares ∷ to_be 8 match_number ∷ [])

abbrev pub event : EventType → Header → OrderSide → ℤ → ℕ → ℕ → MarketEvent
event kind h side price shares new_ref = record {
  kind = kind;
  seq_id = 0;
  locate = h.locate;
  timestamp = h.timestamp;
  side = side;
  price = price;
  shares = shares;
  order_ref = h.order_ref;
  new_order_ref = new_ref;
}

-- the event that a message stands for
abbrev pub meaning : Message → MarketEvent
meaning (add h s shares stock price) =
    event EventType.add h (side_of s) (pos (price / 100)) shares 0
meaning (add_mpid h s shares stock price attribution) =
    event EventType.add h (side_of s) (pos (price / 100)) shares 0
meaning (delete h) = event EventType.delete h buy (pos 0) 0 0
meaning (cancel h shares) = event EventType.cancel h buy (pos 0) shares 0
meaning (replace h new_ref shares price) =
    event EventType.replace h buy (pos (price / 100)) shares new_ref
meaning (trade h s shares stock price match_number) =
    event EventType.trade h (side_of s) (pos (price / 100)) shares 0
meaning (executed h shares match_number) = event EventType.execute h no_side (negsuc 0) shares 0

abbrev pub IsHeader : Header → Type 0
IsHeader h = (h.locate < 2 ^ 16) × (h.timestamp < 2 ^ 48) × (h.order_ref < 2 ^ 64)

-- Every field fits its bytes.
abbrev pub IsWire : Message → Type 0
IsWire (add h s shares stock price) = IsHeader h × (shares < 2 ^ 32) × (price < 2 ^ 32)
IsWire (add_mpid h s shares stock price attribution) =
    IsHeader h × (shares < 2 ^ 32) × (price < 2 ^ 32)
IsWire (delete h) = IsHeader h × Unit
IsWire (cancel h shares) = IsHeader h × (shares < 2 ^ 32)
IsWire (replace h new_ref shares price) =
    IsHeader h × (new_ref < 2 ^ 64) × (shares < 2 ^ 32) × (price < 2 ^ 32)
IsWire (trade h s shares stock price match_number) =
    IsHeader h × (shares < 2 ^ 32) × (price < 2 ^ 32)
IsWire (executed h shares match_number) = IsHeader h × (shares < 2 ^ 32)

side_back : (s : Bool) → (if side_field s == b'S' then sell else buy) ≡ side_of s
side_back true = refl
side_back false = refl

-- what a message leaves in the parser
abbrev pub parsed : ItchParser → ℕ → MarketEvent → ItchParser
parsed p seq ev = record p {
  msg_count = add64 p.msg_count 1;
  cur_seq = seq;
  emitted = record ev { seq_id = seq } ∷ p.emitted;
}

-- A message of one of the seven types A, F, D, X, U, P and E in the layout of the protocol, its fields
-- within their bytes, is recognised, counted and handed on as the one event that it stands for, under the sequence number it came with: prices in
-- cents, rounded down, an execution without price or side, and the events that delete, reduce or
-- replace an order with the side BUY.
pub message_parsed :
    (p : ItchParser) (seq : ℕ) (m : Message)
    → IsWire m
    → feed_seq p (encode m) seq ≡ (true, parsed p seq (meaning m))
unfolding feed_seq feed dispatch encode to_be emit parse_a parse_d parse_x parse_u parse_p parse_e
message_parsed p seq (add h s shares stock price) w =
    rw
      (
        from_be-to_be 2 h.locate w.0.0,
        from_be-to_be 6 h.timestamp w.0.1,
        from_be-to_be 8 h.order_ref w.0.2,
        from_be-to_be 4 shares w.1,
        from_be-to_be 4 price w.2,
        side_back s,
      )
      refl
message_parsed p seq (add_mpid h s shares stock price attribution) w =
    rw
      (
        from_be-to_be 2 h.locate w.0.0,
        from_be-to_be 6 h.timestamp w.0.1,
        from_be-to_be 8 h.order_ref w.0.2,
        from_be-to_be 4 shares w.1,
        from_be-to_be 4 price w.2,
        side_back s,
      )
      refl
message_parsed p seq (delete h) w =
    rw
      (
        from_be-to_be 2 h.locate w.0.0,
        from_be-to_be 6 h.timestamp w.0.1,
        from_be-to_be 8 h.order_ref w.0.2,
      )
      refl
message_parsed p seq (cancel h shares) w =
    rw
      (
        from_be-to_be 2 h.locate w.0.0,
        from_be-to_be 6 h.timestamp w.0.1,
        from_be-to_be 8 h.order_ref w.0.2,
        from_be-to_be 4 shares w.1,
      )
      refl
message_parsed p seq (replace h new_ref shares price) w =
    rw
      (
        from_be-to_be 2 h.locate w.0.0,
        from_be-to_be 6 h.timestamp w.0.1,
        from_be-to_be 8 h.order_ref w.0.2,
        from_be-to_be 8 new_ref w.1,
        from_be-to_be 4 shares w.2,
        from_be-to_be 4 price w.3,
      )
      refl
message_parsed p seq (trade h s shares stock price match_number) w =
    rw
      (
        from_be-to_be 2 h.locate w.0.0,
        from_be-to_be 6 h.timestamp w.0.1,
        from_be-to_be 8 h.order_ref w.0.2,
        from_be-to_be 4 shares w.1,
        from_be-to_be 4 price w.2,
        side_back s,
      )
      refl
message_parsed p seq (executed h shares match_number) w =
    rw
      (
        from_be-to_be 2 h.locate w.0.0,
        from_be-to_be 6 h.timestamp w.0.1,
        from_be-to_be 8 h.order_ref w.0.2,
        from_be-to_be 4 shares w.1,
      )
      refl

-- 'C' in the layout of the document: the price comes after eight bytes of the stock.
abbrev pub executed_at_price : Header → (shares stock price match_number : ℕ) → List ℕ
executed_at_price h shares stock price match_number =
    flat
      (header b'C' h ∷ to_be 4 shares ∷ to_be 8 stock ∷ to_be 4 price ∷ to_be 8 match_number ∷ [])

-- Of a 'C' message in the layout of the document, the parser takes the last four bytes of the field
-- of the stock for the price: the price of the event does not depend on that of the message.
pub executed_price_misread :
    (p : ItchParser) (seq : ℕ) (h : Header) (shares stock price match_number : ℕ)
    → IsHeader h
    → shares < 2 ^ 32
    → feed_seq p (executed_at_price h shares stock price match_number) seq ≡ (
      true,
      parsed p seq (event EventType.trade h no_side (pos (from_be (to_be 4 stock) / 100)) shares 0),
    )
unfolding feed_seq feed dispatch to_be emit parse_c
executed_price_misread p seq h shares stock price match_number w w' =
    rw
      (
        from_be-to_be 2 h.locate w.0,
        from_be-to_be 6 h.timestamp w.1,
        from_be-to_be 8 h.order_ref w.2,
        from_be-to_be 4 shares w',
      )
      refl
