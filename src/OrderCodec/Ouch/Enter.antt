-- ===== src/OrderCodec/Ouch/Enter.antt =====
-- The 'O' message: an order and its cancel request.
use nebula_x_trader.Prelude.{
  ℕ, ◌*◌, ◌/◌, ◌%◌, ◌^◌, ◌<◌, ◌≤◌, ◌≡◌, refl, sym, ◌∙◌, true, some, List, ◌==◌, if◌then◌else◌,
  arith, length,
}
use nebula_x_trader.Prelude.Int.{pos}
use nebula_x_trader.Prelude.Bytes.{cells, cells_lem, to_be, from_be}
use nebula_x_trader.Prelude.Decimal.{strtoull}
use nebula_x_trader.Types.{Order, OrderSide, buy, sell, no_side, OrderType, market, limit, iceberg}
use nebula_x_trader.OrderCodec.Ouch.{
  OuchOrderCodec, spaces, token_for, book_for, side_char, ouch_price, time_in_force, enter_frame,
  encode_order, decode_order,
}
use nebula_x_trader.OrderCodec.Ouch.Frames.{
  length-book_for, strtoull-book_for, length-token_for, strtoull-token_for, read32, read_price,
}

pub same : (n : ℕ) → (n == n) ≡ true
same n = ground arith

-- what is read back of a frame, field by field
enter_fields :
    (token book : List ℕ) (side qty price tif : ℕ)
    → let frame = enter_frame (cells 14 token) side qty (cells 10 book) price tif in
      (length frame ≡ 49)
      × (decode_order frame
          ≡ some (record {
            order_id = strtoull (cells 14 token);
            strategy_id = 0;
            symbol_id = strtoull (cells 10 book);
            side = if side == b'S' then sell else buy;
            kind = if tif == b'D' then limit else market;
            price = pos (from_be (to_be 4 price) / 100);
            quantity = from_be (to_be 4 qty);
            timestamp = 0;
          }))
unfolding decode_order enter_frame to_be spaces
enter_fields token book side qty price tif = (refl, rw (same _) refl)

encoded :
    (k : OuchOrderCodec) (o : Order) (cap : ℕ)
    → 49 ≤ cap
    → (encode_order k o cap).0
      ≡ some (
          enter_frame
            (token_for o.order_id)
            (side_char o.side)
            o.quantity
            (book_for o.symbol_id)
            (ouch_price o.price)
            (time_in_force o.kind))
unfolding encode_order
encoded k o cap room = ground arith

-- what a frame keeps of an order: 32 bits of the quantity, and whether the order rests in the book
abbrev pub transmitted : Order → ℕ → Order
transmitted o cents = record {
  order_id = o.order_id;
  strategy_id = 0;
  symbol_id = o.symbol_id;
  side = elim o.side [ sell ↦ sell | _ ↦ buy ];
  kind = elim o.kind [ market ↦ market | _ ↦ limit ];
  price = pos cents;
  quantity = o.quantity % 2 ^ 32;
  timestamp = 0;
}

side_back :
    (s : OrderSide)
    → (if side_char s == b'S' then sell else buy) ≡ (elim s [ sell ↦ sell | _ ↦ buy ])
side_back sell = refl
side_back buy = refl
side_back no_side = refl

kind_back :
    (t : OrderType)
    → (if time_in_force t == b'D' then limit else market) ≡ (elim t [ market ↦ market | _ ↦ limit ])
kind_back market = refl
kind_back limit = refl
kind_back iceberg = refl

-- An order with an id of up to 14 digits, a symbol of up to ten and a price in cents that fits the
-- 32 bits of the protocol is decoded from its frame of 49 bytes with the same id, symbol and
-- price. A buy and a sale keep their side, and an order without one comes back as a buy. The type comes back as limit or market, the strategy and the time are not sent, and of the
-- quantity only the lowest 32 bits arrive.
pub enter_order_roundtrip :
    (k : OuchOrderCodec) (o : Order) (cap cents : ℕ)
    → o.order_id < 10 ^ 14
    → o.symbol_id < 10 ^ 10
    → o.price ≡ pos cents
    → cents * 100 < 2 ^ 32
    → 49 ≤ cap
    → (frame : List ℕ) × ((encode_order k o cap).0 ≡ some frame)
      × (length frame ≡ 49)
      × (decode_order frame ≡ some (transmitted o cents))
enter_order_roundtrip k o cap cents id_small symbol_small price price_small room =
    let token = token_for o.order_id in
    let book = book_for o.symbol_id in
    let fields =
      enter_fields token book (side_char o.side) o.quantity (ouch_price (pos cents))
        (time_in_force o.kind) in
    (
      enter_frame (cells 14 token) (side_char o.side) o.quantity (cells 10 book)
          (ouch_price (pos cents)) (time_in_force o.kind),
      rw
          (
            cells_lem 14 token (length-token_for o.order_id id_small),
            cells_lem 10 book (length-book_for o.symbol_id),
            sym price,
          )
          (encoded k o cap room),
      fields.0,
      fields.1
          ∙ rw
              (
                cells_lem 14 token (length-token_for o.order_id id_small),
                cells_lem 10 book (length-book_for o.symbol_id),
                strtoull-token_for o.order_id id_small,
                strtoull-book_for o.symbol_id symbol_small,
                read32 o.quantity,
                read_price cents price_small,
                side_back o.side,
                kind_back o.kind,
              )
              refl,
    )
