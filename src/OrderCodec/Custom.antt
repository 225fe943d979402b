-- ===== src/OrderCodec/Custom.antt =====
-- `CustomOrderCodec` of oms/custom_order_codec.h: fixed frames of big-endian fields, without state.
mod Examples
use nebula_x_trader.Prelude.{
  ℕ, ◌^◌, ◌<◌, ◌≤◌, ◌≡◌, refl, true, false, not, ◌||◌, Option, none, some, List, [], ◌∷◌, ◌==◌, ltb,
  if◌then◌else◌, arith, length, Bool-cases, inl, inr,
}
use nebula_x_trader.Prelude.Int.{ℤ, pos}
use nebula_x_trader.Prelude.Words.{u64_mod, to_i64, to_u64, IsInt64, to_i64-to_u64}
use nebula_x_trader.Prelude.Bytes.{to_be, from_be, flat, slice, byte, from_be-to_be}
use nebula_x_trader.Types.{Order, OrderSide, buy, sell, no_side, market, Fill}
use nebula_x_trader.OrderCodec.{OrderCodec}

-- `kOrderMsgLen`, `kFillMsgLen`
abbrev pub order_msg_len : ℕ
order_msg_len = 42

abbrev pub fill_msg_len : ℕ
fill_msg_len = 25

abbrev pub side_byte : OrderSide → ℕ
side_byte sell = 1
side_byte _ = 0

pub encode_order : Order → ℕ → Option (List ℕ)
encode_order o cap =
    if ltb cap order_msg_len
    then none
    else some (
        flat (
          (b'O' ∷ [])
          ∷ to_be 8 o.order_id
          ∷ to_be 8 o.symbol_id
          ∷ (side_byte o.side ∷ [])
          ∷ to_be 8 (to_u64 o.price)
          ∷ to_be 8 o.quantity
          ∷ to_be 8 o.timestamp
          ∷ []))

pub decode_order : List ℕ → Option Order
decode_order buf =
    if ltb (length buf) order_msg_len || not (byte 0 buf == b'O')
    then none
    else some (record {
      order_id = from_be (slice 1 8 buf);
      strategy_id = 0;
      symbol_id = from_be (slice 9 8 buf);
      side = if byte 17 buf == 1 then sell else buy;
      kind = market;
      price = to_i64 (from_be (slice 18 8 buf));
      quantity = from_be (slice 26 8 buf);
      timestamp = from_be (slice 34 8 buf);
    })

pub encode_fill : ℕ → ℕ → ℤ → ℕ → Option (List ℕ)
encode_fill order_id filled_qty fill_price cap =
    if ltb cap fill_msg_len
    then none
    else some (
        flat
          ((b'F' ∷ []) ∷ to_be 8 order_id ∷ to_be 8 filled_qty ∷ to_be 8 (to_u64 fill_price) ∷ []))

pub decode_fill : List ℕ → Option Fill
decode_fill buf =
    if ltb (length buf) fill_msg_len || not (byte 0 buf == b'F')
    then none
    else some (record {
      kind = b'F';
      order_id = from_be (slice 1 8 buf);
      exchange_ref = 0;
      filled_qty = from_be (slice 9 8 buf);
      fill_price = to_i64 (from_be (slice 17 8 buf));
    })

pub encode_cancel_request : ℕ → ℕ → Option (List ℕ)
encode_cancel_request order_id cap =
    if ltb cap 9 then none else some (flat ((b'C' ∷ []) ∷ to_be 8 order_id ∷ []))

-- The codec as the engine sees it. The messages on the book are not supported.
abbrev pub custom_codec : OrderCodec Unit
custom_codec = record {
  encode_order = λ k o cap. (encode_order o cap, k);
  decode_order = λ k buf. decode_order buf;
  encode_fill = λ k id qty price cap. (encode_fill id qty price cap, k);
  decode_fill = λ k buf. (decode_fill buf, k);
  encode_cancel_request = λ k id cap. (encode_cancel_request id cap, k);
  encode_book_query = λ k symbol cap. (none, k);
  decode_book = λ k buf. none;
}

-- the bytes of a 64-bit word
read64 : (v : ℕ) → v < u64_mod → from_be (to_be 8 v) ≡ v
read64 v word = from_be-to_be 8 v word

-- A report of 64-bit fields that is encoded into a large enough buffer is decoded to a fill of type
-- 'F' of the same order, quantity and price.
pub fill_roundtrip :
    (id qty : ℕ) (price : ℤ) (cap : ℕ)
    → id < u64_mod
    → qty < u64_mod
    → IsInt64 price
    → 25 ≤ cap
    → (frame : List ℕ) × (encode_fill id qty price cap ≡ some frame)
      × (decode_fill frame
          ≡ some (record {
            kind = b'F';
            order_id = id;
            exchange_ref = 0;
            filled_qty = qty;
            fill_price = price;
          }))
unfolding encode_fill decode_fill to_be
fill_roundtrip id qty price cap id_word qty_word price_word room = (
  flat ((b'F' ∷ []) ∷ to_be 8 id ∷ to_be 8 qty ∷ to_be 8 (to_u64 price) ∷ []),
  ground arith,
  rw (
    read64 id id_word,
    read64 qty qty_word,
    read64 (to_u64 price) (ground arith),
    to_i64-to_u64 price price_word,
  ),
)

-- what the protocol keeps of an order: not its strategy or its type, and no side is a buy
abbrev pub transmitted : Order → Order
transmitted o = record o {
  strategy_id = 0;
  side = elim o.side [ sell ↦ sell | _ ↦ buy ];
  kind = market;
}

-- An order of 64-bit fields that is encoded into a large enough buffer is decoded to the same order,
-- but for the strategy and the type, which the frame has no room for, and a missing side, which
-- comes back as a buy; the frame has 42 bytes.
order_roundtrip :
    (o : Order) (cap : ℕ)
    → o.order_id < u64_mod
    → o.symbol_id < u64_mod
    → o.quantity < u64_mod
    → o.timestamp < u64_mod
    → IsInt64 o.price
    → 42 ≤ cap
    → (frame : List ℕ) × (encode_order o cap ≡ some frame)
      × (length frame ≡ 42)
      × (decode_order frame ≡ some (transmitted o))
unfolding encode_order decode_order to_be
order_roundtrip o cap id_word symbol_word qty_word time_word price_word room = (
  flat (
      (b'O' ∷ [])
      ∷ to_be 8 o.order_id
      ∷ to_be 8 o.symbol_id
      ∷ (side_byte o.side ∷ [])
      ∷ to_be 8 (to_u64 o.price)
      ∷ to_be 8 o.quantity
      ∷ to_be 8 o.timestamp
      ∷ []),
  ground arith,
  refl,
  rw
      (
        read64 o.order_id id_word,
        read64 o.symbol_id symbol_word,
        read64 o.quantity qty_word,
        read64 o.timestamp time_word,
        read64 (to_u64 o.price) (ground arith),
        to_i64-to_u64 o.price price_word,
        side_back o.side,
      )
      refl,
)
  where
    side_back :
        (s : OrderSide)
        → (if side_byte s == 1 then sell else buy) ≡ (elim s [ sell ↦ sell | _ ↦ buy ])
    side_back sell = refl
    side_back buy = refl
    side_back no_side = refl
