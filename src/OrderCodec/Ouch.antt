-- ===== src/OrderCodec/Ouch.antt =====
-- `OuchOrderCodec` of oms/ouch_order_codec.h: the OUCH 4.2 messages. An operation that allocates a
-- reference number or learns one returns the codec's new state.
pub mod Frames
pub mod Enter
pub mod Reports
pub mod Queries
pub mod Numbers
mod Examples
use nebula_x_trader.Prelude.{
  ℕ, zero, suc, ◌+◌, ◌-◌, ◌*◌, ◌/◌, ◌%◌, ◌^◌, Bool, true, false, not, ◌||◌, Option, none, some,
  List, [], ◌∷◌, ◌++◌, ◌==◌, ltb, if◌then◌else◌, length, take,
}
use nebula_x_trader.Prelude.Int.{ℤ, pos, ◌*ℤ◌}
use nebula_x_trader.Prelude.Words.{add64, to_u64}
use nebula_x_trader.Prelude.Dict.{Dict, lookup, insert}
use nebula_x_trader.Prelude.Bytes.{to_be, from_be, flat, slice, byte}
use nebula_x_trader.Prelude.Decimal.{digits, decimal, strtoull}
use nebula_x_trader.Types.{
  Order, OrderSide, buy, sell, no_side, OrderType, market, limit, iceberg, Fill, BookQuote,
}
use nebula_x_trader.OrderCodec.{OrderCodec}

-- The tables of the codec. `tokens` is written and never read, so the newest entry is in front.
pub record OuchOrderCodec : Type 0 where
  pub tokens : List (List ℕ × ℕ)
  pub id_to_ref : Dict ℕ
  pub ref_to_id : Dict ℕ
  pub next_ref : ℕ

abbrev pub new_ouch : OuchOrderCodec
new_ouch = record { tokens = []; id_to_ref = []; ref_to_id = []; next_ref = 1 }

-- `memset(buf, ' ', n)`
pub spaces : ℕ → List ℕ
spaces zero = []
spaces (suc n) = b' ' ∷ spaces n

unfoldable pub sum : List ℕ → ℕ
sum [] = 0
sum (b ∷ bs) = b + sum bs

-- the sum of all bytes modulo 256
pub checksum : List ℕ → ℕ
checksum bs = sum bs % 256

-- `%014llu` into a buffer of 15: longer numbers are cut at the end.
pub token_for : ℕ → List ℕ
token_for order_id =
    if ltb order_id (10 ^ 14) then digits 14 order_id else take 14 (decimal order_id)

-- `%llu` into a buffer of 11, copied over ten spaces
pub book_for : ℕ → List ℕ
book_for symbol_id = let text = take 10 (decimal symbol_id) in text ++ spaces (10 - length text)

abbrev pub side_char : OrderSide → ℕ
side_char sell = b'S'
side_char _ = b'B'

-- cents in OUCH's ten-thousandths, cut to 32 bits when it is written
abbrev pub ouch_price : ℤ → ℕ
ouch_price price = to_u64 (price *ℤ pos 100)

-- The last byte of a frame is the checksum of the others.
abbrev pub sealed : List ℕ → List ℕ
sealed body = body ++ (checksum body ∷ [])

-- the check of the last byte of a frame of `n` bytes
abbrev pub seal_broken : ℕ → List ℕ → Bool
seal_broken n buf = not (byte (n - 1) buf == checksum (take (n - 1) buf))

-- the order type in the field of the time in force
abbrev pub time_in_force : OrderType → ℕ
time_in_force market = b'Y'
time_in_force _ = b'D'

pub ref_for : OuchOrderCodec → ℕ → ℕ × OuchOrderCodec
ref_for k order_id = elim (lookup order_id k.id_to_ref) [
  | some ref ↦ (ref, k)
  | none ↦ (
    k.next_ref,
    record k { id_to_ref = insert order_id k.next_ref k.id_to_ref; next_ref = add64 k.next_ref 1 },
  )
]

-- 'O', 49 bytes
pub enter_frame : List ℕ → ℕ → ℕ → List ℕ → ℕ → ℕ → List ℕ
enter_frame token side quantity book price tif = sealed (
    flat (
      (b'O' ∷ [])
      ∷ token
      ∷ (side ∷ [])
      ∷ to_be 4 quantity
      ∷ book
      ∷ to_be 4 price
      ∷ (tif ∷ [])
      ∷ spaces 6
      ∷ (b'N' ∷ b'A' ∷ b'N' ∷ [])
      ∷ to_be 4 0
      ∷ []))

pub encode_order : OuchOrderCodec → Order → ℕ → Option (List ℕ) × OuchOrderCodec
encode_order k o cap =
    let token = token_for o.order_id in
    if ltb cap 49 then (none, k) else (
      some (
          enter_frame token (side_char o.side) o.quantity (book_for o.symbol_id)
            (ouch_price o.price) (time_in_force o.kind)),
      record k { tokens = (token, o.order_id) ∷ k.tokens },
    )

pub decode_order : List ℕ → Option Order
decode_order buf =
    if ltb (length buf) 49 || not (byte 0 buf == b'O') || seal_broken 49 buf
    then none
    else some (record {
      order_id = strtoull (slice 1 14 buf);
      strategy_id = 0;
      symbol_id = strtoull (slice 20 10 buf);
      side = if byte 15 buf == b'S' then sell else buy;
      kind = if byte 34 buf == b'D' then limit else market;
      price = pos (from_be (slice 30 4 buf) / 100);
      quantity = from_be (slice 16 4 buf);
      timestamp = 0;
    })

-- 'A', 39 bytes
pub ack_frame : ℕ → List ℕ → ℕ → ℕ → List ℕ → List ℕ
ack_frame ref token side quantity book =
    sealed (flat ((b'A' ∷ []) ∷ to_be 8 ref ∷ token ∷ (side ∷ []) ∷ to_be 4 quantity ∷ book ∷ []))

pub encode_ack : OuchOrderCodec → Order → ℕ → Option (List ℕ) × OuchOrderCodec
encode_ack k o cap =
    let (ref, k') = ref_for k o.order_id in
    if ltb cap 39 then (none, k) else (
      some (
          ack_frame ref (token_for o.order_id) (side_char o.side) o.quantity
            (book_for o.symbol_id)),
      k',
    )

-- 'E', 42 bytes
pub exec_frame : ℕ → List ℕ → ℕ → ℕ → List ℕ
exec_frame ref token quantity price = sealed (
    flat (
      (b'E' ∷ [])
      ∷ to_be 8 ref
      ∷ token
      ∷ (b'B' ∷ [])
      ∷ to_be 4 quantity
      ∷ to_be 4 price
      ∷ to_be 4 quantity
      ∷ to_be 4 price
      ∷ (b'T' ∷ [])
      ∷ []))

pub encode_exec : OuchOrderCodec → ℕ → ℕ → ℤ → ℕ → Option (List ℕ) × OuchOrderCodec
encode_exec k order_id filled_qty fill_price cap =
    let (ref, k') = ref_for k order_id in
    if ltb cap 42
    then (none, k)
    else (some (exec_frame ref (token_for order_id) filled_qty (ouch_price fill_price)), k')

-- 'C', 39 bytes
pub cancel_frame : ℕ → List ℕ → ℕ → List ℕ
cancel_frame ref token quantity =
    sealed
      (flat ((b'C' ∷ []) ∷ to_be 8 ref ∷ token ∷ (b'B' ∷ []) ∷ to_be 4 quantity ∷ spaces 10 ∷ []))

pub encode_cancel : OuchOrderCodec → ℕ → ℕ → ℕ → Option (List ℕ) × OuchOrderCodec
encode_cancel k order_id canceled_qty cap =
    let (ref, k') = ref_for k order_id in
    if ltb cap 39
    then (none, k)
    else (some (cancel_frame ref (token_for order_id) canceled_qty), k')

-- 'J', 36 bytes
pub reject_frame : ℕ → List ℕ → List ℕ
reject_frame ref token =
    sealed (flat ((b'J' ∷ []) ∷ to_be 8 ref ∷ token ∷ (b'B' ∷ []) ∷ spaces 11 ∷ []))

pub encode_reject : OuchOrderCodec → ℕ → ℕ → Option (List ℕ) × OuchOrderCodec
encode_reject k order_id cap =
    let (ref, k') = ref_for k order_id in
    if ltb cap 36 then (none, k) else (some (reject_frame ref (token_for order_id)), k')

-- the length of a report, by its type
abbrev pub report_len : ℕ → Option ℕ
report_len kind =
    if kind == b'A'
    then some 39
    else if kind == b'E'
    then some 42
    else if kind == b'C'
    then some 39
    else if kind == b'J'
    then some 36
    else none

-- a report that passed the tests: the order by its reference number, else by its token
pub read_report : OuchOrderCodec → List ℕ → Fill × OuchOrderCodec
read_report k buf =
    let kind = byte 0 buf in
    let ref = from_be (slice 1 8 buf) in
    let order_id : ℕ = elim (lookup ref k.ref_to_id) [
      | some id ↦ id
      | none ↦ strtoull (slice 9 14 buf)
    ] in
    (
      record {
        kind = kind;
        order_id = order_id;
        exchange_ref = ref;
        filled_qty = if kind == b'E' then from_be (slice 32 4 buf) else 0;
        fill_price = if kind == b'E' then pos (from_be (slice 36 4 buf) / 100) else pos 0;
      },
      if kind == b'A' then record k { ref_to_id = insert ref order_id k.ref_to_id } else k,
    )

pub decode_fill : OuchOrderCodec → List ℕ → Option Fill × OuchOrderCodec
decode_fill k buf = elim (report_len (byte 0 buf)) [
  | none ↦ (none, k)
  | some n ↦
      if ltb (length buf) n || seal_broken n buf
      then (none, k)
      else (let (f, k') = read_report k buf in (some f, k'))
]

-- 'X', 19 bytes: four bytes of shares are written at 15, and the checksum over the last of them
pub cancel_request_frame : List ℕ → List ℕ
cancel_request_frame token = sealed (flat ((b'X' ∷ []) ∷ token ∷ take 3 (to_be 4 0) ∷ []))

pub encode_cancel_request : ℕ → ℕ → Option (List ℕ)
encode_cancel_request order_id cap =
    if ltb cap 19 then none else some (cancel_request_frame (token_for order_id))

-- 'Q', 13 bytes
pub query_frame : List ℕ → List ℕ
query_frame book = sealed (flat ((b'Q' ∷ []) ∷ book ∷ spaces 1 ∷ []))

pub encode_book_query : ℕ → ℕ → Option (List ℕ)
encode_book_query symbol_id cap =
    if ltb cap 13 then none else some (query_frame (book_for symbol_id))

pub decode_book_query : List ℕ → Option ℕ
decode_book_query buf =
    if ltb (length buf) 13 || not (byte 0 buf == b'Q') || seal_broken 13 buf
    then none
    else some (strtoull (slice 1 10 buf))

-- 'B', 34 bytes
pub book_frame : List ℕ → ℕ → ℕ → ℕ → ℕ → List ℕ
book_frame book bid bid_vol ask ask_vol = sealed (
    flat (
      (b'B' ∷ [])
      ∷ book
      ∷ to_be 4 bid
      ∷ to_be 4 bid_vol
      ∷ to_be 4 ask
      ∷ to_be 4 ask_vol
      ∷ spaces 6
      ∷ []))

pub encode_book : BookQuote → ℕ → Option (List ℕ)
encode_book q cap =
    if ltb cap 34
    then none
    else some (
        book_frame (book_for q.symbol_id) (ouch_price q.bid) q.bid_vol (ouch_price q.ask) q.ask_vol)

pub decode_book : List ℕ → Option BookQuote
decode_book buf =
    if ltb (length buf) 34 || not (byte 0 buf == b'B') || seal_broken 34 buf
    then none
    else some (record {
      symbol_id = strtoull (slice 1 10 buf);
      bid = pos (from_be (slice 11 4 buf) / 100);
      bid_vol = from_be (slice 15 4 buf);
      ask = pos (from_be (slice 19 4 buf) / 100);
      ask_vol = from_be (slice 23 4 buf);
    })

-- The codec as the engine sees it.
abbrev pub ouch_codec : OrderCodec OuchOrderCodec
ouch_codec = record {
  encode_order = encode_order;
  decode_order = λ k buf. decode_order buf;
  encode_fill = encode_exec;
  decode_fill = decode_fill;
  encode_cancel_request = λ k id cap. (encode_cancel_request id cap, k);
  encode_book_query = λ k symbol cap. (encode_book_query symbol cap, k);
  decode_book = λ k buf. decode_book buf;
}
