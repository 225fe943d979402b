-- ===== src/OrderCodec/Ouch/Queries.antt =====
-- The cancel request and the messages on the book.
use nebula_x_trader.Prelude.{
  ℕ, ◌*◌, ◌/◌, ◌%◌, ◌^◌, ◌<◌, ◌≤◌, ◌≡◌, refl, ◌∙◌, some, List, arith, length, take,
}
use nebula_x_trader.Prelude.Int.{pos}
use nebula_x_trader.Prelude.Bytes.{cells, cells_lem, to_be, from_be, from_be_on, slice, byte}
use nebula_x_trader.Prelude.Decimal.{strtoull}
use nebula_x_trader.OrderCodec.Ouch.{
  spaces, checksum, query_frame, cancel_request_frame, token_for, book_for, ouch_price, book_frame,
  encode_cancel_request, encode_book_query, decode_book_query, encode_book, decode_book,
}
use nebula_x_trader.OrderCodec.Ouch.Frames.{
  length-book_for, strtoull-book_for, length-token_for, read32, read_price,
}
use nebula_x_trader.OrderCodec.Ouch.Enter.{same}

query_fields :
    (book : List ℕ)
    → decode_book_query (query_frame (cells 10 book)) ≡ some (strtoull (cells 10 book))
unfolding decode_book_query query_frame spaces
query_fields book = rw (same _) refl

-- A query of the book of a symbol of up to ten digits is read back by the other side.
pub book_query_roundtrip :
    (symbol_id cap : ℕ)
    → symbol_id < 10 ^ 10
    → 13 ≤ cap
    → (frame : List ℕ) × (encode_book_query symbol_id cap ≡ some frame)
      × (decode_book_query frame ≡ some symbol_id)
unfolding encode_book_query
book_query_roundtrip symbol_id cap small room =
    let book = book_for symbol_id in
    (
      query_frame (cells 10 book),
      rw (cells_lem 10 book (length-book_for symbol_id)) (ground arith),
      query_fields book
          ∙ rw (cells_lem 10 book (length-book_for symbol_id), strtoull-book_for symbol_id small)
              refl,
    )

book_fields :
    (book : List ℕ) (bid bid_vol ask ask_vol : ℕ)
    → decode_book (book_frame (cells 10 book) bid bid_vol ask ask_vol)
      ≡ some (record {
        symbol_id = strtoull (cells 10 book);
        bid = pos (from_be (to_be 4 bid) / 100);
        bid_vol = from_be (to_be 4 bid_vol);
        ask = pos (from_be (to_be 4 ask) / 100);
        ask_vol = from_be (to_be 4 ask_vol);
      })
unfolding decode_book book_frame to_be spaces
book_fields book bid bid_vol ask ask_vol = rw (same _) refl

-- The best prices of a symbol of up to ten digits, in cents that fit the 32 bits of the protocol, are
-- read back from the book report, with the volumes cut to 32 bits.
book_roundtrip :
    (symbol_id bid bid_vol ask ask_vol cap : ℕ)
    → symbol_id < 10 ^ 10
    → bid * 100 < 2 ^ 32
    → ask * 100 < 2 ^ 32
    → 34 ≤ cap
    → (frame : List ℕ) × (encode_book
          (record {
            symbol_id = symbol_id;
            bid = pos bid;
            bid_vol = bid_vol;
            ask = pos ask;
            ask_vol = ask_vol;
          })
          cap
        ≡ some frame)
      × (decode_book frame
          ≡ some (record {
            symbol_id = symbol_id;
            bid = pos bid;
            bid_vol = bid_vol % 2 ^ 32;
            ask = pos ask;
            ask_vol = ask_vol % 2 ^ 32;
          }))
unfolding encode_book
book_roundtrip symbol_id bid bid_vol ask ask_vol cap small bid_small ask_small room =
    let book = book_for symbol_id in
    (
      book_frame (cells 10 book) (ouch_price (pos bid)) bid_vol (ouch_price (pos ask)) ask_vol,
      rw (cells_lem 10 book (length-book_for symbol_id)) (ground arith),
      book_fields book (ouch_price (pos bid)) bid_vol (ouch_price (pos ask)) ask_vol
          ∙ rw
              (
                cells_lem 10 book (length-book_for symbol_id),
                strtoull-book_for symbol_id small,
                read_price bid bid_small,
                read_price ask ask_small,
                read32 bid_vol,
                read32 ask_vol,
              )
              refl,
    )

cancel_fields :
    (token : List ℕ)
    → let frame = cancel_request_frame (cells 14 token) in
      (length frame ≡ 19)
      × (byte 18 frame ≡ checksum (take 18 frame))
      × (from_be (slice 15 4 frame) ≡ byte 18 frame)
unfolding cancel_request_frame to_be from_be_on
cancel_fields token = (refl, refl, omega arith)

-- In a cancel request the checksum stands in the last of the four bytes of the number of shares,
-- which is to be 0 for the whole order: who reads that number gets the checksum of the frame. The id
-- has up to 14 digits.
pub cancel_shares_overlap :
    (order_id cap : ℕ)
    → order_id < 10 ^ 14
    → 19 ≤ cap
    → (frame : List ℕ) × (encode_cancel_request order_id cap ≡ some frame)
      × (length frame ≡ 19)
      × (byte 18 frame ≡ checksum (take 18 frame))
      × (from_be (slice 15 4 frame) ≡ byte 18 frame)
unfolding encode_cancel_request
cancel_shares_overlap order_id cap small room = (
  cancel_request_frame (cells 14 (token_for order_id)),
  rw (cells_lem 14 (token_for order_id) (length-token_for order_id small)) (ground arith),
  (cancel_fields (token_for order_id)).0,
  (cancel_fields (token_for order_id)).1,
  (cancel_fields (token_for order_id)).2,
)
