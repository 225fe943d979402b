-- ===== src/OrderCodec/Ouch/Examples.antt =====
-- One order through the OUCH messages, and tests of the text fields.
use nebula_x_trader.Prelude.{ℕ, ◌<◌, ◌≡◌, refl, some, none, List, arith, length, take}
use nebula_x_trader.Prelude.Int.{pos}
use nebula_x_trader.Prelude.Words.{u64_mod}
use nebula_x_trader.Prelude.Dict.{lookup}
use nebula_x_trader.Prelude.Bytes.{from_be, slice, byte}
use nebula_x_trader.Types.{Order, sell, limit}
use nebula_x_trader.OrderCodec.Ouch.{
  new_ouch, ref_for, checksum, encode_order, decode_order, encode_ack, encode_exec, decode_fill,
  encode_cancel_request,
}
use nebula_x_trader.OrderCodec.Ouch.Enter.{transmitted, enter_order_roundtrip}
use nebula_x_trader.OrderCodec.Ouch.Reports.{ack_then_execution}
use nebula_x_trader.OrderCodec.Ouch.Queries.{cancel_shares_overlap}

abbrev limit_sell : Order
limit_sell = record {
  order_id = 77;
  strategy_id = 2;
  symbol_id = 300;
  side = sell;
  kind = limit;
  price = pos 12_345;
  quantity = 500;
  timestamp = 9;
}

enter_order_roundtrip_example :
    (frame : List ℕ) × ((encode_order new_ouch limit_sell 256).0 ≡ some frame)
    × (length frame ≡ 49)
    × (decode_order frame ≡ some (transmitted limit_sell 12_345))
enter_order_roundtrip_example =
    enter_order_roundtrip new_ouch limit_sell 256 12_345 (omega arith) (omega arith) refl
      (omega arith) (omega arith)

first_ref-word : (ref_for new_ouch 77).0 < u64_mod
unfolding ref_for lookup
first_ref-word = omega arith

first_ref-unseen : lookup (ref_for new_ouch 77).0 new_ouch.ref_to_id ≡ none
unfolding ref_for lookup
first_ref-unseen = refl

ack_then_execution_example :
    (ack exec : List ℕ) × ((encode_ack new_ouch limit_sell 64).0 ≡ some ack)
    × ((encode_exec (encode_ack new_ouch limit_sell 64).1 77 500 (pos 12_345) 64).0 ≡ some exec)
    × ((decode_fill new_ouch ack).0
        ≡ some (record {
          kind = b'A';
          order_id = 77;
          exchange_ref = (ref_for new_ouch 77).0;
          filled_qty = 0;
          fill_price = pos 0;
        }))
    × ((decode_fill (decode_fill new_ouch ack).1 exec).0
        ≡ some (record {
          kind = b'E';
          order_id = 77;
          exchange_ref = (ref_for new_ouch 77).0;
          filled_qty = 500;
          fill_price = pos 12_345;
        }))
ack_then_execution_example =
    ack_then_execution new_ouch new_ouch limit_sell 500 12_345 64 (omega arith) first_ref-word
      first_ref-unseen (omega arith) (omega arith)

cancel_shares_overlap_example :
    (frame : List ℕ) × (encode_cancel_request 77 64 ≡ some frame)
    × (length frame ≡ 19)
    × (byte 18 frame ≡ checksum (take 18 frame))
    × (from_be (slice 15 4 frame) ≡ byte 18 frame)
cancel_shares_overlap_example = cancel_shares_overlap 77 64 (omega arith) (omega arith)
