-- ===== src/ItchParser/Messages/Examples.antt =====
-- A replacement and an execution at a price, through the parser.
use nebula_x_trader.Prelude.{◌/◌, ◌≡◌, true, arith}
use nebula_x_trader.Prelude.Int.{pos}
use nebula_x_trader.Prelude.Bytes.{to_be, from_be}
use nebula_x_trader.Types.{no_side, EventType}
use nebula_x_trader.ItchParser.{new_parser, feed_seq}
use nebula_x_trader.ItchParser.Messages.{
  Header, Message, encode, meaning, event, parsed, executed_at_price, message_parsed,
  executed_price_misread,
}

abbrev a_header : Header
a_header = record { locate = 13; track = 0; timestamp = 34_200_000_000_000; order_ref = 99 }

message_parsed_example :
    feed_seq new_parser (encode (Message.replace a_header 100 250 1_234_500)) 8
    ≡ (true, parsed new_parser 8 (meaning (Message.replace a_header 100 250 1_234_500)))
message_parsed_example =
    message_parsed new_parser 8 (Message.replace a_header 100 250 1_234_500)
      ((omega arith, omega arith, omega arith), omega arith, omega arith, omega arith)

executed_price_misread_example :
    feed_seq new_parser (executed_at_price a_header 250 77 1_234_500 5) 8 ≡ (
      true,
      parsed new_parser 8
          (event EventType.trade a_header no_side (pos (from_be (to_be 4 77) / 100)) 250 0),
    )
executed_price_misread_example =
    executed_price_misread new_parser 8 a_header 250 77 1_234_500 5
      (omega arith, omega arith, omega arith) (omega arith)
