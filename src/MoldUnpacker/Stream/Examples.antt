-- ===== src/MoldUnpacker/Stream/Examples.antt =====
-- Two packets, one of them without a message.
use nebula_x_trader.Prelude.{ℕ, ◌≡◌, refl, List, [], ◌∷◌, arith}
use nebula_x_trader.MoldUnpacker.{feed}
use nebula_x_trader.MoldUnpacker.Stream.{
  Packet, encode_stream, all_messages, message_count, packets_unpacked,
}

abbrev session : List ℕ
session = 48 ∷ 48 ∷ 48 ∷ 48 ∷ 48 ∷ 48 ∷ 48 ∷ 48 ∷ 48 ∷ 49 ∷ []

abbrev packets : List Packet
packets =
    record { session = session; seq = 70_000; bodies = (b'D' ∷ 1 ∷ 2 ∷ []) ∷ (b'X' ∷ []) ∷ [] }
    ∷ record { session = session; seq = 70_002; bodies = [] }
    ∷ []

packets_unpacked_example :
    feed (encode_stream packets)
    ≡ record { rest = []; pushed = all_messages packets; unpacked = message_count packets }
packets_unpacked_example = packets_unpacked packets (
  record {
    session_len = refl;
    word = omega arith;
    count = omega arith;
    bodies_fit = ((omega arith, omega arith), ((omega arith, omega arith), tt));
  },
  (record { session_len = refl; word = omega arith; count = omega arith; bodies_fit = tt }, tt),
)
