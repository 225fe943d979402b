-- ===== src/ByteRingParser/Examples.antt =====
-- A ring of 32 bytes, and messages of 19 bytes' body that its end divides.
use nebula_x_trader.Prelude.Window.{window}
use nebula_x_trader.ByteRingParser.Queue.{length-numbered}
use nebula_x_trader.Prelude.{ℕ, ◌+◌, ◌<◌, length, ◌≡◌, refl, List, [], ◌∷◌, arith}
use nebula_x_trader.Prelude.Bytes.{to_be, from_be_on}
use nebula_x_trader.MoldUnpacker.Stream.{encode_message, numbered_message}
use nebula_x_trader.ByteRing.{
  ByteRing, push, push_wrapped, push_split, read_acquire, write_at, read_at,
}
use nebula_x_trader.ItchParser.{new_parser}
use nebula_x_trader.ByteRingParser.{
  Turn, turn, parse_available, parse_loop, message_at, parse_message, skip_end,
}
use nebula_x_trader.ByteRingParser.Stops.{IsOrdered, parse_available_stops}
use nebula_x_trader.ByteRingParser.Frames.{feed_all}
use nebula_x_trader.ByteRingParser.Intact.{Call, pushes, takes_turn, parses, run, call}
use nebula_x_trader.ByteRingParser.Calls.{empty_ring, accepted_messages_parsed}
use nebula_x_trader.ByteRingParser.Race.{next_start, pushed_between_loads_lost}

-- `D`, with the locate 3, and the order number `ref`
abbrev delete_message : ℕ → List ℕ
delete_message ref =
    68 ∷ 0 ∷ 3 ∷ 0 ∷ 0 ∷ 0 ∷ 0 ∷ 0 ∷ 0 ∷ 0 ∷ 9 ∷ 0 ∷ 0 ∷ 0 ∷ 0 ∷ 0 ∷ 0 ∷ 0 ∷ ref ∷ []

-- the second push finds no room
abbrev calls : List Call
calls =
    pushes 1 (delete_message 7)
    ∷ pushes 2 (delete_message 8)
    ∷ takes_turn
    ∷ pushes 2 (delete_message 8)
    ∷ parses
    ∷ pushes 3 (delete_message 9)
    ∷ []

accepted_messages_parsed_example :
    let st =
      run (record { ring = empty_ring (λ i. 0) 32; parser = new_parser; accepted = [] }) calls in
    (parse_available st.ring st.parser).2 ≡ feed_all new_parser st.accepted
accepted_messages_parsed_example =
    accepted_messages_parsed calls (λ i. 0) 32 new_parser (omega arith) (omega arith)
      ((
        (omega arith, omega arith),
        omega arith,
        (
          (omega arith, omega arith),
          omega arith,
          ((omega arith, omega arith), omega arith, ((omega arith, omega arith), omega arith, tt)),
        ),
      ))

-- what is accepted
three_accepted :
    (run
      (record { ring = empty_ring (λ i. 0) 32; parser = new_parser; accepted = [] })
      calls).accepted
    ≡ (1, delete_message 7) ∷ (2, delete_message 8) ∷ (3, delete_message 9) ∷ []
unfolding run call push push_wrapped push_split parse_available parse_loop turn message_at
    parse_message skip_end read_acquire to_be encode_message write_at read_at from_be_on
three_accepted = refl

-- a ring of noise
abbrev noise : ByteRing
noise = record { buf = λ i. i; capacity = 32; head = 5; tail = 29 }

parse_available_stops_example :
    let (parsed, r', p') = parse_available noise new_parser in
    (turn r' r' p' ≡ Turn.waits) × IsOrdered r' × (r'.tail ≡ noise.tail)
parse_available_stops_example =
    parse_available_stops noise new_parser (omega arith, omega arith, omega arith)

-- a ring of 64 bytes that is empty 20 bytes before its end
abbrev drained : ByteRing
drained = record { buf = λ i. 0; capacity = 64; head = 44; tail = 44 }

pushed_between_loads_lost_example :
    let msg = numbered_message 5 (delete_message 7) in
    let (n, r') = push drained msg in
    (n ≡ length msg)
    × (window 64 r'.buf 44 (length msg) ≡ msg)
    × (turn drained r' new_parser ≡ Turn.skips (record r' { head = next_start drained }))
    × (44 < next_start drained)
    × (next_start drained < 44 + length msg)
    × (r'.tail ≡ 44 + length msg)
pushed_between_loads_lost_example =
    let len = length-numbered 5 (delete_message 7) in
    pushed_between_loads_lost drained new_parser (numbered_message 5 (delete_message 7)) refl
      (omega (arith, len)) (omega arith) (omega (arith, len)) (omega (arith, len))
      (omega (arith, len))
