-- ===== src/MoldUnpacker.antt =====
-- `MoldUdpUnpacker` of market/pipeline/mold_udp_unpacker.h: packets are split into messages, each with
-- its own sequence number in front. The rest of the packet stands for the position in it; the ring
-- takes every message in the end, so that it is the list of the messages pushed.
pub mod Stream
use nebula_x_trader.Prelude.{
  ℕ, zero, suc, ◌+◌, ◌*◌, Bool, true, false, ◌||◌, List, [], ◌∷◌, ◌++◌, ◌==◌, ltb, if◌then◌else◌,
  length, take, drop,
}
use nebula_x_trader.Prelude.Words.{add64}
use nebula_x_trader.Prelude.Bytes.{to_be, from_be, flat, slice}

-- `kHeaderLen`
abbrev pub header_len : ℕ
header_len = 20

-- what the loops leave: the bytes not read, the messages pushed, and their number
pub record Unpacked : Type 0 where
  pub rest : List ℕ
  pub pushed : List (List ℕ)
  pub unpacked : ℕ

-- the frame pushed for a message: number, length and body, as they stand in `msg_buf`
pub message_frame : ℕ → ℕ → List ℕ → List ℕ
message_frame msg_seq body_len rest =
    flat (to_be 8 msg_seq ∷ take 2 rest ∷ take body_len (drop 2 rest) ∷ [])

-- the tests that end the inner loop
abbrev pub is_cut : List ℕ → Bool
is_cut rest =
    let body_len = from_be (slice 0 2 rest) in
    ltb (length rest) 2 || body_len == 0 || ltb 200 body_len || ltb (length rest) (2 + body_len)

-- the inner loop, `n` messages from the number `msg_seq` on
pub unpack_messages : ℕ → ℕ → List ℕ → Unpacked
unpack_messages zero msg_seq rest = record { rest = rest; pushed = []; unpacked = 0 }
unpack_messages (suc n) msg_seq rest =
    let body_len = from_be (slice 0 2 rest) in
    let more = unpack_messages n (add64 msg_seq 1) (drop (2 + body_len) rest) in
    if is_cut rest then record { rest = rest; pushed = []; unpacked = 0 } else record {
      rest = more.rest;
      pushed = message_frame msg_seq body_len rest ∷ more.pushed;
      unpacked = suc more.unpacked;
    }

-- The outer loop. A packet takes 20 bytes at least, so that the number of bytes is fuel enough.
pub unpack_packets : ℕ → List ℕ → Unpacked
unpack_packets zero pkt = record { rest = pkt; pushed = []; unpacked = 0 }
unpack_packets (suc fuel) pkt =
    let seq = from_be (slice 10 8 pkt) in
    let count = from_be (slice 18 2 pkt) in
    let one = unpack_messages count seq (drop header_len pkt) in
    let more = unpack_packets fuel one.rest in
    if ltb (length pkt) header_len
    then record { rest = pkt; pushed = []; unpacked = 0 }
    else record {
      rest = more.rest;
      pushed = one.pushed ++ more.pushed;
      unpacked = one.unpacked + more.unpacked;
    }

pub feed : List ℕ → Unpacked
feed pkt = unpack_packets (length pkt) pkt
