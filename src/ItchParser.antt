-- ===== src/ItchParser.antt =====
-- The ITCH 5.0 parser of market/parser/itch_parser.h and itch_parser.cpp.
pub mod Messages
use nebula_x_trader.Prelude.{
  ℕ, ◌+◌, ◌/◌, Bool, true, false, ◌||◌, List, [], ◌∷◌, ◌==◌, ltb, if◌then◌else◌, length,
}
use nebula_x_trader.Prelude.Int.{ℤ, pos, negsuc}
use nebula_x_trader.Prelude.Words.{add64}
use nebula_x_trader.Prelude.Bytes.{from_be, slice, byte}
use nebula_x_trader.Types.{OrderSide, buy, sell, no_side, EventType, MarketEvent}

-- The members; `emitted` are the events that the sink was called with, the newest first.
pub record ItchParser : Type 0 where
  pub msg_count : ℕ
  pub cur_seq : ℕ
  pub emitted : List MarketEvent

abbrev pub new_parser : ItchParser
new_parser = record { msg_count = 0; cur_seq = 0; emitted = [] }

-- `itch_to_cents`
abbrev pub itch_to_cents : ℕ → ℤ
itch_to_cents itch_price = pos (itch_price / 100)

-- `MarketEvent ev{}`, with the fields that every message has: the side of value 0 is BUY.
abbrev pub blank_event : EventType → List ℕ → MarketEvent
blank_event kind m = record {
  kind = kind;
  seq_id = 0;
  locate = from_be (slice 1 2 m);
  timestamp = from_be (slice 5 6 m);
  side = buy;
  price = pos 0;
  shares = 0;
  order_ref = from_be (slice 11 8 m);
  new_order_ref = 0;
}

pub emit : ItchParser → MarketEvent → ItchParser
emit p ev = record p { emitted = record ev { seq_id = p.cur_seq } ∷ p.emitted }

abbrev side_at : ℕ → List ℕ → OrderSide
side_at i m = if byte i m == b'S' then sell else buy

pub parse_a : List ℕ → ItchParser → ItchParser
parse_a m p =
    if ltb (length m) 36
    then p
    else emit p (record (blank_event EventType.add m) {
      side = side_at 19 m;
      price = itch_to_cents (from_be (slice 32 4 m));
      shares = from_be (slice 20 4 m);
    })

pub parse_d : List ℕ → ItchParser → ItchParser
parse_d m p = if ltb (length m) 19 then p else emit p (blank_event EventType.delete m)

pub parse_x : List ℕ → ItchParser → ItchParser
parse_x m p =
    if ltb (length m) 23
    then p
    else emit p (record (blank_event EventType.cancel m) { shares = from_be (slice 19 4 m) })

pub parse_u : List ℕ → ItchParser → ItchParser
parse_u m p =
    if ltb (length m) 35
    then p
    else emit p (record (blank_event EventType.replace m) {
      new_order_ref = from_be (slice 19 8 m);
      price = itch_to_cents (from_be (slice 31 4 m));
      shares = from_be (slice 27 4 m);
    })

pub parse_p : List ℕ → ItchParser → ItchParser
parse_p m p =
    if ltb (length m) 44
    then p
    else emit p (record (blank_event EventType.trade m) {
      price = itch_to_cents (from_be (slice 32 4 m));
      shares = from_be (slice 20 4 m);
      side = side_at 19 m;
    })

pub parse_e : List ℕ → ItchParser → ItchParser
parse_e m p =
    if ltb (length m) 31
    then p
    else emit p (record (blank_event EventType.execute m) {
      price = negsuc 0;
      shares = from_be (slice 19 4 m);
      side = no_side;
    })

pub parse_c : List ℕ → ItchParser → ItchParser
parse_c m p =
    if ltb (length m) 35
    then p
    else emit p (record (blank_event EventType.trade m) {
      price = itch_to_cents (from_be (slice 27 4 m));
      shares = from_be (slice 19 4 m);
      side = no_side;
    })

-- the switch of `feed`
pub dispatch : ItchParser → List ℕ → Bool × ItchParser
dispatch p msg =
    let mt = byte 0 msg in
    if mt == b'A' || mt == b'F'
    then (true, parse_a msg p)
    else if mt == b'D'
    then (true, parse_d msg p)
    else if mt == b'X'
    then (true, parse_x msg p)
    else if mt == b'U'
    then (true, parse_u msg p)
    else if mt == b'P'
    then (true, parse_p msg p)
    else if mt == b'E'
    then (true, parse_e msg p)
    else if mt == b'C'
    then (true, parse_c msg p)
    else (false, p)

pub feed : ItchParser → List ℕ → Bool × ItchParser
feed p msg =
    if ltb (length msg) 3
    then (false, p)
    else dispatch (record p { msg_count = add64 p.msg_count 1 }) msg

-- the overload with a sequence number
pub feed_seq : ItchParser → List ℕ → ℕ → Bool × ItchParser
feed_seq p msg seq = feed (record p { cur_seq = seq }) msg
