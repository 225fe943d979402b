-- ===== src/ByteRingParser.antt =====
-- `ByteRingParser` of market/pipeline/byte_ring_parser.h: the messages in the byte ring are parsed where
-- they stand. `turn` is one turn of the loop, with its two loads of the tail apart; `parse_available` is a
-- call with nothing pushed while it runs. The sink is the parser's list of events.
pub mod Stops
pub mod Pieces
pub mod Frames
pub mod Queue
pub mod Intact
pub mod Calls
pub mod Race
mod Examples
use nebula_x_trader.Prelude.{
  ℕ, zero, suc, ◌+◌, ◌-◌, ◌*◌, ◌/◌, ◌%◌, Bool, true, false, ◌||◌, List, [], ◌∷◌, ◌++◌, ◌==◌, ltb,
  leb, if◌then◌else◌, take, drop,
}
use nebula_x_trader.Prelude.Words.{sub64}
use nebula_x_trader.Prelude.Bytes.{from_be}
use nebula_x_trader.ByteRing.{ByteRing, read_at, read_acquire, read_release}
use nebula_x_trader.ItchParser.{ItchParser, feed_seq}

-- `kHeadBytes`: the sequence number in eight bytes, the length of the body in two
abbrev pub head_bytes : ℕ
head_bytes = 10

-- What one turn of the loop does: it breaks, it only releases bytes, or it parses a message.
pub data Turn : Type 0 where
  waits : Turn
  skips : ByteRing → Turn
  parses : ByteRing → ItchParser → Turn

-- the message at the head: in one piece, or put together across the ring's end
unfoldable pub message_at : ByteRing → ℕ → List ℕ
message_at r msg_len =
    let pos = r.head % r.capacity in
    let n = read_acquire r msg_len in
    if n == msg_len
    then read_at msg_len pos r.buf
    else read_at n pos r.buf ++ read_at (msg_len - n) 0 r.buf

-- the turn after the head of a message is read
unfoldable pub parse_message : ByteRing → ItchParser → ℕ → ℕ → Turn
parse_message r p seq body_len =
    let msg_len = head_bytes + body_len in
    if ltb body_len 1 || ltb 200 body_len
    then skips (read_release r head_bytes)
    else if ltb (sub64 r.tail r.head) msg_len
    then waits
    else parses (read_release r msg_len) (feed_seq p (drop head_bytes (message_at r msg_len)) seq).1

-- the turn where the head cannot be read in one piece
unfoldable pub skip_end : ByteRing → Turn
skip_end r =
    let aligned = (r.head / r.capacity + 1) * r.capacity in
    if ltb (sub64 r.tail r.head) head_bytes
    then waits
    else if ltb r.tail aligned
    then waits
    else skips (read_release r (aligned - r.head))

-- A turn loads the tail for `read_acquire`, in `seen`, and then again for what it does with the bytes: `r`
-- has what was pushed in between. The turn's later loads are not told apart from the second.
unfoldable pub turn : ByteRing → ByteRing → ItchParser → Turn
turn seen r p =
    let head = read_at head_bytes (r.head % r.capacity) r.buf in
    if read_acquire seen head_bytes == head_bytes
    then parse_message r p (from_be (take 8 head)) (from_be (drop 8 head))
    else skip_end r

-- what the loop does after a turn, with the turns that follow
abbrev pub after_turn :
    (ByteRing → ItchParser → ℕ × ByteRing × ItchParser)
    → ByteRing
    → ItchParser
    → Turn
    → ℕ × ByteRing × ItchParser
after_turn go_on r p waits = (0, r, p)
after_turn go_on r p (skips r') = go_on r' p
after_turn go_on r p (parses r' p') = let (parsed, r'', p'') = go_on r' p' in (suc parsed, r'', p'')

-- the loop of `parse_available`: the messages that were parsed, and what is left
unfoldable pub parse_loop : ℕ → ByteRing → ItchParser → ℕ × ByteRing × ItchParser
parse_loop zero r p = (0, r, p)
parse_loop (suc fuel) r p = after_turn (parse_loop fuel) r p (turn r r p)

-- Each turn but the last takes a byte at least, so that the bytes in the ring are fuel enough.
unfoldable pub parse_available : ByteRing → ItchParser → ℕ × ByteRing × ItchParser
parse_available r p = parse_loop (suc (sub64 r.tail r.head)) r p
