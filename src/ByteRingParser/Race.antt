-- ===== src/ByteRingParser/Race.antt =====
-- A push between the two loads of the tail in one turn of `parse_available`
-- (market/pipeline/byte_ring_parser.h).
use native.Mathlib.Nat.{div-add-mod'}
use nebula_x_trader.Prelude.{
  ℕ, ◌+◌, ◌-◌, ◌*◌, ◌/◌, ◌%◌, ◌<◌, ◌≤◌, ◌≡◌, refl, sym, ap, ◌∙◌, false, List, arith, length, inl,
  inr, ◌==◌, ltb,
}
use nebula_x_trader.Prelude.Words.{u64_mod, add64, sub64}
use nebula_x_trader.Prelude.Window.{window}
use nebula_x_trader.ByteRing.{ByteRing, header_bytes, push, read_acquire}
use nebula_x_trader.ByteRing.Stores.{push_stores}
use nebula_x_trader.ItchParser.{ItchParser}
use nebula_x_trader.ByteRingParser.{skips, head_bytes, skip_end, turn}
use nebula_x_trader.ByteRingParser.Stops.{next_lap}

-- the start of the lap behind the head
abbrev pub next_start : ByteRing → ℕ
next_start r = (r.head / r.capacity + 1) * r.capacity

module _ (r : ByteRing) (p : ItchParser) (msg : List ℕ) (drained : r.head ≡ r.tail)
    (some : 0 < r.capacity) (large : header_bytes ≤ length msg)
    (in_one : header_bytes ≤ r.capacity - r.tail % r.capacity)
    (across : r.capacity < r.tail % r.capacity + length msg)
    (room : length msg ≤ r.tail % r.capacity)
    (small : r.tail + r.capacity + length msg < u64_mod) where
  none_seen : (read_acquire r head_bytes == head_bytes) ≡ false
  unfolding read_acquire
  none_seen = let used : sub64 r.tail r.head ≡ 0 = ground arith in rw used refl

  -- where the head of a message is looked for after it was not seen
  skip_end-late :
      (r' : ByteRing)
      → r'.head ≡ r.head
      → r'.capacity ≡ r.capacity
      → r'.tail ≡ r.tail + length msg
      → skip_end r' ≡ skips (record r' { head = next_start r })
  unfolding skip_end
  skip_end-late r' same_head same_capacity end =
      let whole = div-add-mod' r.tail r.capacity in
      let split : (r.tail / r.capacity + 1) * r.capacity
          ≡ r.tail / r.capacity * r.capacity + r.capacity =
        grind arith in
      let start : next_start r' ≡ next_start r = rw (same_head, same_capacity) refl in
      let at_tail : next_start r ≡ (r.tail / r.capacity + 1) * r.capacity = rw drained refl in
      let ahead = next_lap r.head r.capacity some in
      let enough : ltb (sub64 r'.tail r'.head) head_bytes ≡ false = ground arith in
      let reached : ltb r'.tail (next_start r') ≡ false = ground arith in
      let on : add64 r'.head (next_start r' - r'.head) ≡ next_start r = ground arith in
      rw (enough, reached, on) refl

-- Where the ring is empty at the first load of a turn, and before the second a message is pushed that has
-- room, and whose head stands before the end of the ring and whose body goes over it, the push takes the
-- message and puts it where the parser is to read, and the turn skips to the start of the next lap, which
-- is within the message: the message is lost, and what is read next is the rest of its body. No index
-- reaches 2^64.
pub pushed_between_loads_lost :
    (r : ByteRing) (p : ItchParser) (msg : List ℕ)
    → r.head ≡ r.tail
    → header_bytes ≤ length msg
    → header_bytes ≤ r.capacity - r.tail % r.capacity
    → r.capacity < r.tail % r.capacity + length msg
    → length msg ≤ r.tail % r.capacity
    → r.tail + r.capacity + length msg < u64_mod
    → let (n, r') = push r msg in
      (n ≡ length msg)
      × (window r.capacity r'.buf r.head (length msg) ≡ msg)
      × (turn r r' p ≡ skips (record r' { head = next_start r }))
      × (r.head < next_start r)
      × (next_start r < r.head + length msg)
      × (r'.tail ≡ r.head + length msg)
unfolding turn
pushed_between_loads_lost r p msg drained large in_one across room small =
    let some : 0 < r.capacity = omega arith in
    let whole = div-add-mod' r.tail r.capacity in
    let split : (r.tail / r.capacity + 1) * r.capacity
        ≡ r.tail / r.capacity * r.capacity + r.capacity =
      grind arith in
    let at_tail : next_start r ≡ (r.tail / r.capacity + 1) * r.capacity = rw drained refl in
    let ahead = next_lap r.head r.capacity some in
    elim (push_stores r msg (omega arith, omega arith) some large small) [
      | inl (inl (fits, over), none_taken, same) ↦ absurd (omega arith)
      | inl (inr (wraps, over), none_taken, same) ↦ absurd (omega arith)
      | inr (free, (s, inr (no_room, e), taken, stored)) ↦ absurd (omega arith)
      | inr
            (
              free,
              (
                s,
                inl (head_room, e),
                taken,
                (after, end, most, same_head, same_capacity, bytes, kept),
              ),
            ) ↦
          let r' = (push r msg).1 in
          let at : s ≡ r.head = omega (arith, e, drained) in
          let found : window r.capacity r'.buf r.head (length msg) ≡ msg =
            ap (λ (i : ℕ). window r.capacity r'.buf i (length msg)) (sym at) ∙ bytes in
          let late =
            skip_end-late r p msg drained some large in_one across room small r' same_head
              same_capacity (omega (arith, e)) in
          let unseen = none_seen r p msg drained some large in_one across room small in
          (taken, found, rw unseen late, ahead, omega arith, omega (arith, at))
    ]
