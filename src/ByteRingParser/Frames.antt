-- ===== src/ByteRingParser/Frames.antt =====
-- A ring that holds messages as they are pushed, and the messages that are parsed of it.
use native.Mathlib.Nat.{mul-mod_left}
use nebula_x_trader.Prelude.{
  ℕ, zero, suc, ◌+◌, ◌-◌, ◌*◌, ◌/◌, ◌%◌, ◌<◌, ◌≤◌, ◌≡◌, refl, sym, ap, ◌∙◌, false, ◌||◌, List, [],
  ◌∷◌, ◌++◌, ◌==◌, ltb, arith, inl, inr, ◌⊎◌, length, take, drop, take_over, drop_over,
}
use nebula_x_trader.Prelude.Words.{u64_mod, add64, sub64}
use nebula_x_trader.Prelude.Window.{window, length-window}
use nebula_x_trader.Prelude.Bytes.{to_be, from_be, from_be-to_be}
use nebula_x_trader.MoldUnpacker.Stream.{encode_message, numbered_message, IsBody}
use nebula_x_trader.ByteRing.{ByteRing, read_acquire}
use nebula_x_trader.ItchParser.{ItchParser, feed_seq}
use nebula_x_trader.ByteRingParser.{
  waits, skips, parses, head_bytes, message_at, parse_message, skip_end, turn, parse_loop,
  after_turn, parse_available,
}
use nebula_x_trader.ByteRingParser.Stops.{IsOrdered, used-eq, next_lap}
use nebula_x_trader.ByteRingParser.Pieces.{
  window-append, read_acquire_lem, message_at-window, head-window,
}

module _ (r : ByteRing) where
  -- a message that stands at an index, and ends no later than the tail
  abbrev pub StandsAt : ℕ → ℕ → List ℕ → Type 0
  StandsAt i seq body =
      IsBody body
      × (seq < u64_mod)
      × (window r.capacity r.buf i (head_bytes + length body) ≡ numbered_message seq body)
      × (i + (head_bytes + length body) ≤ r.tail)

take_first : (xs ys : List ℕ) (n : ℕ) → length xs ≡ n → take n (xs ++ ys) ≡ xs
take_first xs ys n e = ap (λ (k : ℕ). take k (xs ++ ys)) (sym e) ∙ take_over xs ys

drop_first : (xs ys : List ℕ) (n : ℕ) → length xs ≡ n → drop n (xs ++ ys) ≡ ys
drop_first xs ys n e = ap (λ (k : ℕ). drop k (xs ++ ys)) (sym e) ∙ drop_over xs ys

seq_of_numbered :
    (seq : ℕ) (body : List ℕ)
    → seq < u64_mod
    → from_be (take 8 (take 10 (numbered_message seq body))) ≡ seq
unfolding encode_message to_be
seq_of_numbered seq body small = from_be-to_be 8 seq small

len_of_numbered :
    (seq : ℕ) (body : List ℕ)
    → IsBody body
    → from_be (drop 8 (take 10 (numbered_message seq body))) ≡ length body
unfolding encode_message to_be
len_of_numbered seq body v = from_be-to_be 2 (length body) (omega arith)

body_of_numbered : (seq : ℕ) (body : List ℕ) → drop 10 (numbered_message seq body) ≡ body
unfolding encode_message to_be
body_of_numbered seq body = refl

module _ (r : ByteRing) (p : ItchParser) (ok : IsOrdered r)
    (fits : r.tail ≤ r.head + r.capacity) where
  -- the turn at the head of a message that is there
  pub turn-StandsAt :
      (seq : ℕ) (body : List ℕ)
      → head_bytes ≤ r.capacity - r.head % r.capacity
      → StandsAt r r.head seq body
      → turn r r p
        ≡ parses (record r { head = r.head + (head_bytes + length body) }) (feed_seq p body seq).1
  unfolding turn parse_message
  turn-StandsAt seq body in_one (v, small, bytes, there) =
      let n = length body in
      let whole : read_acquire r head_bytes ≡ head_bytes =
        read_acquire_lem r ok fits head_bytes (omega arith) (omega arith) ∙ ground arith in
      let head = head-window r ok fits head_bytes in_one in
      let first : window r.capacity r.buf r.head head_bytes ≡ take 10 (numbered_message seq body) =
        sym (take_first _ _ 10 (length-window r.capacity r.buf r.head head_bytes))
        ∙ ap (take 10) (sym (window-append r.capacity r.buf r.head head_bytes n) ∙ bytes) in
      let message : message_at r (head_bytes + n) ≡ numbered_message seq body =
        message_at-window r ok fits (head_bytes + n) (omega arith) (omega arith) ∙ bytes in
      let sound : (ltb n 1 || ltb 200 n) ≡ false = ground arith in
      let enough : ltb (sub64 r.tail r.head) (head_bytes + n) ≡ false =
        rw (used-eq r ok) (ground arith) in
      let on : add64 r.head (head_bytes + n) ≡ r.head + (head_bytes + n) = ground arith in
      rw
        (
          whole,
          head ∙ first,
          seq_of_numbered seq body small,
          len_of_numbered seq body v,
          sound,
          enough,
          message,
          body_of_numbered seq body,
          on,
        )
        refl

  -- the turn before the end of the ring, where no head has room
  pub turn-end :
      r.capacity - r.head % r.capacity < head_bytes
      → (r.head / r.capacity + 1) * r.capacity + head_bytes ≤ r.tail
      → turn r r p ≡ skips (record r { head = (r.head / r.capacity + 1) * r.capacity })
  unfolding turn skip_end
  turn-end no_room there =
      let aligned = (r.head / r.capacity + 1) * r.capacity in
      let ahead = next_lap r.head r.capacity ok.2 in
      let acquired : read_acquire r head_bytes ≡ r.capacity - r.head % r.capacity =
        read_acquire_lem r ok fits head_bytes (omega arith) (omega arith) ∙ ground arith in
      let not_whole : (read_acquire r head_bytes == head_bytes) ≡ false = ground arith in
      let enough : ltb (sub64 r.tail r.head) head_bytes ≡ false =
        rw (used-eq r ok) (ground arith) in
      let later : ltb r.tail aligned ≡ false = ground arith in
      let on : add64 r.head (aligned - r.head) ≡ aligned = ground arith in
      rw (not_whole, enough, later, on) refl

  pub turn-none : r.head ≡ r.tail → turn r r p ≡ waits
  unfolding turn skip_end read_acquire
  turn-none none_left = let used : sub64 r.tail r.head ≡ 0 = ground arith in rw used refl

-- Messages that stand from the head on, up to the tail: each follows the one before, or begins with the
-- ring where there is no room for its head at the end.
abbrev pub Holds : ByteRing → ℕ → List (ℕ × List ℕ) → Type 0
Holds r head [] = head ≡ r.tail
Holds r head ((seq, body) ∷ ms) =
    ((head_bytes ≤ r.capacity - head % r.capacity)
      × StandsAt r head seq body
      × Holds r (head + (head_bytes + length body)) ms)
    ⊎ ((r.capacity - head % r.capacity < head_bytes)
        × StandsAt r ((head / r.capacity + 1) * r.capacity) seq body
        × Holds r ((head / r.capacity + 1) * r.capacity + (head_bytes + length body)) ms)

-- the parser, fed with messages one after the other
unfoldable pub feed_all : ItchParser → List (ℕ × List ℕ) → ItchParser
feed_all p [] = p
feed_all p ((seq, body) ∷ ms) = feed_all (feed_seq p body seq).1 ms

parse_loop-Holds :
    (ms : List (ℕ × List ℕ)) (fuel : ℕ) (r : ByteRing) (p : ItchParser)
    → IsOrdered r
    → head_bytes ≤ r.capacity
    → r.tail ≤ r.head + r.capacity
    → Holds r r.head ms
    → r.tail - r.head < fuel
    → parse_loop fuel r p ≡ (length ms, record r { head = r.tail }, feed_all p ms)
unfolding parse_loop feed_all
parse_loop-Holds ms zero r p ok large fits holds short = absurd (omega arith)
parse_loop-Holds [] (suc fuel) r p ok large fits holds short =
    ap (after_turn (parse_loop fuel) r p) (turn-none r p ok fits holds)
    ∙ ap (λ (h : ℕ). (0, record r { head = h }, p)) holds
parse_loop-Holds ((seq, body) ∷ ms) (suc fuel) r p ok large fits (inl (room, stands, more)) short =
    let rest =
      parse_loop-Holds ms fuel (record r { head = r.head + (head_bytes + length body) })
        (feed_seq p body seq).1 (omega arith, omega arith, omega arith) large (omega arith) more
        (omega arith) in
    ap (after_turn (parse_loop fuel) r p) (turn-StandsAt r p ok fits seq body room stands)
    ∙ ap (λ (x : ℕ × ByteRing × ItchParser). (suc x.0, x.1, x.2)) rest
parse_loop-Holds ((seq, body) ∷ ms) (suc fuel) r p ok large fits (inr (no_room, stands, more))
      short =
    let aligned = (r.head / r.capacity + 1) * r.capacity in
    let ahead = next_lap r.head r.capacity ok.2 in
    let there : aligned + head_bytes ≤ r.tail = omega (arith, stands.3) in
    let at_start : aligned % r.capacity ≡ 0 = mul-mod_left (r.head / r.capacity + 1) r.capacity in
    let rest =
      parse_loop-Holds ((seq, body) ∷ ms) fuel (record r { head = aligned }) p
        (omega arith, omega arith, omega arith) large (omega arith)
        (inl (omega (arith, at_start), stands, more)) (omega arith) in
    ap (after_turn (parse_loop fuel) r p) (turn-end r p ok fits no_room there) ∙ rest

-- Where a ring of at least ten bytes holds messages as they are pushed, the sequence number, the length
-- and the body, each behind the one before it or at the start of the ring where its head has no room at
-- the end, `parse_available` feeds the parser just these messages in their order, be it that a body goes
-- over the end of the ring, counts them, and leaves the ring empty. A body has from 1 to 200 bytes, and
-- the tail is below 2^64.
pub messages_parsed :
    (ms : List (ℕ × List ℕ)) (r : ByteRing) (p : ItchParser)
    → IsOrdered r
    → head_bytes ≤ r.capacity
    → r.tail ≤ r.head + r.capacity
    → Holds r r.head ms
    → parse_available r p ≡ (length ms, record r { head = r.tail }, feed_all p ms)
unfolding parse_available
messages_parsed ms r p ok large fits holds =
    parse_loop-Holds ms (suc (sub64 r.tail r.head)) r p ok large fits holds
      (omega (arith, used-eq r ok))
