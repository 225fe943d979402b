-- ===== src/ByteRingParser/Intact.antt =====
-- The calls of the two threads on the byte ring, and what each keeps: the messages that are accepted have
-- been parsed or stand in the ring. A push is one step, and so is a turn of the parser's loop.
use native.Mathlib.Nat.{mod-lt, div-add-mod', mul-mod_left}
use mathlib.Core.List.{append_assoc, append-nil}
use nebula_x_trader.Prelude.{
  ℕ, ◌+◌, ◌-◌, ◌*◌, ◌/◌, ◌%◌, ◌<◌, ◌≤◌, ◌≡◌, refl, sym, ap, ◌∙◌, false, List, [], ◌∷◌, ◌++◌, ◌==◌,
  if◌then◌else◌, arith, inl, inr, length,
}
use nebula_x_trader.Prelude.Words.{u64_mod}
use nebula_x_trader.MoldUnpacker.Stream.{numbered_message, IsBody}
use nebula_x_trader.ByteRing.{ByteRing, header_bytes, push}
use nebula_x_trader.ByteRing.Pushed.{Starts, push-cases}
use nebula_x_trader.ItchParser.{ItchParser, feed_seq}
use nebula_x_trader.ByteRingParser.{Turn, head_bytes, turn, after_turn, parse_available}
use nebula_x_trader.ByteRingParser.Stops.{next_lap}
use nebula_x_trader.ByteRingParser.Queue.{length-numbered, Holds-with_message}
use nebula_x_trader.ByteRingParser.Frames.{
  StandsAt, Holds, feed_all, messages_parsed, turn-StandsAt, turn-end, turn-none,
}

-- `push` is called with a message, the loop of `parse_available` takes one turn, or all of
-- `parse_available` is run
pub data Call : Type 0 where
  pushes : ℕ → List ℕ → Call
  takes_turn : Call
  parses : Call

-- `accepted` records the messages whose push did not return 0.
pub record Stream : Type 0 where
  pub ring : ByteRing
  pub parser : ItchParser
  pub accepted : List (ℕ × List ℕ)

unfoldable pub call : Stream → Call → Stream
call st (pushes seq body) =
    let (n, ring) = push st.ring (numbered_message seq body) in
    record st {
      ring = ring;
      accepted = if n == 0 then st.accepted else st.accepted ++ (seq, body) ∷ [];
    }
call st takes_turn =
    let (parsed, ring, parser) =
      after_turn (λ r p. (0, r, p)) st.ring st.parser (turn st.ring st.ring st.parser) in
    record st { ring = ring; parser = parser }
call st parses =
    let (parsed, ring, parser) = parse_available st.ring st.parser in
    record st { ring = ring; parser = parser }

unfoldable pub run : Stream → List Call → Stream
run st [] = st
run st (c ∷ calls) = run (call st c) calls

-- the messages that are pushed have a body that the parser takes, and a number of eight bytes
abbrev pub AreSound : List Call → Type 0
AreSound [] = Unit
AreSound (pushes seq body ∷ calls) = IsBody body × (seq < u64_mod) × AreSound calls
AreSound (takes_turn ∷ calls) = AreSound calls
AreSound (parses ∷ calls) = AreSound calls

pub feed_all-append :
    (p : ItchParser) (xs ys : List (ℕ × List ℕ))
    → feed_all p (xs ++ ys) ≡ feed_all (feed_all p xs) ys
unfolding feed_all
feed_all-append p [] ys = refl
feed_all-append p ((seq, body) ∷ xs) ys = feed_all-append (feed_seq p body seq).1 xs ys

-- a message begins no more than nine bytes behind the tail
start_near : (r : ByteRing) (s : ℕ) → 0 < r.capacity → Starts r s → (r.tail ≤ s) × (s ≤ r.tail + 9)
start_near r s some (inl (room, e)) = (omega arith, omega arith)
start_near r s some (inr (no_room, e)) =
    let lap = aligned_near r.tail r.capacity some in (omega (arith, e, lap), omega (arith, e, lap))
  where
    aligned_near : (t c : ℕ) → 0 < c → (t / c + 1) * c ≡ t + (c - t % c)
    aligned_near t c some =
        let whole = div-add-mod' t c in
        let lap : (t / c + 1) * c ≡ t / c * c + c = grind arith in
        let below : t % c < c = mod-lt t some in omega arith

-- The parser has been fed the first of the accepted messages, and the ring holds the others.
pub record IsIntact (p : ItchParser) (c n : ℕ) (st : Stream) : Type 0 where
  pub parsed : List (ℕ × List ℕ)
  pub unread : List (ℕ × List ℕ)
  pub split : st.accepted ≡ parsed ++ unread
  pub fed : st.parser ≡ feed_all p parsed
  pub holds : Holds st.ring st.ring.head unread
  pub ordered : st.ring.head ≤ st.ring.tail
  pub fits : st.ring.tail ≤ st.ring.head + st.ring.capacity
  pub capacity : st.ring.capacity ≡ c
  pub bounded : st.ring.tail ≤ 220 * n

module _ (p : ItchParser) (c n : ℕ) (large : header_bytes ≤ c) (short : c + 220 * (n + 1) < u64_mod)
    (st : Stream) (intact : IsIntact p c n st) where
  open intact use {parsed, unread, split, fed, holds, ordered, fits, capacity, bounded}

  pub pushes-IsIntact :
      (seq : ℕ) (body : List ℕ)
      → IsBody body
      → seq < u64_mod
      → IsIntact p c (n + 1) (call st (pushes seq body))
  unfolding call
  pushes-IsIntact seq body v small =
      let len = length-numbered seq body in
      elim (push-cases st.ring (numbered_message seq body) (ordered, fits) (omega (arith, capacity))
        (omega (arith, len)) (omega (arith, len, capacity))) [
          | inl (full, e) ↦ rw e (record {
            parsed = parsed;
            unread = unread;
            split = split;
            fed = fed;
            holds = holds;
            ordered = ordered;
            fits = fits;
            capacity = capacity;
            bounded = omega (arith, bounded);
          })
          | inr (s, starts, e, behind) ↦
              let counted : (length (numbered_message seq body) == 0) ≡ false =
                ground (arith, len) in
              let near = start_near st.ring s (omega (arith, capacity)) starts in
              rw (e, counted)
                (record {
                  parsed = parsed;
                  unread = unread ++ (seq, body) ∷ [];
                  split =
                      ap (λ (xs : List (ℕ × List ℕ)). xs ++ (seq, body) ∷ []) split
                      ∙ append_assoc parsed unread ((seq, body) ∷ []);
                  fed = fed;
                  holds =
                      Holds-with_message st.ring seq body s v small (omega (arith, capacity)) starts
                        ordered behind unread st.ring.head (omega arith) holds;
                  ordered = omega (arith, near);
                  fits = behind;
                  capacity = capacity;
                  bounded = omega (arith, near, len, bounded);
                })
        ]

  -- where the turn leaves the ring and the parser
  abbrev after : Turn → Stream
  after t =
      let (parsed, ring, parser) = after_turn (λ r p'. (0, r, p')) st.ring st.parser t in
      record st { ring = ring; parser = parser }

  -- a message at the head
  takes_message :
      (seq : ℕ) (body : List ℕ) (ms : List (ℕ × List ℕ))
      → unread ≡ (seq, body) ∷ ms
      → head_bytes ≤ st.ring.capacity - st.ring.head % st.ring.capacity
      → StandsAt st.ring st.ring.head seq body
      → Holds st.ring (st.ring.head + (head_bytes + length body)) ms
      → IsIntact p c (n + 1) (after (turn st.ring st.ring st.parser))
  unfolding feed_all
  takes_message seq body ms e room stands more =
      let there = stands.3 in
      let parsing =
        turn-StandsAt st.ring st.parser (ordered, omega (arith, bounded), omega (arith, capacity))
          fits seq body room stands in
      rw parsing (record {
        parsed = parsed ++ (seq, body) ∷ [];
        unread = ms;
        split =
            split
            ∙ ap (λ (xs : List (ℕ × List ℕ)). parsed ++ xs) e
            ∙ sym (append_assoc parsed ((seq, body) ∷ []) ms);
        fed =
            ap (λ (q : ItchParser). (feed_seq q body seq).1) fed
            ∙ sym (feed_all-append p parsed ((seq, body) ∷ []));
        holds = more;
        ordered = omega arith;
        fits = omega arith;
        capacity = capacity;
        bounded = omega (arith, bounded);
      })

  -- no head before the end of the ring
  skips_end :
      (seq : ℕ) (body : List ℕ) (ms : List (ℕ × List ℕ))
      → unread ≡ (seq, body) ∷ ms
      → st.ring.capacity - st.ring.head % st.ring.capacity < head_bytes
      → StandsAt st.ring ((st.ring.head / st.ring.capacity + 1) * st.ring.capacity) seq body
      → Holds st.ring
          ((st.ring.head / st.ring.capacity + 1) * st.ring.capacity + (head_bytes + length body))
          ms
      → IsIntact p c (n + 1) (after (turn st.ring st.ring st.parser))
  skips_end seq body ms e no_room stands more =
      let some : 0 < st.ring.capacity = omega (arith, capacity) in
      let there = stands.3 in
      let ahead = next_lap st.ring.head st.ring.capacity some in
      let at_start = mul-mod_left (st.ring.head / st.ring.capacity + 1) st.ring.capacity in
      let skipping =
        turn-end st.ring st.parser (ordered, omega (arith, bounded), some) fits no_room
          (omega arith) in
      rw skipping (record {
        parsed = parsed;
        unread = (seq, body) ∷ ms;
        split = split ∙ ap (λ (xs : List (ℕ × List ℕ)). parsed ++ xs) e;
        fed = fed;
        holds = inl (omega (arith, at_start, capacity), stands, more);
        ordered = omega arith;
        fits = omega arith;
        capacity = capacity;
        bounded = omega (arith, bounded);
      })

  turn-IsIntact :
      (ms : List (ℕ × List ℕ))
      → unread ≡ ms
      → Holds st.ring st.ring.head ms
      → IsIntact p c (n + 1) (after (turn st.ring st.ring st.parser))
  turn-IsIntact [] e none_left =
      let waiting =
        turn-none st.ring st.parser (ordered, omega (arith, bounded), omega (arith, capacity)) fits
          none_left in
      rw waiting (record {
        parsed = parsed;
        unread = unread;
        split = split;
        fed = fed;
        holds = holds;
        ordered = ordered;
        fits = fits;
        capacity = capacity;
        bounded = omega (arith, bounded);
      })
  turn-IsIntact ((seq, body) ∷ ms) e (inl (room, stands, more)) =
      takes_message seq body ms e room stands more
  turn-IsIntact ((seq, body) ∷ ms) e (inr (no_room, stands, more)) =
      skips_end seq body ms e no_room stands more

  pub takes_turn-IsIntact : IsIntact p c (n + 1) (call st takes_turn)
  unfolding call
  takes_turn-IsIntact = turn-IsIntact unread refl holds

  pub parses-IsIntact : IsIntact p c (n + 1) (call st parses)
  unfolding call
  parses-IsIntact =
      let all =
        messages_parsed unread st.ring st.parser (ordered, omega arith, omega (arith, capacity))
          (omega (arith, capacity)) fits holds in
      rw all (record {
        parsed = parsed ++ unread;
        unread = [];
        split = split ∙ sym (append-nil _);
        fed =
            ap (λ (q : ItchParser). feed_all q unread) fed ∙ sym (feed_all-append p parsed unread);
        holds = refl;
        ordered = omega arith;
        fits = omega arith;
        capacity = capacity;
        bounded = omega arith;
      })
