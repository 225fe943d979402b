-- ===== src/ByteRingParser/Calls.antt =====
-- The receiving thread pushes messages and the parser's thread parses them, turn by turn, in any order.
-- No push falls between the two loads of the tail within one turn: Race has that case.
use mathlib.Core.Path.{subst}
use nebula_x_trader.Prelude.{
  ℕ, ◌+◌, ◌*◌, ◌<◌, ◌≤◌, ◌≡◌, refl, sym, ap, ◌∙◌, List, [], ◌∷◌, arith, length,
}
use nebula_x_trader.Prelude.Words.{u64_mod}
use nebula_x_trader.ByteRing.{ByteRing, header_bytes}
use nebula_x_trader.ItchParser.{ItchParser}
use nebula_x_trader.ByteRingParser.{parse_available}
use nebula_x_trader.ByteRingParser.Frames.{feed_all, messages_parsed}
use nebula_x_trader.ByteRingParser.Intact.{
  Call, pushes, takes_turn, parses, Stream, call, run, AreSound, IsIntact, feed_all-append,
  pushes-IsIntact, takes_turn-IsIntact, parses-IsIntact,
}

run-IsIntact :
    (calls : List Call) (p : ItchParser) (c n : ℕ) (st : Stream)
    → header_bytes ≤ c
    → c + 220 * (n + length calls) < u64_mod
    → AreSound calls
    → IsIntact p c n st
    → IsIntact p c (n + length calls) (run st calls)
unfolding run
run-IsIntact [] p c n st large short sound intact =
    subst (λ (k : ℕ). IsIntact p c k st) (omega arith) intact
run-IsIntact (pushes seq body ∷ calls) p c n st large short (v, small, sound) intact =
    let first = pushes-IsIntact p c n large (omega arith) st intact seq body v small in
    let rest =
      run-IsIntact calls p c (n + 1) (call st (pushes seq body)) large (omega arith) sound first in
    subst (λ (k : ℕ). IsIntact p c k (run (call st (pushes seq body)) calls)) (omega arith) rest
run-IsIntact (takes_turn ∷ calls) p c n st large short sound intact =
    let first = takes_turn-IsIntact p c n large (omega arith) st intact in
    let rest =
      run-IsIntact calls p c (n + 1) (call st takes_turn) large (omega arith) sound first in
    subst (λ (k : ℕ). IsIntact p c k (run (call st takes_turn) calls)) (omega arith) rest
run-IsIntact (parses ∷ calls) p c n st large short sound intact =
    let first = parses-IsIntact p c n large (omega arith) st intact in
    let rest = run-IsIntact calls p c (n + 1) (call st parses) large (omega arith) sound first in
    subst (λ (k : ℕ). IsIntact p c k (run (call st parses) calls)) (omega arith) rest

-- what one more call of `parse_available` makes of it
all_fed :
    (p : ItchParser) (c n : ℕ) (st : Stream)
    → header_bytes ≤ c
    → c + 220 * n < u64_mod
    → IsIntact p c n st
    → (parse_available st.ring st.parser).2 ≡ feed_all p st.accepted
all_fed p c n st large short intact =
    let all =
      messages_parsed intact.unread st.ring st.parser
        (intact.ordered, omega (arith, intact.bounded), omega (arith, intact.capacity))
        (omega (arith, intact.capacity)) intact.fits intact.holds in
    ap (λ (x : ℕ × ByteRing × ItchParser). x.2) all
    ∙ ap (λ (q : ItchParser). feed_all q intact.unread) intact.fed
    ∙ sym (feed_all-append p intact.parsed intact.unread)
    ∙ ap (feed_all p) (sym intact.split)

-- a ring before the first push
abbrev pub empty_ring : (ℕ → ℕ) → ℕ → ByteRing
empty_ring buf capacity = record { buf = buf; capacity = capacity; head = 0; tail = 0 }

new-IsIntact :
    (buf : ℕ → ℕ) (capacity : ℕ) (p : ItchParser)
    → IsIntact p capacity 0 (record { ring = empty_ring buf capacity; parser = p; accepted = [] })
unfolding feed_all
new-IsIntact buf capacity p = record {
  parsed = [];
  unread = [];
  split = refl;
  fed = refl;
  holds = refl;
  ordered = omega arith;
  fits = omega arith;
  capacity = refl;
  bounded = omega arith;
}

-- From an empty ring of at least ten bytes on, after any sequence of pushes, of single turns of the loop in
-- `parse_available` and of whole calls of it, so that pushes may fall between the turns but not within
-- one, one more call leaves the parser as if it had been fed the messages that were
-- accepted one by one and in their order, wherever the end of the ring divides them: no message is lost,
-- cut, taken twice or overtaken. The messages have from 1 to 200 bytes behind their head, and there are so
-- few calls that no index reaches 2^64.
pub accepted_messages_parsed :
    (calls : List Call) (buf : ℕ → ℕ) (capacity : ℕ) (p : ItchParser)
    → header_bytes ≤ capacity
    → capacity + 220 * length calls < u64_mod
    → AreSound calls
    → let st = run (record { ring = empty_ring buf capacity; parser = p; accepted = [] }) calls in
      (parse_available st.ring st.parser).2 ≡ feed_all p st.accepted
accepted_messages_parsed calls buf capacity p large short sound =
    let st = run (record { ring = empty_ring buf capacity; parser = p; accepted = [] }) calls in
    let intact =
      run-IsIntact calls p capacity 0
        (record { ring = empty_ring buf capacity; parser = p; accepted = [] }) large (omega arith)
        sound (new-IsIntact buf capacity p) in
    all_fed p capacity (0 + length calls) st large (omega arith) intact
