-- ===== src/ByteRingParser/Stops.antt =====
-- The loop comes to its end.
use nebula_x_trader.Prelude.{
  ℕ, zero, suc, ◌+◌, ◌-◌, ◌*◌, ◌/◌, ◌%◌, ◌<◌, ◌≤◌, ◌≡◌, refl, ◌∙◌, ◌||◌, ◌==◌, ltb, arith,
  Bool-cases, inl, inr,
}
use native.Mathlib.Nat.{div-add-mod', mod-lt}
use nebula_x_trader.Prelude.Words.{u64_mod, add64, sub64}
use nebula_x_trader.ByteRing.{ByteRing, read_acquire}
use nebula_x_trader.ItchParser.{ItchParser}
use nebula_x_trader.ByteRingParser.{
  Turn, waits, skips, parses, head_bytes, parse_message, skip_end, turn, parse_loop, after_turn,
  parse_available,
}

-- The head is not behind the tail, which has not reached 2^64.
abbrev pub IsOrdered : ByteRing → Type 0
IsOrdered r = (r.head ≤ r.tail) × (r.tail < u64_mod) × (0 < r.capacity)

-- what a turn may do: stop, or move the head on, but not past the tail
abbrev Advances : ByteRing → Turn → Type 0
Advances r waits = Unit
Advances r (skips s) = (r.head < s.head) × IsOrdered s × (s.tail ≡ r.tail)
Advances r (parses s p) = (r.head < s.head) × IsOrdered s × (s.tail ≡ r.tail)

pub next_lap : (h c : ℕ) → 0 < c → h < (h / c + 1) * c
next_lap h c some =
    let whole = div-add-mod' h c in
    let split : (h / c + 1) * c ≡ h / c * c + c = grind arith in
    let below : h % c < c = mod-lt h some in omega arith

pub used-eq : (r : ByteRing) → IsOrdered r → sub64 r.tail r.head ≡ r.tail - r.head
used-eq r ok = ground arith

-- what can be read is there
pub read_acquire-le :
    (r : ByteRing) (request : ℕ) → IsOrdered r → read_acquire r request ≤ r.tail - r.head
unfolding read_acquire
read_acquire-le r request ok = ground arith

module _ (r : ByteRing) (p : ItchParser) (ok : IsOrdered r) where
  parse_message-Advances :
      (seq body_len : ℕ)
      → read_acquire r head_bytes ≡ head_bytes
      → Advances r (parse_message r p seq body_len)
  unfolding parse_message
  parse_message-Advances seq body_len n =
      let there : head_bytes ≤ r.tail - r.head = omega (arith, read_acquire-le r head_bytes ok) in
      elim (Bool-cases (ltb body_len 1 || ltb 200 body_len)) [
        | inl broken ↦ rw broken (ground arith, (ground arith, omega arith, omega arith), refl)
        | inr sound ↦ elim (Bool-cases (ltb (sub64 r.tail r.head) (head_bytes + body_len))) [
          | inl cut ↦ rw (sound, cut) tt
          | inr whole ↦
              let enough : head_bytes + body_len ≤ r.tail - r.head = ground arith in
              let on : add64 r.head (head_bytes + body_len) ≡ r.head + (head_bytes + body_len) =
                ground arith in
              rw (sound, whole, on) (omega arith, (omega arith, omega arith, omega arith), refl)
        ]
      ]

  skip_end-Advances : Advances r (skip_end r)
  unfolding skip_end
  skip_end-Advances =
      let aligned = (r.head / r.capacity + 1) * r.capacity in
      let ahead = next_lap r.head r.capacity ok.2 in
      elim (Bool-cases (ltb (sub64 r.tail r.head) head_bytes)) [
        | inl short ↦ rw short tt
        | inr some ↦ elim (Bool-cases (ltb r.tail aligned)) [
          | inl early ↦ rw (some, early) tt
          | inr there ↦
              let on : add64 r.head (aligned - r.head) ≡ aligned = ground arith in
              rw (some, there, on) (omega arith, (ground arith, omega arith, omega arith), refl)
        ]
      ]

  turn-Advances : Advances r (turn r r p)
  unfolding turn
  turn-Advances = elim (Bool-cases (read_acquire r head_bytes == head_bytes)) [
    | inl whole ↦ rw whole (parse_message-Advances _ _ (ground arith))
    | inr not_whole ↦ rw not_whole skip_end-Advances
  ]

-- where the loop ends
abbrev Ends : ByteRing → ℕ × ByteRing × ItchParser → Type 0
Ends r (parsed, r', p') = (turn r' r' p' ≡ waits) × IsOrdered r' × (r'.tail ≡ r.tail)

after_turn-Ends :
    (go_on : ByteRing → ItchParser → ℕ × ByteRing × ItchParser) (r : ByteRing) (p : ItchParser)
    (t : Turn)
    → IsOrdered r
    → turn r r p ≡ t
    → Advances r t
    → ((s : ByteRing) (q : ItchParser)
        → r.head < s.head
        → IsOrdered s
        → s.tail ≡ r.tail
        → Ends s (go_on s q))
    → Ends r (after_turn go_on r p t)
after_turn-Ends go_on r p waits ok e on rest = (e, ok, refl)
after_turn-Ends go_on r p (skips s) ok e (on, ok', same) rest =
    let (end, ok'', tail) = rest s p on ok' same in (end, ok'', tail ∙ same)
after_turn-Ends go_on r p (parses s q) ok e (on, ok', same) rest =
    let (end, ok'', tail) = rest s q on ok' same in (end, ok'', tail ∙ same)

-- any fuel above the bytes in the ring
parse_loop-Ends :
    (fuel : ℕ) (r : ByteRing) (p : ItchParser)
    → IsOrdered r
    → r.tail - r.head < fuel
    → Ends r (parse_loop fuel r p)
unfolding parse_loop
parse_loop-Ends zero r p ok short = absurd (omega arith)
parse_loop-Ends (suc fuel) r p ok short =
    after_turn-Ends (parse_loop fuel) r p (turn r r p) ok refl (turn-Advances r p ok)
      (λ s q on ok' same. parse_loop-Ends fuel s q ok' (omega arith))

-- Whatever is in a ring of some capacity, with its head no further than its tail and the tail below 2^64,
-- `parse_available` comes to an end by itself: the loop's next turn would break, the head is still no
-- further than the tail, and the tail is where it was.
pub parse_available_stops :
    (r : ByteRing) (p : ItchParser)
    → IsOrdered r
    → let (parsed, r', p') = parse_available r p in
      (turn r' r' p' ≡ waits) × IsOrdered r' × (r'.tail ≡ r.tail)
unfolding parse_available
parse_available_stops r p ok =
    parse_loop-Ends (suc (sub64 r.tail r.head)) r p ok (omega (arith, used-eq r ok))
