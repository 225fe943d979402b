-- ===== src/ByteRingParser/Pieces.antt =====
-- The bytes of a message that stands in one piece, or in two across the ring's end.
use mathlib.Core.Path.{ap₂}
use native.Mathlib.Nat.{div-add-mod', mod-lt, mod-add-mod, mod-eq_of_lt, mul-mod_left}
use nebula_x_trader.Prelude.{
  ℕ, zero, suc, ◌+◌, ◌-◌, ◌*◌, ◌/◌, ◌%◌, ◌<◌, ◌≤◌, ◌≡◌, refl, sym, ap, ◌∙◌, true, false, List, ◌∷◌,
  ◌++◌, ◌==◌, ltb, if◌then◌else◌, arith, Bool-cases, inl, inr,
}
use nebula_x_trader.Prelude.Window.{window}
use nebula_x_trader.ByteRing.{ByteRing, read_at, read_acquire}
use nebula_x_trader.ByteRingParser.{message_at}
use nebula_x_trader.ByteRingParser.Stops.{IsOrdered, used-eq}

-- the next cell before the end of the ring
next_cell : (i c : ℕ) → i % c + 1 < c → (i + 1) % c ≡ i % c + 1
next_cell i c h = sym (mod-add-mod i c 1) ∙ mod-eq_of_lt h

-- what lies in one piece
window-read_at :
    (c : ℕ) (buf : ℕ → ℕ) (i n : ℕ) → i % c + n ≤ c → window c buf i n ≡ read_at n (i % c) buf
unfolding window read_at
window-read_at c buf i zero h = refl
window-read_at c buf i (suc zero) h = refl
window-read_at c buf i (suc (suc n)) h =
    let next = next_cell i c (omega arith) in
    let rest = window-read_at c buf (i + 1) (suc n) (omega (arith, next)) in
    ap (λ (bs : List ℕ). buf (i % c) ∷ bs) (rest ∙ ap (λ (j : ℕ). read_at (suc n) j buf) next)

pub window-append :
    (c : ℕ) (buf : ℕ → ℕ) (i m n : ℕ)
    → window c buf i (m + n) ≡ window c buf i m ++ window c buf (i + m) n
unfolding window
window-append c buf i zero n =
    let none_more : 0 + n ≡ n = omega arith in
    let at : i + 0 ≡ i = omega arith in rw (none_more, at) refl
window-append c buf i (suc m) n =
    let one_more : suc m + n ≡ suc (m + n) = omega arith in
    let at : i + 1 + m ≡ i + suc m = omega arith in
    let rest = window-append c buf (i + 1) m n in
    ap (window c buf i) one_more
    ∙ ap (λ (bs : List ℕ). buf (i % c) ∷ bs)
        (rest ∙ ap (λ (j : ℕ). window c buf (i + 1) m ++ window c buf j n) at)

-- the first cell of the next lap
lap_start : (i c : ℕ) → 0 < c → (i + (c - i % c)) % c ≡ 0
lap_start i c some =
    let whole = div-add-mod' i c in
    let below : i % c < c = mod-lt i some in
    let split : (i / c + 1) * c ≡ i / c * c + c = grind arith in
    let at : i + (c - i % c) ≡ (i / c + 1) * c = omega arith in rw at (mul-mod_left (i / c + 1) c)

module _ (r : ByteRing) (ok : IsOrdered r) (fits : r.tail ≤ r.head + r.capacity) where
  -- what can be read of bytes that are there: all, or those before the end of the ring
  pub read_acquire_lem :
      (len : ℕ)
      → 0 < len
      → len ≤ r.tail - r.head
      → read_acquire r len ≡ (
          if ltb (r.capacity - r.head % r.capacity) len
          then r.capacity - r.head % r.capacity
          else len)
  unfolding read_acquire
  read_acquire_lem len some there = rw (used-eq r ok) (ground arith)

  pub message_at-window :
      (len : ℕ)
      → 0 < len
      → len ≤ r.tail - r.head
      → message_at r len ≡ window r.capacity r.buf r.head len
  unfolding message_at
  message_at-window len some there =
      let contig = r.capacity - r.head % r.capacity in
      let below : r.head % r.capacity < r.capacity = mod-lt r.head ok.2 in
      elim (Bool-cases (ltb contig len)) [
        | inl across ↦
            let n : read_acquire r len ≡ contig = rw across at (read_acquire_lem len some there) in
            let shorter : (contig == len) ≡ false = ground arith in
            let whole : contig + (len - contig) ≡ len = ground arith in
            let start = lap_start r.head r.capacity ok.2 in
            let first = window-read_at r.capacity r.buf r.head contig (omega arith) in
            let second =
              window-read_at r.capacity r.buf (r.head + contig) (len - contig)
                (omega (arith, start)) in
            rw (n, shorter)
              (sym (
                ap (window r.capacity r.buf r.head) (sym whole)
                ∙ window-append r.capacity r.buf r.head contig (len - contig)
                ∙ ap₂ (λ (a b : List ℕ). a ++ b) first
                    (second ∙ ap (λ (j : ℕ). read_at (len - contig) j r.buf) start)))
        | inr before ↦
            let n : read_acquire r len ≡ len = rw before at (read_acquire_lem len some there) in
            let all : (len == len) ≡ true = ground arith in
            rw (n, all) (sym (window-read_at r.capacity r.buf r.head len (ground arith)))
      ]

  -- the head of a message, where it stands in one piece
  pub head-window :
      (len : ℕ)
      → len ≤ r.capacity - r.head % r.capacity
      → read_at len (r.head % r.capacity) r.buf ≡ window r.capacity r.buf r.head len
  head-window len whole =
      let below : r.head % r.capacity < r.capacity = mod-lt r.head ok.2 in
      sym (window-read_at r.capacity r.buf r.head len (omega arith))
