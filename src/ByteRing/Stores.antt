-- ===== src/ByteRing/Stores.antt =====
-- What `push` promises of the bytes in the ring (core/queue/spsc_byte_ring.h).
use nebula_x_trader.Prelude.{
  ℕ, ◌+◌, ◌<◌, ◌≤◌, ◌≡◌, refl, sym, ap, ◌∙◌, List, arith, length, inl, inr, ◌⊎◌,
}
use nebula_x_trader.Prelude.Words.{u64_mod}
use nebula_x_trader.Prelude.Window.{window}
use nebula_x_trader.ByteRing.{ByteRing, header_bytes, push}
use nebula_x_trader.ByteRing.Push.{Fits, next_lap}
use nebula_x_trader.ByteRing.Pushed.{Starts, IsFull, with_message, push-cases, full-push}
use nebula_x_trader.ByteRing.Cells.{window-ring_write, window-ring_write_other}

-- The message stands in the new ring from `s` on, up to its tail, and the unread bytes are as they were.
abbrev pub IsStored : ByteRing → List ℕ → ℕ → ByteRing → Type 0
IsStored r msg s r' =
    (r.tail ≤ s)
    × (r'.tail ≡ s + length msg)
    × (r'.tail ≤ r.head + r.capacity)
    × (r'.head ≡ r.head)
    × (r'.capacity ≡ r.capacity)
    × (window r.capacity r'.buf s (length msg) ≡ msg)
    × ((i n : ℕ)
        → r.head ≤ i
        → i + n ≤ r.tail
        → window r.capacity r'.buf i n ≡ window r.capacity r.buf i n)

module _ (r : ByteRing) (msg : List ℕ) (fits : Fits r) (some : 0 < r.capacity)
    (large : header_bytes ≤ length msg) (small : r.tail + r.capacity + length msg < u64_mod) where
  Starts-le : (s : ℕ) → Starts r s → r.tail ≤ s
  Starts-le s (inl (room, e)) = omega (arith, e)
  Starts-le s (inr (no_room, e)) = omega (arith, e, next_lap r.tail r.capacity some)

  with_message-IsStored :
      (s : ℕ)
      → Starts r s
      → s + length msg ≤ r.head + r.capacity
      → IsStored r msg s (with_message r s msg)
  with_message-IsStored s starts behind =
      let after = Starts-le s starts in
      (
        after,
        refl,
        behind,
        refl,
        refl,
        window-ring_write r.capacity s msg r.buf (omega arith),
        λ i n from to.
            window-ring_write_other r.capacity s msg r.buf i n (omega arith) (omega arith),
      )

pub push_stores :
    (r : ByteRing) (msg : List ℕ)
    → Fits r
    → 0 < r.capacity
    → header_bytes ≤ length msg
    → r.tail + r.capacity + length msg < u64_mod
    → let (n, r') = push r msg in
      (IsFull r (length msg) × (n ≡ 0) × (r' ≡ r))
      ⊎ ((¬ (IsFull r (length msg)))
          × ((s : ℕ) × Starts r s × (n ≡ length msg) × IsStored r msg s r'))
push_stores r msg fits some large small = elim (push-cases r msg fits some large small) [
  | inl (full, e) ↦ rw e (inl (full, refl, refl))
  | inr (s, starts, e, behind) ↦
      let free : ¬ (IsFull r (length msg)) = λ full. absurd (
        omega (
          arith,
          ap (λ (x : ℕ × ByteRing). x.0) (sym e ∙ full-push r msg fits some large small full),
        )) in
      let stored = with_message-IsStored r msg fits some large small s starts behind in
      rw e (inr (free, (s, starts, refl, stored)))
]
