-- ===== src/ByteRingParser/Queue.antt =====
-- A message that is pushed joins those that the ring holds.
use mathlib.Core.Path.{subst}
use nebula_x_trader.Prelude.{
  ℕ, ◌+◌, ◌<◌, ◌≤◌, ◌≡◌, sym, ◌∙◌, List, [], ◌∷◌, ◌++◌, arith, inl, inr, length,
}
use nebula_x_trader.Prelude.Words.{u64_mod}
use nebula_x_trader.Prelude.Window.{window}
use nebula_x_trader.Prelude.Bytes.{to_be}
use nebula_x_trader.MoldUnpacker.Stream.{encode_message, numbered_message, IsBody}
use nebula_x_trader.ByteRing.{ByteRing, header_bytes}
use nebula_x_trader.ByteRing.Cells.{ring_write, window-ring_write, window-ring_write_other}
use nebula_x_trader.ByteRing.Push.{next_lap}
use nebula_x_trader.ByteRing.Pushed.{Starts, with_message}
use nebula_x_trader.ByteRingParser.{head_bytes}
use nebula_x_trader.ByteRingParser.Frames.{StandsAt, Holds}

pub length-numbered :
    (seq : ℕ) (body : List ℕ) → length (numbered_message seq body) ≡ head_bytes + length body
unfolding encode_message to_be
length-numbered seq body = omega arith

module _ (r : ByteRing) (seq : ℕ) (body : List ℕ) (s : ℕ) (v : IsBody body) (small : seq < u64_mod)
    (large : header_bytes ≤ r.capacity) (starts : Starts r s) (ordered : r.head ≤ r.tail)
    (behind : s + length (numbered_message seq body) ≤ r.head + r.capacity) where
  abbrev msg : List ℕ
  msg = numbered_message seq body

  starts-le : r.tail ≤ s
  starts-le = elim starts [
    | inl direct ↦ omega (arith, direct.1)
    | inr lap ↦ omega (arith, lap.1, next_lap r.tail r.capacity (omega arith))
  ]

  -- the new message
  stands_new : StandsAt (with_message r s msg) s seq body
  stands_new =
      let len = length-numbered seq body in
      let written = window-ring_write r.capacity s msg r.buf (omega (arith, starts-le)) in
      (
        v,
        small,
        subst (λ (n : ℕ). window r.capacity (ring_write r.capacity s msg r.buf) s n ≡ msg) len
            written,
        omega (arith, len),
      )

  -- the messages before it
  stands_still :
      (i seq' : ℕ) (body' : List ℕ)
      → r.head ≤ i
      → StandsAt r i seq' body'
      → StandsAt (with_message r s msg) i seq' body'
  stands_still i seq' body' from (v', small', bytes, there) = (
    v',
    small',
    window-ring_write_other r.capacity s msg r.buf i (head_bytes + length body')
          (omega (arith, starts-le)) (omega arith)
        ∙ bytes,
    omega (arith, starts-le),
  )

  pub Holds-with_message :
      (ms : List (ℕ × List ℕ)) (h : ℕ)
      → r.head ≤ h
      → Holds r h ms
      → Holds (with_message r s msg) h (ms ++ (seq, body) ∷ [])
  Holds-with_message [] h from at_end =
      subst (λ (x : ℕ). Holds (with_message r s msg) x ((seq, body) ∷ [])) (sym at_end)
        (placed starts)
    where
      placed : Starts r s → Holds (with_message r s msg) r.tail ((seq, body) ∷ [])
      placed (inl (room, e)) = inl (
        room,
        subst (λ (x : ℕ). StandsAt (with_message r s msg) x seq body) e stands_new,
        omega (arith, e, length-numbered seq body),
      )
      placed (inr (no_room, e)) = inr (
        no_room,
        subst (λ (x : ℕ). StandsAt (with_message r s msg) x seq body) e stands_new,
        omega (arith, e, length-numbered seq body),
      )
  Holds-with_message ((seq', body') ∷ ms) h from (inl (room, stands, more)) =
      inl (room, stands_still h seq' body' from stands, Holds-with_message ms _ (omega arith) more)
  Holds-with_message ((seq', body') ∷ ms) h from (inr (no_room, stands, more)) =
      let ahead = next_lap h r.capacity (omega arith) in
      inr (
        no_room,
        stands_still _ seq' body' (omega arith) stands,
        Holds-with_message ms _ (omega arith) more,
      )
