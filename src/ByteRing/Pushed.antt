-- ===== src/ByteRing/Pushed.antt =====
-- Where `push` puts the bytes of a message.
use native.Mathlib.Nat.{mod-lt, mul-mod_left, mod-eq_of_lt, mod-add-mod, div-add-mod'}
use nebula_x_trader.Prelude.{
  ℕ, zero, suc, ◌+◌, ◌-◌, ◌*◌, ◌/◌, ◌%◌, ◌<◌, ◌≤◌, ◌≡◌, refl, sym, ap, ◌∙◌, List, [], ◌∷◌, ◌++◌,
  ◌==◌, ltb, leb, ◌||◌, true, false, arith, length, take, drop, Bool-cases, inl, inr, ◌⊎◌,
}
use nebula_x_trader.Prelude.Words.{u64_mod, add64, sub64}
use nebula_x_trader.ByteRing.{ByteRing, header_bytes, write_at, push, push_split}
use nebula_x_trader.ByteRing.Push.{Fits, has_room, no_room, next_lap, push_wrapped-exact}
use nebula_x_trader.ByteRing.Cells.{ring_write, ring_write-append, write_at-ring_write}

-- where a message goes whose head is not to be divided by the end of the ring
abbrev pub Starts : ByteRing → ℕ → Type 0
Starts r s =
    ((header_bytes ≤ r.capacity - r.tail % r.capacity) × (s ≡ r.tail))
    ⊎ ((r.capacity - r.tail % r.capacity < header_bytes)
        × (s ≡ (r.tail / r.capacity + 1) * r.capacity))

-- A message of `n` bytes has no room: it does not fit behind the bytes that are there, or, where the
-- end of the ring is in its way, behind the start of the next lap.
abbrev pub IsFull : ByteRing → ℕ → Type 0
IsFull r n =
    ((r.tail % r.capacity + n ≤ r.capacity) × (r.head + r.capacity < r.tail + n))
    ⊎ ((r.capacity < r.tail % r.capacity + n)
        × (r.head + r.capacity < (r.tail / r.capacity + 1) * r.capacity + n))

-- the ring with a message from `s` on
abbrev pub with_message : ByteRing → ℕ → List ℕ → ByteRing
with_message r s msg = record r { buf = ring_write r.capacity s msg r.buf; tail = s + length msg }

take_and_drop : (n : ℕ) (xs : List ℕ) → take n xs ++ drop n xs ≡ xs
take_and_drop zero xs = refl
take_and_drop (suc n) [] = refl
take_and_drop (suc n) (x ∷ xs) = ap (λ (ys : List ℕ). x ∷ ys) (take_and_drop n xs)

length-take : (n : ℕ) (xs : List ℕ) → n ≤ length xs → length (take n xs) ≡ n
length-take zero xs h = refl
length-take (suc n) [] h = absurd (omega arith)
length-take (suc n) (x ∷ xs) h = ap suc (length-take n xs (omega arith))

length-drop : (n : ℕ) (xs : List ℕ) → length (drop n xs) ≡ length xs - n
length-drop zero xs = omega arith
length-drop (suc n) [] = omega arith
length-drop (suc n) (x ∷ xs) = length-drop n xs ∙ omega arith

module _ (r : ByteRing) (msg : List ℕ) (fits : Fits r) (some : 0 < r.capacity)
    (large : header_bytes ≤ length msg) (small : r.tail + r.capacity + length msg < u64_mod) where
  -- a message that the end of the ring divides behind its head
  push_split_lem :
      header_bytes ≤ r.capacity - r.tail % r.capacity
      → r.capacity < r.tail % r.capacity + length msg
      → (r.tail / r.capacity + 1) * r.capacity + length msg ≤ r.head + r.capacity
      → push_split r msg (r.tail % r.capacity) (r.capacity - r.tail % r.capacity)
        ≡ with_message r r.tail msg
  unfolding push_split
  push_split_lem room across behind =
      let c = r.capacity in
      let pos = r.tail % c in
      let br = c - pos - header_bytes in
      let head = take header_bytes msg in
      let body = drop header_bytes msg in
      let whole = div-add-mod' r.tail c in
      let below : pos < c = mod-lt r.tail some in
      let lap : (r.tail / c + 1) * c ≡ r.tail / c * c + c = grind arith in
      let head_len : length head ≡ header_bytes = length-take header_bytes msg large in
      let body_len : length body ≡ length msg - header_bytes = length-drop header_bytes msg in
      let first_len : length (take br body) ≡ br = length-take br body (omega arith) in
      let second_len : length (drop br body) ≡ length body - br = length-drop br body in
      let longer : ltb br (length body) ≡ true = ground arith in
      let on : add64 r.tail (length msg) ≡ r.tail + length msg = ground arith in
      let headed = write_at-ring_write c r.tail pos head r.buf (λ h. refl) (omega arith) in
      let start : c ≡ pos + header_bytes + br = omega arith in
      let second_start : r.tail + length head + length (take br body) ≡ (r.tail / c + 1) * c =
        omega arith in
      let second_at : (r.tail + length head + length (take br body)) % c ≡ 0 =
        ap (λ (k : ℕ). k % c) second_start ∙ mul-mod_left (r.tail / c + 1) c in
      let first_at : 0 < length (take br body) → pos + header_bytes ≡ (r.tail + length head) % c =
        λ h.
          sym (mod-eq_of_lt (omega arith))
          ∙ mod-add-mod r.tail c header_bytes
          ∙ ap (λ (k : ℕ). (r.tail + k) % c) (sym head_len) in
      let first =
        write_at-ring_write c (r.tail + length head) (pos + header_bytes) (take br body)
          (ring_write c r.tail head r.buf) first_at (omega arith) in
      let second =
        write_at-ring_write c (r.tail + length head + length (take br body)) 0 (drop br body)
          (ring_write c (r.tail + length head) (take br body) (ring_write c r.tail head r.buf))
          (λ h. sym second_at) (omega arith) in
      let joined : head ++ (take br body ++ drop br body) ≡ msg =
        ap (λ (xs : List ℕ). head ++ xs) (take_and_drop br body) ∙ take_and_drop header_bytes msg in
      let cells : write_at 0 (drop br body)
            (write_at (pos + header_bytes) (take br body) (write_at pos head r.buf))
          ≡ ring_write c r.tail msg r.buf =
        ap
          (λ (f : ℕ → ℕ).
            write_at 0 (drop br body) (write_at (pos + header_bytes) (take br body) f))
          headed
        ∙ ap (λ (f : ℕ → ℕ). write_at 0 (drop br body) f) first
        ∙ second
        ∙ sym (
            ring_write-append c (r.tail + length head) (take br body) (drop br body)
              (ring_write c r.tail head r.buf))
        ∙ sym (ring_write-append c r.tail head (take br body ++ drop br body) r.buf)
        ∙ ap (λ (xs : List ℕ). ring_write c r.tail xs r.buf) joined in
      rw (longer, on) (ap (λ (f : ℕ → ℕ). record r { buf = f; tail = r.tail + length msg }) cells)

  -- without room, a push does nothing
  pub full-push : IsFull r (length msg) → push r msg ≡ (0, r)
  unfolding push
  full-push (inl (whole, over)) =
      let fits_in : leb (r.tail % r.capacity + length msg) r.capacity ≡ true = ground arith in
      elim (Bool-cases
        (ltb (sub64 r.capacity (sub64 r.tail r.head)) (length msg) || length msg == 0)) [
          | inl full ↦ rw (fits_in, full) refl
          | inr room ↦ absurd (omega (arith, has_room r (length msg) fits small room))
        ]
  full-push (inr (across, over)) =
      let crosses : leb (r.tail % r.capacity + length msg) r.capacity ≡ false = ground arith in
      let exact = push_wrapped-exact r msg fits some small in
      let full : ltb (r.head + r.capacity) ((r.tail / r.capacity + 1) * r.capacity + length msg)
          ≡ true =
        ground arith in
      rw (crosses, exact, full) refl

  -- A push either finds no room and leaves the ring alone, or puts the message, whose head is in one
  -- piece, behind the bytes that are there, or at the start of the ring, and reports its length.
  pub push-cases :
      (IsFull r (length msg) × (push r msg ≡ (0, r)))
      ⊎ ((s : ℕ) × Starts r s
          × (push r msg ≡ (length msg, with_message r s msg))
          × (s + length msg ≤ r.head + r.capacity))
  unfolding push
  push-cases =
      let c = r.capacity in
      let pos = r.tail % c in
      let lap = next_lap r.tail c some in
      let below : pos < c = mod-lt r.tail some in
      let exact = push_wrapped-exact r msg fits some small in
      elim (Bool-cases (leb (pos + length msg) c)) [
        | inl whole ↦
            elim (Bool-cases
              (ltb (sub64 c (sub64 r.tail r.head)) (length msg) || length msg == 0)) [
                | inl full ↦ inl (
                  inl (ground arith, no_room r (length msg) fits small (omega arith) full),
                  rw (whole, full) refl,
                )
                | inr room ↦
                    let behind = has_room r (length msg) fits small room in
                    let on : add64 r.tail (length msg) ≡ r.tail + length msg = ground arith in
                    let cells =
                      write_at-ring_write c r.tail pos msg r.buf (λ h. refl) (ground arith) in
                    inr (r.tail, inl (ground arith, refl), rw (whole, room, on, cells) refl, behind)
              ]
        | inr across ↦ elim (Bool-cases (ltb (r.head + c) ((r.tail / c + 1) * c + length msg))) [
          | inl full ↦ inl (inr (ground arith, ground arith), rw (across, exact, full) refl)
          | inr room ↦ elim (Bool-cases (leb header_bytes (c - pos))) [
            | inl split ↦
                let cells = push_split_lem (ground arith) (ground arith) (ground arith) in
                inr (
                  r.tail,
                  inl (ground arith, refl),
                  rw (across, exact, room, split, cells) refl,
                  ground arith,
                )
            | inr skips ↦
                let aligned = (r.tail / c + 1) * c in
                let at : 0 < length msg → 0 ≡ aligned % c =
                  λ h. sym (mul-mod_left (r.tail / c + 1) c) in
                let cells = write_at-ring_write c aligned 0 msg r.buf at (ground arith) in
                inr (
                  aligned,
                  inr (ground arith, refl),
                  rw (across, exact, room, skips, cells) refl,
                  ground arith,
                )
          ]
        ]
      ]
