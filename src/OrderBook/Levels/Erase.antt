-- ===== src/OrderBook/Levels/Erase.antt =====
-- Erasing a level removes it from the map.
use mathlib.Core.Path.{subst}
use nebula_x_trader.Prelude.{
  ℕ, ◌<◌, ◌≡◌, ◌≢◌, refl, sym, ap, ◌∙◌, false, Option, none, some, arith, ◌==◌, if◌then◌else◌,
  Bool-cases, inl, inr,
}
use nebula_x_trader.Prelude.Int.{ℤ, eqb_ℤ}
use nebula_x_trader.Prelude.Sum.{update}
use nebula_x_trader.OrderBook.Levels.{
  Table, Slot, cap, probe, tombstone, is_free, locate, erase, erase_at, rescan_best, find,
}
use nebula_x_trader.OrderBook.Levels.Locate.{IsPrice, eqb→eq, eqb_refl, locate-some}
use nebula_x_trader.OrderBook.Levels.Valid.{IsValid, true-ne-false}
use nebula_x_trader.OrderBook.Levels.Keep.{erased-IsValid, located_once}
use nebula_x_trader.OrderBook.Levels.Lookup.{probe-lt, find-absent, find-same}
use nebula_x_trader.OrderBook.Levels.Map.{HasRoom}

erase_at_slots :
    (t : Table) (p : ℤ) (i : ℕ)
    → (cap (erase_at t p (some i)) ≡ cap t)
      × ((erase_at t p (some i)).slots
          ≡ update t.slots i (record (t.slots i) { price = tombstone }))
unfolding erase_at rescan_best
erase_at_slots t p i = elim (Bool-cases (eqb_ℤ p t.best)) [
  | inl was_best ↦ rw was_best (refl, refl)
  | inr other ↦ rw other (refl, refl)
]

Erases : Table → ℤ → Table → Type 0
Erases t p t' =
    IsValid t' × ((q : ℤ) → IsPrice q → find t' q ≡ (if eqb_ℤ p q then none else find t q))

erase_at_lem :
    (t : Table) (p : ℤ) (o : Option ℕ)
    → IsValid t
    → IsPrice p
    → locate t.slots (cap t) p (cap t) (probe t.cap_bits p) ≡ o
    → Erases t p (erase_at t p o)
unfolding erase_at Erases find
erase_at_lem t p none v price nowhere = (
  v,
  λ q q_price. elim (Bool-cases (eqb_ℤ p q)) [
    | inl same ↦
        let at : p ≡ q = eqb→eq p q same in
        rw same (subst (λ (x : ℤ). find t x ≡ none) at (rw (nowhere, find) refl))
    | inr differ ↦ rw differ refl
  ],
)
erase_at_lem t p (some i) v price there =
    let (b, at) =
      locate-some t.slots (cap t) p (cap t) (probe t.cap_bits p) i v.some_slot
        (probe-lt t.cap_bits p v.some_slot) there in
    let v' : IsValid (erase_at t p (some i)) = erased-IsValid v i p b price at in
    (v', removed b at v')
  where
    t' : Table
    t' = erase_at t p (some i)

    dead : Slot
    dead = record (t.slots i) { price = tombstone }

    at_i : (t'.slots i).price ≡ tombstone
    at_i = ap (λ (f : ℕ → Slot). (f i).price) (erase_at_slots t p i).1 ∙ ground arith

    off_i : (j : ℕ) → j ≢ i → t'.slots j ≡ t.slots j
    off_i j apart = ap (λ (f : ℕ → Slot). f j) (erase_at_slots t p i).1 ∙ ground (arith, apart)

    removed :
        i < cap t
        → (t.slots i).price ≡ p
        → IsValid t'
        → (q : ℤ) → IsPrice q
        → find t' q ≡ (if eqb_ℤ p q then none else find t q)
    removed b at v' q q_price = elim (Bool-cases (eqb_ℤ p q)) [
      | inl same ↦ rw same (
          find-absent {p = q} v' (λ j b' at'. elim (Bool-cases (j == i)) [
            | inl is_i ↦
                let e : j ≡ i = ground arith in
                true-ne-false (
                  sym (ap (λ (k : ℕ). is_free (t'.slots k).price) e ∙ ap is_free at_i)
                  ∙ ap is_free at'
                  ∙ q_price)
            | inr apart ↦
                let differ : j ≢ i = ground arith in
                let q_at : (t.slots j).price ≡ q =
                  ap (λ (s : Slot). s.price) (sym (off_i j differ)) ∙ at' in
                differ (
                  sym (
                    located_once t.slots t.cap_bits v.located i b j
                      (rw (← (erase_at_slots t p i).0) b') (subst IsPrice (sym q_at) q_price)
                      (at ∙ eqb→eq p q same ∙ sym q_at)))
          ]))
      | inr other ↦ rw other (
          find-same {q = q} v v' (erase_at_slots t p i).0 q_price
            (λ j at'.
              off_i j (λ e. ne (sym at ∙ ap (λ (k : ℕ). (t.slots k).price) (sym e) ∙ at') other))
            (λ j at'.
              let differ : j ≢ i = λ e. true-ne-false (
                sym (ap (λ (k : ℕ). is_free (t'.slots k).price) e ∙ ap is_free at_i)
                ∙ ap is_free at'
                ∙ q_price) in
              ap (λ (s : Slot). s.price) (sym (off_i j differ)) ∙ at'))
    ]
      where
        ne : p ≡ q → eqb_ℤ p q ≡ false → ⊥
        ne e other = true-ne-false (sym (eqb_refl p) ∙ ap (eqb_ℤ p) e ∙ other)

-- In a valid table, erasing a price removes it from the map and no other, whether or not it stood there,
-- and leaves the table valid, with the best of the prices that are left. The price is neither of the two
-- that mark a slot as free.
pub find-erase :
    (t : Table) (p : ℤ)
    → IsValid t
    → IsPrice p
    → IsValid (erase t p)
      × ((q : ℤ) → IsPrice q → find (erase t p) q ≡ (if eqb_ℤ p q then none else find t q))
unfolding erase Erases
find-erase t p v price =
    erase_at_lem t p (locate t.slots (cap t) p (cap t) (probe t.cap_bits p)) v price refl

-- An erased level leaves a tombstone, not an empty slot, and takes no room.
pub HasRoom-erase : (t : Table) (p : ℤ) → IsValid t → IsPrice p → HasRoom t → HasRoom (erase t p)
unfolding erase
HasRoom-erase t p v price (e, b, empty) =
    by_place (locate t.slots (cap t) p (cap t) (probe t.cap_bits p)) refl
  where
    unchanged :
        (i : ℕ)
        → i ≢ e
        → (update t.slots i (record (t.slots i) { price = tombstone }) e).price ≡ (t.slots e).price
    unchanged i apart = ground (arith, apart)

    by_place :
        (o : Option ℕ)
        → locate t.slots (cap t) p (cap t) (probe t.cap_bits p) ≡ o
        → HasRoom (erase_at t p o)
    by_place none nowhere = (e, b, empty)
    by_place (some i) there =
        let (b', at) =
          locate-some t.slots (cap t) p (cap t) (probe t.cap_bits p) i v.some_slot
            (probe-lt t.cap_bits p v.some_slot) there in
        let apart : i ≢ e = λ is.
          true-ne-false
            (ap is_free (sym empty ∙ ap (λ (k : ℕ). (t.slots k).price) (sym is) ∙ at) ∙ price) in
        (
          e,
          rw (erase_at_slots t p i).0 b,
          ap (λ (f : ℕ → Slot). (f e).price) (erase_at_slots t p i).1 ∙ unchanged i apart ∙ empty,
        )
