-- ===== src/OrderBook/Levels/Locate.antt =====
-- The loops over the slots of a table of levels.
use native.Mathlib.Nat.{add-zero, mod-lt, mod-eq_of_lt, mod-eq-sub-mod, mod-add-mod}
use nebula_x_trader.Prelude.{
  ℕ, zero, suc, ◌+◌, ◌-◌, ◌%◌, ◌<◌, ◌≡◌, ◌≢◌, refl, sym, ap, ◌∙◌, true, false, none, some, arith,
  leb, ◌==◌, if◌then◌else◌, Bool-cases, inl, inr,
}
use nebula_x_trader.Prelude.Int.{ℤ, eqb_ℤ, eq_of_parts}
use nebula_x_trader.Prelude.Sum.{update}
use nebula_x_trader.OrderBook.Levels.{
  Slot, empty_price, tombstone, is_free, locate, found, vacant, full, scan,
}

pub eqb→eq : (a b : ℤ) → eqb_ℤ a b ≡ true → a ≡ b
eqb→eq a b h = eq_of_parts a b (ground arith)

pub eqb_refl : (a : ℤ) → eqb_ℤ a a ≡ true
eqb_refl a = ground arith

pub eqb_ne : (a b : ℤ) → a ≢ b → eqb_ℤ a b ≡ false
eqb_ne a b h = elim (Bool-cases (eqb_ℤ a b)) [
  | inl same ↦ absurd (h (eqb→eq a b same))
  | inr differ ↦ differ
]

-- a price that a level can have
abbrev pub IsPrice : ℤ → Type 0
IsPrice p = is_free p ≡ false

module _ (slots : ℕ → Slot) (capacity : ℕ) (p : ℤ) where
  -- What is located has the price, and is a slot of the table.
  pub locate-some :
      (n i j : ℕ)
      → 0 < capacity
      → i < capacity
      → locate slots capacity p n i ≡ some j
      → (j < capacity) × ((slots j).price ≡ p)
  unfolding locate
  locate-some zero i j some_slot below e = cc
  locate-some (suc n) i j some_slot below e = elim (Bool-cases (eqb_ℤ (slots i).price p)) [
    | inl here ↦
        let at : i ≡ j = ground arith in (omega arith, rw (← at) (eqb→eq (slots i).price p here))
    | inr elsewhere ↦
        locate-some n ((i + 1) % capacity) j some_slot (mod-lt (i + 1) some_slot) (ground arith)
  ]

  -- A write to a slot of another price does not hide the price, unless it makes the slot empty.
  pub locate-update :
      (n i j k : ℕ) (s : Slot)
      → (slots k).price ≢ p
      → s.price ≢ empty_price
      → s.price ≢ p
      → locate slots capacity p n i ≡ some j
      → locate (update slots k s) capacity p n i ≡ some j
  unfolding locate
  locate-update zero i j k s other kept new e = e
  locate-update (suc n) i j k s other kept new e = ground (
    arith,
    locate-update n ((i + 1) % capacity) j k s other kept new,
    eqb_ne (slots k).price p other,
    eqb_ne s.price empty_price kept,
    eqb_ne s.price p new,
  )

  -- Once a tombstone is met, it is the slot that is offered.
  pub scan-tomb :
      (n i tomb j : ℕ) → tomb ≢ capacity → scan slots capacity p n i tomb ≡ vacant j → j ≡ tomb
  unfolding scan
  scan-tomb zero i tomb j h e = cc
  scan-tomb (suc n) i tomb j h e = ground (arith, scan-tomb n ((i + 1) % capacity) tomb j h)

  pub scan-found :
      (n i tomb j : ℕ)
      → scan slots capacity p n i tomb ≡ found j
      → locate slots capacity p n i ≡ some j
  unfolding scan locate
  scan-found zero i tomb j e = cc
  scan-found (suc n) i tomb j e =
      ground
        (arith, scan-found n ((i + 1) % capacity) tomb j, scan-found n ((i + 1) % capacity) i j)

  pub scan-none :
      (n i tomb j : ℕ)
      → scan slots capacity p n i tomb ≡ vacant j
      → locate slots capacity p n i ≡ none
  unfolding scan locate
  scan-none zero i tomb j e = refl
  scan-none (suc n) i tomb j e =
      ground (arith, scan-none n ((i + 1) % capacity) tomb j, scan-none n ((i + 1) % capacity) i j)

  -- The slot that is offered is free, and the price is located there once it is written.
  pub scan-vacant :
      (n i j : ℕ) (s : Slot)
      → 0 < capacity
      → i < capacity
      → IsPrice p
      → s.price ≡ p
      → scan slots capacity p n i capacity ≡ vacant j
      → (j < capacity)
        × (is_free (slots j).price ≡ true)
        × (locate (update slots j s) capacity p n i ≡ some j)
  unfolding scan locate
  scan-vacant zero i j s some_slot below price new e = cc
  scan-vacant (suc n) i j s some_slot below price new e =
      elim (Bool-cases (eqb_ℤ (slots i).price p)) [
        | inl here ↦ ground arith
        | inr elsewhere ↦ elim (Bool-cases (eqb_ℤ (slots i).price tombstone)) [
          | inl dead ↦
              let at : j ≡ i = ground (arith, scan-tomb n ((i + 1) % capacity) i j (omega arith)) in
              ground (arith, eqb_refl p)
          | inr alive ↦ elim (Bool-cases (eqb_ℤ (slots i).price empty_price)) [
            | inl none_there ↦ ground (arith, eqb_refl p)
            | inr taken ↦
                let (below', free, there) =
                  scan-vacant n ((i + 1) % capacity) j s some_slot (mod-lt (i + 1) some_slot) price
                    new (ground arith) in
                (below', free, ground (arith, eqb_refl p))
          ]
        ]
      ]

  -- Where every slot is taken, no slot on the way is empty.
  scan-full :
      (n i tomb k : ℕ)
      → scan slots capacity p n i tomb ≡ full
      → i < capacity
      → k < n
      → (slots ((i + k) % capacity)).price ≢ empty_price
  unfolding scan
  scan-full zero i tomb k e below h = absurd (omega arith)
  scan-full (suc n) i tomb zero e below h =
      rw (add-zero, mod-eq_of_lt below)
        (λ none_there. ground (arith, ap (λ (q : ℤ). eqb_ℤ q empty_price) none_there))
  scan-full (suc n) i tomb (suc k) e below h =
      let tomb' =
        if eqb_ℤ (slots i).price tombstone then (if tomb == capacity then i else tomb) else tomb in
      let same : (i + suc k) % capacity ≡ ((i + 1) % capacity + k) % capacity =
        ap (λ (m : ℕ). m % capacity) (omega arith) ∙ sym (mod-add-mod (i + 1) capacity k) in
      rw same (
        scan-full n ((i + 1) % capacity) tomb' k (ground arith) (mod-lt (i + 1) (omega arith))
          (omega arith))

  -- A table with an empty slot is never full.
  pub scan-ne-full :
      (i tomb e : ℕ)
      → i < capacity
      → e < capacity
      → (slots e).price ≡ empty_price
      → scan slots capacity p capacity i tomb ≢ full
  scan-ne-full i tomb e below here empty is_full = elim (Bool-cases (leb i e)) [
    | inl ahead ↦
        let back : i + (e - i) ≡ e = ground arith in
        let at : (i + (e - i)) % capacity ≡ e =
          ap (λ (m : ℕ). m % capacity) back ∙ mod-eq_of_lt here in
        scan-full capacity i tomb (e - i) is_full below (omega arith)
          (ap (λ (m : ℕ). (slots m).price) at ∙ empty)
    | inr behind ↦
        let round : i + (e + capacity - i) ≡ e + capacity = omega arith in
        let at : (i + (e + capacity - i)) % capacity ≡ e =
          ap (λ (m : ℕ). m % capacity) round
          ∙ mod-eq-sub-mod {n = e + capacity} {m = capacity} (omega arith)
          ∙ ap (λ (m : ℕ). m % capacity) (omega arith)
          ∙ mod-eq_of_lt here in
        scan-full capacity i tomb (e + capacity - i) is_full below (ground arith)
          (ap (λ (m : ℕ). (slots m).price) at ∙ empty)
  ]

-- Only the prices of the slots count.
pub locate-congr :
    (slots slots' : ℕ → Slot) (capacity : ℕ) (p : ℤ) (n i : ℕ)
    → ((k : ℕ) → (slots' k).price ≡ (slots k).price)
    → locate slots' capacity p n i ≡ locate slots capacity p n i
unfolding locate
locate-congr slots slots' capacity p zero i same = refl
locate-congr slots slots' capacity p (suc n) i same =
    ground (arith, same i, locate-congr slots slots' capacity p n ((i + 1) % capacity) same)
