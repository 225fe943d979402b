-- ===== src/OrderBook/Levels/Keep.antt =====
-- The operations of a table of levels keep its invariant.
use mathlib.Core.Path.{subst}
use nebula_x_trader.Prelude.{
  ℕ, ◌-◌, ◌^◌, ◌<◌, ◌≡◌, ◌≢◌, refl, sym, ap, ◌∙◌, Bool, true, false, none, some, arith, ◌==◌,
  if◌then◌else◌, Bool-cases, inl, inr,
}
use nebula_x_trader.Prelude.Int.{ℤ, eqb_ℤ}
use nebula_x_trader.Prelude.Words.{IsInt64}
use nebula_x_trader.Prelude.Sum.{update}
use nebula_x_trader.OrderBook.Levels.{
  Table, Slot, cap, probe, empty_price, tombstone, is_free, is_better, better, locate, new_table,
  put_at, empty_level, rescan_best,
}
use nebula_x_trader.OrderBook.Levels.Locate.{IsPrice, eqb_refl, locate-update}
use nebula_x_trader.OrderBook.Levels.Valid.{
  IsLocated, IsValid, used, used-update, best_below-IsBest, true-ne-false, better_self,
  better_bound, worst_equal, used-eq-zero,
}

-- A slot that is written, or another.
update_cases {ℓ} :
    (P : Slot → ℕ → Type ℓ) (slots : ℕ → Slot) (i : ℕ) (s : Slot) (j : ℕ)
    → P s i
    → (j ≢ i → P (slots j) j)
    → P (update slots i s j) j
update_cases P slots i s j written other = elim (Bool-cases (i == j)) [
  | inl same ↦ let at : i ≡ j = ground arith in rw same (subst (P s) at written)
  | inr differ ↦ rw differ (other (ground arith))
]

is_free-ne : (p q : ℤ) → is_free p ≡ true → IsPrice q → p ≢ q
is_free-ne p q free price e = true-ne-false (sym free ∙ ap is_free e ∙ price)

module _ (slots : ℕ → Slot) (bits : ℕ) (located : IsLocated slots bits) (i : ℕ)
    (below : i < 2 ^ bits) where
  -- A write that neither empties the slot nor hides another level.
  IsLocated-write :
      (s : Slot)
      → s.price ≢ empty_price
      → ((j : ℕ)
          → j ≢ i
          → j < 2 ^ bits
          → IsPrice (slots j).price
          → ((slots i).price ≢ (slots j).price) × (s.price ≢ (slots j).price))
      → (IsPrice s.price
          → locate (update slots i s) (2 ^ bits) s.price (2 ^ bits) (probe bits s.price) ≡ some i)
      → IsLocated (update slots i s) bits
  IsLocated-write s kept others new j =
      update_cases
        (λ (v : Slot) (j : ℕ).
          j < 2 ^ bits
          → IsPrice v.price
          → locate (update slots i s) (2 ^ bits) v.price (2 ^ bits) (probe bits v.price) ≡ some j)
        slots i s j (λ b p. new p)
        (λ differ b p.
          locate-update slots (2 ^ bits) (slots j).price (2 ^ bits) (probe bits (slots j).price) j i
            s (others j differ b p).0 kept (others j differ b p).1 (located j b p))

  -- No two slots have the same level.
  pub located_once :
      (j : ℕ) → j < 2 ^ bits → IsPrice (slots j).price → (slots i).price ≡ (slots j).price → i ≡ j
  located_once j b price same =
      let here = located i below (subst IsPrice (sym same) price) in
      let there = located j b price in
      let both =
        subst (λ (q : ℤ). locate slots (2 ^ bits) q (2 ^ bits) (probe bits q) ≡ some i) same here in
      cc

  IsLocated-tombstone :
      (s : Slot) → IsPrice (slots i).price → s.price ≡ tombstone → IsLocated (update slots i s) bits
  IsLocated-tombstone s price dead =
      IsLocated-write s (λ e. absurd (tombstone-ne-empty (sym dead ∙ e)))
        (λ j differ b p. (
          λ same. differ (sym (located_once j b p same)),
          λ same. true-ne-false (ap is_free (sym dead) ∙ ap is_free same ∙ p),
        ))
        (λ p. absurd (true-ne-false (ap is_free (sym dead) ∙ p)))
    where
      tombstone-ne-empty : tombstone ≡ empty_price → ⊥
      tombstone-ne-empty e = true-ne-false (sym (ap (λ (q : ℤ). eqb_ℤ q empty_price) e))

  IsLocated-put :
      (s : Slot)
      → is_free (slots i).price ≡ true
      → IsPrice s.price
      → locate slots (2 ^ bits) s.price (2 ^ bits) (probe bits s.price) ≡ none
      → locate (update slots i s) (2 ^ bits) s.price (2 ^ bits) (probe bits s.price) ≡ some i
      → IsLocated (update slots i s) bits
  IsLocated-put s free price absent there =
      IsLocated-write s (λ e. true-ne-false (sym (ap is_free e) ∙ price))
        (λ j differ b p. (
          is_free-ne (slots i).price (slots j).price free p,
          λ same.
              let found_there =
                subst (λ (q : ℤ). locate slots (2 ^ bits) q (2 ^ bits) (probe bits q) ≡ some j)
                  (sym same) (located j b p) in
              cc,
        ))
        (λ p. there)

module _ {t : Table} (v : IsValid t) where
  open v use {some_slot, ranged, located, best_ok, counted}
  open best_ok use {bound, attained}

  pub put_at-IsValid :
      (i : ℕ) (p : ℤ)
      → i < cap t
      → is_free (t.slots i).price ≡ true
      → IsPrice p
      → IsInt64 p
      → locate t.slots (cap t) p (cap t) (probe t.cap_bits p) ≡ none
      → locate (put_at t i p).slots (cap t) p (cap t) (probe t.cap_bits p) ≡ some i
      → IsValid (put_at t i p)
  put_at-IsValid i p below free price range absent there = record {
    some_slot = some_slot;
    ranged = λ j.
        update_cases (λ (w : Slot) (j : ℕ). j < cap t → IsPrice w.price → IsInt64 w.price) t.slots i
          new j (λ b q. range) (λ differ. ranged j);
    located = IsLocated-put t.slots t.cap_bits located i below new free price absent there;
    best_ok = record {
      bound = λ j.
          update_cases
            (λ (w : Slot) (j : ℕ).
              j < cap t
              → IsPrice w.price
              → is_better t.is_bid w.price (better t.is_bid p t.best) ≡ false)
            t.slots i new j (λ b q. better_self t.is_bid p t.best)
            (λ differ b q. better_bound t.is_bid (t.slots j).price p t.best (bound j b q));
      attained = elim (Bool-cases (is_better t.is_bid p t.best)) [
        | inl yes_better ↦ inr (i, below, rw at_i price, rw (at_i, yes_better) refl)
        | inr no_better ↦ elim attained [
          | inl (none_there, at_worst) ↦ inr (
            i,
            below,
            rw at_i price,
            rw at_i (worst_equal t.is_bid p t.best price range at_worst no_better),
          )
          | inr (j, b, q, at) ↦
              let differ : i ≢ j =
                λ e. true-ne-false (sym free ∙ ap (λ (k : ℕ). is_free (t.slots k).price) e ∙ q) in
              let same : update t.slots i new j ≡ t.slots j = ground (arith, differ) in
              inr (j, b, rw same q, rw (same, no_better) at)
        ]
      ];
    };
    counted =
        let one = used-update t.slots i (cap t) new below in
        omega (arith, counted, rw (free, price) at one);
  }
    where
      new : Slot
      new = record { price = p; level = empty_level }

      at_i : update t.slots i new i ≡ new
      at_i = ground arith

  -- `erase` at the slot where the price stands
  pub erased-IsValid :
      (i : ℕ) (p : ℤ)
      → i < cap t
      → IsPrice p
      → (t.slots i).price ≡ p
      → let slots' = update t.slots i (record (t.slots i) { price = tombstone }) in
        let t' = record t { slots = slots'; count = t.count - 1 } in
        IsValid (if eqb_ℤ p t.best then rescan_best t' else t')
  unfolding rescan_best
  erased-IsValid i p below price at = elim (Bool-cases (eqb_ℤ p t.best)) [
    | inl was_best ↦ rw was_best (record {
      some_slot = some_slot;
      ranged = ranged';
      located = located';
      best_ok = best_below-IsBest t.is_bid slots' (cap t) ranged';
      counted = counted';
    })
    | inr other ↦ rw other (record {
      some_slot = some_slot;
      ranged = ranged';
      located = located';
      best_ok = record {
        bound = λ j.
            update_cases
              (λ (w : Slot) (j : ℕ).
                j < cap t → IsPrice w.price → is_better t.is_bid w.price t.best ≡ false)
              t.slots i dead j (λ b q. absurd (true-ne-false q)) (λ differ. bound j);
        attained = elim attained [
          | inl (none_there, at_worst) ↦ absurd (true-ne-false (sym (none_there i below) ∙ used_i))
          | inr (j, b, q, best_at) ↦
              let differ : i ≢ j = λ e. true-ne-false (
                sym (eqb_refl p)
                ∙ ap (λ (x : ℤ). eqb_ℤ p x) (sym at ∙ ap (λ (k : ℕ). (t.slots k).price) e ∙ best_at)
                ∙ other) in
              let same : update t.slots i dead j ≡ t.slots j = ground (arith, differ) in
              inr (j, b, rw same q, rw same best_at)
        ];
      };
      counted = counted';
    })
  ]
    where
      dead : Slot
      dead = record (t.slots i) { price = tombstone }

      slots' : ℕ → Slot
      slots' = update t.slots i dead

      used_i : IsPrice (t.slots i).price
      used_i = subst IsPrice (sym at) price

      ranged' : (j : ℕ) → j < cap t → IsPrice (slots' j).price → IsInt64 (slots' j).price
      ranged' j =
          update_cases (λ (w : Slot) (j : ℕ). j < cap t → IsPrice w.price → IsInt64 w.price) t.slots
            i dead j (λ b q. absurd (true-ne-false q)) (λ differ. ranged j)

      located' : IsLocated slots' t.cap_bits
      located' = IsLocated-tombstone t.slots t.cap_bits located i below dead used_i refl

      counted' : t.count - 1 ≡ used slots' (cap t)
      counted' =
          let one = used-update t.slots i (cap t) dead below in
          omega (arith, counted, rw used_i at one)

-- A new table is valid.
pub new_table-IsValid : (is_bid : Bool) → IsValid (new_table is_bid)
unfolding new_table
new_table-IsValid is_bid = record {
  some_slot = omega arith;
  ranged = λ i b price. absurd (true-ne-false price);
  located = λ i b price. absurd (true-ne-false price);
  best_ok = record {
    bound = λ i b price. absurd (true-ne-false price);
    attained = inl (λ i b. refl, refl);
  };
  counted = sym ((used-eq-zero _ 1_024).1 (λ i b. refl));
}
