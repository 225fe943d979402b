-- ===== src/OrderBook/Levels/Map.antt =====
-- A valid table of levels is a map from prices to levels.
use mathlib.Core.Path.{subst}
use nebula_x_trader.Prelude.{
  ℕ, ◌<◌, ◌≡◌, ◌≢◌, refl, sym, ap, ◌∙◌, true, false, Option, none, some, arith, if◌then◌else◌,
  Bool-cases, inl, inr,
}
use nebula_x_trader.Prelude.Int.{ℤ, eqb_ℤ}
use nebula_x_trader.Prelude.Words.{IsInt64}
use nebula_x_trader.Prelude.Sum.{update}
use nebula_x_trader.OrderBook.Levels.{
  Table, Slot, PriceLevel, cap, probe, empty_price, is_free, is_better, better, locate, put_at,
  empty_level, set_level, level_at, settle, Scan, scan, found, vacant, full, find,
}
use nebula_x_trader.OrderBook.Levels.Locate.{
  IsPrice, eqb→eq, eqb_refl, locate-some, scan-found, scan-vacant, scan-none, scan-ne-full,
}
use nebula_x_trader.OrderBook.Levels.Valid.{IsValid, true-ne-false, same_prices-IsValid}
use nebula_x_trader.OrderBook.Levels.Keep.{put_at-IsValid}
use nebula_x_trader.OrderBook.Levels.Lookup.{probe-lt, find-at, find-absent, find-same}

-- some slot of the table was never used, so that it need not grow
abbrev pub HasRoom : Table → Type 0
HasRoom t = (e : ℕ) × (e < cap t) × ((t.slots e).price ≡ empty_price)

-- the level at a price, or the one that `operator[]` makes
abbrev pub get_or_empty : Option PriceLevel → PriceLevel
get_or_empty none = empty_level
get_or_empty (some l) = l

-- What `operator[]` returns: how the price was met, and the table after that.
pub data Met (t : Table) (p : ℤ) (i : ℕ) (t' : Table) : Type 0 where
  old :
      i < cap t
      → (t.slots i).price ≡ p
      → t' ≡ record t { best = better t.is_bid p t.best }
      → Met t p i t'
  new :
      i < cap t
      → is_free (t.slots i).price ≡ true
      → locate t.slots (cap t) p (cap t) (probe t.cap_bits p) ≡ none
      → locate (put_at t i p).slots (cap t) p (cap t) (probe t.cap_bits p) ≡ some i
      → t' ≡ put_at t i p
      → Met t p i t'

pub level_at-Met :
    (t : Table) (p : ℤ)
    → 0 < cap t
    → HasRoom t
    → IsPrice p
    → Met t p (level_at t p).0 (level_at t p).1
unfolding level_at
level_at-Met t p some_slot (e, below, empty) price =
    by_scan (scan t.slots (cap t) p (cap t) (probe t.cap_bits p) (cap t)) refl
  where
    start : probe t.cap_bits p < cap t
    start = probe-lt t.cap_bits p some_slot

    by_scan :
        (s : Scan)
        → scan t.slots (cap t) p (cap t) (probe t.cap_bits p) (cap t) ≡ s
        → Met t p (settle t p s).0 (settle t p s).1
    by_scan (found i) is =
        let (b, at) =
          locate-some t.slots (cap t) p (cap t) (probe t.cap_bits p) i some_slot start
            (scan-found t.slots (cap t) p (cap t) (probe t.cap_bits p) (cap t) i is) in
        Met.old b at refl
    by_scan (vacant i) is =
        let (b, free, there) =
          scan-vacant t.slots (cap t) p (cap t) (probe t.cap_bits p) i
            (record { price = p; level = empty_level }) some_slot start price refl is in
        Met.new b free (scan-none t.slots (cap t) p (cap t) (probe t.cap_bits p) (cap t) i is) there
          refl
    by_scan full is =
        absurd (scan-ne-full t.slots (cap t) p (probe t.cap_bits p) (cap t) e start below empty is)

set_level-IsValid : {t : Table} (i : ℕ) (l : PriceLevel) → IsValid t → IsValid (set_level t i l)
set_level-IsValid {t} i l v =
    same_prices-IsValid (update t.slots i (record (t.slots i) { level = l })) (λ k. ground arith) v

-- writing the level that `operator[]` returned
Met-IsValid :
    {t t' : Table} {p : ℤ} {i : ℕ} → Met t p i t' → IsValid t → IsPrice p → IsInt64 p → IsValid t'
Met-IsValid {t} {p} {i} (old b at e) v price range =
    subst IsValid (sym e)
      (subst (λ (best : ℤ). IsValid (record t { best = best })) (sym no_better) v)
  where
    no_better : better t.is_bid p t.best ≡ t.best
    no_better = rw (
        subst (λ (q : ℤ). IsPrice q → is_better t.is_bid q t.best ≡ false) at (v.best_ok.bound i b)
          price)
Met-IsValid {p} {i} (new b free absent there e) v price range =
    subst IsValid (sym e) (put_at-IsValid v i p b free price range absent there)

-- what `operator[]` leaves, however it met the price
record Facts (t : Table) (p : ℤ) (i : ℕ) (t' : Table) : Type 0 where
  below : i < cap t
  same_cap : cap t' ≡ cap t
  price_at : (t'.slots i).price ≡ p
  others : (j : ℕ) → j ≢ i → t'.slots j ≡ t.slots j
  before : (q : ℤ) → IsPrice q → p ≢ q → (t.slots i).price ≢ q
  level_at_i : (t'.slots i).level ≡ get_or_empty (find t p)

Met-Facts : {t t' : Table} {p : ℤ} {i : ℕ} → Met t p i t' → IsValid t → IsPrice p → Facts t p i t'
Met-Facts {t} {t'} {p} {i} (old b at e) v price = record {
  below = b;
  same_cap = ap cap e;
  price_at = ap (λ (x : Table). (x.slots i).price) e ∙ at;
  others = λ j differ. ap (λ (x : Table). x.slots j) e;
  before = λ q _ differ same. differ (sym at ∙ same);
  level_at_i =
      ap (λ (x : Table). (x.slots i).level) e ∙ sym (ap get_or_empty (find-at i v b price at));
}
Met-Facts {t} {t'} {p} {i} (new b free absent there e) v price = record {
  below = b;
  same_cap = ap cap e;
  price_at = ap (λ (x : Table). (x.slots i).price) e ∙ ap (λ (s : Slot). s.price) written;
  others = λ j differ. ap (λ (x : Table). x.slots j) e ∙ ground (arith, differ);
  before = λ q q_price differ same. true-ne-false (sym free ∙ ap is_free same ∙ q_price);
  level_at_i =
      ap (λ (x : Table). (x.slots i).level) e
      ∙ ap (λ (s : Slot). s.level) written
      ∙ sym (ap get_or_empty none_found);
}
  where
    written : (put_at t i p).slots i ≡ record { price = p; level = empty_level }
    written = ground arith

    none_found : find t p ≡ none
    none_found = find-absent v (λ j b' at.
        let found_there =
          subst
            (λ (q : ℤ). IsPrice q → locate t.slots (cap t) q (cap t) (probe t.cap_bits q) ≡ some j)
            at (v.located j b') price in
        cc)

-- In a valid table with a slot that was never used, reading the level of a price through `operator[]` and
-- writing it back is an insertion into the map: the level that is read is the one that stood at the
-- price, or an empty one, the one that is written stands there afterwards, and no other price is touched.
-- The table stays valid. The price is an `int64_t` and neither of the two that mark a slot as free.
pub find-set_level :
    (t : Table) (p : ℤ)
    → IsValid t
    → HasRoom t
    → IsPrice p
    → IsInt64 p
    → let (i, t') = level_at t p in
      ((t'.slots i).level ≡ get_or_empty (find t p))
      × ((l : PriceLevel)
          → IsValid (set_level t' i l)
            × ((q : ℤ)
                → IsPrice q
                → find (set_level t' i l) q ≡ (if eqb_ℤ p q then some l else find t q)))
find-set_level t p v room price range =
    let met = level_at-Met t p v.some_slot room price in
    let facts = Met-Facts met v price in
    (
      facts.level_at_i,
      λ l.
          let v'' = set_level-IsValid (level_at t p).0 l (Met-IsValid met v price range) in
          (v'', written (level_at t p).0 (level_at t p).1 l facts v''),
    )
  where
    written :
        (i : ℕ) (t' : Table) (l : PriceLevel)
        → Facts t p i t'
        → IsValid (set_level t' i l)
        → (q : ℤ) → IsPrice q
        → find (set_level t' i l) q ≡ (if eqb_ℤ p q then some l else find t q)
    written i t' l f v'' q q_price = elim (Bool-cases (eqb_ℤ p q)) [
      | inl same ↦
          let at : (set_level t' i l).slots i ≡ record (t'.slots i) { level = l } = ground arith in
          rw same (
            find-at i v'' (rw f.same_cap f.below) q_price
              (ap (λ (s : Slot). s.price) at ∙ f.price_at ∙ eqb→eq p q same)
            ∙ ap (λ (s : Slot). some s.level) at)
      | inr differ ↦ rw differ (
          find-same v v'' f.same_cap q_price
            (λ j at.
              let apart : j ≢ i = λ e.
                f.before q q_price (ne p q differ)
                  (ap (λ (k : ℕ). (t.slots k).price) (sym e) ∙ at) in
              kept i t' l j apart ∙ f.others j apart)
            (λ j at.
              let apart : j ≢ i = λ e. ne p q differ (
                sym f.price_at
                ∙ sym (same_price i t' l i)
                ∙ ap (λ (k : ℕ). ((set_level t' i l).slots k).price) (sym e)
                ∙ at) in
              ap (λ (s : Slot). s.price) (sym (f.others j apart))
              ∙ ap (λ (s : Slot). s.price) (sym (kept i t' l j apart))
              ∙ at))
    ]
      where
        ne : (p q : ℤ) → eqb_ℤ p q ≡ false → p ≢ q
        ne p q differ e = true-ne-false (sym (eqb_refl p) ∙ ap (eqb_ℤ p) e ∙ differ)

        kept :
            (i : ℕ) (t' : Table) (l : PriceLevel) (j : ℕ)
            → j ≢ i
            → (set_level t' i l).slots j ≡ t'.slots j
        kept i t' l j apart = ground (arith, apart)

        same_price :
            (i : ℕ) (t' : Table) (l : PriceLevel) (k : ℕ)
            → ((set_level t' i l).slots k).price ≡ (t'.slots k).price
        same_price i t' l k = ground arith

pub find-none :
    (t : Table) (p : ℤ)
    → locate t.slots (cap t) p (cap t) (probe t.cap_bits p) ≡ none
    → find t p ≡ none
unfolding find
find-none t p nowhere = rw (nowhere, find) refl

-- A level that stands already takes no more room.
pub HasRoom-set_level :
    (t : Table) (p : ℤ) (l l' : PriceLevel)
    → IsValid t
    → HasRoom t
    → IsPrice p
    → find t p ≡ some l
    → HasRoom (set_level (level_at t p).1 (level_at t p).0 l')
HasRoom-set_level t p l l' v (e, b, empty) price there =
    by_met (level_at t p).0 (level_at t p).1 (level_at-Met t p v.some_slot (e, b, empty) price)
  where
    by_met : (i : ℕ) (t' : Table) → Met t p i t' → HasRoom (set_level t' i l')
    by_met i t' (old b' at is) =
        (e, rw (ap cap is) b, same_price i t' e ∙ ap (λ (x : Table). (x.slots e).price) is ∙ empty)
      where
        same_price :
            (i : ℕ) (t' : Table) (k : ℕ) → ((set_level t' i l').slots k).price ≡ (t'.slots k).price
        same_price i t' k = ground arith
    by_met i t' (new b' free absent there' is) =
        absurd (none-ne-some (sym (find-none t p absent) ∙ there))
      where
        none-ne-some : none ≡ some l → ⊥
        none-ne-some e = cc
