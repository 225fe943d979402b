-- ===== src/OrderBook/Levels/Lookup.antt =====
-- What a valid table of levels finds, in terms of its slots.
use mathlib.Core.Path.{subst}
use native.Mathlib.Nat.{mod-lt}
use nebula_x_trader.Prelude.{
  ℕ, ◌^◌, ◌<◌, ◌≡◌, ◌≢◌, refl, sym, ap, ◌∙◌, none, some, Option-cases, inl, inr, ◌⊎◌,
}
use nebula_x_trader.Prelude.Int.{ℤ}
use nebula_x_trader.OrderBook.Levels.{Table, Slot, cap, probe, locate, find}
use nebula_x_trader.OrderBook.Levels.Locate.{IsPrice, locate-some}
use nebula_x_trader.OrderBook.Levels.Valid.{IsValid}

pub probe-lt : (bits : ℕ) (p : ℤ) → 0 < 2 ^ bits → probe bits p < 2 ^ bits
unfolding probe
probe-lt bits p h = mod-lt _ h

pub find-at :
    {t : Table} {p : ℤ} (i : ℕ)
    → IsValid t
    → i < cap t
    → IsPrice p
    → (t.slots i).price ≡ p
    → find t p ≡ some (t.slots i).level
unfolding find
find-at {t} {p} i v b price at =
    rw
      (
        subst
            (λ (q : ℤ). IsPrice q → locate t.slots (cap t) q (cap t) (probe t.cap_bits q) ≡ some i)
            at (v.located i b) price,
        find,
      )
      refl

pub find-absent :
    {t : Table} {p : ℤ}
    → IsValid t
    → ((j : ℕ) → j < cap t → (t.slots j).price ≢ p)
    → find t p ≡ none
unfolding find
find-absent {t} {p} v absent =
    elim (Option-cases (locate t.slots (cap t) p (cap t) (probe t.cap_bits p))) [
      | inl none_there ↦ rw (none_there, find) refl
      | inr (j, there) ↦
          let (b, at) =
            locate-some t.slots (cap t) p (cap t) (probe t.cap_bits p) j v.some_slot
              (probe-lt t.cap_bits p v.some_slot) there in
          absurd (absent j b at)
    ]

-- A price stands in a slot or in none.
pub stands :
    {t : Table} (q : ℤ)
    → IsValid t
    → IsPrice q
    → ((j : ℕ) → j < cap t → (t.slots j).price ≢ q)
      ⊎ ((j : ℕ) × (j < cap t) × ((t.slots j).price ≡ q))
stands {t} q v price = elim (Option-cases (locate t.slots (cap t) q (cap t) (probe t.cap_bits q))) [
  | inl none_there ↦ inl (λ j b at.
      let there =
        subst
          (λ (p : ℤ). IsPrice p → locate t.slots (cap t) p (cap t) (probe t.cap_bits p) ≡ some j) at
          (v.located j b) price in
      cc)
  | inr (j, there) ↦
      let (b, at) =
        locate-some t.slots (cap t) q (cap t) (probe t.cap_bits q) j v.some_slot
          (probe-lt t.cap_bits q v.some_slot) there in
      inr (j, b, at)
]

-- A price whose slots are the same in both tables.
pub find-same :
    {t t' : Table} {q : ℤ}
    → IsValid t
    → IsValid t'
    → cap t' ≡ cap t
    → IsPrice q
    → ((j : ℕ) → (t.slots j).price ≡ q → t'.slots j ≡ t.slots j)
    → ((j : ℕ) → (t'.slots j).price ≡ q → (t.slots j).price ≡ q)
    → find t' q ≡ find t q
find-same {t} {t'} {q} v v' same price kept back = elim (stands q v price) [
  | inl absent ↦
      find-absent v' (λ j b at. absent j (rw (← same) b) (back j at)) ∙ sym (find-absent v absent)
  | inr (j, b, at) ↦
      find-at j v' (rw same b) price (ap (λ (s : Slot). s.price) (kept j at) ∙ at)
      ∙ ap (λ (s : Slot). some s.level) (kept j at)
      ∙ sym (find-at j v b price at)
]
