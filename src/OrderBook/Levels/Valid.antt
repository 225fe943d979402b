-- ===== src/OrderBook/Levels/Valid.antt =====
-- The invariant of a table of levels, and what keeps it.
use mathlib.Core.Path.{subst}
use nebula_x_trader.Prelude.{
  ℕ, zero, suc, ◌+◌, ◌^◌, ◌<◌, ◌≤◌, ◌≡◌, refl, sym, ap, ◌∙◌, Bool, true, false, some, arith, ◌==◌,
  if◌then◌else◌, Bool-cases, inl, inr, ◌⊎◌,
}
use nebula_x_trader.Prelude.Int.{ℤ, ltb_ℤ, eq_of_parts}
use nebula_x_trader.Prelude.Words.{IsInt64}
use nebula_x_trader.Prelude.Sum.{update}
use nebula_x_trader.OrderBook.Levels.{
  Table, Slot, cap, probe, is_free, is_better, better, locate, best_below, int64_min, int64_max,
}
use nebula_x_trader.OrderBook.Levels.Locate.{IsPrice, locate-congr}

-- Every level is found where it stands.
abbrev pub IsLocated : (ℕ → Slot) → ℕ → Type 0
IsLocated slots bits =
    (i : ℕ)
    → i < 2 ^ bits
    → IsPrice (slots i).price
    → locate slots (2 ^ bits) (slots i).price (2 ^ bits) (probe bits (slots i).price) ≡ some i

-- what `best_` is without levels
abbrev pub worst : Bool → ℤ
worst is_bid = if is_bid then int64_min else int64_max

-- No level among the first `n` slots has a better price, and some level has it, if there are any.
pub record IsBest (is_bid : Bool) (best : ℤ) (slots : ℕ → Slot) (n : ℕ) : Type 0 where
  pub bound :
      (i : ℕ) → i < n → IsPrice (slots i).price → is_better is_bid (slots i).price best ≡ false
  pub attained :
      (((i : ℕ) → i < n → is_free (slots i).price ≡ true) × (best ≡ worst is_bid))
      ⊎ ((i : ℕ) × (i < n) × IsPrice (slots i).price × ((slots i).price ≡ best))

-- the levels among the first `n` slots
pub used : (ℕ → Slot) → ℕ → ℕ
used slots zero = 0
used slots (suc n) = if is_free (slots n).price then used slots n else suc (used slots n)

pub record IsValid (t : Table) : Type 0 where
  pub some_slot : 0 < cap t
  pub ranged : (i : ℕ) → i < cap t → IsPrice (t.slots i).price → IsInt64 (t.slots i).price
  pub located : IsLocated t.slots t.cap_bits
  pub best_ok : IsBest t.is_bid t.best t.slots (cap t)
  pub counted : t.count ≡ used t.slots (cap t)

pub true-ne-false : true ≡ false → ⊥
true-ne-false e = cc

pub better_self : (is_bid : Bool) (q best : ℤ) → is_better is_bid q (better is_bid q best) ≡ false
better_self true q best = ground arith
better_self false q best = ground arith

pub better_bound :
    (is_bid : Bool) (p q best : ℤ)
    → is_better is_bid p best ≡ false
    → is_better is_bid p (better is_bid q best) ≡ false
better_bound true p q best h = ground arith
better_bound false p q best h = ground arith

pub worst_equal :
    (is_bid : Bool) (p best : ℤ)
    → IsPrice p
    → IsInt64 p
    → best ≡ worst is_bid
    → is_better is_bid p best ≡ false
    → p ≡ better is_bid p best
worst_equal true p best price range at_worst no_better =
    absurd (beyond p price range (subst (λ (b : ℤ). ltb_ℤ b p ≡ false) at_worst no_better))
  where
    beyond : (p : ℤ) → IsPrice p → IsInt64 p → ltb_ℤ int64_min p ≡ false → ⊥
    beyond p price range h = ground arith
worst_equal false p best price range at_worst no_better =
    let none_beyond = subst (λ (b : ℤ). ltb_ℤ p b ≡ false) at_worst no_better in
    rw no_better (end p range none_beyond ∙ sym at_worst)
  where
    end : (p : ℤ) → IsInt64 p → ltb_ℤ p int64_max ≡ false → p ≡ int64_max
    end p range h = eq_of_parts p int64_max (ground arith)

module _ {is_bid : Bool} {best : ℤ} {slots : ℕ → Slot} {n : ℕ}
    (b : IsBest is_bid best slots n) where
  open b use {bound, attained}

  -- one more slot, without a level
  IsBest-free : is_free (slots n).price ≡ true → IsBest is_bid best slots (suc n)
  IsBest-free free = record {
    bound = λ i below price. elim (Bool-cases (i == n)) [
      | inl last ↦
          let at : i ≡ n = ground arith in
          absurd (
            true-ne-false
              (sym (subst (λ (m : ℕ). is_free (slots m).price ≡ true) (sym at) free) ∙ price))
      | inr earlier ↦ bound i (ground arith) price
    ];
    attained = elim attained [
      | inl (none_there, at_worst) ↦ inl (
        λ i below. elim (Bool-cases (i == n)) [
          | inl last ↦
              let at : n ≡ i = ground arith in
              subst (λ (m : ℕ). is_free (slots m).price ≡ true) at free
          | inr earlier ↦ none_there i (ground arith)
        ],
        at_worst,
      )
      | inr (i, below, price, at) ↦ inr (i, omega arith, price, at)
    ];
  }

  -- one more slot, with a level
  IsBest-better :
      IsPrice (slots n).price
      → IsInt64 (slots n).price
      → IsBest is_bid (better is_bid (slots n).price best) slots (suc n)
  IsBest-better taken range = record {
    bound = λ i below price. elim (Bool-cases (i == n)) [
      | inl last ↦
          let at : n ≡ i = ground arith in
          subst
            (λ (m : ℕ).
              is_better is_bid (slots m).price (better is_bid (slots n).price best) ≡ false)
            at (better_self is_bid (slots n).price best)
      | inr earlier ↦
          better_bound is_bid (slots i).price (slots n).price best (bound i (ground arith) price)
    ];
    attained = elim (Bool-cases (is_better is_bid (slots n).price best)) [
      | inl yes_better ↦ inr (n, omega arith, taken, rw yes_better refl)
      | inr no_better ↦ elim attained [
        | inl (none_there, at_worst) ↦ inr (
          n,
          omega arith,
          taken,
          worst_equal is_bid (slots n).price best taken range at_worst no_better,
        )
        | inr (i, below, price, at) ↦ inr (i, omega arith, price, rw no_better at)
      ]
    ];
  }

-- the loop of `rescan_best` finds the best
pub best_below-IsBest :
    (is_bid : Bool) (slots : ℕ → Slot) (n : ℕ)
    → ((i : ℕ) → i < n → IsPrice (slots i).price → IsInt64 (slots i).price)
    → IsBest is_bid (best_below is_bid slots n) slots n
unfolding best_below
best_below-IsBest is_bid slots zero h = record {
  bound = λ i b. absurd (omega arith);
  attained = inl (λ i b. absurd (omega arith), refl);
}
best_below-IsBest is_bid slots (suc n) h =
    let before = best_below-IsBest is_bid slots n (λ i b. h i (omega arith)) in
    elim (Bool-cases (is_free (slots n).price)) [
      | inl free ↦ rw free (IsBest-free before free)
      | inr taken ↦ rw taken (IsBest-better before taken (h n (omega arith) taken))
    ]

used-update_of_le :
    (slots : ℕ → Slot) (k n : ℕ) (s : Slot) → n ≤ k → used (update slots k s) n ≡ used slots n
unfolding used
used-update_of_le slots k zero s h = refl
used-update_of_le slots k (suc n) s h = ground (arith, used-update_of_le slots k n s (omega arith))

pub used-update :
    (slots : ℕ → Slot) (k n : ℕ) (s : Slot)
    → k < n
    → used (update slots k s) n + (if is_free (slots k).price then 0 else 1)
      ≡ used slots n + (if is_free s.price then 0 else 1)
unfolding used
used-update slots k zero s h = absurd (omega arith)
used-update slots k (suc n) s h = elim (Bool-cases (k == n)) [
  | inl last ↦ ground (arith, used-update_of_le slots k n s)
  | inr earlier ↦ ground (arith, used-update slots k n s (ground arith))
]

pub used-congr :
    (slots slots' : ℕ → Slot) (n : ℕ)
    → ((k : ℕ) → (slots' k).price ≡ (slots k).price)
    → used slots' n ≡ used slots n
unfolding used
used-congr slots slots' zero same = refl
used-congr slots slots' (suc n) same = ground (arith, same n, used-congr slots slots' n same)

-- Only the prices of the slots count.
pub same_prices-IsValid :
    {t : Table} (slots' : ℕ → Slot)
    → ((k : ℕ) → (slots' k).price ≡ (t.slots k).price)
    → IsValid t
    → IsValid (record t { slots = slots' })
same_prices-IsValid {t} slots' same v = record {
  some_slot = v.some_slot;
  ranged = λ i b. subst (λ (q : ℤ). IsPrice q → IsInt64 q) (sym (same i)) (v.ranged i b);
  located = λ i b.
      subst (λ (q : ℤ). IsPrice q → locate slots' (cap t) q (cap t) (probe t.cap_bits q) ≡ some i)
        (sym (same i))
        (λ price.
          locate-congr t.slots slots' (cap t) (t.slots i).price (cap t)
            (probe t.cap_bits (t.slots i).price) same
          ∙ v.located i b price);
  best_ok = record {
    bound = λ i b.
        subst (λ (q : ℤ). IsPrice q → is_better t.is_bid q t.best ≡ false) (sym (same i))
          (v.best_ok.bound i b);
    attained = elim v.best_ok.attained [
      | inl (none_there, at_worst) ↦ inl (λ i b. ap is_free (same i) ∙ none_there i b, at_worst)
      | inr (i, b, price, at) ↦ inr (i, b, subst IsPrice (sym (same i)) price, same i ∙ at)
    ];
  };
  counted = v.counted ∙ sym (used-congr t.slots slots' (cap t) same);
}

pub used-eq-zero :
    (slots : ℕ → Slot) (n : ℕ)
    → (used slots n ≡ 0 → (i : ℕ) → i < n → is_free (slots i).price ≡ true)
      × (((i : ℕ) → i < n → is_free (slots i).price ≡ true) → used slots n ≡ 0)
unfolding used
used-eq-zero slots zero = (λ h i b. absurd (omega arith), λ h. refl)
used-eq-zero slots (suc n) = (
  λ none_used i b. elim (Bool-cases (is_free (slots n).price)) [
    | inl free ↦ elim (Bool-cases (i == n)) [
      | inl last ↦
          let at : n ≡ i = ground arith in subst (λ (k : ℕ). is_free (slots k).price ≡ true) at free
      | inr earlier ↦ (used-eq-zero slots n).0 (ground arith) i (ground arith)
    ]
    | inr taken ↦ absurd (ground arith)
  ],
  λ free. rw (free n (omega arith)) ((used-eq-zero slots n).1 (λ i b. free i (omega arith))),
)
