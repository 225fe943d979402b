-- ===== src/Prelude/Lists.antt =====
-- Lists measured and indexed by native numbers, under the library's names, and lists of
-- numbers used as sets.
use Prim.Native.Nat.{ℕ, zero, suc, ◌+◌}
use mathlib.Core.Path.{◌≡◌, refl, ap}
use mathlib.Core.List.{List, [], ◌∷◌, ◌++◌}
use mathlib.Core.Option.{Option, none, some}
use native.Mathlib.Omega.{arith}
use nebula_x_trader.Prelude.Tests.{◌==◌, if◌then◌else◌}

module _ {ℓ} {A : Type ℓ} where
  abbrev pub length : List A → ℕ
  length [] = 0
  length (x ∷ xs) = suc (length xs)

  abbrev pub get_elem? : List A → ℕ → Option A
  get_elem? [] i = none
  get_elem? (x ∷ xs) zero = some x
  get_elem? (x ∷ xs) (suc i) = get_elem? xs i

  abbrev pub get_or : List A → ℕ → A → A
  get_or [] i d = d
  get_or (x ∷ xs) zero d = x
  get_or (x ∷ xs) (suc i) d = get_or xs i d

  -- A write out of bounds changes nothing.
  abbrev pub set : List A → ℕ → A → List A
  set [] i v = []
  set (x ∷ xs) zero v = v ∷ xs
  set (x ∷ xs) (suc i) v = x ∷ set xs i v

  abbrev pub take : ℕ → List A → List A
  take zero xs = []
  take (suc n) [] = []
  take (suc n) (x ∷ xs) = x ∷ take n xs

  abbrev pub drop : ℕ → List A → List A
  drop zero xs = xs
  drop (suc n) [] = []
  drop (suc n) (x ∷ xs) = drop n xs

  pub length-append : (xs ys : List A) → length (xs ++ ys) ≡ length xs + length ys
  length-append [] ys = omega arith
  length-append (x ∷ xs) ys = omega (arith, length-append xs ys)

  pub length-set : (xs : List A) (i : ℕ) (v : A) → length (set xs i v) ≡ length xs
  length-set [] i v = refl
  length-set (x ∷ xs) zero v = refl
  length-set (x ∷ xs) (suc i) v = ap suc (length-set xs i v)

-- the first part of two lists, and the second
pub take_over {ℓ} : {A : Type ℓ} (xs ys : List A) → take (length xs) (xs ++ ys) ≡ xs
take_over [] ys = refl
take_over (x ∷ xs) ys = ap (λ t. x ∷ t) (take_over xs ys)

pub drop_over {ℓ} : {A : Type ℓ} (xs ys : List A) → drop (length xs) (xs ++ ys) ≡ ys
drop_over [] ys = refl
drop_over (x ∷ xs) ys = drop_over xs ys

-- How often a number stands in a list.
pub count : ℕ → List ℕ → ℕ
count a [] = 0
count a (x ∷ xs) = let rest = count a xs in if x == a then suc rest else rest

-- `unordered_set::insert` and `unordered_set::erase` on a list without repetitions.
pub insert_id : ℕ → List ℕ → List ℕ
insert_id i xs = if count i xs == 0 then i ∷ xs else xs

pub erase_id : ℕ → List ℕ → List ℕ
erase_id i [] = []
erase_id i (x ∷ xs) = let rest = erase_id i xs in if x == i then rest else x ∷ rest

pub count-nil : (a : ℕ) → count a [] ≡ 0
unfolding count
count-nil a = refl

pub count-cons :
    (a x : ℕ) (xs : List ℕ) → count a (x ∷ xs) ≡ (if x == a then suc (count a xs) else count a xs)
unfolding count
count-cons a x xs = refl

pub count-insert_id :
    (i j : ℕ) (xs : List ℕ)
    → count j (insert_id i xs)
      ≡ (if i == j then (if count j xs == 0 then 1 else count j xs) else count j xs)
unfolding insert_id count
count-insert_id i j xs = ground arith

pub count-erase_id :
    (i j : ℕ) (xs : List ℕ) → count j (erase_id i xs) ≡ (if i == j then 0 else count j xs)
unfolding erase_id count
count-erase_id i j [] = ground arith
count-erase_id i j (x ∷ xs) = ground (arith, count-erase_id i j xs)
