-- ===== src/Dispatcher/Owner.antt =====
-- Which worker owns a symbol, and how the symbols are spread over the workers.
use nebula_x_trader.Prelude.{
  sym, count-nil, count-cons, ℕ, zero, suc, ◌+◌, ◌-◌, ◌<◌, ◌≤◌, ◌≡◌, ◌≢◌, refl, ◌∙◌, List, [], ◌∷◌,
  arith, length, count, false, ◌==◌, ltb, if◌then◌else◌, Bool-cases, inl, inr,
}
use mathlib.Core.Path.{subst}
use native.Mathlib.Nat.{add-zero}
use nebula_x_trader.Prelude.Words.{u64_mod, add64}
use nebula_x_trader.Prelude.Sum.{update}
use nebula_x_trader.Dispatcher.{Dispatcher, no_owner, least_registered, lookup_or_register}

-- the worker `t` is below `n`, and none below `n` has fewer symbols
abbrev IsLeast : (ℕ → ℕ) → ℕ → ℕ → Type 0
IsLeast registered n t = (t < n) × ((j : ℕ) → j < n → registered t ≤ registered j)

least_registered-IsLeast :
    (registered : ℕ → ℕ) (i n target : ℕ)
    → IsLeast registered i target
    → IsLeast registered (i + n) (least_registered registered i n target)
unfolding least_registered
least_registered-IsLeast registered i zero target (below, least) =
    (omega arith, λ j h. least j (omega arith))
least_registered-IsLeast registered i (suc n) target (below, least) =
    let next = if ltb (registered i) (registered target) then i else target in
    let (below', least') =
      least_registered-IsLeast registered (i + 1) n next
        (ground arith, λ j h. grind (arith, least)) in
    (omega arith, λ j h. least' j (omega arith))

-- the counts of the first `n` workers differ by no more than 1
abbrev pub IsBalanced : ℕ → (ℕ → ℕ) → Type 0
IsBalanced n registered = (i j : ℕ) → i < n → j < n → registered i ≤ registered j + 1

-- `owner_` has a cell for every 16-bit locate.
abbrev pub locates_count : ℕ
locates_count = 65_536

-- how many of the first `n` symbols belong to the worker `i`
unfoldable pub owned : (ℕ → ℕ) → ℕ → ℕ → ℕ
owned owner i zero = 0
owned owner i (suc n) = owned owner i n + (if owner n == i then 1 else 0)

owned-update_beyond :
    (owner : ℕ → ℕ) (l t i n : ℕ) → n ≤ l → owned (update owner l t) i n ≡ owned owner i n
unfolding owned
owned-update_beyond owner l t i zero h = refl
owned-update_beyond owner l t i (suc n) h =
    let rest = owned-update_beyond owner l t i n (omega arith) in
    let other : (l == n) ≡ false = ground arith in rw (rest, other) refl

-- a symbol without an owner goes to the worker `t`
owned-update :
    (owner : ℕ → ℕ) (l t i n : ℕ)
    → l < n
    → owner l ≢ i
    → owned (update owner l t) i n ≡ owned owner i n + (if t == i then 1 else 0)
unfolding owned
owned-update owner l t i zero h free = absurd (omega arith)
owned-update owner l t i (suc n) h free = elim (Bool-cases (l == n)) [
  | inl at ↦
      let same : l ≡ n = ground arith in
      let beyond = owned-update_beyond owner l t i n (omega arith) in
      let none_yet : (owner n == i) ≡ false = ground arith in
      rw (beyond, at, none_yet) (omega arith)
  | inr before ↦
      let rest = owned-update owner l t i n (ground arith) free in rw (rest, before) (omega arith)
]

pub owned-none : (i n : ℕ) → i ≢ no_owner → owned (λ l. no_owner) i n ≡ 0
unfolding owned
owned-none i zero h = refl
owned-none i (suc n) h =
    let other : (no_owner == i) ≡ false = ground arith in rw (owned-none i n h, other) refl

-- every symbol of the list has a cell
abbrev pub AllLocates : List ℕ → Type 0
AllLocates [] = Unit
AllLocates (locate ∷ rest) = (locate < locates_count) × AllLocates rest

-- the symbols looked up one after the other
unfoldable pub lookup_all : Dispatcher → (ℕ → ℕ) → List ℕ → Dispatcher × (ℕ → ℕ)
lookup_all d registered [] = (d, registered)
lookup_all d registered (locate ∷ rest) =
    let (owner, d', registered') = lookup_or_register d registered locate in
    lookup_all d' registered' rest

-- The owners are workers, each count is that of the worker's symbols, and no count is more than `k` or
-- two more than another.
pub record IsFair (d : Dispatcher) (registered : ℕ → ℕ) (k : ℕ) : Type 0 where
  pub some_worker : 0 < d.nworkers
  pub few_workers : d.nworkers ≤ no_owner
  pub owners : (l : ℕ) → d.owner l ≢ no_owner → d.owner l < d.nworkers
  pub counted : (i : ℕ) → i < d.nworkers → registered i ≡ owned d.owner i locates_count
  pub balanced : IsBalanced d.nworkers registered
  pub bounded : (i : ℕ) → i < d.nworkers → registered i ≤ k

-- one more symbol for the worker that has the least
IsBalanced-update :
    (n : ℕ) (registered : ℕ → ℕ) (t v : ℕ)
    → IsBalanced n registered
    → IsLeast registered n t
    → v ≡ registered t + 1
    → IsBalanced n (update registered t v)
IsBalanced-update n registered t v even (below, least) e i j hi hj =
    ground (arith, even i j hi hj, least j hj, even i t hi below)

module _ (d : Dispatcher) (registered : ℕ → ℕ) (k : ℕ) (locate : ℕ) (fair : IsFair d registered k)
    (small : k + 1 < u64_mod) (in_table : locate < locates_count) where
  open fair use {some_worker, few_workers, owners, counted, balanced, bounded}

  abbrev target : ℕ
  target = least_registered registered 1 (d.nworkers - 1) 0

  target-IsLeast : IsLeast registered d.nworkers target
  target-IsLeast =
      let least =
        least_registered-IsLeast registered 1 (d.nworkers - 1) 0
          (omega arith, λ j h. ground arith) in
      let all : 1 + (d.nworkers - 1) ≡ d.nworkers = omega arith in rw all at least

  registers-IsFair :
      (t : ℕ)
      → IsLeast registered d.nworkers t
      → d.owner locate ≡ no_owner
      → add64 (registered t) 1 ≡ registered t + 1
      → IsFair
          (record d { owner = update d.owner locate t })
          (update registered t (add64 (registered t) 1))
          (k + 1)
  registers-IsFair t least free exact = record {
    some_worker = some_worker;
    few_workers = few_workers;
    owners = λ l owned. ground (arith, owners l, least.0);
    counted = λ i h. ground (
      arith,
      exact,
      counted i h,
      owned-update d.owner locate t i locates_count in_table (ground arith),
    );
    balanced =
        IsBalanced-update d.nworkers registered t (add64 (registered t) 1) balanced least exact;
    bounded = λ i h. ground (arith, exact, bounded i h, bounded t least.0);
  }

  lookup-IsFair :
      let (owner, d', registered') = lookup_or_register d registered locate in
      IsFair d' registered' (k + 1)
      × ((l : ℕ) → d.owner l ≢ no_owner → d'.owner l ≡ d.owner l)
      × (d'.owner locate ≡ owner)
      × (owner < d.nworkers)
      × (d'.nworkers ≡ d.nworkers)
  unfolding lookup_or_register
  lookup-IsFair = elim (Bool-cases (d.owner locate == no_owner)) [
    | inl new ↦ rw new (
      registers-IsFair target target-IsLeast (ground arith)
          (ground (arith, bounded target target-IsLeast.0)),
      λ l owned. ground arith,
      ground arith,
      target-IsLeast.0,
      refl,
    )
    | inr known ↦ rw known (
      record {
        some_worker = some_worker;
        few_workers = few_workers;
        owners = owners;
        counted = counted;
        balanced = balanced;
        bounded = λ i h. omega (arith, bounded i h);
      },
      λ l owned. refl,
      refl,
      owners locate (ground arith),
      refl,
    )
  ]

-- the workers' symbols are spread evenly
abbrev pub IsEven : Dispatcher → Type 0
IsEven d =
    (i j : ℕ)
    → i < d.nworkers
    → j < d.nworkers
    → owned d.owner i locates_count ≤ owned d.owner j locates_count + 1

spread : (d : Dispatcher) (registered : ℕ → ℕ) (k : ℕ) → IsFair d registered k → IsEven d
spread d registered k fair i j hi hj =
    omega (arith, fair.counted i hi, fair.counted j hj, fair.balanced i j hi hj)

-- Where each worker's count is the number of its symbols, no count is two more than another and all
-- owners are workers, this stays so over the lookups of any symbols of 16 bits in turn, few enough that
-- no count reaches 2^64: no worker owns two symbols more than another. Each symbol looked up then has a
-- worker for its owner, and an owner never changes.
pub lookups_spread :
    (locates : List ℕ) (d : Dispatcher) (registered : ℕ → ℕ) (k : ℕ)
    → IsFair d registered k
    → k + length locates < u64_mod
    → AllLocates locates
    → let (d', registered') = lookup_all d registered locates in
      IsFair d' registered' (k + length locates)
      × IsEven d'
      × ((l : ℕ) → d.owner l ≢ no_owner → d'.owner l ≡ d.owner l)
      × ((l : ℕ) → 0 < count l locates → d'.owner l ≢ no_owner)
unfolding lookup_all
lookups_spread [] d registered k fair small sound = (
  subst (IsFair d registered) (sym (add-zero k)) fair,
  spread d registered k fair,
  λ l owned. refl,
  λ l in_list. absurd (omega (arith, count-nil l)),
)
lookups_spread (locate ∷ rest) d registered k fair small (in_table, sound) =
    let (owner, d', registered') = lookup_or_register d registered locate in
    let (fair', kept, owned, is_worker, same) =
      lookup-IsFair d registered k locate fair (omega arith) in_table in
    let (fair'', even, kept', assigned) =
      lookups_spread rest d' registered' (k + 1) fair' (omega arith) sound in
    let few : d'.nworkers ≤ no_owner = fair'.few_workers in
    (
      subst (IsFair (lookup_all d' registered' rest).0 (lookup_all d' registered' rest).1)
          (omega arith) fair'',
      even,
      λ l before. kept' l (λ none_yet. before (sym (kept l before) ∙ none_yet)) ∙ kept l before,
      λ l in_list. elim (Bool-cases (locate == l)) [
        | inl here ↦
            let same_symbol : locate ≡ l = ground arith in
            subst (λ (s : ℕ). (lookup_all d' registered' rest).0.owner s ≢ no_owner) same_symbol
              (λ none_yet. absurd (omega (arith, kept' locate (λ e. absurd (omega arith)))))
        | inr elsewhere ↦ assigned l (ground (arith, count-cons l locate rest))
      ],
    )
