-- ===== src/OrderPool/Threads/Handover.antt =====
-- One slot is handed over: the owners, the links and the chain of the others.
use mathlib.Core.Path.{subst}
use nebula_x_trader.Prelude.{
  ℕ, ◌^◌, ◌<◌, ◌≡◌, ◌≢◌, refl, ap, ◌∙◌, List, [], ◌∷◌, arith, ◌==◌, Bool-cases, inl, inr,
}
use nebula_x_trader.Prelude.Sum.{update}
use nebula_x_trader.OrderPool.{no_index}
use nebula_x_trader.OrderPool.Threads.{Owner, pool, caller, thread}
use nebula_x_trader.OrderPool.Threads.Invariant.{Absent, In, IsChain}

-- a slot keeps its owner when another is handed over
pub keeps_owner :
    (owner : ℕ → Owner) (idx : ℕ) (o p : Owner) (k : ℕ)
    → owner idx ≢ p
    → owner k ≡ p
    → update owner idx o k ≡ p
keeps_owner owner idx o p k other mine = elim (Bool-cases (idx == k)) [
  | inl same ↦ let e : idx ≡ k = ground arith in absurd (other (ap owner e ∙ mine))
  | inr differ ↦ rw differ mine
]

-- and had it before
pub had_owner :
    (owner : ℕ → Owner) (idx : ℕ) (o p : Owner) (k : ℕ)
    → o ≢ p
    → update owner idx o k ≡ p
    → (idx ≢ k) × (owner k ≡ p)
had_owner owner idx o p k other mine = elim (Bool-cases (idx == k)) [
  | inl same ↦ absurd (other (rw same at mine))
  | inr differ ↦ (λ e. ground arith, rw differ at mine)
]

pub other_thread : (i j : ℕ) (o : Owner) → o ≡ thread i → j ≢ i → o ≢ thread j
other_thread i j o mine differ = λ e. let same : j ≡ i = cc in differ same

pub other_link :
    (next : ℕ → ℕ) (owner : ℕ → Owner) (idx v k : ℕ)
    → owner idx ≢ owner k
    → update next idx v k ≡ next k
other_link next owner idx v k apart = elim (Bool-cases (idx == k)) [
  | inl same ↦ let e : idx ≡ k = ground arith in absurd (apart (ap owner e))
  | inr differ ↦ rw differ refl
]

-- a slot that is handed to a caller
pub small_after :
    (owner : ℕ → Owner) (idx : ℕ) (o : Owner)
    → idx < no_index
    → ((k : ℕ) → owner k ≡ caller → k < no_index)
    → (k : ℕ) → update owner idx o k ≡ caller
    → k < no_index
small_after owner idx o below small k held = elim (Bool-cases (idx == k)) [
  | inl same ↦ let e : idx ≡ k = ground arith in subst (λ (x : ℕ). x < no_index) e below
  | inr differ ↦ small k (rw differ at held)
]

pub head_small :
    (next : ℕ → ℕ) (owner : ℕ → Owner) (h : ℕ) (free : List ℕ)
    → IsChain next owner h free
    → h < 2 ^ 32
head_small next owner h [] c = omega arith
head_small next owner h (k ∷ free) (at, small, mine, once, more) = omega arith

-- the first slot of a chain, and the rest
pub first_of :
    (next : ℕ → ℕ) (owner : ℕ → Owner) (h : ℕ) (free : List ℕ)
    → h ≢ no_index
    → IsChain next owner h free
    → ((k : ℕ) → owner k ≡ pool → In k free)
    → (rest : List ℕ) × (h < no_index)
      × (owner h ≡ pool)
      × Absent h rest
      × IsChain next owner (next h) rest
      × ((k : ℕ) → owner k ≡ pool → h ≢ k → In k rest)
first_of next owner h [] some_left c covers = absurd (some_left c)
first_of next owner h (k ∷ rest) some_left (at, small, mine, once, c) covers = rw at (
  rest,
  small,
  mine,
  once,
  c,
  λ j o other. elim (covers j o) [ inl e ↦ absurd (other e) | inr there ↦ there ],
)
