-- ===== src/OrderPool/Threads/Invariant.antt =====
-- What holds of the free slots and of each thread, and how it lasts.
use mathlib.Core.Path.{subst}
use nebula_x_trader.Prelude.{
  ℕ, ◌+◌, ◌/◌, ◌^◌, ◌<◌, ◌≤◌, ◌≡◌, ◌≢◌, sym, ap, ◌∙◌, List, [], ◌∷◌, arith, ◌==◌, Bool-cases, inl,
  inr, ◌⊎◌,
}
use nebula_x_trader.Prelude.Sum.{update}
use nebula_x_trader.OrderPool.{no_index, index_of, next_head}
use nebula_x_trader.OrderPool.Threads.{
  ThreadAt, idle, loaded, successor, freeing, free_loaded, linked, Owner, pool, caller, thread,
  System,
}

abbrev pub tag_of : ℕ → ℕ
tag_of fh = fh / 2 ^ 32

abbrev pub Absent : ℕ → List ℕ → Type 0
Absent k [] = Unit
Absent k (x ∷ xs) = (x ≢ k) × Absent k xs

abbrev pub In : ℕ → List ℕ → Type 0
In k [] = ⊥
In k (x ∷ xs) = (x ≡ k) ⊎ In k xs

-- The slots that hang together from an index on; they belong to the pool, and none comes twice.
abbrev pub IsChain : (ℕ → ℕ) → (ℕ → Owner) → ℕ → List ℕ → Type 0
IsChain next owner h [] = h ≡ no_index
IsChain next owner h (k ∷ ks) =
    (h ≡ k) × (k < no_index) × (owner k ≡ pool) × Absent k ks × IsChain next owner (next k) ks

-- What a thread may rely on, by the head, the links and the owners.
abbrev pub IsSound : ℕ → (ℕ → ℕ) → (ℕ → Owner) → ℕ → ThreadAt → Type 0
IsSound head next owner i idle = Unit
IsSound head next owner i (loaded fh) = (tag_of fh ≤ tag_of head) × (index_of fh ≢ no_index)
IsSound head next owner i (successor fh n) =
    (tag_of fh ≤ tag_of head) × (index_of fh ≢ no_index) × (head ≡ fh → n ≡ next (index_of fh))
IsSound head next owner i (freeing idx) = (owner idx ≡ thread i) × (idx < no_index)
IsSound head next owner i (free_loaded idx fh) = (owner idx ≡ thread i) × (idx < no_index)
IsSound head next owner i (linked idx fh) =
    (owner idx ≡ thread i) × (idx < no_index) × (next idx ≡ index_of fh)

pub record IsValid (s : System) (free : List ℕ) : Type 0 where
  pub chain : IsChain s.next_free s.owner (index_of s.free_head) free
  pub covers : (k : ℕ) → s.owner k ≡ pool → In k free
  pub small : (k : ℕ) → s.owner k ≡ caller → k < no_index
  pub sound : (i : ℕ) → IsSound s.free_head s.next_free s.owner i (s.threads i)

-- A thread that takes no step keeps what it relies on, as the others change the head, which changes its
-- tag, and the links and owners of slots that are not the thread's.
pub IsSound-keeps :
    (head head' : ℕ) (next next' : ℕ → ℕ) (owner owner' : ℕ → Owner) (j : ℕ) (at : ThreadAt)
    → tag_of head ≤ tag_of head'
    → ((fh : ℕ)
        → tag_of fh ≤ tag_of head
        → index_of fh ≢ no_index
        → head' ≡ fh
        → (head ≡ fh) × (next' (index_of fh) ≡ next (index_of fh)))
    → ((k : ℕ) → owner k ≡ thread j → (owner' k ≡ thread j) × (next' k ≡ next k))
    → IsSound head next owner j at
    → IsSound head' next' owner' j at
IsSound-keeps head head' next next' owner owner' j idle later same mine h = tt
IsSound-keeps head head' next next' owner owner' j (loaded fh) later same mine h =
    (omega arith, h.1)
IsSound-keeps head head' next next' owner owner' j (successor fh n) later same mine h =
    (omega arith, h.1, λ e. let (before, link) = same fh h.0 h.1 e in h.2 before ∙ sym link)
IsSound-keeps head head' next next' owner owner' j (freeing idx) later same mine h =
    ((mine idx h.0).0, h.1)
IsSound-keeps head head' next next' owner owner' j (free_loaded idx fh) later same mine h =
    ((mine idx h.0).0, h.1)
IsSound-keeps head head' next next' owner owner' j (linked idx fh) later same mine h =
    ((mine idx h.0).0, h.1, (mine idx h.0).1 ∙ h.2)

-- a write to one place of a map, and to another
pub update_cases {ℓ κ} :
    {A : Type ℓ} (P : ℕ → A → Type κ) (f : ℕ → A) (i : ℕ) (a : A) (j : ℕ)
    → P i a
    → (j ≢ i → P j (f j))
    → P j (update f i a j)
update_cases P f i a j written other = elim (Bool-cases (i == j)) [
  | inl same ↦ let at : i ≡ j = ground arith in rw same (subst (λ (k : ℕ). P k a) at written)
  | inr differ ↦ rw differ (other (ground arith))
]

pub IsChain-link :
    (next : ℕ → ℕ) (owner : ℕ → Owner) (idx v h : ℕ) (free : List ℕ)
    → owner idx ≢ pool
    → IsChain next owner h free
    → IsChain (update next idx v) owner h free
IsChain-link next owner idx v h [] other c = c
IsChain-link next owner idx v h (k ∷ ks) other (at, small, mine, once, rest) =
    let apart : idx ≢ k = λ e. other (ap owner e ∙ mine) in
    let same : update next idx v k ≡ next k = ground (arith, apart) in
    (at, small, mine, once, rw same (IsChain-link next owner idx v (next k) ks other rest))

pub IsChain-owner :
    (next : ℕ → ℕ) (owner : ℕ → Owner) (k : ℕ) (o : Owner) (h : ℕ) (free : List ℕ)
    → Absent k free
    → IsChain next owner h free
    → IsChain next (update owner k o) h free
IsChain-owner next owner k o h [] absent c = c
IsChain-owner next owner k o h (x ∷ xs) (apart, absent) (at, small, mine, once, rest) =
    let same : update owner k o x ≡ owner x = ground (arith, apart) in
    (at, small, rw same mine, once, IsChain-owner next owner k o (next x) xs absent rest)

pub Absent-owner :
    (next : ℕ → ℕ) (owner : ℕ → Owner) (k h : ℕ) (free : List ℕ)
    → owner k ≢ pool
    → IsChain next owner h free
    → Absent k free
Absent-owner next owner k h [] other c = tt
Absent-owner next owner k h (x ∷ xs) other (at, small, mine, once, rest) =
    (λ e. other (sym (ap owner e) ∙ mine), Absent-owner next owner k (next x) xs other rest)

-- the head after an exchange
pub next_head_lem :
    (fh idx : ℕ)
    → tag_of fh + 1 < 2 ^ 32
    → idx < 2 ^ 32
    → (index_of (next_head fh idx) ≡ idx) × (tag_of (next_head fh idx) ≡ tag_of fh + 1)
next_head_lem fh idx t h = (omega arith, omega arith)
