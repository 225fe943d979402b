-- ===== src/OrderPool/Threads/Exclusive.antt =====
-- No slot is given to two callers, and none is lost.
use mathlib.Core.Path.{subst}
use nebula_x_trader.Prelude.{
  ℕ, zero, suc, ◌+◌, ◌-◌, ◌^◌, ◌<◌, ◌≤◌, ◌≡◌, ◌≢◌, refl, sym, ap, ◌∙◌, true, false, List, [], ◌∷◌,
  arith, ◌==◌, ltb, if◌then◌else◌, Bool-cases, inl, inr,
}
use nebula_x_trader.Types.{OrderSlot}
use nebula_x_trader.OrderPool.{no_index, index_of, link_all, init_free_list, new_pool}
use nebula_x_trader.OrderPool.Threads.{
  idle, successor, pool, caller, nobody, System, Run, start, next,
}
use nebula_x_trader.OrderPool.Threads.Invariant.{tag_of, Absent, In, IsChain, IsValid}
use nebula_x_trader.OrderPool.Threads.Handover.{first_of}
use nebula_x_trader.OrderPool.Threads.Keep.{IsSound-at, Step-Keeps}

-- what is free when an exchange is about to succeed
takes_free :
    {s : System} {free : List ℕ}
    → IsValid s free
    → (i fh n : ℕ) → s.threads i ≡ successor fh n
    → s.free_head ≡ fh
    → (s.owner (index_of fh) ≡ pool)
      × (rest : List ℕ) × Absent (index_of fh) rest
      × IsChain s.next_free s.owner n rest
      × ((k : ℕ) → s.owner k ≡ pool → In k (index_of fh ∷ rest))
takes_free {s} {free} v i fh n at same =
    let (le, some_left, links) = IsSound-at v i (successor fh n) at in
    let from_fh = subst (λ (h : ℕ). IsChain s.next_free s.owner (index_of h) free) same v.chain in
    let (rest, below, owned, once, c, left) =
      first_of s.next_free s.owner (index_of fh) free some_left from_fh v.covers in
    (
      owned,
      rest,
      once,
      subst (λ (h : ℕ). IsChain s.next_free s.owner h rest) (sym (links same)) c,
      λ k o. elim (Bool-cases (index_of fh == k)) [
        | inl e ↦ inl (ground arith)
        | inr e ↦ inr (left k o (λ here. ground arith))
      ],
    )

-- after any number of steps, each of which raises the tag by no more than 1
Run-IsValid :
    {s t : System} {free : List ℕ} {n : ℕ}
    → IsValid s free
    → Run s n t
    → tag_of s.free_head + n < 2 ^ 32
    → (free' : List ℕ) × IsValid t free' × (tag_of t.free_head ≤ tag_of s.free_head + n)
Run-IsValid v start short = (_, v, omega arith)
Run-IsValid v (next run step) short =
    let (free', v', le) = Run-IsValid v run (omega arith) in
    let (free'', v'', le') = Step-Keeps v' (omega arith) step in (free'', v'', omega arith)

-- a new pool, before any thread has called it
unfoldable pub opened : (ℕ → OrderSlot) → ℕ → System
opened storage capacity = record {
  free_head = (new_pool storage capacity).free_head;
  next_free = λ k. ((new_pool storage capacity).storage k).pool_next_free;
  threads = λ i. idle;
  owner = λ k. if ltb k capacity then pool else nobody;
}

-- the slots from `i` on, `n` of them
slots_from : ℕ → ℕ → List ℕ
slots_from i zero = []
slots_from i (suc n) = i ∷ slots_from (i + 1) n

slots_from-Absent : (i n k : ℕ) → k < i → Absent k (slots_from i n)
unfolding slots_from
slots_from-Absent i zero k before = tt
slots_from-Absent i (suc n) k before =
    (λ e. omega arith, slots_from-Absent (i + 1) n k (omega arith))

slots_from-In : (i n k : ℕ) → i ≤ k → k < i + n → In k (slots_from i n)
unfolding slots_from
slots_from-In i zero k from below = absurd (omega arith)
slots_from-In i (suc n) k from below = elim (Bool-cases (i == k)) [
  | inl same ↦ inl (ground arith)
  | inr differ ↦ inr (slots_from-In (i + 1) n k (ground arith) (omega arith))
]

-- the loop leaves the slots before it alone
link_all-below : (storage : ℕ → OrderSlot) (i n k : ℕ) → k < i → link_all i n storage k ≡ storage k
unfolding link_all
link_all-below storage i zero k before = refl
link_all-below storage i (suc n) k before =
    let apart : (i == k) ≡ false = ground arith in
    link_all-below
      (λ j. if i == j then record (storage i) { pool_next_free = i + 1 } else storage j) (i + 1) n k
      (omega arith)
    ∙ rw apart refl

link_all_lem :
    (storage : ℕ → OrderSlot) (i n k : ℕ)
    → i ≤ k
    → k < i + n
    → (link_all i n storage k).pool_next_free ≡ k + 1
unfolding link_all
link_all_lem storage i zero k from below = absurd (omega arith)
link_all_lem storage i (suc n) k from below = elim (Bool-cases (i == k)) [
  | inl same ↦
      let e : i ≡ k = ground arith in
      ap (λ (o : OrderSlot). o.pool_next_free)
        (link_all-below
          (λ j. if i == j then record (storage i) { pool_next_free = i + 1 } else storage j) (i + 1)
          n k (omega arith))
      ∙ rw same (ap (λ (x : ℕ). x + 1) e)
  | inr differ ↦
      link_all_lem
        (λ j. if i == j then record (storage i) { pool_next_free = i + 1 } else storage j) (i + 1) n
        k (ground arith) (omega arith)
]

module _ (storage : ℕ → OrderSlot) (capacity : ℕ) (some_slot : 0 < capacity)
    (small : capacity ≤ no_index) where
  next_opened :
      (k : ℕ)
      → k < capacity
      → (opened storage capacity).next_free k ≡ (if suc k == capacity then no_index else k + 1)
  unfolding opened new_pool init_free_list
  next_opened k below = elim (Bool-cases (suc k == capacity)) [
    | inl last ↦ let at : (capacity - 1 == k) ≡ true = ground arith in rw (last, at) refl
    | inr more ↦
        let apart : (capacity - 1 == k) ≡ false = ground arith in
        rw (more, apart) (link_all_lem storage 0 (capacity - 1) k (omega arith) (ground arith))
  ]

  opened-IsChain :
      (i n : ℕ)
      → i + suc n ≡ capacity
      → IsChain
          (opened storage capacity).next_free
          (opened storage capacity).owner
          i
          (slots_from i (suc n))
  unfolding opened slots_from
  opened-IsChain i zero whole =
      let last : (suc i == capacity) ≡ true = ground arith in
      let mine : ltb i capacity ≡ true = ground arith in
      (refl, omega arith, rw mine refl, tt, rw (next_opened i (omega arith), last) refl)
  opened-IsChain i (suc n) whole =
      let more : (suc i == capacity) ≡ false = ground arith in
      let mine : ltb i capacity ≡ true = ground arith in
      let link : (opened storage capacity).next_free i ≡ i + 1 =
        rw (next_opened i (omega arith), more) refl in
      (
        refl,
        omega arith,
        rw mine refl,
        slots_from-Absent (i + 1) (suc n) i (omega arith),
        subst
            (λ (h : ℕ).
              IsChain (opened storage capacity).next_free (opened storage capacity).owner h
                (slots_from (i + 1) (suc n)))
            (sym link) (opened-IsChain (i + 1) n (omega arith)),
      )

  opened-IsValid : IsValid (opened storage capacity) (slots_from 0 capacity)
  unfolding opened new_pool init_free_list
  opened-IsValid = record {
    chain =
        subst
          (λ (c : ℕ).
            IsChain (opened storage capacity).next_free (opened storage capacity).owner 0
              (slots_from 0 c))
          (omega arith) (opened-IsChain 0 (capacity - 1) (omega arith));
    covers = λ k o. slots_from-In 0 capacity k (omega arith) (omega (arith, owned_below k o));
    small = λ k o. absurd (not_held k o);
    sound = λ i. tt;
  }
    where
      owned_below : (k : ℕ) → (if ltb k capacity then pool else nobody) ≡ pool → k < capacity
      owned_below k o = ground arith

      not_held : (k : ℕ) → (if ltb k capacity then pool else nobody) ≢ caller
      not_held k o = elim (Bool-cases (ltb k capacity)) [ inl e ↦ cc | inr e ↦ cc ]

tag-opened :
    (storage : ℕ → OrderSlot) (capacity : ℕ) {n : ℕ}
    → n < 2 ^ 32
    → tag_of (opened storage capacity).free_head + n < 2 ^ 32
unfolding opened new_pool init_free_list
tag-opened storage capacity short = omega arith

-- However any number of threads take turns in `allocate` and `deallocate` of a new pool, with at least
-- one slot and fewer than 2^32, in fewer than 2^32 steps: where an exchange of `allocate` is about to
-- succeed, the slot that it takes belongs to the pool, so that no caller has it and no thread frees it;
-- and the other free slots hang together from the new head on, each of them once and without the slot
-- that is taken, so that none is lost.
pub one_owner :
    (storage : ℕ → OrderSlot) (capacity : ℕ) {m : ℕ} {t : System} (i fh n : ℕ)
    → 0 < capacity
    → capacity ≤ no_index
    → m < 2 ^ 32
    → Run (opened storage capacity) m t
    → t.threads i ≡ successor fh n
    → t.free_head ≡ fh
    → (t.owner (index_of fh) ≡ pool)
      × (rest : List ℕ) × Absent (index_of fh) rest
      × IsChain t.next_free t.owner n rest
      × ((k : ℕ) → t.owner k ≡ pool → In k (index_of fh ∷ rest))
one_owner storage capacity i fh n some_slot small short run at same =
    let start_valid = opened-IsValid storage capacity some_slot small in
    let (free, v, le) = Run-IsValid start_valid run (tag-opened storage capacity short) in
    takes_free v i fh n at same
