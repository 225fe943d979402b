-- ===== src/OrderPool/Threads/Keep.antt =====
-- Every step of a thread keeps the invariant of the pool.
use mathlib.Core.Path.{subst}
use nebula_x_trader.Prelude.{
  ℕ, ◌+◌, ◌^◌, ◌<◌, ◌≤◌, ◌≡◌, ◌≢◌, refl, sym, ap, ◌∙◌, List, ◌∷◌, arith, ◌==◌, Bool-cases, inl, inr,
}
use nebula_x_trader.Prelude.Sum.{update}
use nebula_x_trader.OrderPool.{no_index, index_of, next_head}
use nebula_x_trader.OrderPool.Threads.{
  ThreadAt, idle, loaded, successor, freeing, free_loaded, linked, Owner, pool, caller, thread,
  System, Step,
}
use nebula_x_trader.OrderPool.Threads.Invariant.{
  tag_of, IsChain, IsSound, IsValid, IsSound-keeps, update_cases, IsChain-link, IsChain-owner,
  Absent-owner, next_head_lem,
}
use nebula_x_trader.OrderPool.Threads.Handover.{
  keeps_owner, had_owner, other_thread, other_link, small_after, head_small, first_of,
}

-- valid after some step, which raises the tag by no more than 1
abbrev pub Keeps : System → System → Type 0
Keeps s t = (free : List ℕ) × IsValid t free × (tag_of t.free_head ≤ tag_of s.free_head + 1)

module _ {s : System} {free : List ℕ} (v : IsValid s free) where
  open v use {chain, covers, small, sound}

  pub IsSound-at :
      (i : ℕ) (at : ThreadAt) → s.threads i ≡ at → IsSound s.free_head s.next_free s.owner i at
  IsSound-at i at e = subst (IsSound s.free_head s.next_free s.owner i) e (sound i)

  -- a step that changes nothing but where the thread is
  moves :
      (i : ℕ) (at : ThreadAt)
      → IsSound s.free_head s.next_free s.owner i at
      → Keeps s (record s { threads = update s.threads i at })
  moves i at ok = (
    free,
    record {
      chain = chain;
      covers = covers;
      small = small;
      sound = λ j.
          update_cases (λ (j : ℕ) (a : ThreadAt). IsSound s.free_head s.next_free s.owner j a)
            s.threads i at j ok (λ differ. sound j);
    },
    omega arith,
  )

  -- what holds of the threads after a step of one of them
  sounds :
      (i : ℕ) (at : ThreadAt) (head' : ℕ) (next' : ℕ → ℕ) (owner' : ℕ → Owner)
      → IsSound head' next' owner' i at
      → tag_of s.free_head ≤ tag_of head'
      → ((fh : ℕ)
          → tag_of fh ≤ tag_of s.free_head
          → index_of fh ≢ no_index
          → head' ≡ fh
          → (s.free_head ≡ fh) × (next' (index_of fh) ≡ s.next_free (index_of fh)))
      → ((j k : ℕ)
          → j ≢ i
          → s.owner k ≡ thread j
          → (owner' k ≡ thread j) × (next' k ≡ s.next_free k))
      → (j : ℕ) → IsSound head' next' owner' j (update s.threads i at j)
  sounds i at head' next' owner' ok later same mine j =
      update_cases (λ (j : ℕ) (a : ThreadAt). IsSound head' next' owner' j a) s.threads i at j ok
        (λ differ.
          IsSound-keeps s.free_head head' s.next_free next' s.owner owner' j (s.threads j) later
            same (λ k. mine j k differ) (sound j))

  takes-Keeps :
      (i fh n : ℕ)
      → tag_of s.free_head + 1 < 2 ^ 32
      → s.threads i ≡ successor fh n
      → s.free_head ≡ fh
      → Keeps s (record {
        free_head = next_head fh n;
        next_free = s.next_free;
        threads = update s.threads i idle;
        owner = update s.owner (index_of fh) caller;
      })
  takes-Keeps i fh n short at same =
      let (le, some_left, links) = IsSound-at i (successor fh n) at in
      let link : n ≡ s.next_free (index_of fh) = links same in
      let from_fh = subst (λ (h : ℕ). IsChain s.next_free s.owner (index_of h) free) same chain in
      let (rest, below, mine, once, c, left) =
        first_of s.next_free s.owner (index_of fh) free some_left from_fh covers in
      let (ix, tg) =
        next_head_lem fh n (omega arith)
          (rw link (head_small s.next_free s.owner (s.next_free (index_of fh)) rest c)) in
      (
        rest,
        record {
          chain =
              subst (λ (h : ℕ). IsChain s.next_free (update s.owner (index_of fh) caller) h rest)
                (sym (ix ∙ link))
                (IsChain-owner s.next_free s.owner (index_of fh) caller (s.next_free (index_of fh))
                  rest once c);
          covers = λ k o.
              let (other, before) = had_owner s.owner (index_of fh) caller pool k (λ e. cc) o in
              left k before other;
          small = small_after s.owner (index_of fh) caller below small;
          sound =
              sounds i idle (next_head fh n) s.next_free (update s.owner (index_of fh) caller) tt
                (omega arith) (λ g early ne e. absurd (omega (arith, ap tag_of e)))
                (λ j k differ o.
                  (keeps_owner s.owner (index_of fh) caller (thread j) k (λ e. cc) o, refl));
        },
        omega arith,
      )

  gives-Keeps :
      (i idx fh : ℕ)
      → tag_of s.free_head + 1 < 2 ^ 32
      → s.threads i ≡ linked idx fh
      → s.free_head ≡ fh
      → Keeps s (record {
        free_head = next_head fh idx;
        next_free = s.next_free;
        threads = update s.threads i idle;
        owner = update s.owner idx pool;
      })
  gives-Keeps i idx fh short at same =
      let (mine, below, link) = IsSound-at i (linked idx fh) at in
      let from_fh = subst (λ (h : ℕ). IsChain s.next_free s.owner (index_of h) free) same chain in
      let once = Absent-owner s.next_free s.owner idx (index_of fh) free (λ e. cc) from_fh in
      let (ix, tg) = next_head_lem fh idx (omega arith) (omega arith) in
      let head_owner : update s.owner idx pool idx ≡ pool = ground arith in
      (
        idx ∷ free,
        record {
          chain = (
            ix,
            below,
            head_owner,
            once,
            rw link (IsChain-owner s.next_free s.owner idx pool (index_of fh) free once from_fh),
          );
          covers = λ k o. elim (Bool-cases (idx == k)) [
            | inl e ↦ inl (ground arith)
            | inr e ↦ inr (covers k (rw e at o))
          ];
          small = λ k o. small k (had_owner s.owner idx pool caller k (λ e. cc) o).1;
          sound =
              sounds i idle (next_head fh idx) s.next_free (update s.owner idx pool) tt
                (omega arith) (λ g early ne e. absurd (omega (arith, ap tag_of e)))
                (λ j k differ o. (
                  keeps_owner s.owner idx pool (thread j) k
                      (other_thread i j (s.owner idx) mine differ) o,
                  refl,
                ));
        },
        omega arith,
      )

  links-Keeps :
      (i idx fh : ℕ)
      → s.threads i ≡ free_loaded idx fh
      → Keeps s (record s {
        next_free = update s.next_free idx (index_of fh);
        threads = update s.threads i (linked idx fh);
      })
  links-Keeps i idx fh at =
      let (mine, below) = IsSound-at i (free_loaded idx fh) at in
      let linked_to : update s.next_free idx (index_of fh) idx ≡ index_of fh = ground arith in
      (
        free,
        record {
          chain =
              IsChain-link s.next_free s.owner idx (index_of fh) (index_of s.free_head) free
                (λ e. cc) chain;
          covers = covers;
          small = small;
          sound =
              sounds i (linked idx fh) s.free_head (update s.next_free idx (index_of fh)) s.owner
                (mine, below, linked_to) (omega arith)
                (λ g early ne e.
                  let some_left : index_of s.free_head ≢ no_index =
                    λ none_left. ne (sym (ap index_of e) ∙ none_left) in
                  let (rest, below', owned, once, c, left) =
                    first_of s.next_free s.owner (index_of s.free_head) free some_left chain
                      covers in
                  (
                    e,
                    other_link s.next_free s.owner idx (index_of fh) (index_of g) (λ x.
                        let owned' : s.owner (index_of g) ≡ pool =
                          ap s.owner (ap index_of (sym e)) ∙ owned in
                        cc),
                  ))
                (λ j k differ o. (
                  o,
                  other_link s.next_free s.owner idx (index_of fh) k
                      (λ x. other_thread i j (s.owner idx) mine differ (x ∙ o)),
                ));
        },
        omega arith,
      )

  returns-Keeps :
      (i idx : ℕ)
      → s.threads i ≡ idle
      → s.owner idx ≡ caller
      → Keeps s (record s {
        threads = update s.threads i (freeing idx);
        owner = update s.owner idx (thread i);
      })
  returns-Keeps i idx at held =
      let once = Absent-owner s.next_free s.owner idx (index_of s.free_head) free (λ e. cc) chain in
      let taken : update s.owner idx (thread i) idx ≡ thread i = ground arith in
      (
        free,
        record {
          chain =
              IsChain-owner s.next_free s.owner idx (thread i) (index_of s.free_head) free once
                chain;
          covers = λ k o. covers k (had_owner s.owner idx (thread i) pool k (λ e. cc) o).1;
          small = λ k o. small k (had_owner s.owner idx (thread i) caller k (λ e. cc) o).1;
          sound =
              sounds i (freeing idx) s.free_head s.next_free (update s.owner idx (thread i))
                (taken, small idx held) (omega arith) (λ g early ne e. (e, refl))
                (λ j k differ o.
                  (keeps_owner s.owner idx (thread i) (thread j) k (λ e. cc) o, refl));
        },
        omega arith,
      )

  pub Step-Keeps : {t : System} → tag_of s.free_head + 1 < 2 ^ 32 → Step s t → Keeps s t
  Step-Keeps short (Step.loads i at some_left) =
      moves i (loaded s.free_head) (omega arith, some_left)
  Step-Keeps short (Step.reads i fh at) =
      let (le, some_left) = IsSound-at i (loaded fh) at in
      moves i (successor fh (s.next_free (index_of fh))) (le, some_left, λ e. refl)
  Step-Keeps short (Step.takes i fh n at same) = takes-Keeps i fh n short at same
  Step-Keeps short (Step.loses i fh n at some_left) =
      moves i (loaded s.free_head) (omega arith, some_left)
  Step-Keeps short (Step.gives_up i fh n at none_left) = moves i idle tt
  Step-Keeps short (Step.returns i idx at held) = returns-Keeps i idx at held
  Step-Keeps short (Step.free_loads i idx at) =
      moves i (free_loaded idx s.free_head) (IsSound-at i (freeing idx) at)
  Step-Keeps short (Step.links i idx fh at) = links-Keeps i idx fh at
  Step-Keeps short (Step.gives i idx fh at same) = gives-Keeps i idx fh short at same
  Step-Keeps short (Step.retries i idx fh at) =
      let (mine, below, link) = IsSound-at i (linked idx fh) at in
      moves i (free_loaded idx s.free_head) (mine, below)
