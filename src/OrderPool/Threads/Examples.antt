-- ===== src/OrderPool/Threads/Examples.antt =====
-- A pool of two slots, and two threads.
use nebula_x_trader.Prelude.{ℕ, ◌+◌, ◌*◌, ◌^◌, ◌≡◌, ◌≢◌, refl, List, ◌∷◌, arith}
use nebula_x_trader.Prelude.Int.{pos}
use nebula_x_trader.Types.{OrderSide, OrderSlot}
use nebula_x_trader.OrderPool.{no_index, index_of, new_pool, init_free_list, link_all}
use nebula_x_trader.OrderPool.Threads.{System, ThreadAt, Owner, Step, Run}
use nebula_x_trader.OrderPool.Threads.Invariant.{In, IsChain, Absent}
use nebula_x_trader.OrderPool.Threads.Exclusive.{opened, one_owner}

abbrev unused : OrderSlot
unused = record {
  order_ref = 0;
  side = OrderSide.no_side;
  price = pos 0;
  shares = 0;
  remaining = 0;
  sequence = 0;
  prev_idx = no_index;
  next_idx = no_index;
  pool_next_free = no_index;
}

abbrev two_slots : System
two_slots = opened (λ k. unused) 2

-- Both threads read the head and its successor; thread 1 takes slot 0, then slot 1, and gives slot 0
-- back, which puts the head's index back to what thread 0 has read, but not its tag.
raced : (t : System) × Run two_slots 12 t
unfolding opened new_pool init_free_list link_all
raced = (
  _,
  Run.next
      (Run.next
        (Run.next
          (Run.next
            (Run.next
              (Run.next
                (Run.next
                  (Run.next
                    (Run.next
                      (Run.next
                        (Run.next (Run.next Run.start (Step.loads 0 refl (λ e. omega arith)))
                          (Step.reads 0 0 refl))
                        (Step.loads 1 refl (λ e. omega arith)))
                      (Step.reads 1 0 refl))
                    (Step.takes 1 0 1 refl refl))
                  (Step.loads 1 refl (λ e. omega arith)))
                (Step.reads 1 (2 ^ 32 + 1) refl))
              (Step.takes 1 (2 ^ 32 + 1) no_index refl refl))
            (Step.returns 1 0 refl refl))
          (Step.free_loads 1 0 refl))
        (Step.links 1 0 (2 * 2 ^ 32 + no_index) refl))
      (Step.gives 1 0 (2 * 2 ^ 32 + no_index) refl refl),
)

-- thread 0 cannot take the slot with what it has read
not_taken :
    (raced.0.threads 0 ≡ ThreadAt.successor 0 1)
    × (raced.0.free_head ≢ 0)
    × (index_of raced.0.free_head ≡ 0)
unfolding raced
not_taken = (refl, (λ e. omega arith), refl)

-- Thread 1 reads the new head and its successor.
reread : (t : System) × Run two_slots 14 t
unfolding raced
reread = (
  _,
  Run.next (Run.next raced.1 (Step.loads 1 refl (λ e. omega arith)))
      (Step.reads 1 (3 * 2 ^ 32) refl),
)

reread_threads :
    (reread.0.threads 1 ≡ ThreadAt.successor (3 * 2 ^ 32) no_index)
    × (reread.0.free_head ≡ 3 * 2 ^ 32)
unfolding reread raced opened new_pool init_free_list link_all
reread_threads = (refl, refl)

one_owner_example :
    (reread.0.owner (index_of (3 * 2 ^ 32)) ≡ Owner.pool)
    × (rest : List ℕ) × Absent (index_of (3 * 2 ^ 32)) rest
    × IsChain reread.0.next_free reread.0.owner no_index rest
    × ((k : ℕ) → reread.0.owner k ≡ Owner.pool → In k (index_of (3 * 2 ^ 32) ∷ rest))
one_owner_example =
    one_owner (λ k. unused) 2 1 (3 * 2 ^ 32) no_index (omega arith) (omega arith) (omega arith)
      reread.1 reread_threads.0 reread_threads.1
