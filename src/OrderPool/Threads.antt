-- ===== src/OrderPool/Threads.antt =====
-- `allocate` and `deallocate` of core/memory/order_pool.h, run by any number of threads: each load, store
-- and exchange is one step.
pub mod Invariant
pub mod Handover
pub mod Keep
pub mod Exclusive
mod Examples
use nebula_x_trader.Prelude.{ℕ, ◌+◌, ◌≡◌, ◌≢◌}
use nebula_x_trader.Prelude.Sum.{update}
use nebula_x_trader.OrderPool.{no_index, index_of, next_head}

-- where a thread is, with its local variables
pub data ThreadAt : Type 0 where
  idle : ThreadAt
  -- in `allocate`: the head is loaded; the successor is read too
  loaded : ℕ → ThreadAt
  successor : ℕ → ℕ → ThreadAt
  -- in `deallocate`: with the slot to free; the head is loaded; the slot is linked to it
  freeing : ℕ → ThreadAt
  free_loaded : ℕ → ℕ → ThreadAt
  linked : ℕ → ℕ → ThreadAt

-- whom an index belongs to: the pool, the callers that were given the slot, the thread that frees it, or
-- nobody where there is no such slot
pub data Owner : Type 0 where
  pool caller nobody : Owner
  thread : ℕ → Owner

-- `next_free` has the field `pool_next_free` of each slot. `owner` records whom the slots belong to.
pub record System : Type 0 where
  pub free_head : ℕ
  pub next_free : ℕ → ℕ
  pub threads : ℕ → ThreadAt
  pub owner : ℕ → Owner

pub data Step (s : System) : System → Type 0 where
  -- `free_head_.load`; where the pool is empty `allocate` returns at once
  loads :
      (i : ℕ)
      → s.threads i ≡ ThreadAt.idle
      → index_of s.free_head ≢ no_index
      → Step s (record s { threads = update s.threads i (ThreadAt.loaded s.free_head) })
  -- `storage_[head].pool_next_free.load`
  reads :
      (i fh : ℕ)
      → s.threads i ≡ ThreadAt.loaded fh
      → Step s (record s {
        threads = update s.threads i (ThreadAt.successor fh (s.next_free (index_of fh)));
      })
  -- the exchange succeeds, and the slot is returned
  takes :
      (i fh next : ℕ)
      → s.threads i ≡ ThreadAt.successor fh next
      → s.free_head ≡ fh
      → Step s (record {
        free_head = next_head fh next;
        next_free = s.next_free;
        threads = update s.threads i ThreadAt.idle;
        owner = update s.owner (index_of fh) Owner.caller;
      })
  -- it fails, perhaps for no reason; the head is loaded by it
  loses :
      (i fh next : ℕ)
      → s.threads i ≡ ThreadAt.successor fh next
      → index_of s.free_head ≢ no_index
      → Step s (record s { threads = update s.threads i (ThreadAt.loaded s.free_head) })
  gives_up :
      (i fh next : ℕ)
      → s.threads i ≡ ThreadAt.successor fh next
      → index_of s.free_head ≡ no_index
      → Step s (record s { threads = update s.threads i ThreadAt.idle })
  -- `deallocate` is called with a slot that a caller has
  returns :
      (i idx : ℕ)
      → s.threads i ≡ ThreadAt.idle
      → s.owner idx ≡ Owner.caller
      → Step s (record s {
        threads = update s.threads i (ThreadAt.freeing idx);
        owner = update s.owner idx (Owner.thread i);
      })
  -- `free_head_.load`
  free_loads :
      (i idx : ℕ)
      → s.threads i ≡ ThreadAt.freeing idx
      → Step s (record s { threads = update s.threads i (ThreadAt.free_loaded idx s.free_head) })
  -- `storage_[idx].pool_next_free.store`
  links :
      (i idx fh : ℕ)
      → s.threads i ≡ ThreadAt.free_loaded idx fh
      → Step s (record s {
        next_free = update s.next_free idx (index_of fh);
        threads = update s.threads i (ThreadAt.linked idx fh);
      })
  -- the exchange succeeds
  gives :
      (i idx fh : ℕ)
      → s.threads i ≡ ThreadAt.linked idx fh
      → s.free_head ≡ fh
      → Step s (record {
        free_head = next_head fh idx;
        next_free = s.next_free;
        threads = update s.threads i ThreadAt.idle;
        owner = update s.owner idx Owner.pool;
      })
  -- or fails
  retries :
      (i idx fh : ℕ)
      → s.threads i ≡ ThreadAt.linked idx fh
      → Step s (record s { threads = update s.threads i (ThreadAt.free_loaded idx s.free_head) })

-- any number of steps, the threads taking turns in any way
pub data Run (s : System) : ℕ → System → Type 0 where
  start : Run s 0 s
  next : {n : ℕ} {t u : System} → Run s n t → Step t u → Run s (n + 1) u
