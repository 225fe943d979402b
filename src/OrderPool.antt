-- ===== src/OrderPool.antt =====
-- `OrderPool` of core/memory/order_pool.h: slots for orders, the free ones on a stack. A pointer to a
-- slot is its index. Calls are atomic here; Threads has them step by step.
pub mod Threads
use nebula_x_trader.Prelude.{
  ℕ, zero, suc, ◌+◌, ◌-◌, ◌*◌, ◌/◌, ◌%◌, ◌^◌, Bool, Option, none, some, ◌==◌, if◌then◌else◌,
}
use nebula_x_trader.Prelude.Words.{u64_mod}
use nebula_x_trader.Prelude.Sum.{update}
use nebula_x_trader.Types.{OrderSlot}

-- `UINT32_MAX`
abbrev pub no_index : ℕ
no_index = 2 ^ 32 - 1

-- `storage_` is read below `capacity_` only; `free_head_` is a tag in its upper 32 bits, and an index.
pub record OrderPool : Type 0 where
  pub storage : ℕ → OrderSlot
  pub capacity : ℕ
  pub free_head : ℕ
  pub size : ℕ

-- `(uint32_t)fh`
abbrev pub index_of : ℕ → ℕ
index_of fh = fh % 2 ^ 32

-- `(((fh >> 32) + 1) << 32) | idx`, for idx < 2 ^ 32
abbrev pub next_head : ℕ → ℕ → ℕ
next_head fh idx = (fh / 2 ^ 32 + 1) * 2 ^ 32 % u64_mod + idx

-- `storage_[idx].pool_next_free.store(next)`
abbrev pub link : (ℕ → OrderSlot) → ℕ → ℕ → ℕ → OrderSlot
link storage idx next = update storage idx (record (storage idx) { pool_next_free = next })

-- the loop of `initFreeList` and of `rebuildFreelist`, from slot `i` on with `n` slots to go
unfoldable pub link_all : ℕ → ℕ → (ℕ → OrderSlot) → ℕ → OrderSlot
link_all i zero storage = storage
link_all i (suc n) storage = link_all (i + 1) n (link storage i (i + 1))

-- for a capacity above 0
unfoldable pub init_free_list : OrderPool → OrderPool
init_free_list p = record p {
  storage = link (link_all 0 (p.capacity - 1) p.storage) (p.capacity - 1) no_index;
  free_head = 0;
  size = 0;
}

unfoldable pub new_pool : (ℕ → OrderSlot) → ℕ → OrderPool
unfolding init_free_list
new_pool storage capacity =
    init_free_list (record { storage = storage; capacity = capacity; free_head = 0; size = 0 })

-- none for `nullptr`
unfoldable pub allocate : OrderPool → Option ℕ × OrderPool
allocate p =
    let head = index_of p.free_head in
    if head == no_index then (none, p) else (
      some head,
      record p {
        free_head = next_head p.free_head (p.storage head).pool_next_free;
        size = p.size + 1;
      },
    )

-- for an index that is in use, so that `size_` is above 0
unfoldable pub deallocate : OrderPool → ℕ → OrderPool
deallocate p idx = record p {
  storage = link p.storage idx (index_of p.free_head);
  free_head = next_head p.free_head idx;
  size = p.size - 1;
}
