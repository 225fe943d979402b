-- ===== src/EventRing.antt =====
-- `SPSCEventRing` of core/queue/spsc_event_ring.h: the ring of events from the parser to one worker,
-- and, as `RetryBucket`, beside it. Each load and store of an index is part of one atomic call.
pub mod Fifo
pub mod Calls
mod Examples
use nebula_x_trader.Prelude.{
  ℕ, ◌+◌, ◌%◌, Bool, true, false, Option, none, some, ◌==◌, ltb, leb, if◌then◌else◌,
}
use nebula_x_trader.Prelude.Words.{add64, sub64}
use nebula_x_trader.Prelude.Sum.{update}
use nebula_x_trader.Types.{MarketEvent}

-- The members, with the count that the ring's writes leave on the wake-up descriptor, which other rings
-- share. The capacity is a power of two, so that `& mask_` is a remainder.
pub record EventRing : Type 0 where
  pub slots : ℕ → MarketEvent
  pub capacity : ℕ
  pub head : ℕ
  pub tail : ℕ
  pub blocked : Bool
  pub wakes : ℕ

pub new_ring : (ℕ → MarketEvent) → ℕ → EventRing
new_ring slots capacity = record {
  slots = slots;
  capacity = capacity;
  head = 0;
  tail = 0;
  blocked = false;
  wakes = 0;
}

unfoldable pub pending : EventRing → ℕ
pending r = sub64 r.tail r.head

-- `write(wake_fd_, ...)`
unfoldable pub wake : EventRing → EventRing
wake r = record r { wakes = r.wakes + 1 }

unfoldable pub push : EventRing → MarketEvent → Bool × EventRing
unfolding wake
push r ev = if leb r.capacity (sub64 r.tail r.head) then (false, r) else (
  true,
  wake (record r { slots = update r.slots (r.tail % r.capacity) ev; tail = add64 r.tail 1 }),
)

-- `peek`; none stands for false
unfoldable pub peek : EventRing → Option MarketEvent
peek r = if r.head == r.tail then none else some (r.slots (r.head % r.capacity))

unfoldable pub pop : EventRing → Option MarketEvent × EventRing
unfolding peek
pop r =
    if r.head == r.tail
    then (none, r)
    else (some (r.slots (r.head % r.capacity)), record r { head = add64 r.head 1 })

pub set_blocked : EventRing → EventRing
unfolding wake
set_blocked r = wake (record r { blocked = true })

pub set_active : EventRing → EventRing
set_active r = record r { blocked = false }

-- The descriptor is read until its count is 0, then again once it is written to. `later` counts the
-- writes until the timeout.
pub wait_for_data : EventRing → ℕ → Bool × EventRing
wait_for_data r later = (ltb 0 later, record r { wakes = 0 })
