-- ===== src/EventRing/Fifo.antt =====
-- A ring of events is a queue.
use nebula_x_trader.Prelude.{
  ℕ, suc, ◌+◌, ◌-◌, ◌<◌, ◌≤◌, ◌≡◌, refl, sym, ap, ◌∙◌, Bool, true, false, Option, none, some, List,
  [], ◌∷◌, ◌++◌, arith, length, ◌==◌, ltb, leb, if◌then◌else◌, Bool-cases, inl, inr,
}
use nebula_x_trader.Prelude.Words.{u64_mod, add64, sub64}
use nebula_x_trader.Prelude.Window.{window, length-window, window-suc, window-update, window-zero}
use nebula_x_trader.Types.{MarketEvent}
use nebula_x_trader.EventRing.{EventRing, pending, push, pop, peek, wake}

-- The indices are in order, and no more than the capacity apart; they have not reached 2^64.
abbrev pub IsValid : EventRing → Type 0
IsValid r =
    (0 < r.capacity) × (r.head ≤ r.tail) × (r.tail ≤ r.head + r.capacity) × (r.tail < u64_mod)

-- the events in the ring, the next to come out first
abbrev pub contents : EventRing → List MarketEvent
contents r = window r.capacity r.slots r.head (r.tail - r.head)

-- a queue that takes no more than its capacity
abbrev pub enqueue : ℕ → List MarketEvent → MarketEvent → Bool × List MarketEvent
enqueue capacity q ev = if ltb (length q) capacity then (true, q ++ ev ∷ []) else (false, q)

abbrev pub dequeue : List MarketEvent → Option MarketEvent × List MarketEvent
dequeue [] = (none, [])
dequeue (ev ∷ q) = (some ev, q)

pub push-IsValid :
    (r : EventRing) (ev : MarketEvent) → IsValid r → r.tail + 1 < u64_mod → IsValid (push r ev).1
unfolding push wake
push-IsValid r ev v small = ground arith

pub pop-IsValid : (r : EventRing) → IsValid r → IsValid (pop r).1
unfolding pop
pop-IsValid r v = ground arith

-- `push` does to the events in the ring what a bounded queue does, and reports the same.
pub push_refines :
    (r : EventRing) (ev : MarketEvent)
    → IsValid r
    → r.tail + 1 < u64_mod
    → ◌≡◌ {A = Bool × List MarketEvent}
        ((push r ev).0, contents (push r ev).1)
        (enqueue r.capacity (contents r) ev)
unfolding push wake
push_refines r ev v small =
    let used : sub64 r.tail r.head ≡ r.tail - r.head = ground arith in
    let held = length-window r.capacity r.slots r.head (r.tail - r.head) in
    elim (Bool-cases (leb r.capacity (sub64 r.tail r.head))) [
      | inl full ↦
          let no_room : ltb (r.tail - r.head) r.capacity ≡ false = ground arith in
          rw (full, held, no_room) refl
      | inr free ↦
          let room : ltb (r.tail - r.head) r.capacity ≡ true = ground arith in
          let grown : add64 r.tail 1 - r.head ≡ suc (r.tail - r.head) = ground arith in
          let at : r.head + (r.tail - r.head) ≡ r.tail = omega arith in
          let added = window-update r.capacity r.slots r.head (r.tail - r.head) ev (ground arith) in
          let added' = rw at at added in rw (free, held, room, grown, added') refl
    ]

pub pop_refines :
    (r : EventRing)
    → IsValid r
    → ◌≡◌ {A = Option MarketEvent × List MarketEvent}
        ((pop r).0, contents (pop r).1)
        (dequeue (contents r))
unfolding pop
pop_refines r v = elim (Bool-cases (r.head == r.tail)) [
  | inl empty ↦
      rw (empty, window-zero r.capacity r.slots r.head (r.tail - r.head) (ground arith)) refl
  | inr some_left ↦
      let next : add64 r.head 1 ≡ r.head + 1 = ground arith in
      let left : r.tail - (r.head + 1) ≡ r.tail - r.head - 1 = omega arith in
      rw
        (
          some_left,
          window-suc r.capacity r.slots r.head (r.tail - r.head) (ground arith),
          next,
          left,
        )
        refl
]

pub peek-pop : (r : EventRing) → peek r ≡ (pop r).0
unfolding peek pop
peek-pop r = ground arith

pub capacity-push : (r : EventRing) (ev : MarketEvent) → (push r ev).1.capacity ≡ r.capacity
unfolding push wake
capacity-push r ev = ground arith

pub capacity-pop : (r : EventRing) → (pop r).1.capacity ≡ r.capacity
unfolding pop
capacity-pop r = ground arith

pub tail-push-le : (r : EventRing) (ev : MarketEvent) → (push r ev).1.tail ≤ r.tail + 1
unfolding push wake
tail-push-le r ev = ground arith

pub tail-pop : (r : EventRing) → (pop r).1.tail ≡ r.tail
unfolding pop
tail-pop r = ground arith

module _ (r : EventRing) (v : IsValid r) where
  -- the same for each result that a caller can see
  pub contents-push :
      (ev : MarketEvent)
      → r.tail + 1 < u64_mod
      → (push r ev).0 ≡ true
      → contents (push r ev).1 ≡ contents r ++ ev ∷ []
  contents-push ev small done =
      let one = push_refines r ev v small in
      let took = ap (λ (p : Bool × List MarketEvent). p.0) one in
      let left = ap (λ (p : Bool × List MarketEvent). p.1) one in ground arith

  pub contents-pop : (ev : MarketEvent) → (pop r).0 ≡ some ev → contents r ≡ ev ∷ contents (pop r).1
  contents-pop ev took =
      dequeued (contents r) (contents (pop r).1)
        (sym took ∙ ap (λ (p : Option MarketEvent × List MarketEvent). p.0) (pop_refines r v))
        (ap (λ (p : Option MarketEvent × List MarketEvent). p.1) (pop_refines r v))
    where
      dequeued :
          (q left : List MarketEvent)
          → some ev ≡ (dequeue q).0
          → left ≡ (dequeue q).1
          → q ≡ ev ∷ left
      dequeued [] left took rest = cc
      dequeued (x ∷ q) left took rest = cc

  pub contents-empty : (pop r).0 ≡ none → contents r ≡ []
  contents-empty took =
      nothing (contents r)
        (sym took ∙ ap (λ (p : Option MarketEvent × List MarketEvent). p.0) (pop_refines r v))
    where
      nothing : (q : List MarketEvent) → none ≡ (dequeue q).0 → q ≡ []
      nothing [] took = refl
      nothing (x ∷ q) took = cc

  pub contents-pending : pending r ≡ 0 → contents r ≡ []
  unfolding pending
  contents-pending none_left =
      window-zero r.capacity r.slots r.head (r.tail - r.head) (ground arith)
