-- ===== src/EventRing/Calls.antt =====
-- Any sequence of calls on a ring of events.
use nebula_x_trader.Prelude.{ℕ, ◌+◌, ◌<◌, ◌≡◌, refl, ap, Bool, Option, List, [], ◌∷◌, arith, length}
use nebula_x_trader.Prelude.Words.{u64_mod}
use nebula_x_trader.Types.{MarketEvent}
use nebula_x_trader.EventRing.{EventRing, push, pop, peek}
use nebula_x_trader.EventRing.Fifo.{
  IsValid, contents, enqueue, dequeue, push-IsValid, pop-IsValid, push_refines, pop_refines,
  peek-pop, capacity-push, capacity-pop, tail-push-le, tail-pop,
}

pub data Call : Type 0 where
  pushes : MarketEvent → Call
  pops peeks : Call

-- what a call returns
pub data Outcome : Type 0 where
  pushed : Bool → Outcome
  taken : Option MarketEvent → Outcome

-- what the calls return, one after the other
pub outcomes : EventRing → List Call → List Outcome
outcomes r [] = []
outcomes r (pushes ev ∷ calls) = pushed (push r ev).0 ∷ outcomes (push r ev).1 calls
outcomes r (pops ∷ calls) = taken (pop r).0 ∷ outcomes (pop r).1 calls
outcomes r (peeks ∷ calls) = taken (peek r) ∷ outcomes r calls

-- what they return on a queue that takes no more than `capacity` events
pub queue_outcomes : ℕ → List MarketEvent → List Call → List Outcome
queue_outcomes capacity q [] = []
queue_outcomes capacity q (pushes ev ∷ calls) =
    pushed (enqueue capacity q ev).0 ∷ queue_outcomes capacity (enqueue capacity q ev).1 calls
queue_outcomes capacity q (pops ∷ calls) =
    taken (dequeue q).0 ∷ queue_outcomes capacity (dequeue q).1 calls
queue_outcomes capacity q (peeks ∷ calls) = taken (dequeue q).0 ∷ queue_outcomes capacity q calls

-- No sequence of calls of `push`, `pop` and `peek` tells a valid ring from the queue of the events that
-- it holds, which takes no more than the ring's capacity, as long as the tail cannot reach 2^64.
pub calls_refine :
    (calls : List Call) (r : EventRing)
    → IsValid r
    → r.tail + length calls < u64_mod
    → outcomes r calls ≡ queue_outcomes r.capacity (contents r) calls
unfolding outcomes queue_outcomes
calls_refine [] r v small = refl
calls_refine (pushes ev ∷ calls) r v small =
    let one = push_refines r ev v (omega arith) in
    let fits : (push r ev).1.tail + length calls < u64_mod = omega (arith, tail-push-le r ev) in
    let rest = calls_refine calls (push r ev).1 (push-IsValid r ev v (omega arith)) fits in
    rw
      (
        rest,
        ap (λ (p : Bool × List MarketEvent). p.0) one,
        ap (λ (p : Bool × List MarketEvent). p.1) one,
        capacity-push r ev,
      )
      refl
calls_refine (pops ∷ calls) r v small =
    let one = pop_refines r v in
    let fits : (pop r).1.tail + length calls < u64_mod = omega (arith, tail-pop r) in
    let rest = calls_refine calls (pop r).1 (pop-IsValid r v) fits in
    rw
      (
        rest,
        ap (λ (p : Option MarketEvent × List MarketEvent). p.0) one,
        ap (λ (p : Option MarketEvent × List MarketEvent). p.1) one,
        capacity-pop r,
      )
      refl
calls_refine (peeks ∷ calls) r v small =
    let one = pop_refines r v in
    let rest = calls_refine calls r v (omega arith) in
    rw (rest, peek-pop r, ap (λ (p : Option MarketEvent × List MarketEvent). p.0) one) refl
