-- ===== src/Dispatcher/Examples.antt =====
-- Runs of one worker's part of the dispatcher, and a few lookups.
use nebula_x_trader.Prelude.{
  sym, ℕ, ◌+◌, ◌<◌, ◌≡◌, ◌≢◌, refl, ◌==◌, if◌then◌else◌, true, false, [], ◌∷◌, ◌++◌, arith, count,
}
use nebula_x_trader.Prelude.Int.{pos}
use nebula_x_trader.Types.{EventType, OrderSide, MarketEvent}
use nebula_x_trader.EventRing.{EventRing, push, pop, peek, pending, wake}
use nebula_x_trader.Prelude.Window.{window-zero}
use nebula_x_trader.EventRing.Fifo.{contents}
use nebula_x_trader.Dispatcher.{Dispatcher, no_owner, deliver, lookup_or_register, least_registered}
use nebula_x_trader.Dispatcher.Owner.{
  IsFair, IsEven, lookup_all, lookups_spread, owned-none, locates_count,
}
use nebula_x_trader.Dispatcher.Channel.{ParserAt, RetryAt, Channel, Step, Run}
use nebula_x_trader.Dispatcher.Order.{IsFresh, CalmRun, waiting, in_hand}
use nebula_x_trader.Dispatcher.Order.Runs.{dispatched_in_order}
use nebula_x_trader.Dispatcher.Order.Overtaking.{overtaken}
use nebula_x_trader.Dispatcher.Deliver.{Agrees, deliver_steps}

abbrev event : ℕ → MarketEvent
event n = record {
  kind = EventType.add;
  seq_id = n;
  locate = 3;
  timestamp = 0;
  side = OrderSide.buy;
  price = pos 100;
  shares = 10;
  order_ref = n;
  new_order_ref = 0;
}

abbrev one_slot : EventRing
one_slot = record {
  slots = λ i. event 0;
  capacity = 1;
  head = 0;
  tail = 0;
  blocked = false;
  wakes = 0;
}

-- the ring after `n` events went through it
abbrev emptied : ℕ → EventRing
emptied n = record one_slot { head = n; tail = n }

abbrev fresh : Channel
fresh = record {
  spsc = one_slot;
  bucket = one_slot;
  active = false;
  parser = ParserAt.ready;
  retry = RetryAt.looking;
  sent = [];
  received = [];
}

fresh-IsFresh : IsFresh fresh
fresh-IsFresh = record {
  spsc_valid = omega arith;
  bucket_valid = omega arith;
  spsc_empty = none_there;
  bucket_empty = none_there;
  parser_ready = refl;
  retry_looking = refl;
  none_sent = refl;
  none_received = refl;
}
  where
    none_there : contents one_slot ≡ []
    none_there = window-zero 1 one_slot.slots 0 0 refl

-- Event 1 finds the ring full and is parked; the retry thread moves it on once event 0 is taken, sees
-- the bucket empty, and the parser looks at `active` for event 2 before it is cleared.
parked : (d : Channel) × Run fresh d
unfolding push pop peek pending wake
parked = (
  _,
  Run.next
      (Run.next
        (Run.next
          (Run.next
            (Run.next
              (Run.next
                (Run.next
                  (Run.next
                    (Run.next
                      (Run.next
                        (Run.next
                          (Run.next
                            (Run.next (Run.next Run.start (Step.reads_inactive (event 0) refl refl))
                              (Step.sends (event 0) refl refl))
                            (Step.reads_inactive (event 1) refl refl))
                          (Step.finds_full (event 1) refl refl))
                        (Step.parks (event 1) refl refl))
                      (Step.raises refl))
                    (Step.receives (event 0) refl))
                  (Step.peeks (event 1) refl refl))
                (Step.moves (event 1) refl refl))
              (Step.pops refl))
            (Step.receives (event 1) refl))
          (Step.finds_none refl refl))
        (Step.sees_empty refl refl))
      (Step.reads_active (event 2) refl refl),
)

-- the same channel, written out
abbrev raced : Channel
raced = record {
  spsc = record {
    slots = λ j. if 0 == j then event 1 else if 0 == j then event 0 else event 0;
    capacity = 1;
    head = 2;
    tail = 2;
    blocked = false;
    wakes = 2;
  };
  bucket = record {
    slots = λ j. if 0 == j then event 1 else event 0;
    capacity = 1;
    head = 1;
    tail = 1;
    blocked = false;
    wakes = 1;
  };
  active = true;
  parser = ParserAt.queueing (event 2);
  retry = RetryAt.clearing;
  sent = event 0 ∷ event 1 ∷ event 2 ∷ [];
  received = event 0 ∷ event 1 ∷ [];
}

raced_reached : Run fresh raced
unfolding parked
raced_reached = parked.1

overtaken_example :
    (d : Channel) × Run raced d
    × (contents d.spsc ≡ contents raced.spsc ++ event 3 ∷ [])
    × (contents d.bucket ≡ contents raced.bucket ++ event 2 ∷ [])
    × (d.sent ≡ raced.sent ++ event 3 ∷ [])
    × (d.active ≡ false)
    × (d.parser ≡ ParserAt.ready)
unfolding push
overtaken_example =
    overtaken raced (event 2) (event 3) (omega arith) (omega arith) (omega arith) (omega arith) refl
      refl refl refl

-- Event 0 is in the ring, event 1 on its way to the bucket.
two_sent : (d : Channel) × CalmRun fresh d
unfolding push
two_sent = (
  _,
  CalmRun.next
      (CalmRun.next
        (CalmRun.next (CalmRun.next CalmRun.start (Step.reads_inactive (event 0) refl refl) tt)
          (Step.sends (event 0) refl refl) (omega arith))
        (Step.reads_inactive (event 1) refl refl) tt)
      (Step.finds_full (event 1) refl refl) tt,
)

dispatched_in_order_example :
    (two_sent.0.received
        ++ (contents two_sent.0.spsc
            ++ (waiting two_sent.0.retry (contents two_sent.0.bucket) ++ in_hand two_sent.0.parser))
      ≡ two_sent.0.sent)
    × ((x y : MarketEvent)
        → ¬ ((two_sent.0.parser ≡ ParserAt.direct x) × (two_sent.0.retry ≡ RetryAt.holding y)))
dispatched_in_order_example = dispatched_in_order fresh-IsFresh two_sent.1

abbrev two_workers : Dispatcher
two_workers = record {
  owner = λ locate. no_owner;
  spsc = λ i. one_slot;
  retry = λ i. record { bucket = one_slot; active = false };
  nworkers = 2;
}

two_workers-IsFair : IsFair two_workers (λ i. 0) 0
two_workers-IsFair = record {
  some_worker = omega arith;
  few_workers = omega arith;
  owners = λ l owned. absurd (owned refl);
  counted = λ i h. sym (owned-none i locates_count (few i h));
  balanced = λ i j hi hj. omega arith;
  bounded = λ i h. omega arith;
}
  where
    few : (i : ℕ) → i < 2 → i ≢ no_owner
    few i h = omega arith

lookups_spread_example :
    let (d, registered) = lookup_all two_workers (λ i. 0) (7 ∷ 9 ∷ 7 ∷ 5 ∷ []) in
    IsFair d registered (0 + 4)
    × IsEven d
    × ((l : ℕ) → two_workers.owner l ≢ no_owner → d.owner l ≡ two_workers.owner l)
    × ((l : ℕ) → 0 < count l (7 ∷ 9 ∷ 7 ∷ 5 ∷ []) → d.owner l ≢ no_owner)
lookups_spread_example =
    lookups_spread (7 ∷ 9 ∷ 7 ∷ 5 ∷ []) two_workers (λ i. 0) 0 two_workers-IsFair (omega arith)
      (omega arith, (omega arith, (omega arith, (omega arith, tt))))

in_turn : ((lookup_all two_workers (λ i. 0) (7 ∷ 9 ∷ 7 ∷ 5 ∷ [])).0.owner 9 ≡ 1)
unfolding lookup_all lookup_or_register least_registered
in_turn = refl

-- from the ring with event 0 in it, event 1 is parked
deliver_steps_example :
    let c = record fresh { spsc = record one_slot { tail = 1 } } in
    Agrees c (event 1) (deliver c.spsc (record { bucket = c.bucket; active = c.active }) (event 1))
deliver_steps_example =
    deliver_steps (record fresh { spsc = record one_slot { tail = 1 } }) (event 1) refl
