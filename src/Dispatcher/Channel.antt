-- ===== src/Dispatcher/Channel.antt =====
-- One worker's part of the dispatcher, step by step: the parser's thread in `dispatch`
-- (core/dispatch/dispatcher.h), the retry thread and the worker's thread (main.cpp). Each call on a ring
-- is one step, and each load or store of `active`. A thread that waits for room takes no step.
use nebula_x_trader.Prelude.{◌≡◌, ◌≢◌, Bool, true, false, none, some, List, [], ◌∷◌, ◌++◌}
use nebula_x_trader.Types.{MarketEvent}
use nebula_x_trader.EventRing.{EventRing, pending, push, peek, pop}

-- where the parser is in `dispatch`
pub data ParserAt : Type 0 where
  ready raising : ParserAt
  direct parking queueing : MarketEvent → ParserAt

-- where the retry thread is in its loop over the bucket
pub data RetryAt : Type 0 where
  looking moved checking clearing : RetryAt
  holding : MarketEvent → RetryAt

-- `sent` and `received` record what was dispatched to the worker, and what it has taken.
pub record Channel : Type 0 where
  pub spsc : EventRing
  pub bucket : EventRing
  pub active : Bool
  pub parser : ParserAt
  pub retry : RetryAt
  pub sent : List MarketEvent
  pub received : List MarketEvent

pub data Step (c : Channel) : Channel → Type 0 where
  -- `rq->active.load`
  reads_active :
      (ev : MarketEvent)
      → c.parser ≡ ready
      → c.active ≡ true
      → Step c (record c { parser = queueing ev; sent = c.sent ++ ev ∷ [] })
  reads_inactive :
      (ev : MarketEvent)
      → c.parser ≡ ready
      → c.active ≡ false
      → Step c (record c { parser = direct ev; sent = c.sent ++ ev ∷ [] })
  -- `rq->bucket.push` where the bucket was active
  queues :
      (ev : MarketEvent)
      → c.parser ≡ queueing ev
      → (push c.bucket ev).0 ≡ true
      → Step c (record c { parser = ready; bucket = (push c.bucket ev).1 })
  -- `spsc_[owner]->push`
  sends :
      (ev : MarketEvent)
      → c.parser ≡ direct ev
      → (push c.spsc ev).0 ≡ true
      → Step c (record c { parser = ready; spsc = (push c.spsc ev).1 })
  finds_full :
      (ev : MarketEvent)
      → c.parser ≡ direct ev
      → (push c.spsc ev).0 ≡ false
      → Step c (record c { parser = parking ev })
  parks :
      (ev : MarketEvent)
      → c.parser ≡ parking ev
      → (push c.bucket ev).0 ≡ true
      → Step c (record c { parser = raising; bucket = (push c.bucket ev).1 })
  raises : c.parser ≡ raising → Step c (record c { parser = ready; active = true })
  -- `rq.bucket.peek`
  peeks :
      (ev : MarketEvent)
      → c.retry ≡ looking
      → peek c.bucket ≡ some ev
      → Step c (record c { retry = holding ev })
  finds_none : c.retry ≡ looking → peek c.bucket ≡ none → Step c (record c { retry = checking })
  -- `spscs[i]->push`
  moves :
      (ev : MarketEvent)
      → c.retry ≡ holding ev
      → (push c.spsc ev).0 ≡ true
      → Step c (record c { retry = moved; spsc = (push c.spsc ev).1 })
  cannot_move :
      (ev : MarketEvent)
      → c.retry ≡ holding ev
      → (push c.spsc ev).0 ≡ false
      → Step c (record c { retry = checking })
  pops : c.retry ≡ moved → Step c (record c { retry = looking; bucket = (pop c.bucket).1 })
  -- `rq.bucket.pending() == 0`
  sees_empty : c.retry ≡ checking → pending c.bucket ≡ 0 → Step c (record c { retry = clearing })
  sees_more : c.retry ≡ checking → pending c.bucket ≢ 0 → Step c (record c { retry = looking })
  -- `rq.active.store(false)`
  clears : c.retry ≡ clearing → Step c (record c { retry = looking; active = false })
  -- the worker's `pop`
  receives :
      (ev : MarketEvent)
      → (pop c.spsc).0 ≡ some ev
      → Step c (record c { spsc = (pop c.spsc).1; received = c.received ++ ev ∷ [] })

-- any number of steps, the threads taking turns in any way
pub data Run (c : Channel) : Channel → Type 0 where
  start : Run c c
  next : {d e : Channel} → Run c d → Step d e → Run c e
