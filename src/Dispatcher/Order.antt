-- ===== src/Dispatcher/Order.antt =====
-- The order in which a worker receives the events that were dispatched to it.
pub mod Pieces
pub mod Steps
pub mod Runs
pub mod Overtaking
use mathlib.Core.Path.{subst, ap₂}
use mathlib.Core.List.{append_assoc, append-nil}
use nebula_x_trader.Prelude.{
  ◌+◌, ◌<◌, ◌≡◌, refl, sym, ap, ◌∙◌, Bool, true, false, Option, some, List, [], ◌∷◌, ◌++◌, arith,
}
use nebula_x_trader.Prelude.Words.{u64_mod}
use nebula_x_trader.Types.{MarketEvent}
use nebula_x_trader.EventRing.{EventRing, push, pop, peek}
use nebula_x_trader.EventRing.Fifo.{
  IsValid, contents, dequeue, pop_refines, push-IsValid, pop-IsValid, peek-pop, contents-push,
  contents-pop, contents-empty, contents-pending,
}
use nebula_x_trader.Dispatcher.Channel.{
  ParserAt, ready, raising, direct, parking, queueing, RetryAt, looking, moved, checking, clearing,
  holding, Channel, Step,
}
use nebula_x_trader.Dispatcher.Channel

-- the event that the parser holds
abbrev pub in_hand : ParserAt → List MarketEvent
in_hand ready = []
in_hand raising = []
in_hand (direct ev) = ev ∷ []
in_hand (parking ev) = ev ∷ []
in_hand (queueing ev) = ev ∷ []

-- What of the bucket has not been moved on: an event that is moved is popped afterwards.
abbrev pub waiting : RetryAt → List MarketEvent → List MarketEvent
waiting looking q = q
waiting moved [] = []
waiting moved (ev ∷ q) = q
waiting checking q = q
waiting clearing q = q
waiting (holding ev) q = q

-- What the parser may rely on about the bucket.
abbrev pub Relies : ParserAt → Bool → List MarketEvent → Type 0
Relies ready active q = active ≡ false → q ≡ []
Relies raising active q = Unit
Relies (direct ev) active q = q ≡ []
Relies (parking ev) active q = q ≡ []
Relies (queueing ev) active q = active ≡ true

-- What the retry thread holds is the head of the bucket.
abbrev pub Holds : RetryAt → List MarketEvent → Type 0
Holds looking q = Unit
Holds moved q = (ev : MarketEvent) × (rest : List MarketEvent) × (q ≡ ev ∷ rest)
Holds checking q = Unit
Holds clearing q = Unit
Holds (holding ev) q = (rest : List MarketEvent) × (q ≡ ev ∷ rest)

pub record IsOrdered (c : Channel) : Type 0 where
  pub spsc_valid : IsValid c.spsc
  pub bucket_valid : IsValid c.bucket
  pub relies : Relies c.parser c.active (contents c.bucket)
  pub holds : Holds c.retry (contents c.bucket)
  pub in_order :
      c.received ++ (contents c.spsc ++ (waiting c.retry (contents c.bucket) ++ in_hand c.parser))
      ≡ c.sent

-- The events that the parser has on the way to the bucket.
abbrev pub queued : ParserAt → List MarketEvent
queued ready = []
queued raising = []
queued (direct ev) = []
queued (parking ev) = []
queued (queueing ev) = ev ∷ []

-- When `active` is cleared no event is in the bucket or on the way to it, and no tail reaches 2^64.
abbrev pub Calm : {c d : Channel} → Step c d → Type 0
Calm {c} (Channel.Step.clears at) = (contents c.bucket ≡ []) × (queued c.parser ≡ [])
Calm {c} (Channel.Step.queues ev at done) = c.bucket.tail + 1 < u64_mod
Calm {c} (Channel.Step.parks ev at done) = c.bucket.tail + 1 < u64_mod
Calm {c} (Channel.Step.sends ev at done) = c.spsc.tail + 1 < u64_mod
Calm {c} (Channel.Step.moves ev at done) = c.spsc.tail + 1 < u64_mod
Calm {c} _ = Unit

-- A channel with valid, empty rings, before anything is dispatched.
pub record IsFresh (c : Channel) : Type 0 where
  pub spsc_valid : IsValid c.spsc
  pub bucket_valid : IsValid c.bucket
  pub spsc_empty : contents c.spsc ≡ []
  pub bucket_empty : contents c.bucket ≡ []
  pub parser_ready : c.parser ≡ ready
  pub retry_looking : c.retry ≡ looking
  pub none_sent : c.sent ≡ []
  pub none_received : c.received ≡ []

-- the runs in which every step is calm
pub data CalmRun (c : Channel) : Channel → Type 0 where
  start : CalmRun c c
  next : {d e : Channel} → CalmRun c d → (m : Step d e) → Calm m → CalmRun c e
