-- ===== src/Dispatcher.antt =====
-- `Dispatcher` of core/dispatch/dispatcher.h: each event goes to the ring of the worker that owns its
-- symbol, or, when that is full, to the worker's retry bucket.
pub mod Owner
pub mod Channel
pub mod Order
pub mod Deliver
mod Examples
use nebula_x_trader.Prelude.{
  ℕ, zero, suc, ◌+◌, ◌-◌, ◌^◌, Bool, true, false, Option, none, some, ◌==◌, ltb, if◌then◌else◌,
}
use nebula_x_trader.Prelude.Words.{add64}
use nebula_x_trader.Prelude.Sum.{update}
use nebula_x_trader.Types.{MarketEvent}
use nebula_x_trader.EventRing.{EventRing, pending, push}

-- `struct RetryBucket`
pub record RetryBucket : Type 0 where
  pub bucket : EventRing
  pub active : Bool

-- `owner_` is read below 65536 only, `spsc_` and `retry_` below `nworkers_`.
pub record Dispatcher : Type 0 where
  pub owner : ℕ → ℕ
  pub spsc : ℕ → EventRing
  pub retry : ℕ → RetryBucket
  pub nworkers : ℕ

-- `kNone`
abbrev pub no_owner : ℕ
no_owner = 2 ^ 32 - 1

pub new_dispatcher : (ℕ → EventRing) → (ℕ → RetryBucket) → ℕ → Dispatcher
new_dispatcher spsc retry nworkers = record {
  owner = λ locate. no_owner;
  spsc = spsc;
  retry = retry;
  nworkers = nworkers;
}

-- the loop of `lookup_or_register`, from worker `i` on with `n` workers to go
unfoldable pub least_registered : (ℕ → ℕ) → ℕ → ℕ → ℕ → ℕ
least_registered registered i zero target = target
least_registered registered i (suc n) target =
    least_registered registered (i + 1) n
      (if ltb (registered i) (registered target) then i else target)

-- The owner, the dispatcher and the counts. No other thread registers, so that the exchange succeeds.
unfoldable pub lookup_or_register : Dispatcher → (ℕ → ℕ) → ℕ → ℕ × Dispatcher × (ℕ → ℕ)
lookup_or_register d registered locate =
    let target = least_registered registered 1 (d.nworkers - 1) 0 in
    if d.owner locate == no_owner
    then (
      target,
      record d { owner = update d.owner locate target },
      update registered target (add64 (registered target) 1),
    )
    else (d.owner locate, d, registered)

-- `dispatch` after the lookup, without other threads in between; none where it waits for the bucket
pub deliver : EventRing → RetryBucket → MarketEvent → Option (EventRing × RetryBucket)
deliver spsc rq ev =
    let (parked, bucket) = push rq.bucket ev in
    let (sent, spsc') = push spsc ev in
    if rq.active
    then (if parked then some (spsc, record rq { bucket = bucket }) else none)
    else if sent
    then some (spsc', rq)
    else if parked
    then some (spsc, record { bucket = bucket; active = true })
    else none

pub dispatch : Dispatcher → (ℕ → ℕ) → MarketEvent → Option (Dispatcher × (ℕ → ℕ))
dispatch d registered ev =
    let (owner, d', registered') = lookup_or_register d registered ev.locate in
    elim (deliver (d'.spsc owner) (d'.retry owner) ev) [
      | none ↦ none
      | some (spsc, rq) ↦ some (
        record d' { spsc = update d'.spsc owner spsc; retry = update d'.retry owner rq },
        registered',
      )
    ]

pub bucket_pending : Dispatcher → ℕ → Bool
bucket_pending d i = ltb 0 (pending (d.retry i).bucket)
