-- ===== src/Dispatcher/Order/Overtaking.antt =====
-- What happens when `active` is cleared while an event is on the way to the bucket.
use nebula_x_trader.Prelude.{◌+◌, ◌<◌, ◌≡◌, refl, true, false, [], ◌∷◌, ◌++◌}
use nebula_x_trader.Prelude.Words.{u64_mod}
use nebula_x_trader.Types.{MarketEvent}
use nebula_x_trader.EventRing.{push}
use nebula_x_trader.EventRing.Fifo.{IsValid, contents, contents-push}
use nebula_x_trader.Dispatcher.Channel.{ready, queueing, clearing, Channel, Step, Run, start, next}

-- The retry thread has seen the bucket empty and is about to clear `active`; the parser has seen
-- `active` set and is about to put `x` into the bucket. Then, if both rings are valid and
-- their tails below 2^64 - 1, with room for `x` in the bucket and for another event `y` in the worker's ring, the threads can go on so that `y`, though dispatched after
-- `x`, stands in the worker's ring while `x` still waits in the bucket, with `active` cleared.
pub overtaken :
    (c : Channel) (x y : MarketEvent)
    → IsValid c.spsc
    → IsValid c.bucket
    → c.spsc.tail + 1 < u64_mod
    → c.bucket.tail + 1 < u64_mod
    → c.retry ≡ clearing
    → c.parser ≡ queueing x
    → (push c.bucket x).0 ≡ true
    → (push c.spsc y).0 ≡ true
    → (d : Channel) × Run c d
      × (contents d.spsc ≡ contents c.spsc ++ y ∷ [])
      × (contents d.bucket ≡ contents c.bucket ++ x ∷ [])
      × (d.sent ≡ c.sent ++ y ∷ [])
      × (d.active ≡ false)
      × (d.parser ≡ ready)
overtaken c x y spsc_valid bucket_valid spsc_small bucket_small at_clear at_queue room_x room_y = (
  _,
  next
      (next (next (next start (Step.clears at_clear)) (Step.queues x at_queue room_x))
        (Step.reads_inactive y refl refl))
      (Step.sends y refl room_y),
  contents-push c.spsc spsc_valid y spsc_small room_y,
  contents-push c.bucket bucket_valid x bucket_small room_x,
  refl,
  refl,
  refl,
)
