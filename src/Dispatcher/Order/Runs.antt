-- ===== src/Dispatcher/Order/Runs.antt =====
-- Every calm run from a fresh channel delivers in order.
use mathlib.Core.Path.{subst, ap₂}
use nebula_x_trader.Prelude.{◌≡◌, sym, ◌∙◌, Bool, List, [], ◌++◌}
use nebula_x_trader.Types.{MarketEvent}
use nebula_x_trader.EventRing.Fifo.{contents}
use nebula_x_trader.Dispatcher.Channel.{ParserAt, direct, RetryAt, holding, Channel}
use nebula_x_trader.Dispatcher.Order.{
  in_hand, waiting, Relies, Holds, IsOrdered, IsFresh, CalmRun, start, next,
}
use nebula_x_trader.Dispatcher.Order.Pieces.{waiting-nil}
use nebula_x_trader.Dispatcher.Order.Steps.{Step-IsOrdered}

IsFresh-IsOrdered : {c : Channel} → IsFresh c → IsOrdered c
IsFresh-IsOrdered {c} f = record {
  spsc_valid = f.spsc_valid;
  bucket_valid = f.bucket_valid;
  relies =
      subst (λ (p : ParserAt). Relies p c.active (contents c.bucket)) (sym f.parser_ready)
        (λ _. f.bucket_empty);
  holds = subst (λ (r : RetryAt). Holds r (contents c.bucket)) (sym f.retry_looking) tt;
  in_order =
      rw (f.none_sent, f.none_received)
        (ap₂
            (λ (s : List MarketEvent) (q : List MarketEvent).
              s ++ (waiting c.retry q ++ in_hand c.parser))
            f.spsc_empty f.bucket_empty
          ∙ ap₂ (λ (w : List MarketEvent) (p : ParserAt). w ++ in_hand p) (waiting-nil c.retry)
              f.parser_ready);
}

CalmRun-IsOrdered : {c d : Channel} → IsFresh c → CalmRun c d → IsOrdered d
CalmRun-IsOrdered f start = IsFresh-IsOrdered f
CalmRun-IsOrdered f (next r m calm) = Step-IsOrdered m calm (CalmRun-IsOrdered f r)

not_both :
    (p : ParserAt) (r : RetryAt) (active : Bool) (q : List MarketEvent) (x y : MarketEvent)
    → Relies p active q
    → Holds r q
    → p ≡ direct x
    → r ≡ holding y
    → ⊥
not_both p r active q x y relies holds at held =
    let none_there : q ≡ [] = subst (λ (p : ParserAt). Relies p active q) at relies in
    let (rest, some_there) = subst (λ (r : RetryAt). Holds r q) held holds in cc

-- However the parser, the retry thread and the worker take turns from a fresh channel on, as long as
-- `active` is only cleared when no event is in the bucket or on the way to it, and the tails stay below
-- 2^64: what was dispatched is what the worker has received, then what is in its ring, then what of the
-- bucket has not been moved on, then what the parser holds, so that nothing is lost and nothing
-- overtakes; and the parser and the retry thread never push to the worker's ring at the same time.
pub dispatched_in_order :
    {c d : Channel}
    → IsFresh c
    → CalmRun c d
    → (d.received ++ (contents d.spsc ++ (waiting d.retry (contents d.bucket) ++ in_hand d.parser))
        ≡ d.sent)
      × ((x y : MarketEvent) → ¬ ((d.parser ≡ direct x) × (d.retry ≡ holding y)))
dispatched_in_order {d} f run =
    let o = CalmRun-IsOrdered f run in
    (
      o.in_order,
      λ x y (at, held).
          not_both d.parser d.retry d.active (contents d.bucket) x y o.relies o.holds at held,
    )
