-- ===== src/Dispatcher/Order/Steps.antt =====
-- Every calm step keeps the invariant.
use mathlib.Core.Path.{subst, ap₂}
use nebula_x_trader.Prelude.{
  ◌+◌, ◌<◌, ◌≡◌, refl, sym, ap, ◌∙◌, Bool, true, Option, List, [], ◌∷◌, ◌++◌,
}
use nebula_x_trader.Prelude.Words.{u64_mod}
use nebula_x_trader.Types.{MarketEvent}
use nebula_x_trader.EventRing.{push, pop}
use nebula_x_trader.EventRing.Fifo.{
  contents, dequeue, pop_refines, push-IsValid, pop-IsValid, peek-pop, contents-push, contents-pop,
}
use nebula_x_trader.Dispatcher.Channel.{
  ParserAt, ready, raising, direct, parking, queueing, RetryAt, looking, moved, checking, clearing,
  holding, Channel, Step,
}
use nebula_x_trader.Dispatcher.Channel
use nebula_x_trader.Dispatcher.Order.{in_hand, waiting, Relies, Holds, IsOrdered, Calm}
use nebula_x_trader.Dispatcher.Order.Pieces.{
  in_hand_more, sent_on, moved_on, queued_on, received_on, waiting-append, true-ne-false,
  waiting-nil, Relies-tail, Relies-cleared,
}

module _ {c : Channel} (o : IsOrdered c) where
  open o use {spsc_valid, bucket_valid, relies, holds, in_order}

  Relies-at : (p : ParserAt) → c.parser ≡ p → Relies p c.active (contents c.bucket)
  Relies-at p at = subst (λ (p : ParserAt). Relies p c.active (contents c.bucket)) at relies

  Holds-at : (r : RetryAt) → c.retry ≡ r → Holds r (contents c.bucket)
  Holds-at r at = subst (λ (r : RetryAt). Holds r (contents c.bucket)) at holds

  order_parser :
      (p : ParserAt)
      → c.parser ≡ p
      → c.received ++ (contents c.spsc ++ (waiting c.retry (contents c.bucket) ++ in_hand p))
        ≡ c.sent
  order_parser p at =
      subst
        (λ (p : ParserAt).
          c.received ++ (contents c.spsc ++ (waiting c.retry (contents c.bucket) ++ in_hand p))
          ≡ c.sent)
        at in_order

  order_retry :
      (r : RetryAt)
      → c.retry ≡ r
      → c.received ++ (contents c.spsc ++ (waiting r (contents c.bucket) ++ in_hand c.parser))
        ≡ c.sent
  order_retry r at =
      subst
        (λ (r : RetryAt).
          c.received ++ (contents c.spsc ++ (waiting r (contents c.bucket) ++ in_hand c.parser))
          ≡ c.sent)
        at in_order

  -- an event that the parser adds to the bucket
  joins :
      (ev : MarketEvent) (p : ParserAt)
      → in_hand p ≡ []
      → Relies p c.active (contents (push c.bucket ev).1)
      → (push c.bucket ev).0 ≡ true
      → c.bucket.tail + 1 < u64_mod
      → c.received ++ (contents c.spsc ++ (waiting c.retry (contents c.bucket) ++ ev ∷ [])) ≡ c.sent
      → IsOrdered (record c { parser = p; bucket = (push c.bucket ev).1 })
  joins ev p free relies_now done small order =
      let added = contents-push c.bucket bucket_valid ev small done in
      let at_end = waiting-append c.retry (contents c.bucket) ev holds in
      record {
        spsc_valid = spsc_valid;
        bucket_valid = push-IsValid c.bucket ev bucket_valid small;
        relies = relies_now;
        holds = subst (Holds c.retry) (sym added) at_end.1;
        in_order =
            ap (λ (w : List MarketEvent). c.received ++ (contents c.spsc ++ w))
              (ap₂ (λ (w : List MarketEvent) (h : List MarketEvent). w ++ h)
                (ap (waiting c.retry) added ∙ at_end.0) free)
            ∙ queued_on c.received (contents c.spsc) [] ev (waiting c.retry (contents c.bucket))
                c.sent order;
      }

  -- what the retry thread does without a ring
  turns :
      (r : RetryAt)
      → Holds r (contents c.bucket)
      → waiting r (contents c.bucket) ≡ waiting c.retry (contents c.bucket)
      → IsOrdered (record c { retry = r })
  turns r holds_now same = record {
    spsc_valid = spsc_valid;
    bucket_valid = bucket_valid;
    relies = relies;
    holds = holds_now;
    in_order =
        ap (λ (w : List MarketEvent). c.received ++ (contents c.spsc ++ (w ++ in_hand c.parser)))
          same
        ∙ in_order;
  }

  -- what the parser does without a ring
  waits :
      (p : ParserAt) (active : Bool)
      → Relies p active (contents c.bucket)
      → in_hand p ≡ in_hand c.parser
      → IsOrdered (record c { parser = p; active = active })
  waits p active relies_now same = record {
    spsc_valid = spsc_valid;
    bucket_valid = bucket_valid;
    relies = relies_now;
    holds = holds;
    in_order =
        ap
          (λ (h : List MarketEvent).
            c.received ++ (contents c.spsc ++ (waiting c.retry (contents c.bucket) ++ h)))
          same
        ∙ in_order;
  }

  -- an event that the parser begins with
  begins :
      (ev : MarketEvent) (p : ParserAt)
      → c.parser ≡ ready
      → in_hand p ≡ ev ∷ []
      → Relies p c.active (contents c.bucket)
      → IsOrdered (record c { parser = p; sent = c.sent ++ ev ∷ [] })
  begins ev p at has relies_now = record {
    spsc_valid = spsc_valid;
    bucket_valid = bucket_valid;
    relies = relies_now;
    holds = holds;
    in_order =
        ap
          (λ (h : List MarketEvent).
            c.received ++ (contents c.spsc ++ (waiting c.retry (contents c.bucket) ++ h)))
          has
        ∙ in_hand_more c.received (contents c.spsc) [] ev (waiting c.retry (contents c.bucket))
            c.sent (order_parser ready at);
  }

  none_waiting : contents c.bucket ≡ [] → waiting c.retry (contents c.bucket) ≡ []
  none_waiting empty = ap (waiting c.retry) empty ∙ waiting-nil c.retry

pub Step-IsOrdered : {c d : Channel} (m : Step c d) → Calm m → IsOrdered c → IsOrdered d
Step-IsOrdered {c} (Channel.Step.reads_active ev at set) calm o =
    begins o ev (queueing ev) at refl set
Step-IsOrdered {c} (Channel.Step.reads_inactive ev at unset) calm o =
    begins o ev (direct ev) at refl (Relies-at o ready at unset)
Step-IsOrdered {c} (Channel.Step.queues ev at done) calm o =
    joins o ev ready refl
      (λ unset. absurd (true-ne-false (sym (Relies-at o (queueing ev) at) ∙ unset))) done calm
      (order_parser o (queueing ev) at)
Step-IsOrdered {c} (Channel.Step.sends ev at done) calm o = record {
  spsc_valid = push-IsValid c.spsc ev o.spsc_valid calm;
  bucket_valid = o.bucket_valid;
  relies = λ unset. Relies-at o (direct ev) at;
  holds = o.holds;
  in_order =
      ap
        (λ (s : List MarketEvent). c.received ++ (s ++ (waiting c.retry (contents c.bucket) ++ [])))
        (contents-push c.spsc o.spsc_valid ev calm done)
      ∙ sent_on c.received (contents c.spsc) [] ev (waiting c.retry (contents c.bucket)) c.sent
          (none_waiting o (Relies-at o (direct ev) at)) (order_parser o (direct ev) at);
}
Step-IsOrdered {c} (Channel.Step.finds_full ev at full) calm o =
    waits o (parking ev) c.active (Relies-at o (direct ev) at) (sym (ap in_hand at))
Step-IsOrdered {c} (Channel.Step.parks ev at done) calm o =
    joins o ev raising refl tt done calm (order_parser o (parking ev) at)
Step-IsOrdered {c} (Channel.Step.raises at) calm o =
    waits o ready true (λ unset. absurd (true-ne-false unset)) (sym (ap in_hand at))
Step-IsOrdered {c} (Channel.Step.peeks ev at head) calm o =
    turns o (holding ev)
      (
        contents (pop c.bucket).1,
        contents-pop c.bucket o.bucket_valid ev (sym (peek-pop c.bucket) ∙ head),
      )
      (sym (ap (λ (r : RetryAt). waiting r (contents c.bucket)) at))
Step-IsOrdered {c} (Channel.Step.finds_none at none_left) calm o =
    turns o checking tt (sym (ap (λ (r : RetryAt). waiting r (contents c.bucket)) at))
Step-IsOrdered {c} (Channel.Step.moves ev at done) calm o =
    let (rest, head) = Holds-at o (holding ev) at in
    record {
      spsc_valid = push-IsValid c.spsc ev o.spsc_valid calm;
      bucket_valid = o.bucket_valid;
      relies = o.relies;
      holds = (ev, rest, head);
      in_order =
          ap₂
            (λ (s : List MarketEvent) (q : List MarketEvent).
              c.received ++ (s ++ (waiting moved q ++ in_hand c.parser)))
            (contents-push c.spsc o.spsc_valid ev calm done) head
          ∙ moved_on c.received (contents c.spsc) (in_hand c.parser) ev rest c.sent (
              ap
                (λ (q : List MarketEvent).
                  c.received ++ (contents c.spsc ++ (q ++ in_hand c.parser)))
                (sym head)
              ∙ order_retry o (holding ev) at);
    }
Step-IsOrdered {c} (Channel.Step.cannot_move ev at full) calm o =
    turns o checking tt (sym (ap (λ (r : RetryAt). waiting r (contents c.bucket)) at))
Step-IsOrdered {c} (Channel.Step.pops at) calm o =
    let (ev, rest, head) = Holds-at o moved at in
    let popped : contents (pop c.bucket).1 ≡ rest =
      ap (λ (p : Option MarketEvent × List MarketEvent). p.1) (pop_refines c.bucket o.bucket_valid)
      ∙ ap (λ (q : List MarketEvent). (dequeue q).1) head in
    record {
      spsc_valid = o.spsc_valid;
      bucket_valid = pop-IsValid c.bucket o.bucket_valid;
      relies =
          subst (Relies c.parser c.active) (sym popped) (
            Relies-tail c.parser c.active ev rest (subst (Relies c.parser c.active) head o.relies));
      holds = tt;
      in_order =
          ap (λ (q : List MarketEvent). c.received ++ (contents c.spsc ++ (q ++ in_hand c.parser)))
            (popped ∙ ap (waiting moved) (sym head))
          ∙ order_retry o moved at;
    }
Step-IsOrdered {c} (Channel.Step.sees_empty at none_left) calm o =
    turns o clearing tt (sym (ap (λ (r : RetryAt). waiting r (contents c.bucket)) at))
Step-IsOrdered {c} (Channel.Step.sees_more at left) calm o =
    turns o looking tt (sym (ap (λ (r : RetryAt). waiting r (contents c.bucket)) at))
Step-IsOrdered {c} (Channel.Step.clears at) (empty, none_queued) o = record {
  spsc_valid = o.spsc_valid;
  bucket_valid = o.bucket_valid;
  relies = Relies-cleared c.parser c.active (contents c.bucket) empty none_queued o.relies;
  holds = tt;
  in_order =
      ap (λ (q : List MarketEvent). c.received ++ (contents c.spsc ++ (q ++ in_hand c.parser)))
        (sym (ap (λ (r : RetryAt). waiting r (contents c.bucket)) at))
      ∙ o.in_order;
}
Step-IsOrdered {c} (Channel.Step.receives ev took) calm o = record {
  spsc_valid = pop-IsValid c.spsc o.spsc_valid;
  bucket_valid = o.bucket_valid;
  relies = o.relies;
  holds = o.holds;
  in_order =
      received_on c.received (contents (pop c.spsc).1) [] ev
        (waiting c.retry (contents c.bucket) ++ in_hand c.parser) c.sent
        (ap
            (λ (s : List MarketEvent).
              c.received ++ (s ++ (waiting c.retry (contents c.bucket) ++ in_hand c.parser)))
            (sym (contents-pop c.spsc o.spsc_valid ev took))
          ∙ o.in_order);
}
