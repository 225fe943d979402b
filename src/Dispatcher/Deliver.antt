-- ===== src/Dispatcher/Deliver.antt =====
-- `dispatch` without other threads in between is one way of taking the steps of a channel.
use mathlib.Core.Path.{subst}
use nebula_x_trader.Prelude.{
  sym, arith, ◌≡◌, refl, true, false, Option, none, some, [], ◌∷◌, ◌++◌, Bool-cases, inl, inr, ◌⊎◌,
}
use nebula_x_trader.Types.{MarketEvent}
use nebula_x_trader.EventRing.{EventRing, push}
use nebula_x_trader.Dispatcher.{RetryBucket, deliver}
use nebula_x_trader.Dispatcher.Channel.{ready, Channel, Step}

-- the steps of the parser's thread
abbrev pub IsParserStep : {c d : Channel} → Step c d → Type 0
IsParserStep (Step.reads_active ev at set) = Unit
IsParserStep (Step.reads_inactive ev at unset) = Unit
IsParserStep (Step.queues ev at room) = Unit
IsParserStep (Step.sends ev at room) = Unit
IsParserStep (Step.finds_full ev at full) = Unit
IsParserStep (Step.parks ev at room) = Unit
IsParserStep (Step.raises at) = Unit
IsParserStep _ = ⊥

-- any number of them, no other thread taking a step
pub data ParserRun (c : Channel) : Channel → Type 0 where
  start : ParserRun c c
  next : {d e : Channel} → ParserRun c d → (s : Step d e) → IsParserStep s → ParserRun c e

-- Where `dispatch` returns, its steps lead to what it leaves behind; where it waits, it has room in
-- neither ring that it may use.
abbrev pub Agrees : Channel → MarketEvent → Option (EventRing × RetryBucket) → Type 0
Agrees c ev none =
    ((push c.bucket ev).0 ≡ false) × ((c.active ≡ true) ⊎ ((push c.spsc ev).0 ≡ false))
Agrees c ev (some (spsc, rq)) = ParserRun c (record c {
  spsc = spsc;
  bucket = rq.bucket;
  active = rq.active;
  parser = ready;
  sent = c.sent ++ ev ∷ [];
})

-- Whatever is in the rings, with the parser between two events: an event that `dispatch` delivers leaves
-- the rings and `active` as steps of the parser alone, with none of another thread in between, can leave
-- them; where it waits, the bucket is full, and so is the worker's ring unless the bucket is active.
pub deliver_steps :
    (c : Channel) (ev : MarketEvent)
    → c.parser ≡ ready
    → Agrees c ev (deliver c.spsc (record { bucket = c.bucket; active = c.active }) ev)
unfolding deliver
deliver_steps c ev at = elim (Bool-cases c.active) [
  | inl set ↦ elim (Bool-cases (push c.bucket ev).0) [
    | inl room ↦
        subst (Agrees c ev)
          (sym (
            delivers (some (c.spsc, record { bucket = (push c.bucket ev).1; active = c.active }))
              (ground arith)))
          (next (next start (Step.reads_active ev at set) tt) (Step.queues ev refl room) tt)
    | inr full ↦ subst (Agrees c ev) (sym (delivers none (ground arith))) (full, inl set)
  ]
  | inr unset ↦ elim (Bool-cases (push c.spsc ev).0) [
    | inl sent ↦
        subst (Agrees c ev)
          (sym (
            delivers (some ((push c.spsc ev).1, record { bucket = c.bucket; active = c.active }))
              (ground arith)))
          (next (next start (Step.reads_inactive ev at unset) tt) (Step.sends ev refl sent) tt)
    | inr full ↦ elim (Bool-cases (push c.bucket ev).0) [
      | inl room ↦
          subst (Agrees c ev)
            (sym (
              delivers (some (c.spsc, record { bucket = (push c.bucket ev).1; active = true }))
                (ground arith)))
            (next
              (next
                (next (next start (Step.reads_inactive ev at unset) tt)
                  (Step.finds_full ev refl full) tt)
                (Step.parks ev refl room) tt)
              (Step.raises refl) tt)
      | inr both ↦ subst (Agrees c ev) (sym (delivers none (ground arith))) (both, inr full)
    ]
  ]
]
  where
    -- the outcome, once it is computed
    delivers :
        (o : Option (EventRing × RetryBucket))
        → deliver c.spsc (record { bucket = c.bucket; active = c.active }) ev ≡ o
        → deliver c.spsc (record { bucket = c.bucket; active = c.active }) ev ≡ o
    delivers o e = e
