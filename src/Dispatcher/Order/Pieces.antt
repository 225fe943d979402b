-- ===== src/Dispatcher/Order/Pieces.antt =====
-- The lists of the invariant, and what the threads rely on, as the rings change.
use mathlib.Core.List.{append_assoc, append-nil}
use nebula_x_trader.Prelude.{◌≡◌, refl, sym, ap, ◌∙◌, Bool, true, false, List, [], ◌∷◌, ◌++◌}
use nebula_x_trader.Types.{MarketEvent}
use nebula_x_trader.Dispatcher.Channel.{
  ParserAt, ready, raising, direct, parking, queueing, RetryAt, looking, moved, checking, clearing,
  holding,
}
use nebula_x_trader.Dispatcher.Order.{waiting, Relies, Holds, queued}

module _ {A : Type 0} (a s h : List A) (e : A) where
  pub in_hand_more :
      (w t : List A) → a ++ (s ++ (w ++ [])) ≡ t → a ++ (s ++ (w ++ e ∷ [])) ≡ t ++ e ∷ []
  in_hand_more w t o =
      sym (ap (λ (l : List A). l ++ e ∷ []) (sym o) ∙ (simp (append_assoc, append-nil)))

  pub sent_on :
      (w t : List A) → w ≡ [] → a ++ (s ++ (w ++ e ∷ [])) ≡ t → a ++ (s ++ e ∷ [] ++ (w ++ [])) ≡ t
  sent_on w t none_waits o =
      (simp (none_waits, append_assoc, append-nil))
      ∙ sym (ap (λ (l : List A). a ++ (s ++ (l ++ e ∷ []))) none_waits)
      ∙ o

  pub moved_on : (w t : List A) → a ++ (s ++ (e ∷ w ++ h)) ≡ t → a ++ (s ++ e ∷ [] ++ (w ++ h)) ≡ t
  moved_on w t o = (simp append_assoc) ∙ o

  pub queued_on :
      (w t : List A) → a ++ (s ++ (w ++ e ∷ [])) ≡ t → a ++ (s ++ (w ++ e ∷ [] ++ [])) ≡ t
  queued_on w t o = (simp (append_assoc, append-nil)) ∙ o

  pub received_on : (w t : List A) → a ++ (e ∷ s ++ w) ≡ t → a ++ e ∷ [] ++ (s ++ w) ≡ t
  received_on w t o = (simp append_assoc) ∙ o

-- What joins the bucket at its end waits there.
pub waiting-append :
    (r : RetryAt) (q : List MarketEvent) (ev : MarketEvent)
    → Holds r q
    → (waiting r (q ++ ev ∷ []) ≡ waiting r q ++ ev ∷ []) × Holds r (q ++ ev ∷ [])
waiting-append looking q ev h = (refl, tt)
waiting-append moved [] ev (x, rest, e) = cc
waiting-append moved (y ∷ q) ev h = (refl, (y, q ++ ev ∷ [], refl))
waiting-append checking q ev h = (refl, tt)
waiting-append clearing q ev h = (refl, tt)
waiting-append (holding x) q ev (rest, e) = (refl, (rest ++ ev ∷ [], rw e refl))

pub true-ne-false : true ≡ false → ⊥
true-ne-false e = cc

pub waiting-nil : (r : RetryAt) → waiting r [] ≡ []
waiting-nil looking = refl
waiting-nil moved = refl
waiting-nil checking = refl
waiting-nil clearing = refl
waiting-nil (holding x) = refl

pub Relies-tail :
    (p : ParserAt) (active : Bool) (ev : MarketEvent) (q : List MarketEvent)
    → Relies p active (ev ∷ q)
    → Relies p active q
Relies-tail ready active ev q h = λ unset. cc (h unset)
Relies-tail raising active ev q h = tt
Relies-tail (direct x) active ev q h = cc
Relies-tail (parking x) active ev q h = cc
Relies-tail (queueing x) active ev q h = h

pub Relies-cleared :
    (p : ParserAt) (active : Bool) (q : List MarketEvent)
    → q ≡ []
    → queued p ≡ []
    → Relies p active q
    → Relies p false q
Relies-cleared ready active q empty none_queued h = λ _. empty
Relies-cleared raising active q empty none_queued h = tt
Relies-cleared (direct x) active q empty none_queued h = empty
Relies-cleared (parking x) active q empty none_queued h = empty
Relies-cleared (queueing x) active q empty none_queued h = cc
