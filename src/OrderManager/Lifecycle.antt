-- ===== src/OrderManager/Lifecycle.antt =====
-- Every call moves an order along the lifecycle or leaves it, and never changes its order.
use nebula_x_trader.Prelude.{
  ℕ, ◌≡◌, ◌+◌, ◌<◌, refl, ap, sym, ◌∙◌, Bool, true, false, none, some, List, [], ◌∷◌, arith, ◌==◌,
  if◌then◌else◌, ◌⊎◌, inl, inr, Bool-cases, Option-cases, length,
}
use nebula_x_trader.Prelude.Int.{ℤ}
use mathlib.Core.Path.{subst}
use nebula_x_trader.Prelude.Words.{u64_mod}
use nebula_x_trader.Types.{
  Order, OrderStatus, pending, submitted, partial_fill, pending_cancel, filled, cancelled, rejected,
  not_found,
}
use nebula_x_trader.OrderManager.{
  OrderManager, Entry, now, entry, fill_entry, is_pending, is_active, is_pending_cancel, new_order,
  on_accept, on_fill, request_cancel, on_cancel, on_reject, status, order,
}
use nebula_x_trader.OrderManager.Table.{
  Rewrites, accepted, filled_up, cancel_requested, cancelled_by, rejected_by, entry-on_accept,
  entry-on_fill, entry-request_cancel, entry-on_cancel, entry-on_reject, entry-new_order,
}
use nebula_x_trader.OrderManager.Calls.{Call, perform, run, AllInRange, Step, Reach, here, next}
use nebula_x_trader.OrderManager.Invariant.{IsValid, perform-IsValid, next_id-perform}

-- The order is the same, and the status moved by at most one step.
abbrev pub Moves : Entry → Entry → Type 0
Moves e e' = (e'.order ≡ e.order) × ((e'.status ≡ e.status) ⊎ Step e.status e'.status)

pending-eq : (s : OrderStatus) → is_pending s ≡ true → s ≡ pending
pending-eq pending h = refl
pending-eq s h = cc

pending_cancel-eq : (s : OrderStatus) → is_pending_cancel s ≡ true → s ≡ pending_cancel
pending_cancel-eq pending_cancel h = refl
pending_cancel-eq s h = cc

active-fills :
    (s : OrderStatus) (b : Bool) → is_active s ≡ true → Step s (if b then filled else partial_fill)
active-fills submitted true h = Step.filled_at_once
active-fills submitted false h = Step.first_part
active-fills partial_fill true h = Step.filled_up
active-fills partial_fill false h = Step.next_part
active-fills s b h = cc

active-withdraws : (s : OrderStatus) → is_active s ≡ true → Step s pending_cancel
active-withdraws submitted h = Step.withdrawn
active-withdraws partial_fill h = Step.rest_withdrawn
active-withdraws s h = cc

accepted-Moves : (ref t : ℕ) (e : Entry) → Moves e (accepted ref t e)
accepted-Moves ref t e = elim (Bool-cases (is_pending e.status)) [
  | inl h ↦ rw h (refl, inr (rw (pending-eq e.status h) Step.accepted))
  | inr h ↦ rw h (refl, inl refl)
]

filled_up-Moves : (qty : ℕ) (price : ℤ) (t : ℕ) (e : Entry) → Moves e (filled_up qty price t e)
unfolding fill_entry
filled_up-Moves qty price t e = elim (Bool-cases (is_active e.status)) [
  | inl h ↦ rw h (refl, inr (active-fills e.status _ h))
  | inr h ↦ rw h (refl, inl refl)
]

cancel_requested-Moves : (t : ℕ) (e : Entry) → Moves e (cancel_requested t e)
cancel_requested-Moves t e = elim (Bool-cases (is_active e.status)) [
  | inl h ↦ rw h (refl, inr (active-withdraws e.status h))
  | inr h ↦ rw h (refl, inl refl)
]

cancelled_by-Moves : (t : ℕ) (e : Entry) → Moves e (cancelled_by t e)
cancelled_by-Moves t e = elim (Bool-cases (is_pending_cancel e.status)) [
  | inl h ↦ rw h (refl, inr (rw (pending_cancel-eq e.status h) Step.confirmed))
  | inr h ↦ rw h (refl, inl refl)
]

rejected_by-Moves : (t : ℕ) (e : Entry) → Moves e (rejected_by t e)
rejected_by-Moves t e = elim (Bool-cases (is_pending e.status)) [
  | inl h ↦ rw h (refl, inr (rw (pending-eq e.status h) Step.refused))
  | inr h ↦ rw h (refl, inl refl)
]

Rewrites-Keeps :
    (id : ℕ) (f : Entry → Entry) (m m' : OrderManager)
    → Rewrites id f m m'
    → ((e : Entry) → Moves e (f e))
    → (j : ℕ) (e : Entry) → entry m j ≡ some e
    → (e' : Entry) × (entry m' j ≡ some e') × Moves e e'
Rewrites-Keeps id f m m' r moves j e h = elim (Bool-cases (id == j)) [
  | inl hit ↦ (f e, r j ∙ rw (hit, h) refl, moves e)
  | inr miss ↦ (e, r j ∙ rw miss h, (refl, inl refl))
]

new_order-Keeps :
    (m : OrderManager) (o : Order)
    → IsValid m
    → (j : ℕ) (e : Entry) → entry m j ≡ some e
    → (e' : Entry) × (entry (new_order m o).0 j ≡ some e') × Moves e e'
new_order-Keeps m o v j e h =
    (e, ground (arith, entry-new_order m o j, v.unused j), (refl, inl refl))

-- Whatever the call, every order that the manager holds is still held, unchanged but for its
-- entry's progress, and its status stays or moves along one edge of the lifecycle.
pub perform-Moves :
    (c : Call) (m : OrderManager)
    → IsValid m
    → (j : ℕ) (e : Entry) → entry m j ≡ some e
    → (e' : Entry) × (entry (perform c m) j ≡ some e') × Moves e e'
unfolding perform
perform-Moves (Call.new o) m v = new_order-Keeps m o v
perform-Moves (Call.accept id ref) m v =
    Rewrites-Keeps id (accepted ref (now m)) m (on_accept m id ref) (entry-on_accept m id ref)
      (accepted-Moves ref (now m))
perform-Moves (Call.fill id qty price) m v =
    Rewrites-Keeps id (filled_up qty price (now m)) m (on_fill m id qty price)
      (entry-on_fill m id qty price) (filled_up-Moves qty price (now m))
perform-Moves (Call.ask_cancel id) m v =
    Rewrites-Keeps id (cancel_requested (now m)) m (request_cancel m id).1
      (entry-request_cancel m id) (cancel_requested-Moves (now m))
perform-Moves (Call.cancel id) m v =
    Rewrites-Keeps id (cancelled_by (now m)) m (on_cancel m id).1 (entry-on_cancel m id)
      (cancelled_by-Moves (now m))
perform-Moves (Call.reject id) m v =
    Rewrites-Keeps id (rejected_by (now m)) m (on_reject m id) (entry-on_reject m id)
      (rejected_by-Moves (now m))

-- `t` comes first: the history is extended at its front.
Reach-from : {s t u : OrderStatus} → Reach t u → (t ≡ s) ⊎ Step s t → Reach s u
Reach-from {s} {t} {u} here (inl p) = subst (λ x. Reach x t) p here
Reach-from here (inr st) = next here st
Reach-from (next r st) q = next (Reach-from r q) st

-- The history of one order, call by call: after each call its entry is there, with the same terms, and
-- its status is the one before the call or one edge of the lifecycle further.
abbrev pub Follows : List Call → OrderManager → ℕ → Entry → Type 0
Follows [] m j e = Unit
Follows (c ∷ cs) m j e =
    (e' : Entry) × (entry (perform c m) j ≡ some e')
    × (e'.order ≡ e.order)
    × ((e'.status ≡ e.status) ⊎ Step e.status e'.status)
    × Follows cs (perform c m) j e'

-- From a valid manager, over a whole history with 64-bit quantities that does not run out of ids, an
-- order keeps its terms, and each single call leaves its status or moves it along one edge of the
-- lifecycle, so that no call skips a stage or goes back; the status at the end is reached along these
-- edges.
pub run_reaches :
    (cs : List Call) (m : OrderManager)
    → AllInRange cs
    → m.next_id + length cs < u64_mod
    → IsValid m
    → (j : ℕ) (e : Entry) → entry m j ≡ some e
    → (e' : Entry) × (entry (run cs m) j ≡ some e')
      × (e'.order ≡ e.order)
      × Reach e.status e'.status
      × Follows cs m j e
unfolding run
run_reaches [] m words room v j e h = (e, h, refl, here, tt)
run_reaches (c ∷ cs) m words room v j e h =
    let (e1, h1, (same1, move)) = perform-Moves c m v j e h in
    let (e2, h2, same2, reach, later) =
      run_reaches cs (perform c m) words.1 (omega (arith, next_id-perform c m (omega arith)))
        (perform-IsValid c m words.0 (omega arith) v) j e1 h1 in
    (e2, h2, same2 ∙ same1, Reach-from reach move, (e1, h1, same1, move, later))

-- FILLED, CANCELLED and REJECTED.
abbrev pub is_terminal : OrderStatus → Bool
is_terminal filled = true
is_terminal cancelled = true
is_terminal rejected = true
is_terminal _ = false

terminal-Step : {s t : OrderStatus} → Step s t → is_terminal s ≡ true → ⊥
terminal-Step Step.accepted h = cc
terminal-Step Step.refused h = cc
terminal-Step Step.first_part h = cc
terminal-Step Step.next_part h = cc
terminal-Step Step.filled_at_once h = cc
terminal-Step Step.filled_up h = cc
terminal-Step Step.withdrawn h = cc
terminal-Step Step.rest_withdrawn h = cc
terminal-Step Step.confirmed h = cc

terminal-Reach : {s t : OrderStatus} → Reach s t → is_terminal s ≡ true → t ≡ s
terminal-Reach here h = refl
terminal-Reach {s} (next r st) h =
    absurd (terminal-Step st (ap is_terminal (terminal-Reach r h) ∙ h))

pub status-entry :
    (m : OrderManager) (j : ℕ) (e : Entry) → entry m j ≡ some e → status m j ≡ e.status
unfolding status
status-entry m j e h = ground arith

pub status-absent : (m : OrderManager) (j : ℕ) → entry m j ≡ none → status m j ≡ not_found
unfolding status
status-absent m j h = ground arith

pub order-entry :
    (m : OrderManager) (j : ℕ) (e : Entry) → entry m j ≡ some e → order m j ≡ some e.order
unfolding order
order-entry m j e h = ground arith

-- `request_cancel` grants what is active, and leaves the rest alone.
pub request_cancel-answer :
    (m : OrderManager) (j : ℕ)
    → ((request_cancel m j).0 ≡ is_active (status m j))
      × (is_active (status m j) ≡ false → request_cancel m j ≡ (false, m))
unfolding request_cancel status
request_cancel-answer m j = (ground arith, λ h. ground arith)

-- A terminal status is final: from a valid manager, over a history with 64-bit quantities that does
-- not run out of ids, no later call changes the status of the order.
terminal_is_final :
    (cs : List Call) (m : OrderManager)
    → AllInRange cs
    → m.next_id + length cs < u64_mod
    → IsValid m
    → (j : ℕ) → is_terminal (status m j) ≡ true
    → status (run cs m) j ≡ status m j
terminal_is_final cs m words room v j h = elim (Option-cases (entry m j)) [
  | inl gone ↦ absurd (cc (status-absent m j gone, h))
  | inr (e, held) ↦
      let (e', held', same, reach, each) = run_reaches cs m words room v j e held in
      status-entry (run cs m) j e' held'
      ∙ terminal-Reach reach (rw (status-entry m j e held) at h)
      ∙ sym (status-entry m j e held)
]
