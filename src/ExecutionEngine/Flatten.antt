-- ===== src/ExecutionEngine/Flatten.antt =====
-- The forced cancellation after a drawdown, `flatten_on_drawdown`.
use nebula_x_trader.Prelude.{
  ℕ, ◌≡◌, refl, sym, ◌∙◌, true, false, none, some, [], ◌∷◌, ◌==◌, arith, Bool-cases, Option-cases,
  inl, inr, ◌⊎◌,
}
use mathlib.Core.Path.{subst}
use nebula_x_trader.Prelude.Dict.{Dict, lookup, lookup-nil, lookup-cons}
use nebula_x_trader.OrderCodec.{OrderCodec}
use nebula_x_trader.OrderManager.{OrderManager, Entry, entry, is_active, request_cancel, status}
use nebula_x_trader.OrderManager.Table.{entry-request_cancel}
use nebula_x_trader.OrderManager.Lifecycle.{status-entry, status-absent}
use nebula_x_trader.RiskManager
use nebula_x_trader.ExecutionEngine.{
  Engine, transmit, flatten_one, flatten_each, flatten_on_drawdown,
}

module _ {K : Type 0} (proto : OrderCodec K) where
  -- One visit asks for the cancellation of its order or leaves the order manager alone.
  flatten_one-manager :
      (id : ℕ) (x : Entry) (e : Engine K)
      → ((flatten_one proto id x e).manager ≡ e.manager)
        ⊎ ((flatten_one proto id x e).manager ≡ (request_cancel e.manager id).1)
  unfolding flatten_one transmit
  flatten_one-manager id x e = ground arith

  flatten_one-risk : (id : ℕ) (x : Entry) (e : Engine K) → (flatten_one proto id x e).risk ≡ e.risk
  unfolding flatten_one transmit
  flatten_one-risk id x e = ground arith

  flatten_one-link : (id : ℕ) (x : Entry) (e : Engine K) → (flatten_one proto id x e).link ≡ e.link
  unfolding flatten_one transmit
  flatten_one-link id x e = ground arith

  -- What every request for a cancellation keeps is kept.
  module _ (P : OrderManager → Type 0)
      (keeps : (m : OrderManager) (id : ℕ) → P m → P (request_cancel m id).1) where
    flatten_each-keeps :
        (l : Dict Entry) (e : Engine K) → P e.manager → P (flatten_each proto l e).manager
    unfolding flatten_each
    flatten_each-keeps [] e h = h
    flatten_each-keeps ((id, x) ∷ l) e h =
        flatten_each-keeps l (flatten_one proto id x e) (one (flatten_one-manager id x e))
      where
        one :
            ((flatten_one proto id x e).manager ≡ e.manager)
              ⊎ ((flatten_one proto id x e).manager ≡ (request_cancel e.manager id).1)
            → P (flatten_one proto id x e).manager
        one (inl same) = subst P (sym same) h
        one (inr asked) = subst P (sym asked) (keeps e.manager id h)

    pub flatten_on_drawdown-keeps :
        (e : Engine K) → P e.manager → P (flatten_on_drawdown proto e).manager
    unfolding flatten_on_drawdown
    flatten_on_drawdown-keeps e h = elim (Bool-cases e.flatten_issued) [
      | inl issued ↦ rw (issued, flatten_on_drawdown) h
      | inr not_yet ↦ elim (Bool-cases (RiskManager.drawdown_flatten e.risk)) [
        | inl broken ↦
            rw (not_yet, flatten_on_drawdown, broken)
              (flatten_each-keeps e.manager.orders (record e { flatten_issued = true }) h)
        | inr fine ↦ rw (not_yet, flatten_on_drawdown, fine) h
      ]
    ]

  flatten_each-risk : (l : Dict Entry) (e : Engine K) → (flatten_each proto l e).risk ≡ e.risk
  unfolding flatten_each
  flatten_each-risk [] e = refl
  flatten_each-risk ((id, x) ∷ l) e =
      flatten_each-risk l (flatten_one proto id x e) ∙ flatten_one-risk id x e

  pub risk-flatten_on_drawdown : (e : Engine K) → (flatten_on_drawdown proto e).risk ≡ e.risk
  unfolding flatten_on_drawdown
  risk-flatten_on_drawdown e =
      ground (arith, flatten_each-risk e.manager.orders (record e { flatten_issued = true }))

  -- After its visit an order is not active any more, if there is no sender.
  flatten_one-visits :
      (id : ℕ) (x : Entry) (e : Engine K)
      → e.link ≡ none
      → is_active x.status ≡ true
      → (flatten_one proto id x e).manager ≡ (request_cancel e.manager id).1
  unfolding flatten_one transmit
  flatten_one-visits id x e unlinked active = ground arith

-- no entry under `j` is active
abbrev pub IsIdle : ℕ → OrderManager → Type 0
IsIdle j m = (x : Entry) → entry m j ≡ some x → is_active x.status ≡ false

status-IsIdle : (j : ℕ) (m : OrderManager) → IsIdle j m → is_active (status m j) ≡ false
status-IsIdle j m idle = elim (Option-cases (entry m j)) [
  | inl gone ↦ rw (status-absent m j gone)
  | inr (x, held) ↦ rw (status-entry m j x held) (idle x held)
]

IsIdle-or_active :
    (j : ℕ) (m : OrderManager)
    → IsIdle j m ⊎ ((x : Entry) × (entry m j ≡ some x) × (is_active x.status ≡ true))
IsIdle-or_active j m = elim (Option-cases (entry m j)) [
  | inl gone ↦ inl (λ x h. absurd (cc))
  | inr (x, held) ↦ elim (Bool-cases (is_active x.status)) [
    | inl active ↦ inr (x, held, active)
    | inr idle ↦ inl (λ y h. ground arith)
  ]
]

request_cancel-IsIdle :
    (j : ℕ) (m : OrderManager) (id : ℕ) → IsIdle j m → IsIdle j (request_cancel m id).1
request_cancel-IsIdle j m id idle x h = elim (Option-cases (entry m j)) [
  | inl gone ↦ ground (arith, entry-request_cancel m id j)
  | inr (y, held) ↦ ground (arith, entry-request_cancel m id j, idle y)
]

request_cancel-idles : (j : ℕ) (m : OrderManager) → IsIdle j (request_cancel m j).1
request_cancel-idles j m x h = elim (Option-cases (entry m j)) [
  | inl gone ↦ ground (arith, entry-request_cancel m j j)
  | inr (y, held) ↦ ground (arith, entry-request_cancel m j j)
]

module _ {K : Type 0} (proto : OrderCodec K) where
  -- Each order of the table that is active is visited.
  flatten_each-IsIdle :
      (l : Dict Entry) (e : Engine K) (j : ℕ)
      → e.link ≡ none
      → IsIdle j e.manager ⊎ ((x : Entry) × (lookup j l ≡ some x) × (is_active x.status ≡ true))
      → IsIdle j (flatten_each proto l e).manager
  unfolding flatten_each
  flatten_each-IsIdle [] e j unlinked (inl idle) = idle
  flatten_each-IsIdle [] e j unlinked (inr (x, held, active)) =
      absurd (cc (lookup-nil {V = Entry} j))
  flatten_each-IsIdle ((id, y) ∷ l) e j unlinked (inl idle) =
      flatten_each-IsIdle l (flatten_one proto id y e) j (flatten_one-link proto id y e ∙ unlinked)
        (inl (flatten_one-keeps id y e idle))
    where
      flatten_one-keeps :
          (id : ℕ) (y : Entry) (e : Engine K)
          → IsIdle j e.manager
          → IsIdle j (flatten_one proto id y e).manager
      flatten_one-keeps id y e idle = elim (flatten_one-manager proto id y e) [
        | inl same ↦ subst (IsIdle j) (sym same) idle
        | inr asked ↦ subst (IsIdle j) (sym asked) (request_cancel-IsIdle j e.manager id idle)
      ]
  flatten_each-IsIdle ((id, y) ∷ l) e j unlinked (inr (x, held, active)) =
      elim (Bool-cases (id == j)) [
        | inl hit ↦
            let here : id ≡ j = ground arith in
            let same : y ≡ x = ground (arith, lookup-cons id j y l) in
            flatten_each-IsIdle l (flatten_one proto id y e) j
              (flatten_one-link proto id y e ∙ unlinked)
              (inl (
                subst (IsIdle j) (sym (flatten_one-visits proto id y e unlinked (rw same active))) (
                  subst (λ k. IsIdle j (request_cancel e.manager k).1) (sym here)
                    (request_cancel-idles j e.manager))))
        | inr miss ↦
            flatten_each-IsIdle l (flatten_one proto id y e) j
              (flatten_one-link proto id y e ∙ unlinked)
              (inr (x, ground (arith, lookup-cons id j y l), active))
      ]

  -- Without a sender, the first time that the drawdown breaks the second threshold, every order
  -- that is SUBMITTED or PARTIAL_FILL is asked to be cancelled: no order is
  -- active afterwards.
  pub flatten_leaves_none_active :
      (e : Engine K) (j : ℕ)
      → e.link ≡ none
      → e.flatten_issued ≡ false
      → RiskManager.drawdown_flatten e.risk ≡ true
      → is_active (status (flatten_on_drawdown proto e).manager j) ≡ false
  unfolding flatten_on_drawdown
  flatten_leaves_none_active e j unlinked not_yet broken =
      rw (not_yet, flatten_on_drawdown, broken)
        (status-IsIdle j _ (
          flatten_each-IsIdle e.manager.orders (record e { flatten_issued = true }) j unlinked
            (IsIdle-or_active j e.manager)))
