-- ===== src/ExecutionEngine/Cancel.antt =====
-- `cancel_order`: the request is marked before it is sent.
use nebula_x_trader.Prelude.{ℕ, ◌≡◌, ap, ◌∙◌, Bool, true, false, none, some, List, length, arith}
use nebula_x_trader.Prelude.Int.{ℤ, pos, eqb_ℤ}
use nebula_x_trader.Types.{pending_cancel}
use nebula_x_trader.OrderCodec.{OrderCodec}
use nebula_x_trader.OrderManager.{
  OrderManager, Entry, entry, now, is_active, request_cancel, status,
}
use nebula_x_trader.OrderManager.Table.{cancel_requested, entry-request_cancel}
use nebula_x_trader.OrderManager.Lifecycle.{status-entry, request_cancel-answer}
use nebula_x_trader.ExecutionEngine.{Engine, transmit, cancel_order}

requested-status :
    (m : OrderManager) (id : ℕ) (x : Entry)
    → entry m id ≡ some x
    → is_active x.status ≡ true
    → status (request_cancel m id).1 id ≡ pending_cancel
requested-status m id x held active =
    status-entry (request_cancel m id).1 id (cancel_requested (now m) x)
      (ground (arith, entry-request_cancel m id id))
    ∙ rw active

module _ {K : Type 0} (proto : OrderCodec K) where
  -- the frame that the codec writes for the request, if any, goes out whole
  abbrev pub delivered : Engine K → (List (List ℕ) → List ℕ → ℤ) → K → ℕ → Bool
  delivered e send k id = elim (proto.encode_cancel_request k id 64).0 [
    | none ↦ false
    | some bytes ↦ eqb_ℤ (send e.sent bytes) (pos (length bytes))
  ]

  cancel_active :
      (e : Engine K) (id : ℕ) (send : List (List ℕ) → List ℕ → ℤ) (k : K)
      → e.link ≡ some send
      → e.codec ≡ some k
      → (request_cancel e.manager id).0 ≡ true
      → ((cancel_order proto e id).0 ≡ delivered e send k id)
        × ((cancel_order proto e id).1.manager ≡ (request_cancel e.manager id).1)
  unfolding cancel_order transmit
  cancel_active e id send k linked ready granted = (ground arith, ground arith)

  cancel_idle :
      (e : Engine K) (id : ℕ)
      → (request_cancel e.manager id).0 ≡ false
      → cancel_order proto e id ≡ (false, e)
  unfolding cancel_order transmit
  cancel_idle e id refused = ground arith

  -- With a sender and a codec, cancelling an order that is active marks it PENDING_CANCEL whether or
  -- not the request goes out; the answer says if it did. A second call for the order is refused and
  -- does nothing, so a request that failed to go out is not sent again.
  pub cancel_marks_before_sending :
      (e : Engine K) (id : ℕ) (x : Entry) (send : List (List ℕ) → List ℕ → ℤ) (k : K)
      → e.link ≡ some send
      → e.codec ≡ some k
      → entry e.manager id ≡ some x
      → is_active x.status ≡ true
      → let (sent, e') = cancel_order proto e id in
        (sent ≡ delivered e send k id)
        × (status e'.manager id ≡ pending_cancel)
        × (cancel_order proto e' id ≡ (false, e'))
  cancel_marks_before_sending e id x send k linked ready held active =
      let granted : (request_cancel e.manager id).0 ≡ true =
        (request_cancel-answer e.manager id).0
        ∙ ap is_active (status-entry e.manager id x held)
        ∙ active in
      let (answer, asked) = cancel_active e id send k linked ready granted in
      let marked : status (cancel_order proto e id).1.manager id ≡ pending_cancel =
        ap (λ m. status m id) asked ∙ requested-status e.manager id x held active in
      (
        answer,
        marked,
        cancel_idle (cancel_order proto e id).1 id (
            (request_cancel-answer (cancel_order proto e id).1.manager id).0 ∙ ap is_active marked),
      )
