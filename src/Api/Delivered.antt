-- ===== src/Api/Delivered.antt =====
-- The transaction API on top of the chain of publishers: internal/api over internal/ingestion.
use mathlib.Core.Path.{subst}
use go_transaction_control_p.Ingestion.Chain.Published.{chain_publish-Delivers, Produced, Delivery}
use go_transaction_control_p.Api.Accepted.{Requested, handle_transaction-Outcome, Outcome}
use go_transaction_control_p.Ingestion.Events.{Event}
use go_transaction_control_p.Api.Handler.{
  bad_request, service_unavailable, accepted, handle_transaction, Status,
}
use go_transaction_control_p.Ingestion.Chain.{serve_publish, Shared}
use go_transaction_control_p.Prelude.Int.{ℤ}
use go_transaction_control_p.Ingestion.Publisher.{ProducedRecord, WireEvent}
use go_transaction_control_p.Api.Requests.{TransactionEventRequest}
use go_transaction_control_p.Ledger.Types.{Time}
use go_transaction_control_p.Prelude.{◌⊎◌, ◌≡◌, Bool, ℕ, Option, Bytes, true, false, inl, inr}

module _ {W : Type 0} (parse_uuid : Bytes → Option Bytes) (parse_time : Bytes → Option Time)
    (decode : Bytes → Option (TransactionEventRequest × ℕ)) (uuid_text : Bytes → Bytes)
    (format_time : Time → Bytes) (marshal : WireEvent → Option Bytes)
    (produce : Option ℤ → W → ProducedRecord → W × Bool) (topic : Bytes)
    (meanwhile : Shared → Shared) (clock : W → ℤ) where
  -- The publisher that the handlers are given.
  abbrev pub served : Shared × W → Event → (Shared × W) × Bool
  served = serve_publish uuid_text format_time marshal produce topic meanwhile clock

  -- What the request that was sent comes to at the producer: one acknowledged record of an acceptable
  -- event of that request, one that was not acknowledged or none, or a refusal that leaves everything
  -- alone.
  abbrev pub Delivered : Option Bytes → Shared × W → (Shared × W) × Status → Type 0
  Delivered sent g r =
      ((event : Event) × Requested parse_uuid parse_time decode served sent event
        × Produced uuid_text format_time marshal produce topic meanwhile g.1 event r.0.1 true
        × (r.1 ≡ accepted))
      ⊎ (((event : Event) × Requested parse_uuid parse_time decode served sent event
            × (Produced uuid_text format_time marshal produce topic meanwhile g.1 event r.0.1 false
                ⊎ (r.0.1 ≡ g.1))
            × (r.1 ≡ service_unavailable))
          ⊎ ((¬ ((event : Event) × Requested parse_uuid parse_time decode served sent event))
              × (r.0 ≡ g)
              × (r.1 ≡ bad_request)))

  served-Delivery :
      (g g' : Shared × W) (event : Event) (success : Bool)
      → served g event ≡ (g', success)
      → Delivery uuid_text format_time marshal produce topic meanwhile g.1 event g'.1 success
  unfolding serve_publish
  served-Delivery g g' event success h =
      subst
        (λ x. Delivery uuid_text format_time marshal produce topic meanwhile g.1 event x.0.1 x.1) h
        (chain_publish-Delivers uuid_text format_time marshal produce topic meanwhile clock g event)

  Outcome-Delivered :
      (sent : Option Bytes) (g : Shared × W) (r : (Shared × W) × Status)
      → Outcome parse_uuid parse_time decode served sent g r
      → Delivered sent g r
  Outcome-Delivered sent g r (inl (event, a, e, s)) = elim (served-Delivery g r.0 event true e) [
    | inl (_, p) ↦ inl (event, a, p, s)
    | inr (x, _) ↦ absurd cc
  ]
  Outcome-Delivered sent g r (inr (inl (event, a, e, s))) =
      elim (served-Delivery g r.0 event false e) [
        | inl (x, _) ↦ absurd cc
        | inr (_, p) ↦ inr (inl (event, a, p, s))
      ]
  Outcome-Delivered sent g r (inr (inr (n, e, s))) = inr (inr (n, e, s))

  -- A request over HTTP is answered 202 only if one Kafka record was produced and acknowledged, with the
  -- tenant's key and the event's JSON as its value, of the acceptable event of the request that the
  -- body holds: its identifier and time are read from the request's, its amounts are those of the
  -- request's texts, within the bounds, and its other fields are the request's. It is answered 503 only
  -- if the body holds such a request and that record was not acknowledged or none was produced, and 400,
  -- with nothing published and no slot, breaker or metric touched, only if it holds no such request. This
  -- holds whatever other calls do at the same time.
  pub handle_transaction-Delivered :
      (g : Shared × W) (sent : Option Bytes)
      → Delivered sent g (handle_transaction parse_uuid parse_time decode served g sent)
  handle_transaction-Delivered g sent =
      Outcome-Delivered sent g (handle_transaction parse_uuid parse_time decode served g sent)
        (handle_transaction-Outcome parse_uuid parse_time decode served sent g)
