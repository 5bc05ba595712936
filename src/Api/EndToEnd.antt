-- ===== src/Api/EndToEnd.antt =====
-- A request over HTTP through the whole ingestion service: the key, the rate limit, the handler and
-- the chain of publishers (internal/api over internal/ingestion).
use go_transaction_control_p.Api.RateLimiter.Buckets.{Costs}
use mathlib.Core.Path.{subst}
use go_transaction_control_p.Ingestion.Chain.Published.{Produced}
use go_transaction_control_p.Api.Delivered.{handle_transaction-Delivered, served}
use go_transaction_control_p.Api.Accepted.{Carries, IsAcceptable}
use go_transaction_control_p.Ingestion.Events.{Event}
use go_transaction_control_p.Api.Server.{serve_http}
use go_transaction_control_p.Ingestion.Chain.{Shared}
use go_transaction_control_p.Ingestion.Publisher.{ProducedRecord, WireEvent}
use go_transaction_control_p.Api.Admitted.{serve_http-Admission, Presented, Admission}
use go_transaction_control_p.Api.Requests.{TransactionEventRequest}
use go_transaction_control_p.Api.Auth.{bearer_token, answered, Reply}
use go_transaction_control_p.Ledger.Types.{Time}
use go_transaction_control_p.Api.Handler.{handle_transaction, accepted, Status}
use go_transaction_control_p.Prelude.Int.{ℤ}
use go_transaction_control_p.Api.RateLimiter.{RateLimiter, Floats}
use go_transaction_control_p.Prelude.{ap, sym, Bool, ◌≡◌, ℕ, Option, Bytes, List, true, inl, inr}

module _ {F W : Type 0} (floats : Floats F) (clock : W → ℤ) (keys : List Bytes)
    (handle : W → W × Status) where
  Admission-accepted :
      (s : RateLimiter F × W) (found : Option Bytes) (r : (RateLimiter F × W) × Reply Status)
      → Admission floats clock keys handle s found r
      → r.1 ≡ answered accepted
      → (token : Bytes) × Presented keys found token
        × Costs floats s.0 (clock s.1) token r.0.0 true
        × ((handle s.1).1 ≡ accepted)
        × (r.0.1 ≡ (handle s.1).0)
  Admission-accepted s found r (inl (_, e)) h = absurd (cc (e, h))
  Admission-accepted s found r (inr (inl (_, _, _, _, e))) h = absurd (cc (e, h))
  Admission-accepted s found r (inr (inr (token, after, p, a, e))) h =
      let same : r.0.0 ≡ after = ap (λ x. x.0.0) e in
      (
        token,
        p,
        subst (λ x. Costs floats s.0 (clock s.1) token x true) (sym same) a,
        cc (e, h),
        cc e,
      )

module _ {F W : Type 0} (floats : Floats F) (keys : List Bytes) (parse_uuid : Bytes → Option Bytes)
    (parse_time : Bytes → Option Time) (decode : Bytes → Option (TransactionEventRequest × ℕ))
    (uuid_text : Bytes → Bytes) (format_time : Time → Bytes) (marshal : WireEvent → Option Bytes)
    (produce : Option ℤ → W → ProducedRecord → W × Bool) (topic : Bytes)
    (meanwhile : Shared → Shared) (clock : W → ℤ) where
  -- The handler of newTransactionHandler on the chain that run builds.
  unfoldable pub handle_served : Option Bytes → Shared × W → (Shared × W) × Status
  handle_served sent g =
      handle_transaction parse_uuid parse_time decode
        (served parse_uuid parse_time decode uuid_text format_time marshal produce topic meanwhile
          clock)
        g sent

  delivered_accepted :
      (g : Shared × W) (sent : Option Bytes)
      → (handle_served sent g).1 ≡ accepted
      → (request : TransactionEventRequest) × (event : Event) × Carries decode sent request
        × IsAcceptable parse_uuid parse_time request event
        × Produced uuid_text format_time marshal produce topic meanwhile g.1 event
            (handle_served sent g).0.1
            true
  unfolding handle_served
  delivered_accepted g sent h =
      elim (handle_transaction-Delivered parse_uuid parse_time decode uuid_text format_time marshal
        produce topic meanwhile clock g sent) [
          | inl (event, (request, c, a), p, _) ↦ (request, event, c, a, p)
          | inr (inl (_, _, _, e)) ↦ absurd (cc (e, h))
          | inr (inr (_, _, e)) ↦ absurd (cc (e, h))
        ]

  -- The route over HTTP of the whole service, on the limiter, what the publishers share and the
  -- producer's world.
  unfoldable pub ingest_http :
      RateLimiter F × (Shared × W)
      → Bytes
      → Option Bytes
      → (RateLimiter F × (Shared × W)) × Reply Status
  unfolding handle_served
  ingest_http s header sent = serve_http floats (λ g. clock g.1) keys (handle_served sent) s header

  -- A request that is answered 202 carried a configured key and took one token of that key's bucket,
  -- and its body holds a request whose acceptable event, with the request's fields and the amounts of
  -- its texts, was produced as one Kafka record and acknowledged, whatever other calls did at the same
  -- time.
  pub ingest_http_accepted :
      (s : RateLimiter F × (Shared × W)) (header : Bytes) (sent : Option Bytes)
      → (ingest_http s header sent).1 ≡ answered accepted
      → (token : Bytes) × (request : TransactionEventRequest) × (event : Event) × Presented keys
          (bearer_token header)
          token
        × Costs floats s.0 (clock s.1.1) token (ingest_http s header sent).0.0 true
        × Carries decode sent request
        × IsAcceptable parse_uuid parse_time request event
        × Produced uuid_text format_time marshal produce topic meanwhile s.1.1 event
            (ingest_http s header sent).0.1.1
            true
  unfolding ingest_http
  ingest_http_accepted s header sent h =
      let handle = handle_served sent in
      let at : Shared × W → ℤ = λ g. clock g.1 in
      let (token, p, a, status, world) =
        Admission-accepted floats at keys handle s (bearer_token header)
          (serve_http floats at keys handle s header)
          (serve_http-Admission floats at keys handle s header) h in
      let (request, event, carried, acceptable, produced) = delivered_accepted s.1 sent status in
      (
        token,
        request,
        event,
        p,
        a,
        carried,
        acceptable,
        subst
            (λ g.
              Produced uuid_text format_time marshal produce topic meanwhile s.1.1 event g.1 true)
            (sym world) produced,
      )
