-- ===== src/Api/Tests/Served.antt =====
-- Requests through the whole ingestion service (internal/api over internal/ingestion).
use go_transaction_control_p.Api.RateLimiter.Buckets.{Costs}
use go_transaction_control_p.Ingestion.Chain.Published.{Produced}
use go_transaction_control_p.Api.Accepted.{Carries, IsAcceptable}
use go_transaction_control_p.Ingestion.Events.{Event}
use go_transaction_control_p.Api.RateLimiter.Nan.{nan_rate_never_limits, answers, IsNan}
use go_transaction_control_p.Api.Delivered.{handle_transaction-Delivered, served, Delivered}
use go_transaction_control_p.Api.Admitted.{Presented, serve_http-Admission, Admission}
use go_transaction_control_p.Ingestion.Backpressure.{take_slot}
use go_transaction_control_p.Prelude.Word.{wrap64}
use go_transaction_control_p.Ledger.Amount.{
  rescale, parse_uint, is_digits, cut, parse_mantissa, split_exponent, parse_amount,
}
use go_transaction_control_p.Api.Requests.{
  TransactionEventRequest, is_bad_amount, every, is_valid_currency_code, is_valid_instrument,
  is_valid_tenant_id, lacks_field, validate_request, amount_or, to_ingestion_event,
}
use go_transaction_control_p.Api.Handler.{
  Status, accepted, answer, publish_event, handle_request, is_json_whitespace, handle_decoded,
  handle_body, read_body, handle_transaction,
}
use go_transaction_control_p.Api.Auth.{
  unauthenticated, answered, constant_time_compare, match_keys, validate_token, validate_found,
  cut_prefix, bearer_token, auth_middleware,
}
use go_transaction_control_p.Api.Server.{behind, serve_http}
use go_transaction_control_p.Prelude.Int.{pos_part, neg, ◌-ℤ◌, ◌+ℤ◌, ℤ, pos}
use go_transaction_control_p.Api.RateLimiter.Bound.{
  allowed_bound, refilled, count_allowed, fixed_point, unit_token,
}
use go_transaction_control_p.Ledger.Types.{Time}
use go_transaction_control_p.Ingestion.Publisher.{
  to_wire, produce_payload, publish, ProducedRecord, WireEvent,
}
use go_transaction_control_p.Ingestion.Chain.{
  is_failure, observe_answer, record_answer, release_answer, with_slot, innermost_publish,
  breaker_publish, limiter_publish, instrumented_publish, chain_publish, serve_publish, Shared,
}
use go_transaction_control_p.Api.RateLimiter.{
  spend, refill, allow_bucket, new_rate_limiter, Floats, fnv_from, fnv32a, shard_of, put_bucket,
  find_bucket, bucket_of, set_bucket, allow_found, allow_key, limit_next, limit_found,
  limit_middleware, RateLimiter, RateLimitConfig,
}
use go_transaction_control_p.Api.EndToEnd.{ingest_http_accepted, handle_served, ingest_http}
use go_transaction_control_p.Api.Tests.{keep_uuid, fixed_time, decode_order}
use go_transaction_control_p.Breaker.{record_outcome, allow, closed}
use go_transaction_control_p.Prelude.{
  arith, ◌-◌, ◌/◌, leb, ◌≤◌, if◌then◌else◌, All, ◌≡◌, eq_bytes, ltb, ◌+◌, Bool, ◌*◌, codes, ℕ,
  Option, List, Bytes, true, false, ok, none, some, [], ◌∷◌, refl,
}

abbrev id_text : Bytes → Bytes
id_text id = id

abbrev fixed_text : Time → Bytes
fixed_text at = codes "2024"

abbrev event_id_json : WireEvent → Option Bytes
event_id_json wire = some wire.event_id

-- A producer that counts, and fails once it is full.
abbrev count_record : Option ℤ → ℕ → ProducedRecord → ℕ × Bool
count_record bound n r = (n + 1, ltb n 3)

abbrev nothing_else : Shared → Shared
nothing_else shared = shared

abbrev world_time : ℕ → ℤ
world_time n = pos n

abbrev healthy : Shared
healthy = record {
  machine = record {
    config = record { failure_threshold = 2; open_timeout = pos 30; probe_timeout = pos 5 };
    state = closed;
    consecutive_failures = 0;
    opened_at = pos 0;
  };
  limiter = record { capacity = 2; slots = 1 };
  metrics = record {
    successes = 0;
    failures = 0;
    success_latencies = [];
    failure_latencies = [];
    breaker_state = 0;
  };
}

abbrev two_keys : List Bytes
two_keys = codes "k1" ∷ codes "k2" ∷ []

abbrev two_requests : RateLimitConfig ℕ
two_requests = record { requests_per_second = unit_token; burst = pos 2 }

abbrev empty_limiter : RateLimiter ℕ
empty_limiter = record { rate = unit_token; burst = 2 * unit_token; shards = λ i. [] }

abbrev at_start : RateLimiter ℕ × (Shared × ℕ)
at_start = (empty_limiter, (healthy, 0))

is_served :
    (ingest_http fixed_point two_keys keep_uuid fixed_time decode_order id_text fixed_text
      event_id_json count_record
      (codes "events")
      nothing_else
      world_time
      at_start
      (codes "Bearer k2")
      (some (codes "{ "))).1
    ≡ answered accepted
unfolding ingest_http handle_served serve_http behind auth_middleware limit_middleware limit_found
    limit_next allow_key allow_found set_bucket bucket_of find_bucket put_bucket shard_of fnv32a
    fnv_from bearer_token cut_prefix validate_found validate_token match_keys constant_time_compare
    handle_transaction read_body handle_body handle_decoded is_json_whitespace handle_request
    publish_event to_ingestion_event amount_or answer validate_request lacks_field
    is_valid_tenant_id is_valid_instrument is_valid_currency_code every is_bad_amount parse_amount
    split_exponent parse_mantissa cut is_digits parse_uint ◌+ℤ◌ ◌-ℤ◌ wrap64 rescale neg eq_bytes
    serve_publish chain_publish instrumented_publish limiter_publish breaker_publish
    innermost_publish take_slot with_slot allow record_outcome publish produce_payload to_wire
    release_answer record_answer observe_answer is_failure
is_served = refl

ingest_http_accepted_example :
    (token : Bytes) × (request : TransactionEventRequest) × (event : Event) × Presented two_keys
      (bearer_token (codes "Bearer k2"))
      token
    × Costs fixed_point empty_limiter
        (pos 0)
        token
        (ingest_http fixed_point two_keys keep_uuid fixed_time decode_order id_text fixed_text
          event_id_json count_record
          (codes "events")
          nothing_else
          world_time
          at_start
          (codes "Bearer k2")
          (some (codes "{ "))).0.0
        true
    × Carries decode_order (some (codes "{ ")) request
    × IsAcceptable keep_uuid fixed_time request event
    × Produced id_text fixed_text event_id_json count_record
        (codes "events")
        nothing_else
        0
        event
        (ingest_http fixed_point two_keys keep_uuid fixed_time decode_order id_text fixed_text
          event_id_json count_record
          (codes "events")
          nothing_else
          world_time
          at_start
          (codes "Bearer k2")
          (some (codes "{ "))).0.1.1
        true
ingest_http_accepted_example =
    ingest_http_accepted fixed_point two_keys keep_uuid fixed_time decode_order id_text fixed_text
      event_id_json count_record (codes "events") nothing_else world_time at_start
      (codes "Bearer k2") (some (codes "{ ")) is_served

handle_transaction-Delivered_example :
    Delivered keep_uuid fixed_time decode_order id_text fixed_text event_id_json count_record
      (codes "events")
      nothing_else
      world_time
      (some (codes "{ "))
      (healthy, 3)
      (handle_transaction keep_uuid fixed_time decode_order
        (served keep_uuid fixed_time decode_order id_text fixed_text event_id_json count_record
          (codes "events")
          nothing_else
          world_time)
        (healthy, 3)
        (some (codes "{ ")))
handle_transaction-Delivered_example =
    handle_transaction-Delivered keep_uuid fixed_time decode_order id_text fixed_text event_id_json
      count_record (codes "events") nothing_else world_time (healthy, 3) (some (codes "{ "))

-- A handler that counts its requests.
abbrev count_request : ℕ → ℕ × Status
count_request n = (n + 1, accepted)

serve_http-Admission_example :
    Admission fixed_point world_time two_keys count_request
      (empty_limiter, 0)
      (bearer_token (codes "Bearer k3"))
      (serve_http fixed_point world_time two_keys count_request
        (empty_limiter, 0)
        (codes "Bearer k3"))
serve_http-Admission_example =
    serve_http-Admission fixed_point world_time two_keys count_request (empty_limiter, 0)
      (codes "Bearer k3")

unknown_key :
    serve_http fixed_point world_time two_keys count_request (empty_limiter, 0) (codes "Bearer k3")
    ≡ ((empty_limiter, 0), unauthenticated)
unfolding serve_http auth_middleware bearer_token cut_prefix validate_found validate_token
    match_keys constant_time_compare eq_bytes
unknown_key = refl

-- Three requests within a second, of which the burst lets two through.
abbrev three_calls : List (ℤ × Bytes)
three_calls = (pos 0, codes "k1") ∷ (pos 10, codes "k1") ∷ (pos 20, codes "k1") ∷ []

counts_two : count_allowed (codes "k1") empty_limiter three_calls ≡ 2
unfolding count_allowed allow_key allow_found set_bucket bucket_of find_bucket put_bucket shard_of
    fnv32a fnv_from allow_bucket refill spend eq_bytes ◌-ℤ◌
counts_two = refl

limiter_made : new_rate_limiter fixed_point two_requests ≡ ok empty_limiter
unfolding new_rate_limiter
limiter_made = refl

allowed_bound_example :
    count_allowed (codes "k1") empty_limiter three_calls * unit_token
    ≤ 2 * unit_token + refilled unit_token (pos_part (pos 20 -ℤ pos 0))
allowed_bound_example =
    allowed_bound two_requests empty_limiter (codes "k1") (pos 0) (pos 20) three_calls limiter_made
      (omega arith, (omega arith, (omega arith, omega arith)))

-- A toy of float64 whose only values are numbers and NaN, which is none.
abbrev lift_nan : (ℕ → ℕ → ℕ) → Option ℕ → Option ℕ → Option ℕ
lift_nan f none y = none
lift_nan f (some x) none = none
lift_nan f (some x) (some y) = some (f x y)

abbrev test_nan : (ℕ → ℕ → Bool) → Option ℕ → Option ℕ → Bool
test_nan f none y = false
test_nan f (some x) none = false
test_nan f (some x) (some y) = f x y

abbrev toy_floats : Floats (Option ℕ)
toy_floats = record {
  of_int = λ n. some (pos_part n);
  seconds = λ d. some (pos_part d / 1000000000);
  add = lift_nan (λ x y. x + y);
  sub = lift_nan (λ x y. x - y);
  mul = lift_nan (λ x y. x * y);
  least = lift_nan (λ x y. if leb x y then x else y);
  less = test_nan ltb;
  at_most = test_nan leb;
}

right_nan : (f : ℕ → ℕ → ℕ) (x : Option ℕ) → lift_nan f x none ≡ none
right_nan f none = refl
right_nan f (some x) = refl

toy-IsNan : IsNan toy_floats none
toy-IsNan = record {
  not_at_most = λ x. refl;
  not_less = λ x. refl;
  mul_nan = right_nan (λ x y. x * y);
  add_nan = right_nan (λ x y. x + y);
  least_nan = right_nan (λ x y. if leb x y then x else y);
}

nan_rate_never_limits_example :
    (limiter : RateLimiter (Option ℕ)) × (new_rate_limiter toy_floats
        (record { requests_per_second = none; burst = pos 1 })
      ≡ ok limiter)
    × ((calls : List (ℤ × Bytes))
        → All (λ allowed. allowed ≡ true) (answers toy_floats limiter calls))
nan_rate_never_limits_example =
    nan_rate_never_limits toy_floats none toy-IsNan (pos 1) (omega arith)
