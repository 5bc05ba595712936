-- ===== src/Ingestion/Backpressure/Tests.antt =====
-- A run of the limiter (internal/ingestion/backpressure.go).
use go_transaction_control_p.Prelude.Int.{pos}
use go_transaction_control_p.Ingestion.Backpressure.Bound.{
  started, publish_bound, admitted, InFlight,
}
use go_transaction_control_p.Prelude.{ℕ, List, length, refl, ◌↔◌, [], ◌∷◌, err, ◌≡◌, ◌≤◌}
use go_transaction_control_p.Ingestion.Backpressure.{
  publish_queue_full, validate_limit, take_slot, new_limiter, Limiter,
}

abbrev one_taken : Limiter
one_taken = record { capacity = 2; slots = 1 }

abbrev one_call_number : List ℕ
one_call_number = 7 ∷ []

one_call : InFlight (pos 2) one_taken (7 ∷ [])
unfolding new_limiter validate_limit take_slot
one_call = admitted 7 (started (record { capacity = 2; slots = 0 }) refl) refl

publish_bound_example :
    (1 ≤ 2)
    × (2 ≤ 100000)
    × ((take_slot one_taken ≡ err publish_queue_full) ↔ (length one_call_number ≡ 2))
publish_bound_example = publish_bound 2 one_taken (7 ∷ []) one_call
