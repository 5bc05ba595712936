-- ===== src/Api/Handler.antt =====
-- internal/api/transaction_handler.go, newTransactionHandler: one request over HTTP. The body is what
-- could be read of it, `decode` is json.Decoder with the offset behind the value that it has read,
-- and `publish` is the publisher over its own world, true for success.
use go_transaction_control_p.Ingestion.Events.{Event}
use go_transaction_control_p.Api.Requests.{
  to_ingestion_event, validate_request, RequestError, TransactionEventRequest,
}
use go_transaction_control_p.Ledger.Types.{Time}
use go_transaction_control_p.Prelude.{
  ok, [], ◌&&◌, err, ◌||◌, ◌==◌, none, length, false, drop, Result, ◌∷◌, ltb, true, if◌then◌else◌,
  some, Bool, ℕ, Option, Bytes,
}

abbrev pub max_transaction_event_bytes : ℕ
max_transaction_event_bytes = 4096

pub data Status : Type 0 where
  accepted bad_request service_unavailable : Status

unfoldable pub is_json_whitespace : Bytes → Bool
is_json_whitespace [] = true
is_json_whitespace (c ∷ s) =
    ((c == 32) || (c == 9) || (c == 13) || (c == 10)) && is_json_whitespace s

-- http.MaxBytesReader in front of the body.
unfoldable pub read_body : Option Bytes → Option Bytes
read_body none = none
read_body (some body) = if ltb max_transaction_event_bytes (length body) then none else some body

-- Publish's result as a status.
unfoldable pub answer : {W : Type 0} → W × Bool → W × Status
answer (w, true) = (w, accepted)
answer (w, false) = (w, service_unavailable)

module _ {W : Type 0} (parse_uuid : Bytes → Option Bytes) (parse_time : Bytes → Option Time)
    (decode : Bytes → Option (TransactionEventRequest × ℕ)) (publish : W → Event → W × Bool) where
  unfoldable pub publish_event : W → Result RequestError Event → W × Status
  publish_event w (err e) = (w, bad_request)
  publish_event w (ok event) = answer (publish w event)

  unfoldable pub handle_request :
      W → TransactionEventRequest → Result RequestError (Unit {0}) → W × Status
  handle_request w event (err e) = (w, bad_request)
  handle_request w event (ok _) = publish_event w (to_ingestion_event parse_uuid parse_time event)

  unfoldable pub handle_decoded : W → Bytes → Option (TransactionEventRequest × ℕ) → W × Status
  handle_decoded w body none = (w, bad_request)
  handle_decoded w body (some (event, offset)) =
      if is_json_whitespace (drop offset body)
      then handle_request w event (validate_request parse_uuid parse_time event)
      else (w, bad_request)

  unfoldable pub handle_body : W → Option Bytes → W × Status
  handle_body w none = (w, bad_request)
  handle_body w (some body) = handle_decoded w body (decode body)

  unfoldable pub handle_transaction : W → Option Bytes → W × Status
  handle_transaction w sent = handle_body w (read_body sent)
