-- ===== src/Api/GrpcAccepted.antt =====
-- What a gRPC request comes to (internal/api/grpc_transaction_handler.go, IngestTransaction).
use mathlib.Core.Path.{subst}
use go_transaction_control_p.Prelude.Int.{ℤ}
use go_transaction_control_p.Ledger.Amount.{is_empty}
use go_transaction_control_p.Api.Requests.{
  is_valid_currency_code, is_valid_instrument, is_valid_tenant_id, RequestError, is_none,
}
use go_transaction_control_p.Ledger.Types.{side_sell, side_buy}
use go_transaction_control_p.Api.Accepted.{
  valid_currency_given, valid_instrument_given, valid_tenant_given, not_empty, given, InRange,
  some_of, IsSound,
}
use go_transaction_control_p.Api.Handler.{
  bad_request, service_unavailable, accepted, answer, Status,
}
use go_transaction_control_p.Ingestion.Events.{current_schema_version, Event}
use go_transaction_control_p.Prelude.{
  ap, ◌∙◌, sym, [], ◌≢◌, some_inj, codes, arith, refl, err, none, false, ◌⊎◌, true, some, inl,
  Result, inr, ok, ◌≡◌, Bool, Option, Bytes,
}
use go_transaction_control_p.Api.Grpc.{
  ProtoTimestamp, is_invalid_time, unspecified, sell, buy, unrecognized, as_time, publish_proto,
  out_of_bounds, ingest_transaction, ingest_checked, validate_transaction_event, ProtoSide,
  ProtoEvent, side_from_proto, transaction_event_to_ingestion_event, check_side,
}

-- What was sent for a side of the wire's enumeration, in the events' words.
abbrev pub IsSide : ProtoSide → Bytes → Type 0
IsSide side text = ((side ≡ buy) × (text ≡ codes "BUY")) ⊎ ((side ≡ sell) × (text ≡ codes "SELL"))

-- The event of a valid gRPC request.
pub record IsProtoAcceptable (parse_uuid : Bytes → Option Bytes) (request : ProtoEvent)
    (event : Event) : Type 0 where
  pub sound : IsSound event
  pub id_given : request.event_id ≢ []
  pub id_read : parse_uuid request.event_id ≡ some event.event_id
  pub tenant_kept : event.tenant_id ≡ request.tenant_id
  pub instrument_kept : event.instrument ≡ request.instrument
  pub side_kept : IsSide request.side event.side
  pub quantity_kept : event.quantity ≡ request.quantity
  pub price_kept : event.price ≡ request.price
  pub currency_kept : event.currency ≡ request.currency
  pub time_kept : request.occurred_at ≡ some (record { is_valid = true; time = event.occurred_at })

module _ (parse_uuid : Bytes → Option Bytes) (request : ProtoEvent)
    (valid : validate_transaction_event parse_uuid request ≡ ok tt) where
  checked_parts :
      (is_empty request.event_id ≡ false)
      × (is_invalid_time request.occurred_at ≡ false)
      × (is_none (parse_uuid request.event_id) ≡ false)
      × (is_valid_tenant_id request.tenant_id ≡ true)
      × (is_valid_instrument request.instrument ≡ true)
      × (check_side (side_from_proto request.side) ≡ ok tt)
      × InRange request.quantity
      × InRange request.price
      × (is_valid_currency_code request.currency ≡ true)
  unfolding validate_transaction_event out_of_bounds
  checked_parts = ground arith

valid_time :
    (sent : Option ProtoTimestamp)
    → is_invalid_time sent ≡ false
    → sent ≡ some (record { is_valid = true; time = as_time sent })
unfolding is_invalid_time as_time
valid_time none h = absurd cc
valid_time (some at) h =
    let e : at.is_valid ≡ true = ground (arith, h) in
    ap (λ b. some (record { is_valid = b; time = at.time })) e

IsSide-of_check :
    (side : ProtoSide)
    → check_side (side_from_proto side) ≡ ok tt
    → (text : Bytes) × (side_from_proto side ≡ ok text) × IsSide side text
unfolding check_side side_from_proto
IsSide-of_check buy h = (side_buy, refl, inl (refl, refl))
IsSide-of_check sell h = (side_sell, refl, inr (refl, refl))
IsSide-of_check unspecified h = absurd (cc)
IsSide-of_check (unrecognized n) h = absurd (cc)

side_known :
    (side : ProtoSide) (text : Bytes) → IsSide side text → (text ≡ side_buy) ⊎ (text ≡ side_sell)
side_known side text (inl (_, e)) = inl e
side_known side text (inr (_, e)) = inr e

side_checked :
    (side : ProtoSide) (text : Bytes) → IsSide side text → check_side (side_from_proto side) ≡ ok tt
unfolding check_side side_from_proto
side_checked side text (inl (e, _)) = rw e refl
side_checked side text (inr (e, _)) = rw e refl

converted :
    (parse_uuid : Bytes → Option Bytes) (request : ProtoEvent)
    → validate_transaction_event parse_uuid request ≡ ok tt
    → (event : Event) × (transaction_event_to_ingestion_event parse_uuid request ≡ ok event)
      × IsProtoAcceptable parse_uuid request event
unfolding transaction_event_to_ingestion_event
converted parse_uuid request valid =
    let (g, v, u, t, i, s, q, p, c) = checked_parts parse_uuid request valid in
    let (id, ei) = some_of (parse_uuid request.event_id) u in
    let (text, es, known) = IsSide-of_check request.side s in
    let event : Event = record {
      event_id = id;
      tenant_id = request.tenant_id;
      schema_version = current_schema_version;
      instrument = request.instrument;
      side = text;
      quantity = request.quantity;
      price = request.price;
      currency = request.currency;
      occurred_at = as_time request.occurred_at;
    } in
    (
      event,
      rw ei (rw es refl),
      record {
        sound = record {
          version = refl;
          quantity_in = q;
          price_in = p;
          known_side = side_known request.side text known;
          tenant_valid = t;
          instrument_valid = i;
          currency_valid = c;
        };
        id_given = given request.event_id g;
        id_read = ei;
        tenant_kept = refl;
        instrument_kept = refl;
        side_kept = known;
        quantity_kept = refl;
        price_kept = refl;
        currency_kept = refl;
        time_kept = valid_time request.occurred_at v;
      },
    )

-- An amount in range is not out of bounds.
within : (amount : ℤ) → InRange amount → out_of_bounds amount ≡ false
unfolding out_of_bounds
within amount i = ground arith

-- A request that has an acceptable event passes validation.
proto_acceptable-valid :
    (parse_uuid : Bytes → Option Bytes) (request : ProtoEvent) (event : Event)
    → IsProtoAcceptable parse_uuid request event
    → validate_transaction_event parse_uuid request ≡ ok tt
unfolding validate_transaction_event is_invalid_time
proto_acceptable-valid parse_uuid request event a =
    let sound = a.sound in
    let t : is_valid_tenant_id request.tenant_id ≡ true =
      subst (λ x. is_valid_tenant_id x ≡ true) a.tenant_kept sound.tenant_valid in
    let i : is_valid_instrument request.instrument ≡ true =
      subst (λ x. is_valid_instrument x ≡ true) a.instrument_kept sound.instrument_valid in
    let c : is_valid_currency_code request.currency ≡ true =
      subst (λ x. is_valid_currency_code x ≡ true) a.currency_kept sound.currency_valid in
    let q = within request.quantity (subst InRange a.quantity_kept sound.quantity_in) in
    let p = within request.price (subst InRange a.price_kept sound.price_in) in
    let e = not_empty request.event_id a.id_given in
    let s = side_checked request.side event.side a.side_kept in
    rw e (
      rw (valid_tenant_given request.tenant_id t) (
        rw (valid_instrument_given request.instrument i) (
          rw (valid_currency_given request.currency c)
            (rw a.time_kept (rw a.id_read (rw t (rw i (rw s (rw q (rw p (rw c refl)))))))))))

module _ {W : Type 0} (parse_uuid : Bytes → Option Bytes) (publish : W → Event → W × Bool)
    (sent : Option ProtoEvent) where
  -- An acceptable event of the request that was sent.
  abbrev pub ProtoRequested : Event → Type 0
  ProtoRequested event =
      (request : ProtoEvent) × (sent ≡ some request) × IsProtoAcceptable parse_uuid request event

  -- Such an event published by one call, whose result the status tells; or nothing published, for a
  -- request that has no such event.
  abbrev pub ProtoOutcome : W → W × Status → Type 0
  ProtoOutcome w r =
      ((event : Event) × ProtoRequested event × (publish w event ≡ (r.0, true)) × (r.1 ≡ accepted))
      ⊎ (((event : Event) × ProtoRequested event
            × (publish w event ≡ (r.0, false))
            × (r.1 ≡ service_unavailable))
          ⊎ ((¬ ((event : Event) × ProtoRequested event)) × (r.0 ≡ w) × (r.1 ≡ bad_request)))

  answer-ProtoOutcome :
      (w : W) (event : Event) (x : W × Bool)
      → ProtoRequested event
      → publish w event ≡ x
      → ProtoOutcome w (answer x)
  unfolding answer
  answer-ProtoOutcome w event (w', true) a e = inl (event, a, e, refl)
  answer-ProtoOutcome w event (w', false) a e = inr (inl (event, a, e, refl))

  ingest_checked-ProtoOutcome :
      (w : W) (request : ProtoEvent) (checked : Result RequestError (Unit {0}))
      → sent ≡ some request
      → validate_transaction_event parse_uuid request ≡ checked
      → ProtoOutcome w (ingest_checked parse_uuid publish w request checked)
  unfolding ingest_checked publish_proto
  ingest_checked-ProtoOutcome w request (err e) s h = inr (
      inr (
        (λ (event, (other, s', a)).
            let same : other ≡ request = some_inj (sym s' ∙ s) in
            absurd (cc (h, proto_acceptable-valid parse_uuid other event a, same))),
        refl,
        refl,
      ))
  ingest_checked-ProtoOutcome w request (ok tt) s h =
      let (event, e, a) = converted parse_uuid request h in
      rw e (answer-ProtoOutcome w event (publish w event) (request, s, a) refl)

  ingested :
      (w : W) (request : Option ProtoEvent)
      → sent ≡ request
      → ProtoOutcome w (ingest_transaction parse_uuid publish w request)
  unfolding ingest_transaction
  ingested w none s = inr (inr ((λ (event, (request, s', a)). absurd (cc (s, s'))), refl, refl))
  ingested w (some request) s =
      ingest_checked-ProtoOutcome w request (validate_transaction_event parse_uuid request) s refl

  -- A gRPC request is accepted only if its acceptable event, with the request's own fields, its
  -- identifier and time as read and its amounts within the bounds, was published by one call that
  -- succeeded; it is unavailable only if that one call failed; and it is an invalid argument, with
  -- nothing published, only if it has no acceptable event.
  pub ingest_transaction-ProtoOutcome :
      (w : W) → ProtoOutcome w (ingest_transaction parse_uuid publish w sent)
  ingest_transaction-ProtoOutcome w = ingested w sent refl
