-- ===== src/Api/Accepted.antt =====
-- What a request that passes validation is (internal/api/transaction_handler.go).
use mathlib.Core.Path.{subst}
use go_transaction_control_p.Api.Handler.{
  max_transaction_event_bytes, bad_request, service_unavailable, is_json_whitespace, read_body,
  publish_event, accepted, handle_transaction, handle_request, handle_decoded, handle_body, answer,
  Status,
}
use go_transaction_control_p.Ledger.Amount.{
  is_digits, cut, parse_mantissa, split_exponent, is_empty, parse_amount, max_amount, AmountError,
}
use go_transaction_control_p.Ledger.Types.{side_sell, side_buy, Time}
use go_transaction_control_p.Ingestion.Events.{current_schema_version, Event}
use go_transaction_control_p.Prelude.Int.{◌≤ℤ◌, ◌<ℤ◌, pos, ℤ}
use go_transaction_control_p.Prelude.{
  ◌∙◌, sym, some_inj, ap, ◌&&◌, not, ◌≢◌, [], ◌∷◌, ◌≤◌, All, ◌↔◌, ltb, length, drop, Bool-cases,
  inr, eq_of_eq_bytes, Bool, ℕ, none, inl, eq_bytes, ◌⊎◌, true, refl, some, err, arith, ok, false,
  ◌≡◌, Result, Option, Bytes,
}
use go_transaction_control_p.Api.Requests.{
  lacks_field, RequestError, amount_or, is_valid_currency_code, is_valid_instrument,
  to_ingestion_event, is_valid_tenant_id, validate_request, is_none, is_bad_amount,
  TransactionEventRequest,
}

-- An amount that may be traded.
abbrev pub InRange : ℤ → Type 0
InRange amount = (pos 0 <ℤ amount) × (amount ≤ℤ pos max_amount)

-- An event that may go to Kafka.
pub record IsSound (event : Event) : Type 0 where
  pub version : event.schema_version ≡ current_schema_version
  pub quantity_in : InRange event.quantity
  pub price_in : InRange event.price
  pub known_side : (event.side ≡ side_buy) ⊎ (event.side ≡ side_sell)
  pub tenant_valid : is_valid_tenant_id event.tenant_id ≡ true
  pub instrument_valid : is_valid_instrument event.instrument ≡ true
  pub currency_valid : is_valid_currency_code event.currency ≡ true

-- The event of a valid request.
pub record IsAcceptable (parse_uuid : Bytes → Option Bytes) (parse_time : Bytes → Option Time)
    (request : TransactionEventRequest) (event : Event) : Type 0 where
  pub sound : IsSound event
  pub id_read : parse_uuid request.event_id ≡ some event.event_id
  pub time_read : parse_time request.occurred_at ≡ some event.occurred_at
  pub tenant_kept : event.tenant_id ≡ request.tenant_id
  pub instrument_kept : event.instrument ≡ request.instrument
  pub side_kept : event.side ≡ request.side
  pub currency_kept : event.currency ≡ request.currency
  pub quantity_read : parse_amount request.quantity ≡ ok event.quantity
  pub price_read : parse_amount request.price ≡ ok event.price
  pub id_given : request.event_id ≢ []
  pub time_given : request.occurred_at ≢ []

abbrev pub IsJsonSpace : ℕ → Type 0
IsJsonSpace c = (c ≡ 32) ⊎ ((c ≡ 9) ⊎ ((c ≡ 13) ⊎ (c ≡ 10)))

-- What was sent is a body of at most 4096 bytes that is the request's JSON and spaces behind it.
pub record Carries (decode : Bytes → Option (TransactionEventRequest × ℕ)) (sent : Option Bytes)
    (request : TransactionEventRequest) : Type 0 where
  pub body : Bytes
  pub offset : ℕ
  pub was_sent : sent ≡ some body
  pub small : length body ≤ 4096
  pub decoded : decode body ≡ some (request, offset)
  pub spaces_behind : All IsJsonSpace (drop offset body)

json_spaces_iff : (s : Bytes) → (is_json_whitespace s ≡ true) ↔ All IsJsonSpace s
unfolding is_json_whitespace
json_spaces_iff [] = (λ _. tt, λ _. refl)
json_spaces_iff (c ∷ s) =
    let rest = json_spaces_iff s in
    (
      λ h. (ground arith, rest.0 (ground arith)),
      λ (space, spaces). rw (rest.1 spaces) (ground arith),
    )

good_amount :
    (r : Result AmountError ℤ) → is_bad_amount r ≡ false → (a : ℤ) × (r ≡ ok a) × InRange a
unfolding is_bad_amount
good_amount (err e) h = absurd (cc)
good_amount (ok a) h = (a, refl, ground arith)

pub some_of : {A : Type 0} (o : Option A) → is_none o ≡ false → (a : A) × (o ≡ some a)
some_of none h = absurd (cc)
some_of (some a) h = (a, refl)

one_side :
    (side : Bytes)
    → (eq_bytes side side_buy ≡ true) ⊎ (eq_bytes side side_sell ≡ true)
    → (side ≡ side_buy) ⊎ (side ≡ side_sell)
one_side side (inl h) = inl (eq_of_eq_bytes side side_buy h)
one_side side (inr h) = inr (eq_of_eq_bytes side side_sell h)

pub given : (s : Bytes) → is_empty s ≡ false → s ≢ []
given [] h e = absurd cc
given (c ∷ s) h e = absurd cc

pub not_empty : (s : Bytes) → s ≢ [] → is_empty s ≡ false
not_empty [] h = absurd (h refl)
not_empty (c ∷ s) h = refl

pub valid_tenant_given : (s : Bytes) → is_valid_tenant_id s ≡ true → is_empty s ≡ false
unfolding is_valid_tenant_id
valid_tenant_given [] h = absurd cc
valid_tenant_given (c ∷ s) h = refl

pub valid_instrument_given : (s : Bytes) → is_valid_instrument s ≡ true → is_empty s ≡ false
unfolding is_valid_instrument
valid_instrument_given [] h = absurd cc
valid_instrument_given (c ∷ s) h = refl

pub valid_currency_given : (s : Bytes) → is_valid_currency_code s ≡ true → is_empty s ≡ false
unfolding is_valid_currency_code
valid_currency_given [] h = absurd cc
valid_currency_given (c ∷ s) h = refl

amount_given : (s : Bytes) (a : ℤ) → parse_amount s ≡ ok a → is_empty s ≡ false
unfolding parse_amount split_exponent parse_mantissa cut is_digits
amount_given [] a h = absurd (let e : _ ≡ ok a = h in cc)
amount_given (c ∷ s) a h = refl

in_range : (a : ℤ) (r : Result AmountError ℤ) → r ≡ ok a → InRange a → is_bad_amount r ≡ false
unfolding is_bad_amount
in_range a r e i = rw e (ground arith)

side_given :
    (side : Bytes)
    → (side ≡ side_buy) ⊎ (side ≡ side_sell)
    → (is_empty side ≡ false)
      × ((not (eq_bytes side side_buy) && not (eq_bytes side side_sell)) ≡ false)
unfolding eq_bytes
side_given side (inl e) = rw e (refl, refl)
side_given side (inr e) = rw e (refl, refl)

-- What the tests of validate leave.
pub record Passed (parse_uuid : Bytes → Option Bytes) (parse_time : Bytes → Option Time)
    (request : TransactionEventRequest) : Type 0 where
  pub id_given : is_empty request.event_id ≡ false
  pub time_given : is_empty request.occurred_at ≡ false
  pub uuid_read : is_none (parse_uuid request.event_id) ≡ false
  pub time_read : is_none (parse_time request.occurred_at) ≡ false
  pub tenant_ok : is_valid_tenant_id request.tenant_id ≡ true
  pub instrument_ok : is_valid_instrument request.instrument ≡ true
  pub currency_ok : is_valid_currency_code request.currency ≡ true
  pub quantity_ok : is_bad_amount (parse_amount request.quantity) ≡ false
  pub price_ok : is_bad_amount (parse_amount request.price) ≡ false
  pub side_ok : (eq_bytes request.side side_buy ≡ true) ⊎ (eq_bytes request.side side_sell ≡ true)

module _ (parse_uuid : Bytes → Option Bytes) (parse_time : Bytes → Option Time)
    (request : TransactionEventRequest)
    (valid : validate_request parse_uuid parse_time request ≡ ok tt) where
  validate_request-Passed : Passed parse_uuid parse_time request
  unfolding validate_request lacks_field
  validate_request-Passed = ground arith

  -- A valid request always becomes an event, so the two never drift apart: its identifier, time and
  -- amounts are read from the request's texts, the amounts are within the bounds, and the other
  -- fields are the request's.
  pub to_ingestion_event-IsAcceptable :
      (event : Event) × (to_ingestion_event parse_uuid parse_time request ≡ ok event)
      × IsAcceptable parse_uuid parse_time request event
  unfolding to_ingestion_event amount_or
  to_ingestion_event-IsAcceptable =
      let p = validate_request-Passed in
      let (id, ei) = some_of (parse_uuid request.event_id) p.uuid_read in
      let (at, et) = some_of (parse_time request.occurred_at) p.time_read in
      let (quantity, eq, iq) = good_amount (parse_amount request.quantity) p.quantity_ok in
      let (price, ep, ip) = good_amount (parse_amount request.price) p.price_ok in
      let event : Event = record {
        event_id = id;
        tenant_id = request.tenant_id;
        schema_version = current_schema_version;
        instrument = request.instrument;
        side = request.side;
        quantity = quantity;
        price = price;
        currency = request.currency;
        occurred_at = at;
      } in
      (
        event,
        rw ei (rw eq (rw ep (rw et))),
        record {
          sound = record {
            version = refl;
            quantity_in = iq;
            price_in = ip;
            known_side = one_side request.side p.side_ok;
            tenant_valid = p.tenant_ok;
            instrument_valid = p.instrument_ok;
            currency_valid = p.currency_ok;
          };
          id_read = ei;
          time_read = et;
          tenant_kept = refl;
          instrument_kept = refl;
          side_kept = refl;
          currency_kept = refl;
          quantity_read = eq;
          price_read = ep;
          id_given = given request.event_id p.id_given;
          time_given = given request.occurred_at p.time_given;
        },
      )

-- The body that carries a request is the one that was sent, and is decoded to that request alone.
carried_body :
    (decode : Bytes → Option (TransactionEventRequest × ℕ)) (sent : Option Bytes)
    (request : TransactionEventRequest) (body : Bytes)
    → sent ≡ some body
    → (c : Carries decode sent request) → decode body ≡ some (request, c.offset)
carried_body decode sent request body s c =
    let same : body ≡ c.body = some_inj (sym s ∙ c.was_sent) in ap decode same ∙ c.decoded

carried_same :
    (decode : Bytes → Option (TransactionEventRequest × ℕ)) (sent : Option Bytes)
    (request other : TransactionEventRequest)
    → Carries decode sent request
    → Carries decode sent other
    → request ≡ other
carried_same decode sent request other c d =
    ap (λ x. x.0)
      (some_inj (sym (carried_body decode sent request d.body d.was_sent c) ∙ d.decoded))

-- A request that has an acceptable event passes validation.
acceptable-valid :
    (parse_uuid : Bytes → Option Bytes) (parse_time : Bytes → Option Time)
    (request : TransactionEventRequest) (event : Event)
    → IsAcceptable parse_uuid parse_time request event
    → validate_request parse_uuid parse_time request ≡ ok tt
unfolding validate_request lacks_field
acceptable-valid parse_uuid parse_time request event a =
    let sound = a.sound in
    let t : is_valid_tenant_id request.tenant_id ≡ true =
      subst (λ x. is_valid_tenant_id x ≡ true) a.tenant_kept sound.tenant_valid in
    let i : is_valid_instrument request.instrument ≡ true =
      subst (λ x. is_valid_instrument x ≡ true) a.instrument_kept sound.instrument_valid in
    let c : is_valid_currency_code request.currency ≡ true =
      subst (λ x. is_valid_currency_code x ≡ true) a.currency_kept sound.currency_valid in
    let (se, sk) =
      side_given request.side
        (subst (λ x. (x ≡ side_buy) ⊎ (x ≡ side_sell)) a.side_kept sound.known_side) in
    let ee = not_empty request.event_id a.id_given in
    let oe = not_empty request.occurred_at a.time_given in
    let qe = amount_given request.quantity event.quantity a.quantity_read in
    let pe = amount_given request.price event.price a.price_read in
    let q =
      in_range event.quantity (parse_amount request.quantity) a.quantity_read sound.quantity_in in
    let p = in_range event.price (parse_amount request.price) a.price_read sound.price_in in
    rw ee (
      rw (valid_tenant_given request.tenant_id t) (
        rw (valid_instrument_given request.instrument i) (
          rw se (
            rw qe (
              rw pe (
                rw (valid_currency_given request.currency c) (
                  rw oe (
                    rw a.id_read
                      (rw t (rw i (rw sk (rw q (rw p (rw c (rw a.time_read refl)))))))))))))))

-- What a request over HTTP comes to: an event that is acceptable for the request that was sent and was
-- published, one whose publishing failed, or a refusal that leaves the publisher's world alone.
module _ {W : Type 0} (parse_uuid : Bytes → Option Bytes) (parse_time : Bytes → Option Time)
    (decode : Bytes → Option (TransactionEventRequest × ℕ)) (publish : W → Event → W × Bool)
    (sent : Option Bytes) where
  -- An acceptable event of the request that was sent.
  abbrev pub Requested : Event → Type 0
  Requested event =
      (request : TransactionEventRequest) × Carries decode sent request
      × IsAcceptable parse_uuid parse_time request event

  abbrev pub Outcome : W → W × Status → Type 0
  Outcome w r =
      ((event : Event) × Requested event × (publish w event ≡ (r.0, true)) × (r.1 ≡ accepted))
      ⊎ (((event : Event) × Requested event
            × (publish w event ≡ (r.0, false))
            × (r.1 ≡ service_unavailable))
          ⊎ ((¬ ((event : Event) × Requested event)) × (r.0 ≡ w) × (r.1 ≡ bad_request)))

  refused : (w : W) → ((event : Event) → Requested event → ⊥) → Outcome w (w, bad_request)
  refused w n = inr (inr (λ (event, a). n event a, refl, refl))

  answer-Outcome :
      (w : W) (event : Event) (x : W × Bool)
      → Requested event
      → publish w event ≡ x
      → Outcome w (answer x)
  unfolding answer
  answer-Outcome w event (w', true) a e = inl (event, a, e, refl)
  answer-Outcome w event (w', false) a e = inr (inl (event, a, e, refl))

  handle_request-Outcome :
      (w : W) (request : TransactionEventRequest) (checked : Result RequestError (Unit {0}))
      → Carries decode sent request
      → validate_request parse_uuid parse_time request ≡ checked
      → Outcome w (handle_request parse_uuid parse_time decode publish w request checked)
  unfolding handle_request publish_event
  handle_request-Outcome w request (err e) c h = refused w (λ event (other, c', a).
      let same : other ≡ request = carried_same decode sent other request c' c in
      absurd (cc (h, acceptable-valid parse_uuid parse_time other event a, same)))
  handle_request-Outcome w request (ok tt) c h =
      let (event, e, a) = to_ingestion_event-IsAcceptable parse_uuid parse_time request h in
      rw e (answer-Outcome w event (publish w event) (request, c, a) refl)

  handle_decoded-Outcome :
      (w : W) (body : Bytes) (decoded : Option (TransactionEventRequest × ℕ))
      → sent ≡ some body
      → length body ≤ 4096
      → decode body ≡ decoded
      → Outcome w (handle_decoded parse_uuid parse_time decode publish w body decoded)
  unfolding handle_decoded
  handle_decoded-Outcome w body none s l d =
      refused w
        (λ event (request, c, a). absurd (cc (carried_body decode sent request body s c, d)))
  handle_decoded-Outcome w body (some (request, offset)) s l d =
      elim (Bool-cases (is_json_whitespace (drop offset body))) [
        | inl e ↦
            let carried : Carries decode sent request = record {
              body = body;
              offset = offset;
              was_sent = s;
              small = l;
              decoded = d;
              spaces_behind = (json_spaces_iff (drop offset body)).0 e;
            } in
            rw e (
              handle_request-Outcome w request (validate_request parse_uuid parse_time request)
                carried refl)
        | inr e ↦ rw e (
            refused w (λ event (other, c, a).
              let same : (other, c.offset) ≡ (request, offset) =
                some_inj (sym (carried_body decode sent other body s c) ∙ d) in
              let body_same : body ≡ c.body = some_inj (sym s ∙ c.was_sent) in
              let spaces = (json_spaces_iff (drop c.offset c.body)).1 c.spaces_behind in
              let offset_same : c.offset ≡ offset = ap (λ x. x.1) same in
              absurd (cc (e, body_same, offset_same, spaces))))
      ]

  handle_body-Outcome :
      (w : W) (body : Option Bytes)
      → sent ≡ body
      → Outcome w (handle_body parse_uuid parse_time decode publish w (read_body body))
  unfolding handle_body read_body
  handle_body-Outcome w none s = refused w (λ event (request, c, a). absurd (cc (s, c.was_sent)))
  handle_body-Outcome w (some body) s =
      elim (Bool-cases (ltb max_transaction_event_bytes (length body))) [
        | inl e ↦ rw e (
            refused w (λ event (request, c, a).
              let same : body ≡ c.body = some_inj (sym s ∙ c.was_sent) in
              let small : length body ≤ 4096 = subst (λ x. length x ≤ 4096) (sym same) c.small in
              absurd (ground (arith, e, small))))
        | inr e ↦ rw e (handle_decoded-Outcome w body (decode body) s (ground arith) refl)
      ]

  -- A request is answered 202 only if an acceptable event of it was published by one call that
  -- succeeded, 503 only if that one call failed, and 400, with nothing published, only if it holds no
  -- request with an acceptable event.
  pub handle_transaction-Outcome :
      (w : W) → Outcome w (handle_transaction parse_uuid parse_time decode publish w sent)
  unfolding handle_transaction
  handle_transaction-Outcome w = handle_body-Outcome w sent refl
