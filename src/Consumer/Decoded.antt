-- ===== src/Consumer/Decoded.antt =====
-- What the publisher writes, the consumer reads: internal/ingestion/kafka/publisher.go, Publish,
-- against internal/processor/kafka/consumer.go, decodeTransaction.
-- The transaction of an event, before it is stored.
use mathlib.Core.Path.{subst}
use go_transaction_control_p.Ingestion.Partitioner.{split_partition_key}
use go_transaction_control_p.Ledger.Amount.RoundTrip.{parse_amount-format_amount}
use go_transaction_control_p.Consumer.Records.{decode_transaction}
use go_transaction_control_p.Api.Accepted.{IsSound, InRange}
use go_transaction_control_p.Api.Characters.{currency-All, instrument-All, tenant_id-All}
use go_transaction_control_p.Ingestion.Publisher.Key.{split_partition_key-partition_key, HasNoColon}
use go_transaction_control_p.Prelude.Int.{negsuc, magnitude, ℤ, pos}
use go_transaction_control_p.Prelude.{
  refl, ok, inr, ◌^◌, some, inl, arith, Option, ◌⊎◌, ◌≢◌, ◌<◌, true, ◌≡◌, Bool, Bytes,
}
use go_transaction_control_p.Ledger.Types.{side_sell, side_buy, Time, Transaction}
use go_transaction_control_p.Ledger.Amount.Text.{format_amount-IsAscii, IsAscii}
use go_transaction_control_p.Ingestion.Publisher.{
  partition_key, ProducedRecord, produce_payload, publish, to_wire, WireEvent,
}
use go_transaction_control_p.Ingestion.Events.{Event}
use go_transaction_control_p.Api.Requests.{is_valid_tenant_id}

abbrev pub transaction_of : Event → Transaction
transaction_of event = record {
  id = pos 0;
  event_id = event.event_id;
  tenant_id = event.tenant_id;
  schema_version = event.schema_version;
  instrument = event.instrument;
  side = event.side;
  quantity = event.quantity;
  price = event.price;
  currency = event.currency;
  occurred_at = event.occurred_at;
  received_at = pos 0;
}

abbrev pub IsAsciiWire : WireEvent → Type 0
IsAsciiWire w =
    IsAscii w.event_id
    × IsAscii w.tenant_id
    × IsAscii w.instrument
    × IsAscii w.side
    × IsAscii w.quantity
    × IsAscii w.price
    × IsAscii w.currency
    × IsAscii w.occurred_at

side-IsAscii : (side : Bytes) → (side ≡ side_buy) ⊎ (side ≡ side_sell) → IsAscii side
side-IsAscii side (inl e) = rw e (omega arith)
side-IsAscii side (inr e) = rw e (omega arith)

tenant_no_colon : (s : Bytes) → is_valid_tenant_id s ≡ true → HasNoColon s
tenant_no_colon s h = tenant_id-All (λ c. c ≢ b':') s (λ c t. ground arith) h

small_amount : (a : ℤ) → InRange a → magnitude a < 2 ^ 63
small_amount (pos n) h = omega arith
small_amount (negsuc n) h = omega arith

module _ (uuid_text : Bytes → Bytes) (format_time : Time → Bytes) (event : Event)
    (sound : IsSound event) (id_ascii : IsAscii (uuid_text event.event_id))
    (time_ascii : IsAscii (format_time event.occurred_at)) where
  to_wire-IsAsciiWire : IsAsciiWire (to_wire uuid_text format_time event)
  unfolding to_wire
  to_wire-IsAsciiWire = (
    id_ascii,
    tenant_id-All (λ c. c < 128) event.tenant_id (λ c t. ground arith) sound.tenant_valid,
    instrument-All (λ c. c < 128) event.instrument (λ c t. ground arith) sound.instrument_valid,
    side-IsAscii event.side sound.known_side,
    format_amount-IsAscii event.quantity,
    format_amount-IsAscii event.price,
    currency-All (λ c. c < 128) event.currency (λ c t. ground arith) sound.currency_valid,
    time_ascii,
  )

  module _ (unmarshal : Bytes → Option WireEvent) (parse_uuid : Bytes → Option Bytes)
      (parse_time : Bytes → Option Time)
      (id_reads : parse_uuid (uuid_text event.event_id) ≡ some event.event_id)
      (time_reads : parse_time (format_time event.occurred_at) ≡ some event.occurred_at) where
    decode-wire :
        (payload : Bytes)
        → unmarshal payload ≡ some (to_wire uuid_text format_time event)
        → decode_transaction unmarshal parse_uuid parse_time payload ≡ ok (transaction_of event)
    unfolding decode_transaction to_wire
    decode-wire payload h =
        let quantity =
          parse_amount-format_amount event.quantity (small_amount _ sound.quantity_in) in
        let price = parse_amount-format_amount event.price (small_amount _ sound.price_in) in
        rw h (rw id_reads (rw quantity (rw price (rw time_reads refl))))

    -- Where an event's identifier and time are written as ASCII texts that their parsers read
    -- back, and JSON reads back what it wrote of ASCII texts: a sound event that was published
    -- went to Kafka as one acknowledged record of the topic, whose key splits into its tenant
    -- and instrument and whose payload the consumer decodes to the event's fields.
    pub published_event_decodes :
        {W : Type 0} (marshal : WireEvent → Option Bytes) (produce : W → ProducedRecord → W × Bool)
        (topic : Bytes) (w w' : W)
        → ((wire : WireEvent)
            → IsAsciiWire wire
            → (payload : Bytes) × (marshal wire ≡ some payload) × (unmarshal payload ≡ some wire))
        → publish uuid_text format_time marshal produce topic w event ≡ (w', true)
        → (r : ProducedRecord) × (produce w r ≡ (w', true))
          × (r.topic ≡ topic)
          × (split_partition_key r.key ≡ (event.tenant_id, event.instrument))
          × (decode_transaction unmarshal parse_uuid parse_time r.value ≡ ok (transaction_of event))
    unfolding publish produce_payload
    published_event_decodes marshal produce topic w w' json h =
        let (payload, m, u) = json (to_wire uuid_text format_time event) to_wire-IsAsciiWire in
        let r : ProducedRecord = record {
          topic = topic;
          key = partition_key event.tenant_id event.instrument;
          value = payload;
        } in
        (
          r,
          subst
              (λ p.
                produce_payload uuid_text format_time marshal produce topic w event p ≡ (w', true))
              m h,
          refl,
          split_partition_key-partition_key event.tenant_id event.instrument
              (tenant_no_colon event.tenant_id sound.tenant_valid),
          decode-wire payload u,
        )
