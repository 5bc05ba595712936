-- ===== src/Consumer/Tests/Wire.antt =====
-- A published event that the consumer decodes (internal/ingestion/kafka/publisher.go and
-- internal/processor/kafka/consumer.go), over an encoding in which each text carries its length.
use go_transaction_control_p.Prelude.Fields.{
  first_text-put, rest_of-put, number-put_number, put, first_text, rest_of, number, put_number,
}
use go_transaction_control_p.Api.Accepted.{IsSound}
use go_transaction_control_p.Consumer.Records.{decode_transaction}
use go_transaction_control_p.Ledger.Types.{Time}
use go_transaction_control_p.Ingestion.Partitioner.{split_partition_key}
use go_transaction_control_p.Ingestion.Events.{Event}
use go_transaction_control_p.Consumer.Decoded.{published_event_decodes, transaction_of, IsAsciiWire}
use go_transaction_control_p.Api.Requests.{
  every, is_valid_currency_code, is_valid_instrument, is_valid_tenant_id,
}
use go_transaction_control_p.Ingestion.Publisher.{publish, ProducedRecord, WireEvent}
use go_transaction_control_p.Prelude.{
  arith, ◌+◌, codes, Bool, ℕ, List, ◌++◌, zero, ap, ◌≡◌, suc, length, Option, Bytes, true, refl,
  some, none, ok, [], ◌∷◌, inl,
}
use go_transaction_control_p.Prelude.Int.{ℤ, pos}

-- The texts in front, and the number behind them.
encode_texts : List Bytes → ℤ → Bytes
unfolding put put_number
encode_texts [] z = put_number z ++ []
encode_texts (s ∷ texts) z = put s (encode_texts texts z)

decode_texts : ℕ → Bytes → List Bytes × ℤ
unfolding first_text rest_of number
decode_texts zero p = ([], number p)
decode_texts (suc n) p = let rest = decode_texts n (rest_of p) in (first_text p ∷ rest.0, rest.1)

decode_texts-encode_texts :
    (texts : List Bytes) (z : ℤ) → decode_texts (length texts) (encode_texts texts z) ≡ (texts, z)
unfolding decode_texts encode_texts
decode_texts-encode_texts [] z = ap (λ y. ([], y)) (number-put_number z [])
decode_texts-encode_texts (s ∷ texts) z = rw (rest_of-put s (encode_texts texts z)) (
    rw (first_text-put s (encode_texts texts z))
      (ap (λ r. (s ∷ r.0, r.1)) (decode_texts-encode_texts texts z)))

abbrev texts_of : WireEvent → List Bytes
texts_of w =
    w.event_id ∷ w.tenant_id ∷ w.instrument ∷ w.side ∷ w.quantity ∷ w.price ∷ w.currency
    ∷ w.occurred_at ∷ []

abbrev wire_of : List Bytes × ℤ → Option WireEvent
wire_of (a ∷ b ∷ c ∷ d ∷ e ∷ f ∷ g ∷ h ∷ [], z) = some (record {
  event_id = a;
  tenant_id = b;
  schema_version = z;
  instrument = c;
  side = d;
  quantity = e;
  price = f;
  currency = g;
  occurred_at = h;
})
wire_of _ = none

abbrev marshal_wire : WireEvent → Option Bytes
marshal_wire w = some (encode_texts (texts_of w) w.schema_version)

abbrev unmarshal_wire : Bytes → Option WireEvent
unmarshal_wire p = wire_of (decode_texts 8 p)

json_reads :
    (wire : WireEvent)
    → IsAsciiWire wire
    → (payload : Bytes) × (marshal_wire wire ≡ some payload) × (unmarshal_wire payload ≡ some wire)
json_reads wire h = (
  encode_texts (texts_of wire) wire.schema_version,
  refl,
  ap wire_of (decode_texts-encode_texts (texts_of wire) wire.schema_version),
)

abbrev trade : Event
trade = record {
  event_id = codes "0b6c";
  tenant_id = codes "acme";
  schema_version = pos 1;
  instrument = codes "BRK";
  side = codes "BUY";
  quantity = pos 5;
  price = pos 7;
  currency = codes "USD";
  occurred_at = pos 1700;
}

trade-IsSound : IsSound trade
unfolding is_valid_tenant_id is_valid_instrument is_valid_currency_code every
trade-IsSound = record {
  version = refl;
  quantity_in = omega arith;
  price_in = omega arith;
  known_side = inl refl;
  tenant_valid = refl;
  instrument_valid = refl;
  currency_valid = refl;
}

abbrev keep_text : Bytes → Bytes
keep_text s = s

abbrev keep_uuid : Bytes → Option Bytes
keep_uuid s = some s

abbrev some_time_text : Time → Bytes
some_time_text at = codes "then"

abbrev read_time : Bytes → Option Time
read_time s = some (pos 1700)

abbrev acknowledge : ℕ → ProducedRecord → ℕ × Bool
acknowledge n r = (n + 1, true)

trade_published :
    publish keep_text some_time_text marshal_wire acknowledge (codes "t") 0 trade ≡ (1, true)
unfolding publish
trade_published = refl

published_event_decodes_example :
    (r : ProducedRecord) × (acknowledge 0 r ≡ (1, true))
    × (r.topic ≡ codes "t")
    × (split_partition_key r.key ≡ (codes "acme", codes "BRK"))
    × (decode_transaction unmarshal_wire keep_uuid read_time r.value ≡ ok (transaction_of trade))
published_event_decodes_example =
    published_event_decodes keep_text some_time_text trade trade-IsSound (omega arith) (omega arith)
      unmarshal_wire keep_uuid read_time refl refl marshal_wire acknowledge (codes "t") 0 1
      json_reads trade_published
