-- ===== src/Operator/PartitionMap.antt =====
-- operator/internal/controller/tenant_partition_map.go: the map of tenants' partitions, which every
-- reconcile pass shares. The Kubernetes client is a world `W` with the operations of a MapApi;
-- `decode` and `encode` are json.Unmarshal, of a text that is no null, and json.Marshal.
pub mod Entries
pub mod Published
use go_transaction_control_p.Ledger.Amount.{is_empty}
use go_transaction_control_p.Ingestion.Partitioner.{lookup}
use go_transaction_control_p.Prelude.Int.{ℤ}
use go_transaction_control_p.Prelude.{
  not, ◌||◌, eq_bytes, ◌&&◌, ℕ, if◌then◌else◌, codes, Result, Option, List, Bytes, Bool, true,
  false, zero, suc, some, none, ok, err, [], ◌∷◌,
}

pub data ApiError : Type 0 where
  not_found already_exists : ApiError
  other_failure : Bytes → ApiError

pub record TenantPartitionEntry : Type 0 where
  pub start : ℤ
  pub count : ℤ

abbrev pub Mapping : Type 0
Mapping = List (Bytes × TenantPartitionEntry)

-- A ConfigMap: where it stands, the version that the server gave it, and its data.
pub record ConfigMap : Type 0 where
  pub name : Bytes
  pub namespace : Bytes
  pub resource_version : Bytes
  pub data_entries : List (Bytes × Bytes)

pub record MapApi (W : Type 0) : Type 0 where
  pub get : W → Bytes → Bytes → W × Result ApiError ConfigMap
  pub create : W → ConfigMap → W × Option ApiError
  pub update : W → ConfigMap → W × Option ApiError
  pub decode : Bytes → Option Mapping
  pub encode : Mapping → Option Bytes

pub data MapError : Type 0 where
  get_failed decode_failed encode_failed create_failed update_failed : MapError

-- How a mutation ends; `racing` when its rounds are used up by lost create races.
pub data Mutated (W : Type 0) : Type 0 where
  done : W → Mutated W
  failed : W → MapError → Mutated W
  racing : W → Mutated W

abbrev pub tenant_partition_map_name : Bytes
tenant_partition_map_name = codes "tenant-partition-map"

abbrev pub tenant_partition_map_data_key : Bytes
tenant_partition_map_data_key = codes "mapping.json"

-- `m[key] = a` and `delete(m, key)`.
unfoldable pub set_entry : {A : Type 0} → Bytes → A → List (Bytes × A) → List (Bytes × A)
set_entry key a [] = (key, a) ∷ []
set_entry key a ((k, b) ∷ entries) =
    let rest = set_entry key a entries in if eq_bytes k key then (k, a) ∷ entries else (k, b) ∷ rest

unfoldable pub erase_entry : {A : Type 0} → Bytes → List (Bytes × A) → List (Bytes × A)
erase_entry key [] = []
erase_entry key ((k, b) ∷ entries) =
    let rest = erase_entry key entries in if eq_bytes k key then rest else (k, b) ∷ rest

text_or_empty : Option Bytes → Bytes
text_or_empty none = []
text_or_empty (some text) = text

-- `configMap.Data[tenantPartitionMapDataKey]`.
unfoldable pub data_at : ConfigMap → Bytes
unfolding text_or_empty
data_at config_map = text_or_empty (lookup config_map.data_entries tenant_partition_map_data_key)

abbrev pub new_config_map : Bytes → ConfigMap
new_config_map namespace = record {
  name = tenant_partition_map_name;
  namespace = namespace;
  resource_version = [];
  data_entries = [];
}

abbrev pub with_text : ConfigMap → Bytes → ConfigMap
with_text config_map text = record config_map {
  data_entries = set_entry tenant_partition_map_data_key text config_map.data_entries;
}

abbrev is_nil : Mapping → Bool
is_nil [] = true
is_nil (_ ∷ _) = false

module _ {W : Type 0} (api : MapApi W) (namespace : Bytes) where
  unfoldable pub decode_map : Bytes → Option Mapping
  decode_map raw = if is_empty raw then some [] else api.decode raw

  after_update : W × Option ApiError → Mutated W
  after_update (w, none) = done w
  after_update (w, some e) = failed w update_failed

  after_create : W × Option ApiError → (W → Mutated W) → Mutated W
  after_create (w, none) again = done w
  after_create (w, some already_exists) again = again w
  after_create (w, some not_found) again = failed w create_failed
  after_create (w, some (other_failure e)) again = failed w create_failed

  write_text : W → Bool → ConfigMap → Bytes → (W → Mutated W) → Mutated W
  unfolding after_update after_create
  write_text w true config_map text again =
      after_create (api.create w (with_text config_map text)) again
  write_text w false config_map text again = after_update (api.update w (with_text config_map text))

  -- Nothing is written for an empty mapping that has no ConfigMap, or a text that is already there.
  unfoldable pub is_settled : Bool → ConfigMap → Mapping → Bytes → Bool
  is_settled absent config_map mapping text =
      (absent && is_nil mapping) || (not absent && eq_bytes (data_at config_map) text)

  write_mapping : W → Bool → ConfigMap → Mapping → Option Bytes → (W → Mutated W) → Mutated W
  unfolding write_text is_settled
  write_mapping w absent config_map mapping none again = failed w encode_failed
  write_mapping w absent config_map mapping (some text) again =
      if is_settled absent config_map mapping text
      then done w
      else write_text w absent config_map text again

  module _ (mutate : Mapping → Mapping) where
    with_mapping : W → Bool → ConfigMap → Option Mapping → (W → Mutated W) → Mutated W
    unfolding write_mapping
    with_mapping w absent config_map none again = failed w decode_failed
    with_mapping w absent config_map (some mapping) again =
        write_mapping w absent config_map (mutate mapping) (api.encode (mutate mapping)) again

    got_config_map : W × Result ApiError ConfigMap → (W → Mutated W) → Mutated W
    unfolding with_mapping decode_map
    got_config_map (w, ok config_map) again =
        with_mapping w false config_map (decode_map (data_at config_map)) again
    got_config_map (w, err not_found) again =
        with_mapping w true (new_config_map namespace)
          (decode_map (data_at (new_config_map namespace))) again
    got_config_map (w, err already_exists) again = failed w get_failed
    got_config_map (w, err (other_failure e)) again = failed w get_failed

    -- mutateTenantPartitionMap, with the rounds left that a lost create race may start again.
    unfoldable pub mutate_map : ℕ → W → Mutated W
    unfolding got_config_map
    mutate_map zero w = racing w
    mutate_map (suc rounds) w =
        got_config_map (api.get w tenant_partition_map_name namespace) (λ w'. mutate_map rounds w')

  unfoldable pub ensure_entry : Bytes → TenantPartitionEntry → ℕ → W → Mutated W
  unfolding mutate_map set_entry
  ensure_entry tenant entry rounds w =
      mutate_map (λ mapping. set_entry tenant entry mapping) rounds w

  unfoldable pub remove_entry : Bytes → ℕ → W → Mutated W
  unfolding mutate_map erase_entry
  remove_entry tenant rounds w = mutate_map (λ mapping. erase_entry tenant mapping) rounds w
