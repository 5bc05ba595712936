-- ===== src/Operator/Tests/Maps.antt =====
-- Runs of the shared partition map (operator/internal/controller/tenant_partition_map.go), over a
-- server that holds one ConfigMap.
use go_transaction_control_p.Operator.PartitionMap.Published.{Serves}
use go_transaction_control_p.Ingestion.Partitioner.{lookup}
use go_transaction_control_p.Operator.PartitionMap.Published.{ensure_entry-Publishes, content}
use go_transaction_control_p.Prelude.Int.{pos}
use go_transaction_control_p.Prelude.{
  ◌&&◌, true, eq_bytes_refl, some_inj, if◌then◌else◌, eq_bytes, arith, List, Bool, ◌≢◌, sym, ◌∙◌,
  ◌≡◌, ap, ◌++◌, length, drop, codes, ℕ, Result, Option, Bytes, some, none, ok, err, [], ◌∷◌, refl,
  zero, suc,
}
use go_transaction_control_p.Operator.PartitionMap.{
  other_failure, already_exists, ensure_entry, ConfigMap, ApiError, decode_map,
  TenantPartitionEntry, Mapping, MapApi, not_found, done,
}
use go_transaction_control_p.Prelude.Fields.{
  number-put_number, drop-put_number, first_text-put, rest_of-put, put, first_text, rest_of, number,
  put_number,
}

pub put_entries : Mapping → Bytes
unfolding put put_number
put_entries [] = []
put_entries ((key, entry) ∷ entries) =
    put key (put_number entry.start ++ (put_number entry.count ++ put_entries entries))

pub entries_of : ℕ → Bytes → Mapping
unfolding first_text rest_of number
entries_of zero p = []
entries_of (suc n) p =
    (first_text p, record { start = number (rest_of p); count = number (drop 2 (rest_of p)) })
    ∷ entries_of n (drop 2 (drop 2 (rest_of p)))

entries_of-put_entries : (m : Mapping) → entries_of (length m) (put_entries m) ≡ m
unfolding entries_of put_entries
entries_of-put_entries [] = refl
entries_of-put_entries ((key, entry) ∷ entries) =
    let behind = put_number entry.count ++ put_entries entries in
    let numbers = put_number entry.start ++ behind in
    rw (rest_of-put key numbers) (
      rw (first_text-put key numbers) (
        rw (drop-put_number entry.start behind) (
          rw (number-put_number entry.start behind) (
            rw (number-put_number entry.count (put_entries entries)) (
              rw (drop-put_number entry.count (put_entries entries))
                (ap (λ r. (key, entry) ∷ r) (entries_of-put_entries entries)))))))

abbrev encode_map : Mapping → Option Bytes
encode_map m = some (length m ∷ put_entries m)

abbrev decode_entries : Bytes → Option Mapping
decode_entries [] = none
decode_entries (n ∷ p) = some (entries_of n p)

-- The server's world is the data of the one ConfigMap that it may store, with its version.
abbrev pub Server : Type 0
Server = Option (Bytes × List (Bytes × Bytes))

abbrev stored_map : Server → Option ConfigMap
stored_map none = none
stored_map (some (version, entries)) = some (record {
  name = codes "tenant-partition-map";
  namespace = codes "trading";
  resource_version = version;
  data_entries = entries;
})

unfoldable pub is_the_map : Bytes → Bytes → Bool
is_the_map name namespace =
    eq_bytes name (codes "tenant-partition-map") && eq_bytes namespace (codes "trading")

unfoldable pub found_in : Option ConfigMap → Result ApiError ConfigMap
found_in none = err not_found
found_in (some config_map) = ok config_map

unfoldable pub get_stored : Server → Bytes → Bytes → Server × Result ApiError ConfigMap
unfolding is_the_map found_in
get_stored w name namespace =
    if is_the_map name namespace then (w, found_in (stored_map w)) else (w, err not_found)

unfoldable pub create_stored : Server → ConfigMap → Server × Option ApiError
unfolding is_the_map
create_stored none config_map =
    if is_the_map config_map.name config_map.namespace
    then (some (codes "1", config_map.data_entries), none)
    else (none, none)
create_stored (some old) config_map = (some old, some already_exists)

unfoldable pub update_stored : Server → ConfigMap → Server × Option ApiError
unfolding is_the_map
update_stored none config_map = (none, some not_found)
update_stored (some (version, entries)) config_map =
    if is_the_map config_map.name config_map.namespace
      && eq_bytes config_map.resource_version version
    then (some (b'1' ∷ version, config_map.data_entries), none)
    else (some (version, entries), some (other_failure []))

abbrev pub map_api : MapApi Server
map_api = record {
  get = get_stored;
  create = create_stored;
  update = update_stored;
  decode = decode_entries;
  encode = encode_map;
}

the_map : is_the_map (codes "tenant-partition-map") (codes "trading") ≡ true
unfolding is_the_map eq_bytes
the_map = refl

finds_stored :
    (w : Server) (config_map : ConfigMap)
    → stored_map w ≡ some config_map
    → (config_map.name ≡ codes "tenant-partition-map")
      × (config_map.namespace ≡ codes "trading")
      × (get_stored w (codes "tenant-partition-map") (codes "trading") ≡ (w, ok config_map))
unfolding get_stored found_in
finds_stored none config_map e = absurd cc
finds_stored (some (version, entries)) config_map e =
    let same = some_inj e in
    (
      ap (λ m. m.name) (sym same),
      ap (λ m. m.namespace) (sym same),
      rw the_map (ap (λ m. (some (version, entries), found_in (some m))) same),
    )

misses_stored :
    (w : Server)
    → stored_map w ≡ none
    → get_stored w (codes "tenant-partition-map") (codes "trading") ≡ (w, err not_found)
unfolding get_stored found_in
misses_stored none e = rw the_map refl
misses_stored (some stored) e = absurd cc

creates_stored :
    (w : Server) (config_map : ConfigMap)
    → stored_map w ≡ none
    → config_map.name ≡ codes "tenant-partition-map"
    → config_map.namespace ≡ codes "trading"
    → (w' : Server) × (written : ConfigMap) × (create_stored w config_map ≡ (w', none))
      × (stored_map w' ≡ some written)
      × (written.data_entries ≡ config_map.data_entries)
unfolding create_stored
creates_stored none config_map e n m =
    rw n (rw m (rw the_map (some (codes "1", config_map.data_entries), _, refl, refl, refl)))
creates_stored (some stored) config_map e n m = absurd cc

updates_stored :
    (w : Server) (old config_map : ConfigMap)
    → stored_map w ≡ some old
    → config_map.name ≡ codes "tenant-partition-map"
    → config_map.namespace ≡ codes "trading"
    → config_map.resource_version ≡ old.resource_version
    → (w' : Server) × (written : ConfigMap) × (update_stored w config_map ≡ (w', none))
      × (stored_map w' ≡ some written)
      × (written.data_entries ≡ config_map.data_entries)
unfolding update_stored
updates_stored none old config_map e n m v = absurd cc
updates_stored (some (version, entries)) old config_map e n m v =
    let same : config_map.resource_version ≡ version =
      v ∙ ap (λ x. x.resource_version) (sym (some_inj e)) in
    rw n (
      rw m (
        rw same (
          rw the_map (
            rw (eq_bytes_refl version)
              (some (b'1' ∷ version, config_map.data_entries), _, refl, refl, refl)))))

server-Serves : Serves map_api (codes "trading") stored_map
server-Serves = record {
  finds = finds_stored;
  misses = misses_stored;
  creates = λ w config_map e n m v. creates_stored w config_map e n m;
  updates = updates_stored;
  reads = λ m i.
      (length m ∷ put_entries m, m, refl, refl, ap some (entries_of-put_entries m), λ key. refl);
}

abbrev entry : TenantPartitionEntry
entry = record { start = pos 4; count = pos 2 }

nothing_yet : decode_map map_api (codes "trading") [] ≡ some []
unfolding decode_map
nothing_yet = refl

ensure_entry-Publishes_example :
    (w' : Server) × (after : Mapping) × (ensure_entry map_api
        (codes "trading")
        (codes "acme")
        entry
        1
        none
      ≡ done w')
    × (decode_map map_api (codes "trading") (content (stored_map w')) ≡ some after)
    × (lookup after (codes "acme") ≡ some entry)
    × ((other : Bytes)
        → codes "acme" ≢ other
        → lookup after other ≡ lookup {A = TenantPartitionEntry} [] other)
ensure_entry-Publishes_example =
    ensure_entry-Publishes map_api (codes "trading") stored_map server-Serves (codes "acme") entry 0
      none [] nothing_yet tt
      (
        (omega arith, (omega arith, (omega arith, (omega arith, tt)))),
        (omega arith, omega arith),
        (omega arith, omega arith),
      )
