-- ===== src/Operator/PartitionMap/Published.antt =====
-- operator/internal/controller/tenant_partition_map.go: what a mutation leaves in the shared map, at
-- a Kubernetes API server that no one else writes to and that answers every call.
use go_transaction_control_p.Prelude.Word.{InInt32}
use mathlib.Core.Path.{subst}
use go_transaction_control_p.Operator.PartitionMap.{
  got_config_map, set_entry, erase_entry, TenantPartitionEntry, remove_entry, ensure_entry,
  with_mapping, new_config_map, mutate_map, after_create, not_found,
}
use go_transaction_control_p.Operator.PartitionMap.Entries.{
  set_entry-All, erase_entry-All, lookup-erase_entry_other, lookup-set_entry_other,
  lookup-erase_entry, lookup-set_entry,
}
use go_transaction_control_p.Ingestion.Partitioner.{lookup}
use go_transaction_control_p.Ledger.Amount.{is_empty}
use go_transaction_control_p.Operator.PartitionMap.{
  tenant_partition_map_data_key, after_update, write_text, with_text, done, write_mapping,
  is_settled, decode_map, Mutated, Mapping, ConfigMap, data_at, MapApi,
}
use go_transaction_control_p.Prelude.{
  ◌<◌, codes, All, ◌≢◌, ◌∙◌, Option-cases, suc, ℕ, sym, ap, Bool-cases, eq_of_eq_bytes, ◌≡◌, Bytes,
  Option, true, false, some, none, ok, err, [], ◌∷◌, inl, inr, refl,
}

-- An entry that JSON keeps: the key is ASCII, and the numbers are within int32, as the fields of
-- tenantPartitionMapEntry are.
abbrev pub IsEntry : Bytes × TenantPartitionEntry → Type 0
IsEntry (key, entry) = All (λ c. c < 128) key × InInt32 entry.start × InInt32 entry.count

-- What the server and JSON do. Reading changes nothing and finds what is stored under the map's name in
-- the namespace. A ConfigMap of that name and namespace is created where there is none, without a
-- version; an update with the version of the stored one replaces it. An encoded mapping of entries that
-- JSON keeps is decoded to the same entries.
pub record Serves {W : Type 0} (api : MapApi W) (namespace : Bytes) (stored : W → Option ConfigMap)
    : Type 0 where
  pub finds :
      (w : W) (config_map : ConfigMap)
      → stored w ≡ some config_map
      → (config_map.name ≡ codes "tenant-partition-map")
        × (config_map.namespace ≡ namespace)
        × (api.get w (codes "tenant-partition-map") namespace ≡ (w, ok config_map))
  pub misses :
      (w : W)
      → stored w ≡ none
      → api.get w (codes "tenant-partition-map") namespace ≡ (w, err not_found)
  pub creates :
      (w : W) (config_map : ConfigMap)
      → stored w ≡ none
      → config_map.name ≡ codes "tenant-partition-map"
      → config_map.namespace ≡ namespace
      → config_map.resource_version ≡ []
      → (w' : W) × (written : ConfigMap) × (api.create w config_map ≡ (w', none))
        × (stored w' ≡ some written)
        × (written.data_entries ≡ config_map.data_entries)
  pub updates :
      (w : W) (old config_map : ConfigMap)
      → stored w ≡ some old
      → config_map.name ≡ codes "tenant-partition-map"
      → config_map.namespace ≡ namespace
      → config_map.resource_version ≡ old.resource_version
      → (w' : W) × (written : ConfigMap) × (api.update w config_map ≡ (w', none))
        × (stored w' ≡ some written)
        × (written.data_entries ≡ config_map.data_entries)
  pub reads :
      (mapping : Mapping)
      → All IsEntry mapping
      → (text : Bytes) × (again : Mapping) × (api.encode mapping ≡ some text)
        × (is_empty text ≡ false)
        × (api.decode text ≡ some again)
        × ((key : Bytes) → lookup again key ≡ lookup mapping key)

abbrev pub content : Option ConfigMap → Bytes
content none = []
content (some config_map) = data_at config_map

data_at-with_text :
    (config_map written : ConfigMap) (text : Bytes)
    → written.data_entries ≡ (with_text config_map text).data_entries
    → data_at written ≡ text
unfolding data_at
data_at-with_text config_map written text e =
    rw e (rw (lookup-set_entry tenant_partition_map_data_key text config_map.data_entries) refl)

module _ {W : Type 0} (api : MapApi W) (namespace : Bytes) (stored : W → Option ConfigMap)
    (server : Serves api namespace stored) where
  -- The stored text is read as `mapping`.
  abbrev pub Holds : W → Mapping → Type 0
  Holds w mapping = decode_map api namespace (content (stored w)) ≡ some mapping

  -- The mutation ends, and what is stored then has the entries of `mapping`.
  abbrev pub Publishes : Mutated W → Mapping → Type 0
  Publishes r mapping =
      (w' : W) × (again : Mapping) × (r ≡ done w')
      × Holds w' again
      × ((key : Bytes) → lookup again key ≡ lookup mapping key)

  decode_text :
      (text : Bytes) (mapping : Mapping)
      → is_empty text ≡ false
      → api.decode text ≡ some mapping
      → decode_map api namespace text ≡ some mapping
  unfolding decode_map
  decode_text text mapping h e = rw h e

  settled_text :
      (config_map : ConfigMap) (mapping : Mapping) (text : Bytes)
      → is_settled api namespace false config_map mapping text ≡ true
      → data_at config_map ≡ text
  unfolding is_settled
  settled_text config_map mapping text h = eq_of_eq_bytes (data_at config_map) text h

  settled_nil :
      (config_map : ConfigMap) (mapping : Mapping) (text : Bytes)
      → is_settled api namespace true config_map mapping text ≡ true
      → mapping ≡ []
  unfolding is_settled
  settled_nil config_map [] text h = refl
  settled_nil config_map (entry ∷ mapping) text h = absurd (let e : false ≡ true = h in cc)

  text-Holds :
      (w : W) (written : ConfigMap) (text : Bytes) (mapping : Mapping)
      → stored w ≡ some written
      → data_at written ≡ text
      → is_empty text ≡ false
      → api.decode text ≡ some mapping
      → Holds w mapping
  text-Holds w written text mapping s e h d = rw s (rw e (decode_text text mapping h d))

  found-Publishes :
      (w : W) (config_map : ConfigMap) (mapping : Mapping) (again : W → Mutated W)
      → stored w ≡ some config_map
      → All IsEntry mapping
      → Publishes
          (write_mapping api namespace w false config_map mapping (api.encode mapping) again)
          mapping
  unfolding write_mapping write_text after_update
  found-Publishes w config_map mapping again s i =
      let (text, m, e, h, d, same) = server.reads mapping i in
      rw e (elim (Bool-cases (is_settled api namespace false config_map mapping text)) [
        | inl q ↦ rw q (
          w,
          m,
          refl,
          text-Holds w config_map text m s (settled_text config_map mapping text q) h d,
          same,
        )
        | inr q ↦
            let (w', written, u, s', de) =
              server.updates w config_map (with_text config_map text) s
                (server.finds w config_map s).0 (server.finds w config_map s).1 refl in
            rw q (
              rw u (
                w',
                m,
                refl,
                text-Holds w' written text m s' (data_at-with_text config_map written text de) h d,
                same,
              ))
      ])

  nothing_stored : (w : W) → stored w ≡ none → Holds w []
  unfolding decode_map
  nothing_stored w s = rw s refl

  empty_map : decode_map api namespace (data_at (new_config_map namespace)) ≡ some []
  unfolding decode_map data_at lookup
  empty_map = refl

  absent-Publishes :
      (w : W) (mapping : Mapping) (again : W → Mutated W)
      → stored w ≡ none
      → All IsEntry mapping
      → Publishes
          (write_mapping api namespace w true
            (new_config_map namespace)
            mapping
            (api.encode mapping)
            again)
          mapping
  unfolding write_mapping write_text after_create
  absent-Publishes w mapping again s i =
      let cm = new_config_map namespace in
      let (text, m, e, h, d, same) = server.reads mapping i in
      rw e (elim (Bool-cases (is_settled api namespace true cm mapping text)) [
        | inl q ↦ rw q (
          w,
          [],
          refl,
          nothing_stored w s,
          λ key. ap (λ x. lookup x key) (sym (settled_nil cm mapping text q)),
        )
        | inr q ↦
            let (w', written, u, s', de) = server.creates w (with_text cm text) s refl refl refl in
            rw q (
              rw u (
                w',
                m,
                refl,
                text-Holds w' written text m s' (data_at-with_text cm written text de) h d,
                same,
              ))
      ])

  some_injective : (a b : Mapping) → some a ≡ some b → a ≡ b
  some_injective a b h = cc

  -- A mutation ends with its first attempt, and the stored mapping is then the mutated one.
  mutate_map-Publishes :
      (mutate : Mapping → Mapping) (rounds : ℕ) (w : W) (mapping : Mapping)
      → Holds w mapping
      → All IsEntry (mutate mapping)
      → Publishes (mutate_map api namespace mutate (suc rounds) w) (mutate mapping)
  unfolding mutate_map got_config_map with_mapping
  mutate_map-Publishes mutate rounds w mapping h i = elim (Option-cases (stored w)) [
    | inl s ↦
        let empty : mapping ≡ [] = some_injective mapping [] (sym h ∙ nothing_stored w s) in
        rw (server.misses w s) (
          rw empty_map (
            rw empty
              (absent-Publishes w (mutate []) _ s (subst (λ m. All IsEntry (mutate m)) empty i))))
    | inr (config_map, s) ↦ rw (server.finds w config_map s).2 (
        rw (subst (λ x. decode_map api namespace (content x) ≡ some mapping) s h)
          (found-Publishes w config_map (mutate mapping) _ s i))
  ]

  -- At a server that no one else writes to, that answers every call and that finds and replaces the map
  -- by its name, its namespace and its version, where the stored text is read as a mapping of entries
  -- that JSON keeps: one attempt is enough to publish such an entry of a tenant. It ends without an
  -- error, and the stored mapping then has the entry for the tenant and the entries that it had for all
  -- others.
  pub ensure_entry-Publishes :
      (tenant : Bytes) (entry : TenantPartitionEntry) (rounds : ℕ) (w : W) (mapping : Mapping)
      → Holds w mapping
      → All IsEntry mapping
      → IsEntry (tenant, entry)
      → (w' : W) × (after : Mapping) × (ensure_entry api namespace tenant entry (suc rounds) w
          ≡ done w')
        × Holds w' after
        × (lookup after tenant ≡ some entry)
        × ((other : Bytes) → tenant ≢ other → lookup after other ≡ lookup mapping other)
  unfolding ensure_entry
  ensure_entry-Publishes tenant entry rounds w mapping h i j =
      let (w', after, e, k, same) =
        mutate_map-Publishes (λ m. set_entry tenant entry m) rounds w mapping h
          (set_entry-All IsEntry tenant entry mapping j i) in
      (
        w',
        after,
        e,
        k,
        same tenant ∙ lookup-set_entry tenant entry mapping,
        λ other d. same other ∙ lookup-set_entry_other tenant other entry mapping d,
      )

  -- At such a server, one attempt is enough to remove a tenant's entry, whether or not there is one or even a map: it
  -- ends without an error, and the stored mapping then has no entry for the tenant and the entries
  -- that it had for all others.
  pub remove_entry-Publishes :
      (tenant : Bytes) (rounds : ℕ) (w : W) (mapping : Mapping)
      → Holds w mapping
      → All IsEntry mapping
      → (w' : W) × (after : Mapping) × (remove_entry api namespace tenant (suc rounds) w ≡ done w')
        × Holds w' after
        × (lookup after tenant ≡ none)
        × ((other : Bytes) → tenant ≢ other → lookup after other ≡ lookup mapping other)
  unfolding remove_entry
  remove_entry-Publishes tenant rounds w mapping h i =
      let (w', after, e, k, same) =
        mutate_map-Publishes (λ m. erase_entry tenant m) rounds w mapping h
          (erase_entry-All IsEntry tenant mapping i) in
      (
        w',
        after,
        e,
        k,
        same tenant ∙ lookup-erase_entry tenant mapping,
        λ other d. same other ∙ lookup-erase_entry_other tenant other mapping d,
      )
