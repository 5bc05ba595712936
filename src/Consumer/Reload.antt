-- ===== src/Consumer/Reload.antt =====
-- internal/processor/kafka/reload.go: a dedicated consumer's partitions, reloaded from the tenants'
-- map. A set of partitions is the list of its members; the Kafka client is a world `C` with the two
-- calls of a Client.
pub mod Assignment
pub mod Entry
pub mod Sets
use go_transaction_control_p.Prelude.Word.{wrap32}
use go_transaction_control_p.Ingestion.Partitioner.{lookup}
use go_transaction_control_p.Consumer.Config.{is_nil}
use go_transaction_control_p.Prelude.Int.{◌+ℤ◌, pos_part, pos, eqb_ℤ, ltb_ℤ, ℤ}
use go_transaction_control_p.Prelude.{
  zero, ◌||◌, ◌&&◌, ok, suc, or_fail, false, [], ◌∷◌, ◌>>=◌, ℕ, if◌then◌else◌, err, Bool, Result,
  List, Bytes,
}

pub record TenantPartitionMapEntry : Type 0 where
  pub start : ℤ
  pub count : ℤ

pub data LoadError : Type 0 where
  unreadable malformed no_entry bad_count : LoadError

unfoldable pub has : List ℤ → ℤ → Bool
has [] p = false
has (q ∷ partitions) p = eqb_ℤ q p || has partitions p

-- `set[p] = struct{}{}`.
unfoldable pub insert : ℤ → List ℤ → List ℤ
unfolding has
insert p partitions = if has partitions p then partitions else p ∷ partitions

-- The loop of partitionsForEntry with its rounds left, at `index`.
unfoldable pub expand : ℤ → ℕ → ℕ → List ℤ → List ℤ
unfolding insert
expand start index zero partitions = partitions
expand start index (suc rounds) partitions =
    expand start (suc index) rounds (insert (wrap32 (start +ℤ pos index)) partitions)

unfoldable pub partitions_for_entry : TenantPartitionMapEntry → Result LoadError (List ℤ)
unfolding expand
partitions_for_entry entry =
    if ltb_ℤ entry.count (pos 1)
    then err bad_count
    else ok (expand entry.start 0 (pos_part entry.count) [])

-- What TenantPartitionSource.Load returns.
abbrev pub Loaded : Type 0
Loaded = Result LoadError (List (Bytes × TenantPartitionMapEntry))

unfoldable pub load_target : Bytes → Loaded → Result LoadError (List ℤ)
unfolding partitions_for_entry
load_target tenant loaded = do
  entries ← loaded
  entry ← or_fail (lookup entries tenant) no_entry
  partitions_for_entry entry

-- The members of `partitions` that `others` lacks.
unfoldable pub without : List ℤ → List ℤ → List ℤ
unfolding has
without [] others = []
without (p ∷ partitions) others =
    let rest = without partitions others in if has others p then rest else p ∷ rest

pub record Client (C : Type 0) : Type 0 where
  pub add_consume_partitions : C → Bytes → List ℤ → C
  pub remove_consume_partitions : C → Bytes → List ℤ → C

-- The consumer: its client, its assignment, and the count of failed reloads.
pub record Assigned (C : Type 0) : Type 0 where
  pub client : C
  pub assignment : List ℤ
  pub reload_errors : ℕ

module _ {C : Type 0} (api : Client C) (topic : Bytes) where
  -- `if len(added) > 0` and the call.
  unfoldable pub add_all : C → List ℤ → C
  add_all c [] = c
  add_all c (p ∷ added) = api.add_consume_partitions c topic (p ∷ added)

  -- `if len(removed) > 0` and the call.
  unfoldable pub remove_all : C → List ℤ → C
  remove_all c [] = c
  remove_all c (p ∷ removed) = api.remove_consume_partitions c topic (p ∷ removed)

  unfoldable pub apply_assignment : Assigned C → List ℤ → Assigned C
  unfolding add_all remove_all without
  apply_assignment con target =
      let added = without target con.assignment in
      let removed = without con.assignment target in
      if is_nil added && is_nil removed then con else record con {
        client = remove_all (add_all con.client added) removed;
        assignment = target;
      }

  reload_to : Assigned C → Result LoadError (List ℤ) → Assigned C
  reload_to con (err e) = record con { reload_errors = suc con.reload_errors }
  reload_to con (ok target) = apply_assignment con target

  unfoldable pub reload_once : Bytes → Assigned C → Loaded → Assigned C
  unfolding reload_to load_target
  reload_once tenant con loaded = reload_to con (load_target tenant loaded)

  -- The loop of Run over what each tick loads, until the context ends.
  unfoldable pub run : Bytes → Assigned C → List Loaded → Assigned C
  unfolding reload_once
  run tenant con [] = con
  run tenant con (loaded ∷ ticks) = run tenant (reload_once tenant con loaded) ticks
