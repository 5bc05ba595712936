-- ===== src/Operator/Settings.antt =====
-- operator/cmd/main.go: what the operator reads from its environment. `env` is os.Getenv and
-- `parse_duration` is time.ParseDuration; a map is a list of entries with different keys.
pub mod Tolerations
use go_transaction_control_p.Settings.{non_empty_pieces}
use go_transaction_control_p.Ledger.Amount.{is_empty}
use go_transaction_control_p.Prelude.Spaces.{split, trim_space}
use go_transaction_control_p.Prelude.Int.{ℤ}
use go_transaction_control_p.Prelude.{
  ◌||◌, codes, ◌==◌, eq_bytes, if◌then◌else◌, Bool, ℕ, Option, List, Bytes, true, false, ok, err,
  none, some, [], ◌∷◌,
}

-- durationFromEnv; none for a value that cannot be parsed.
unfoldable pub duration_from_env : (Bytes → Option ℤ) → (Bytes → Bytes) → Bytes → ℤ → Option ℤ
duration_from_env parse_duration env name fallback =
    let raw = env name in if is_empty raw then some fallback else parse_duration raw

-- configMapEnvFromSourcesFromEnv: the names of the ConfigMaps.
unfoldable pub config_map_names_from_env : (Bytes → Bytes) → Bytes → List Bytes
config_map_names_from_env env name =
    let raw = env name in if is_empty raw then [] else non_empty_pieces (split b',' raw)

abbrev prepend_before : ℕ → Option (Bytes × Bytes) → Option (Bytes × Bytes)
prepend_before c none = none
prepend_before c (some (before, after)) = some (c ∷ before, after)

-- strings.Cut at a separator of one byte; none where it is not found.
unfoldable pub cut_at : ℕ → Bytes → Option (Bytes × Bytes)
cut_at sep [] = none
cut_at sep (c ∷ s) =
    let rest = prepend_before c (cut_at sep s) in if c == sep then some ([], s) else rest

-- An entry of a map, written at its key.
unfoldable pub put_entry : Bytes → Bytes → List (Bytes × Bytes) → List (Bytes × Bytes)
put_entry key value [] = (key, value) ∷ []
put_entry key value ((k, v) ∷ entries) =
    let rest = put_entry key value entries in
    if eq_bytes k key then (k, value) ∷ entries else (k, v) ∷ rest

put_pair : List (Bytes × Bytes) → Option (Bytes × Bytes) → List (Bytes × Bytes)
put_pair pairs none = pairs
put_pair pairs (some (key, value)) =
    if is_empty key then pairs else put_entry key (trim_space value) pairs

-- The loop of keyValueMapFromEnv, on the entries so far.
unfoldable pub read_pairs : List (Bytes × Bytes) → List Bytes → List (Bytes × Bytes)
unfolding put_pair
read_pairs pairs [] = pairs
read_pairs pairs (pair ∷ rest) = read_pairs (put_pair pairs (cut_at b'=' (trim_space pair))) rest

-- keyValueMapFromEnv; a nil map is empty.
unfoldable pub key_value_map_from_env : (Bytes → Bytes) → Bytes → List (Bytes × Bytes)
key_value_map_from_env env name =
    let raw = env name in if is_empty raw then [] else read_pairs [] (split b',' raw)

pub data TolerationOperator : Type 0 where
  op_exists op_equal : TolerationOperator

pub record Toleration : Type 0 where
  pub key : Bytes
  pub operator : TolerationOperator
  pub value : Bytes
  pub effect : Bytes

unfoldable pub is_taint_effect : Bytes → Bool
is_taint_effect effect =
    eq_bytes effect (codes "NoSchedule")
    || eq_bytes effect (codes "PreferNoSchedule")
    || eq_bytes effect (codes "NoExecute")

keyed_toleration : Bytes → TolerationOperator → Bytes → Bytes → Option Toleration
keyed_toleration key operator value effect =
    if is_empty key
    then none
    else some (record { key = key; operator = operator; value = value; effect = effect })

-- A toleration of the text before the colon, as a key with a value or without.
toleration_of : Bytes → Bytes → Option (Bytes × Bytes) → Option Toleration
unfolding keyed_toleration
toleration_of key_value effect none = keyed_toleration (trim_space key_value) op_exists [] effect
toleration_of key_value effect (some (key, value)) =
    keyed_toleration (trim_space key) op_equal (trim_space value) effect

read_toleration : Option (Bytes × Bytes) → Option Toleration
unfolding toleration_of
read_toleration none = none
read_toleration (some (key_value, text)) =
    let effect = trim_space text in
    if is_taint_effect effect then toleration_of key_value effect (cut_at b'=' key_value) else none

keep_toleration : Option Toleration → List Toleration → List Toleration
keep_toleration none tolerations = tolerations
keep_toleration (some toleration) tolerations = toleration ∷ tolerations

-- The loop of tolerationsFromEnv.
unfoldable pub read_tolerations : List Bytes → List Toleration
unfolding read_toleration keep_toleration
read_tolerations [] = []
read_tolerations (entry ∷ entries) =
    keep_toleration (read_toleration (cut_at b':' (trim_space entry))) (read_tolerations entries)

-- tolerationsFromEnv; a nil list is empty.
unfoldable pub tolerations_from_env : (Bytes → Bytes) → Bytes → List Toleration
unfolding read_tolerations
tolerations_from_env env name =
    let raw = env name in if is_empty raw then [] else read_tolerations (split b',' raw)
