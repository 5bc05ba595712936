-- ===== src/Metrics.antt =====
-- internal/metrics/tenant.go and metrics.go: the labels of tenants, and what a metric may be called.
-- A KnownTenants is the list of its tenants; `to_lower` is strings.ToLower.
pub mod Labels
use go_transaction_control_p.Prelude.{
  ◌>>◌, ◌==◌, fail_if, ◌||◌, ◌&&◌, not, leb, if◌then◌else◌, eq_bytes, codes, Result, ℕ, List, Bytes,
  Bool, true, false, ok, err, none, some, [], ◌∷◌,
}

abbrev pub unknown_tenant_label : Bytes
unknown_tenant_label = codes "unregistered"

unfoldable pub is_known : List Bytes → Bytes → Bool
is_known [] tenant = false
is_known (known ∷ rest) tenant = eq_bytes known tenant || is_known rest tenant

-- NewKnownTenants, on the tenants in the set so far.
unfoldable pub new_known_tenants : List Bytes → List Bytes
unfolding is_known
new_known_tenants [] = []
new_known_tenants (tenant ∷ tenants) =
    let known = new_known_tenants tenants in if is_known known tenant then known else tenant ∷ known

-- TenantLabel.
unfoldable pub tenant_label : List Bytes → Bytes → Bytes
tenant_label known tenant = if is_known known tenant then tenant else unknown_tenant_label

pub data MetricError : Type 0 where
  invalid_metric_name high_cardinality_label : MetricError

abbrev is_lower : ℕ → Bool
is_lower c = leb b'a' c && leb c b'z'

abbrev is_word : ℕ → Bool
is_word c = is_lower c || (leb b'0' c && leb c b'9')

-- nameFormat behind the first letter; `open_word` is whether an underscore came last.
matches_words : Bool → Bytes → Bool
matches_words open_word [] = not open_word
matches_words open_word (c ∷ s) =
    let inside = matches_words false s in
    let behind = matches_words true s in
    if is_word c then inside else (c == b'_') && not open_word && behind

unfoldable pub matches_name_format : Bytes → Bool
unfolding matches_words
matches_name_format [] = false
matches_name_format (c ∷ s) = is_lower c && matches_words false s

-- strings.HasSuffix.
unfoldable pub has_suffix : Bytes → Bytes → Bool
has_suffix [] suffix = eq_bytes [] suffix
has_suffix (c ∷ s) suffix = eq_bytes (c ∷ s) suffix || has_suffix s suffix

has_one_suffix : Bytes → List Bytes → Bool
has_one_suffix name [] = false
has_one_suffix name (suffix ∷ suffixes) = has_suffix name suffix || has_one_suffix name suffixes

abbrev pub counter_suffixes : List Bytes
counter_suffixes = codes "_total" ∷ []

abbrev pub gauge_histogram_suffixes : List Bytes
gauge_histogram_suffixes =
    codes "_seconds"
    ∷ codes "_bytes"
    ∷ codes "_ratio"
    ∷ codes "_messages"
    ∷ codes "_percent"
    ∷ codes "_state"
    ∷ codes "_count"
    ∷ []

abbrev pub denied_labels : List Bytes
denied_labels =
    codes "transaction_id"
    ∷ codes "txn_id"
    ∷ codes "trace_id"
    ∷ codes "span_id"
    ∷ codes "request_id"
    ∷ codes "session_id"
    ∷ codes "correlation_id"
    ∷ codes "order_id"
    ∷ codes "user_id"
    ∷ codes "account_id"
    ∷ []

unfoldable pub validate_name : Bytes → List Bytes → Result MetricError (Unit {0})
unfolding has_one_suffix
validate_name name allowed_suffixes = do
  fail_if (not (matches_name_format name)) invalid_metric_name
  fail_if (not (has_one_suffix name allowed_suffixes)) invalid_metric_name

unfoldable pub validate_labels : (Bytes → Bytes) → List Bytes → Result MetricError (Unit {0})
validate_labels to_lower [] = ok tt
validate_labels to_lower (label ∷ labels) =
    let rest = validate_labels to_lower labels in
    fail_if (is_known denied_labels (to_lower label)) high_cardinality_label >> rest
