-- ===== src/Operator/Tests/Queried.antt =====
-- Runs of the operator's queries (operator/internal/promquery/client.go).
use go_transaction_control_p.Operator.Queries.Escape.{
  read_quoted-escape_prom_ql_string, has_line_feed, read_quoted,
}
use go_transaction_control_p.Operator.Queries.{
  replace_all, matcher, escape_prom_ql_string, kafka_lag_query,
}
use go_transaction_control_p.Prelude.{if◌then◌else◌, ◌≡◌, ◌++◌, codes, Bytes, none, some, ◌∷◌, refl}

-- A value that would close its literal and match every series.
abbrev hostile : Bytes
hostile = codes "x\"} or {a=\"\\"

read_quoted-escape_prom_ql_string_example :
    read_quoted (escape_prom_ql_string hostile ++ b'"' ∷ codes "}")
    ≡ (if has_line_feed hostile then none else some (hostile, codes "}"))
read_quoted-escape_prom_ql_string_example = read_quoted-escape_prom_ql_string hostile (codes "}")

lag_query :
    kafka_lag_query (record { name = codes "tenant"; value = codes "acme" })
    ≡ codes "processor_kafka_consumer_lag_messages{tenant=\"acme\"}"
unfolding kafka_lag_query matcher escape_prom_ql_string replace_all
lag_query = refl
