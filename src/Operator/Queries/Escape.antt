-- ===== src/Operator/Queries/Escape.antt =====
-- Label values in PromQL (operator/internal/promquery/client.go, escapePromQLString).
use mathlib.Core.Path.{subst}
use mathlib.Core.List.{append_assoc}
use go_transaction_control_p.Operator.Queries.{replace_all, escape_prom_ql_string}
use go_transaction_control_p.Prelude.{
  ==_iff, sym, ◌∙◌, Bool-cases, arith, ◌||◌, ◌++◌, ◌≡◌, ◌==◌, if◌then◌else◌, Option, Bool, ℕ, Bytes,
  false, none, some, [], ◌∷◌, inl, inr, refl,
}

prepend : ℕ → Option (Bytes × Bytes) → Option (Bytes × Bytes)
prepend c none = none
prepend c (some (value, rest)) = some (c ∷ value, rest)

-- A double-quoted PromQL literal behind its opening quote, as the value that it stands for and what
-- follows its closing quote. A line feed is not allowed in it; of the escapes, those of a backslash
-- and of a quote are read.
unfoldable pub read_quoted : Bytes → Option (Bytes × Bytes)
unfolding prepend
read_quoted [] = none
read_quoted (c ∷ []) = if c == b'"' then some ([], []) else none
read_quoted (c ∷ d ∷ s) =
    let escaped = prepend d (read_quoted s) in
    let plain = prepend c (read_quoted (d ∷ s)) in
    if c == b'"'
    then some ([], d ∷ s)
    else if c == b'\n'
    then none
    else if c == b'\\'
    then if d == b'\\' || d == b'"' then escaped else none
    else plain

unfoldable pub has_line_feed : Bytes → Bool
has_line_feed [] = false
has_line_feed (c ∷ s) = (c == b'\n') || has_line_feed s

-- The escaped text, byte by byte.
abbrev escaped_byte : ℕ → Bytes
escaped_byte c =
    if c == b'\\' then b'\\' ∷ b'\\' ∷ [] else if c == b'"' then b'\\' ∷ b'"' ∷ [] else c ∷ []

escape-cons :
    (c : ℕ) (s : Bytes) → escape_prom_ql_string (c ∷ s) ≡ escaped_byte c ++ escape_prom_ql_string s
unfolding escape_prom_ql_string replace_all
escape-cons c s = ground arith

read_plain :
    (c : ℕ) (t : Bytes)
    → (c == b'"') ≡ false
    → (c == b'\\') ≡ false
    → read_quoted (c ∷ t) ≡ (if c == b'\n' then none else prepend c (read_quoted t))
unfolding read_quoted prepend
read_plain c [] q b = rw q (ground arith)
read_plain c (d ∷ s) q b = rw q (rw b refl)

read_close : (rest : Bytes) → read_quoted (b'"' ∷ rest) ≡ some ([], rest)
unfolding read_quoted
read_close [] = refl
read_close (d ∷ s) = refl

-- What is read of a value and the rest behind it.
abbrev read_back : Bytes → Bytes → Option (Bytes × Bytes)
read_back value rest = if has_line_feed value then none else some (value, rest)

read_back-cons :
    (c : ℕ) (s rest : Bytes)
    → (if c == b'\n' then none else prepend c (read_back s rest)) ≡ read_back (c ∷ s) rest
unfolding has_line_feed prepend
read_back-cons c s rest = ground arith

read_back-cons_other :
    (c : ℕ) (s rest : Bytes)
    → (c == b'\n') ≡ false
    → prepend c (read_back s rest) ≡ read_back (c ∷ s) rest
unfolding has_line_feed prepend
read_back-cons_other c s rest h = ground arith

read_backslash :
    (s t rest : Bytes)
    → read_quoted t ≡ read_back s rest
    → read_quoted (escaped_byte b'\\' ++ t) ≡ read_back (b'\\' ∷ s) rest
unfolding read_quoted
read_backslash s t rest ih = rw ih (read_back-cons_other b'\\' s rest refl)

read_quote :
    (s t rest : Bytes)
    → read_quoted t ≡ read_back s rest
    → read_quoted (escaped_byte b'"' ++ t) ≡ read_back (b'"' ∷ s) rest
unfolding read_quoted
read_quote s t rest ih = rw ih (read_back-cons_other b'"' s rest refl)

escape-nil : escape_prom_ql_string [] ≡ []
unfolding escape_prom_ql_string replace_all
escape-nil = refl

read_nil : (rest : Bytes) → read_quoted (b'"' ∷ rest) ≡ read_back [] rest
unfolding has_line_feed
read_nil rest = read_close rest

read_byte :
    (c : ℕ) (s t rest : Bytes)
    → read_quoted t ≡ read_back s rest
    → read_quoted (escaped_byte c ++ t) ≡ read_back (c ∷ s) rest
read_byte c s t rest ih = elim (Bool-cases (c == b'\\')) [
  | inl e ↦
      subst (λ x. read_quoted (escaped_byte x ++ t) ≡ read_back (x ∷ s) rest)
        (sym ((==_iff c b'\\').0 e)) (read_backslash s t rest ih)
  | inr e ↦ elim (Bool-cases (c == b'"')) [
    | inl q ↦
        subst (λ x. read_quoted (escaped_byte x ++ t) ≡ read_back (x ∷ s) rest)
          (sym ((==_iff c b'"').0 q)) (read_quote s t rest ih)
    | inr q ↦ rw e (rw q (read_plain c t q e ∙ rw ih (read_back-cons c s rest)))
  ]
]

-- A label's value, escaped between two double quotes, is read as itself, and the literal ends at the
-- closing quote whatever follows; a value with a line feed makes no literal. So no value reaches out
-- of its quotes into the query.
pub read_quoted-escape_prom_ql_string :
    (value rest : Bytes)
    → read_quoted (escape_prom_ql_string value ++ b'"' ∷ rest)
      ≡ (if has_line_feed value then none else some (value, rest))
read_quoted-escape_prom_ql_string [] rest = rw escape-nil (read_nil rest)
read_quoted-escape_prom_ql_string (c ∷ s) rest = rw (escape-cons c s) (
    rw (append_assoc (escaped_byte c) (escape_prom_ql_string s) (b'"' ∷ rest)) (
      read_byte c s (escape_prom_ql_string s ++ b'"' ∷ rest) rest
        (read_quoted-escape_prom_ql_string s rest)))
