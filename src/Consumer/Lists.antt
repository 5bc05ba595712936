-- ===== src/Consumer/Lists.antt =====
-- The operator writes a tenant's range of partitions (operator/internal/controller/dedicated_pool.go,
-- partitionListString) and the consumer reads it (internal/processor/kafka/consumer.go,
-- parsePartitionList).
use go_transaction_control_p.Prelude.Spaces.Digits.{split-append, split_one, trim_space-digits}
use go_transaction_control_p.Prelude.Spaces.{split, trim_space}
use go_transaction_control_p.Ledger.Amount.Digits.{
  parse_uint-value, value-format_uint, format_uint-IsDigit, IsDigit, format_uint-ne-nil,
}
use go_transaction_control_p.Prelude.Int.{ltb_ℤ, negsuc, ℤ, pos, ◌+ℤ◌}
use go_transaction_control_p.Prelude.Word.{wrap32}
use go_transaction_control_p.Prelude.{
  false, refl, zero, ◌∷◌, ◌∙◌, ◌-◌, ap, suc, some, ok, arith, All-imp, ◌≤◌, ◌≢◌, ◌≡◌, ◌+◌, ◌^◌, ◌<◌,
  [], List, Bytes, All, ℕ,
}
use go_transaction_control_p.Operator.PartitionList.{
  partition_texts, partition_list_string, join, itoa,
}
use go_transaction_control_p.Ledger.Amount.{format_uint, parse_uint, atoi}
use go_transaction_control_p.Consumer.Config.{parse_partition_list, parse_fields}

-- The partitions from `start` on.
abbrev pub indices : ℕ → ℕ → List ℤ
indices start zero = []
indices start (suc n) = pos start ∷ indices (suc start) n

parse_uint_nil : (n : ℕ) → ¬ (parse_uint [] ≡ some n)
unfolding parse_uint
parse_uint_nil n h = cc

parse_uint-format_uint : (n : ℕ) → n < 2 ^ 64 → parse_uint (format_uint n) ≡ some n
parse_uint-format_uint n h =
    let v = value-format_uint n h in
    parse_uint-value (format_uint n) (format_uint-ne-nil n) (format_uint-IsDigit n)
      (rw v (omega arith))
    ∙ ap some v

atoi-digits :
    (s : Bytes) (n : ℕ) → All IsDigit s → parse_uint s ≡ some n → n < 2 ^ 63 → atoi s ≡ some (pos n)
unfolding atoi
atoi-digits [] n d r h = absurd (parse_uint_nil n r)
atoi-digits (c ∷ s) n d r h = ground arith

-- One field of the list.
field-digits : (n : ℕ) → All IsDigit (format_uint n)
field-digits n = format_uint-IsDigit n

atoi-format_uint : (n : ℕ) → n < 2 ^ 63 → atoi (trim_space (format_uint n)) ≡ some (pos n)
atoi-format_uint n h = rw (trim_space-digits (format_uint n) (format_uint-IsDigit n)) (
    atoi-digits (format_uint n) n (format_uint-IsDigit n) (parse_uint-format_uint n (omega arith))
      h)

no_comma : (n : ℕ) → All (λ c. c ≢ b',') (format_uint n)
no_comma n =
    All-imp IsDigit (λ c. c ≢ b',') (λ c d. omega arith) (format_uint n) (format_uint-IsDigit n)

small_index :
    (start index : ℕ)
    → start + index < 2 ^ 31
    → itoa (wrap32 (pos start +ℤ pos index)) ≡ format_uint (start + index)
unfolding itoa wrap32 ◌+ℤ◌
small_index start index h = ground arith

same_index : (n : ℕ) → n < 2 ^ 31 → wrap32 (pos n) ≡ pos n
unfolding wrap32
same_index n h = ground arith

wrapped_index : (n : ℕ) → 2 ^ 31 ≤ n → n < 2 ^ 32 → wrap32 (pos n) ≡ negsuc (2 ^ 32 - 1 - n)
unfolding wrap32
wrapped_index n l h = ground arith

not_negative : (n : ℕ) → ltb_ℤ (pos n) (pos 0) ≡ false
not_negative n = ground arith

-- The texts of a range read back, one by one.
split-join :
    (start index rounds : ℕ)
    → start + index + suc rounds ≤ 2 ^ 31
    → split b',' (join (partition_texts (pos start) index (suc rounds)))
      ≡ partition_texts (pos start) index (suc rounds)
unfolding join partition_texts
split-join start index zero h =
    rw (small_index start index (omega arith))
      (split_one b',' (format_uint (start + index)) (no_comma (start + index)))
split-join start index (suc rounds) h = rw (small_index start index (omega arith)) (
    split-append b',' (format_uint (start + index)) _ (no_comma (start + index))
    ∙ ap (λ r. format_uint (start + index) ∷ r) (split-join start (suc index) rounds (omega arith)))

-- One more field in front: it has a number that is not negative.
parse_fields_first :
    (n : ℕ) (fields : List Bytes) (partitions : List ℤ)
    → n < 2 ^ 63
    → parse_fields fields ≡ ok partitions
    → parse_fields (format_uint n ∷ fields) ≡ ok (wrap32 (pos n) ∷ partitions)
unfolding parse_fields
parse_fields_first n fields partitions h e =
    rw (atoi-format_uint n h) (rw e (rw (not_negative n) refl))

parse_fields-texts :
    (start index rounds : ℕ)
    → start + index + rounds ≤ 2 ^ 31
    → parse_fields (partition_texts (pos start) index rounds) ≡ ok (indices (start + index) rounds)
unfolding parse_fields partition_texts
parse_fields-texts start index zero h = refl
parse_fields-texts start index (suc rounds) h = rw (small_index start index (omega arith)) (
    parse_fields_first (start + index) _ _ (omega arith)
      (parse_fields-texts start (suc index) rounds (omega arith))
    ∙ rw (same_index (start + index) (omega arith))
        (ap (λ k. ok (pos (start + index) ∷ indices k rounds)) (omega arith)))

parse_partition_list_lem :
    (s : Bytes) (fields : List Bytes)
    → split b',' s ≡ fields
    → parse_partition_list s ≡ parse_fields fields
unfolding parse_partition_list
parse_partition_list_lem s fields e = ap parse_fields e

partition_list_string_lem :
    (start rounds : ℕ)
    → partition_list_string (pos start) (pos (suc rounds))
      ≡ join (partition_texts (pos start) 0 (suc rounds))
unfolding partition_list_string
partition_list_string_lem start rounds = ground arith

-- The list that the operator writes for a range of partitions, within int32 and not empty, is read
-- by the consumer as exactly the partitions of the range, in order.
pub parse_partition_list-partition_list_string :
    (start count : ℕ)
    → 0 < count
    → start + count ≤ 2 ^ 31
    → parse_partition_list (partition_list_string (pos start) (pos count))
      ≡ ok (indices start count)
parse_partition_list-partition_list_string start zero p h = absurd (omega arith)
parse_partition_list-partition_list_string start (suc rounds) p h =
    rw (partition_list_string_lem start rounds) (
      parse_partition_list_lem _ _ (split-join start 0 rounds (omega arith))
      ∙ parse_fields-texts start 0 (suc rounds) (omega arith)
      ∙ ap (λ k. ok (indices k (suc rounds))) (omega arith))

-- An index that is at least 2^31 and below 2^32 is no int32, but it is accepted, as the negative
-- partition that its low 32 bits stand for.
pub parse_partition_list_wraps :
    (n : ℕ)
    → 2 ^ 31 ≤ n
    → n < 2 ^ 32
    → parse_partition_list (format_uint n) ≡ ok (negsuc (2 ^ 32 - 1 - n) ∷ [])
unfolding parse_fields
parse_partition_list_wraps n l h =
    parse_partition_list_lem _ _ (split_one b',' (format_uint n) (no_comma n))
    ∙ parse_fields_first n [] [] (omega arith) refl
    ∙ ap (λ z. ok (z ∷ [])) (wrapped_index n l h)
