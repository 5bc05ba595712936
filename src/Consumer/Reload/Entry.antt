-- ===== src/Consumer/Reload/Entry.antt =====
-- internal/processor/kafka/reload.go: an entry of the map and the list that the consumer starts
-- from stand for the same partitions.
use go_transaction_control_p.Operator.PartitionList.{partition_list_string}
use go_transaction_control_p.Consumer.Config.{parse_partition_list}
use go_transaction_control_p.Consumer.Lists.{parse_partition_list-partition_list_string, indices}
use go_transaction_control_p.Prelude.Word.{wrap32}
use go_transaction_control_p.Prelude.Int.{pos, eq_of_parts, ◌+ℤ◌, eqb_ℤ, ℤ}
use go_transaction_control_p.Consumer.Reload.{partitions_for_entry, insert, has, expand}
use go_transaction_control_p.Prelude.{
  zero, ◌∙◌, sym, inr, arith, [], ◌≤◌, ◌^◌, suc, inl, ◌<◌, ◌+◌, ap, Bool-cases, ◌≡◌, ◌||◌, ℕ, List,
  Bool, true, false, refl, ok,
}

pub has-eq : (others : List ℤ) (q p : ℤ) → eqb_ℤ q p ≡ true → has others q ≡ has others p
has-eq others q p h = ap (has others) (eq_of_parts q p (ground arith))

has_already :
    (p : ℤ) (partitions : List ℤ) (q : ℤ)
    → has partitions p ≡ true
    → has partitions q ≡ (eqb_ℤ p q || has partitions q)
has_already p partitions q h = elim (Bool-cases (eqb_ℤ p q)) [
  | inl e ↦ sym (has-eq partitions p q e) ∙ h ∙ sym (ap (λ b. b || has partitions q) e)
  | inr e ↦ sym (ap (λ b. b || has partitions q) e)
]

has-insert :
    (p : ℤ) (partitions : List ℤ) (q : ℤ)
    → has (insert p partitions) q ≡ (eqb_ℤ p q || has partitions q)
unfolding insert has
has-insert p partitions q = elim (Bool-cases (has partitions p)) [
  | inl h ↦ rw h (has_already p partitions q h)
  | inr h ↦ rw h refl
]

or_swap : (a b c : Bool) → (a || (b || c)) ≡ ((b || a) || c)
or_swap true true c = refl
or_swap true false c = refl
or_swap false true c = refl
or_swap false false c = refl

in_range_sum :
    (start index : ℕ)
    → start + index < 2 ^ 31
    → wrap32 (pos start +ℤ pos index) ≡ pos (start + index)
unfolding wrap32 ◌+ℤ◌
in_range_sum start index h = ground arith

has_first :
    (n rounds : ℕ) (p : ℤ)
    → has (indices n (suc rounds)) p ≡ (eqb_ℤ (pos n) p || has (indices (suc n) rounds) p)
unfolding has
has_first n rounds p = refl

has-expand :
    (start index rounds : ℕ) (partitions : List ℤ) (p : ℤ)
    → start + index + rounds ≤ 2 ^ 31
    → has (expand (pos start) index rounds partitions) p
      ≡ (has (indices (start + index) rounds) p || has partitions p)
unfolding expand has
has-expand start index zero partitions p h = refl
has-expand start index (suc rounds) partitions p h =
    let rest = has (indices (suc (start + index)) rounds) p in
    has-expand start (suc index) rounds _ p (omega arith)
    ∙ ap
        (λ n.
          has (indices n rounds) p || has (insert (wrap32 (pos start +ℤ pos index)) partitions) p)
        (omega arith)
    ∙ ap (λ b. rest || b) (has-insert _ partitions p)
    ∙ ap (λ z. rest || (eqb_ℤ z p || has partitions p)) (in_range_sum start index (omega arith))
    ∙ or_swap rest (eqb_ℤ (pos (start + index)) p) (has partitions p)
    ∙ ap (λ b. b || has partitions p) (sym (has_first (start + index) rounds p))

partitions_for_entry_lem :
    (start count : ℕ)
    → 0 < count
    → partitions_for_entry (record { start = pos start; count = pos count })
      ≡ ok (expand (pos start) 0 count [])
unfolding partitions_for_entry
partitions_for_entry_lem start count h = ground arith

or_false : (b : Bool) → (b || false) ≡ b
or_false true = refl
or_false false = refl

-- An entry whose range is not empty and within int32 is loaded as the partitions that the
-- operator's list for the range is parsed to.
pub partitions_for_entry-parse_partition_list :
    (start count : ℕ)
    → 0 < count
    → start + count ≤ 2 ^ 31
    → (target partitions : List ℤ) × (partitions_for_entry
          (record { start = pos start; count = pos count })
        ≡ ok target)
      × (parse_partition_list (partition_list_string (pos start) (pos count)) ≡ ok partitions)
      × ((p : ℤ) → has target p ≡ has partitions p)
unfolding has
partitions_for_entry-parse_partition_list start count h l = (
  expand (pos start) 0 count [],
  indices start count,
  partitions_for_entry_lem start count h,
  parse_partition_list-partition_list_string start count h l,
  λ p.
      has-expand start 0 count [] p (omega arith)
      ∙ or_false (has (indices (start + 0) count) p)
      ∙ ap (λ n. has (indices n count) p) (omega arith),
)
