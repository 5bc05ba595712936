-- ===== src/Operator/PartitionList.antt =====
-- operator/internal/controller/dedicated_pool.go, partitionListString: a range of partitions as text.
use go_transaction_control_p.Prelude.Word.{wrap32}
use go_transaction_control_p.Ledger.Amount.{format_uint}
use go_transaction_control_p.Prelude.Int.{◌+ℤ◌, pos_part, negsuc, leb_ℤ, pos, ℤ}
use go_transaction_control_p.Prelude.{zero, ◌++◌, suc, ◌∷◌, if◌then◌else◌, [], ℕ, Bytes, List}

-- strconv.Itoa.
unfoldable pub itoa : ℤ → Bytes
itoa (pos n) = format_uint n
itoa (negsuc n) = b'-' ∷ format_uint (suc n)

-- strings.Join at a comma.
unfoldable pub join : List Bytes → Bytes
join [] = []
join (field ∷ []) = field
join (field ∷ next_field ∷ fields) = field ++ (b',' ∷ join (next_field ∷ fields))

-- The loop with its rounds left, at `index`.
unfoldable pub partition_texts : ℤ → ℕ → ℕ → List Bytes
unfolding itoa
partition_texts start index zero = []
partition_texts start index (suc rounds) =
    itoa (wrap32 (start +ℤ pos index)) ∷ partition_texts start (suc index) rounds

unfoldable pub partition_list_string : ℤ → ℤ → Bytes
partition_list_string start count =
    if leb_ℤ count (pos 0) then [] else join (partition_texts start 0 (pos_part count))
