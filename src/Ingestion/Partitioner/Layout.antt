-- ===== src/Ingestion/Partitioner/Layout.antt =====
-- The loop of newReservationTable over the sorted tenants (internal/ingestion/kafka/partitioner.go).
use go_transaction_control_p.Prelude.Int.{leb_ℤ, negsuc, pos_part, pos, ◌-ℤ◌, ℤ, ◌+ℤ◌}
use go_transaction_control_p.Ingestion.Partitioner.Ranges.{Chain}
use go_transaction_control_p.Prelude.Word.{wrap32}
use go_transaction_control_p.Prelude.{
  refl, [], ◌∷◌, All, List, zero, inr, inl, ltb, Bool-cases, suc, ◌-◌, arith, ◌≤◌, ◌^◌, ◌<◌, ◌≡◌,
  ◌+◌, Bytes, ℕ,
}
use go_transaction_control_p.Ingestion.Partitioner.{RangeLayout, reserved_size, lay_out}

-- A reservation whose sum with any cursor below `capacity` is an int32.
abbrev pub Fits : ℕ → Bytes × ℤ → Type 0
Fits capacity entry = pos_part entry.1 + capacity < 2 ^ 31

reserved_size-pos :
    (capacity cursor : ℕ) (asked : ℤ)
    → cursor < capacity
    → capacity < 2 ^ 31 - 1
    → pos_part asked + capacity < 2 ^ 31
    → (n : ℕ) × (reserved_size (pos capacity) (pos cursor) asked ≡ pos n)
      × (0 < n)
      × (cursor + n ≤ capacity)
unfolding reserved_size wrap32 ◌+ℤ◌ ◌-ℤ◌
reserved_size-pos capacity cursor (negsuc m) c t f = (1, ground arith, omega arith, omega arith)
reserved_size-pos capacity cursor (pos zero) c t f = (1, ground arith, omega arith, omega arith)
reserved_size-pos capacity cursor (pos (suc m)) c t f =
    elim (Bool-cases (ltb capacity (cursor + suc m))) [
      | inl e ↦ (capacity - cursor, ground arith, omega arith, omega arith)
      | inr e ↦ (suc m, ground arith, omega arith, ground arith)
    ]

wrapped_sum : (a b : ℕ) → a + b < 2 ^ 31 → wrap32 (pos a +ℤ pos b) ≡ pos (a + b)
unfolding wrap32 ◌+ℤ◌
wrapped_sum a b h = ground arith

-- What the ranges of a layout are.
abbrev pub LaidOut : ℕ → ℕ → RangeLayout → Type 0
LaidOut capacity cursor layout =
    (last : ℕ) × (layout.cursor ≡ pos last) × (last ≤ capacity) × Chain cursor last layout.ranges

pub lay_out-LaidOut :
    (entries : List (Bytes × ℤ)) (capacity cursor : ℕ)
    → cursor ≤ capacity
    → capacity < 2 ^ 31 - 1
    → All (Fits capacity) entries
    → LaidOut capacity cursor (lay_out (pos capacity) (pos cursor) entries)
unfolding lay_out Chain
lay_out-LaidOut [] capacity cursor c t f = (cursor, refl, c, refl)
lay_out-LaidOut (entry ∷ entries) capacity cursor c t f =
    elim (Bool-cases (leb_ℤ (pos capacity) (pos cursor))) [
      | inl e ↦ rw e (cursor, refl, c, refl)
      | inr e ↦
          let size = reserved_size-pos capacity cursor entry.1 (ground arith) t f.0 in
          let rest = lay_out-LaidOut entries capacity (cursor + size.0) size.3 t f.1 in
          rw e (
            rw (size.1) (
              rw (wrapped_sum cursor size.0 (omega (arith, size.3)))
                (rest.0, rest.1, rest.2, (size.0, refl, size.2, rest.3))))
    ]
