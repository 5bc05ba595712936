-- ===== src/Ingestion/Partitioner/Ranges.antt =====
-- Adjacent partition ranges of tenants (internal/ingestion/kafka/partitioner.go, partitionRange).
use mathlib.Core.Path.{subst}
use go_transaction_control_p.Prelude.Int.{◌≤ℤ◌, pos, ◌+ℤ◌}
use go_transaction_control_p.Prelude.{
  if◌then◌else◌, some_inj, eq_of_eq_bytes, ◌∙◌, eq_bytes, ◌≢◌, ◌+◌, sym, [], Bool-cases, ◌⊎◌, ◌≤◌,
  ◌∷◌, ◌<◌, some, inr, arith, ◌≡◌, inl, Bytes, ℕ, List,
}
use go_transaction_control_p.Ingestion.Partitioner.{lookup, PartitionRange}

-- The range [at, at + n).
abbrev pub block : ℕ → ℕ → PartitionRange
block at n = record { start = pos at; size = pos n }

-- Ranges that follow each other upwards from `lo` to `hi`, none of them empty.
unfoldable pub Chain : ℕ → ℕ → List (Bytes × PartitionRange) → Type 0
Chain lo hi [] = lo ≡ hi
Chain lo hi ((k, r) ∷ rest) = (n : ℕ) × (r ≡ block lo n) × (0 < n) × Chain (lo + n) hi rest

-- Ranges that follow each other downwards from `hi` to `lo`, none of them empty.
unfoldable pub Stack : ℕ → ℕ → List (Bytes × PartitionRange) → Type 0
Stack lo hi [] = lo ≡ hi
Stack lo hi ((k, r) ∷ rest) =
    (at : ℕ) × (n : ℕ) × (r ≡ block at n) × (0 < n) × (at + n ≡ hi) × Stack lo at rest

-- A range that is not empty and lies in [lo, hi).
abbrev pub Within : ℕ → ℕ → PartitionRange → Type 0
Within lo hi r = (at : ℕ) × (n : ℕ) × (r ≡ block at n) × (0 < n) × (lo ≤ at) × (at + n ≤ hi)

-- Two ranges that share no partition.
abbrev pub Apart : PartitionRange → PartitionRange → Type 0
Apart r r' = (r.start +ℤ r.size ≤ℤ r'.start) ⊎ (r'.start +ℤ r'.size ≤ℤ r.start)

pub Chain-le : (entries : List (Bytes × PartitionRange)) (lo hi : ℕ) → Chain lo hi entries → lo ≤ hi
unfolding Chain
Chain-le [] lo hi c = omega arith
Chain-le ((k, r) ∷ rest) lo hi (n, e, p, c) = omega (arith, Chain-le rest (lo + n) hi c)

pub Stack-le : (entries : List (Bytes × PartitionRange)) (lo hi : ℕ) → Stack lo hi entries → lo ≤ hi
unfolding Stack
Stack-le [] lo hi c = omega arith
Stack-le ((k, r) ∷ rest) lo hi (at, n, e, p, q, c) = omega (arith, Stack-le rest lo at c)

-- What a map reads is the first entry, or read in the rest.
pub lookup-cases :
    {A : Type 0} (k : Bytes) (a : A) (rest : List (Bytes × A)) (key : Bytes) (found : A)
    → lookup ((k, a) ∷ rest) key ≡ some found
    → ((k ≡ key) × (a ≡ found)) ⊎ (lookup rest key ≡ some found)
unfolding lookup
lookup-cases k a rest key found h = elim (Bool-cases (eq_bytes k key)) [
  | inl e ↦ inl (
    eq_of_eq_bytes k key e,
    some_inj (subst (λ b. (if b then some a else lookup rest key) ≡ some found) e h),
  )
  | inr e ↦ inr (subst (λ b. (if b then some a else lookup rest key) ≡ some found) e h)
]

pub Chain-lookup :
    (entries : List (Bytes × PartitionRange)) (lo hi : ℕ) (key : Bytes) (r : PartitionRange)
    → Chain lo hi entries
    → lookup entries key ≡ some r
    → Within lo hi r
unfolding Chain lookup
Chain-lookup [] lo hi key r c h = absurd (cc)
Chain-lookup ((k, first) ∷ rest) lo hi key r (n, e, p, c) h =
    elim (lookup-cases k first rest key r h) [
      | inl (same, f) ↦ (lo, n, sym f ∙ e, p, omega arith, Chain-le rest (lo + n) hi c)
      | inr later ↦
          let found = Chain-lookup rest (lo + n) hi key r c later in
          (found.0, found.1, found.2, found.3, omega (arith, found), found.5)
    ]

pub Stack-lookup :
    (entries : List (Bytes × PartitionRange)) (lo hi : ℕ) (key : Bytes) (r : PartitionRange)
    → Stack lo hi entries
    → lookup entries key ≡ some r
    → Within lo hi r
unfolding Stack lookup
Stack-lookup [] lo hi key r c h = absurd (cc)
Stack-lookup ((k, first) ∷ rest) lo hi key r (at, n, e, p, q, c) h =
    elim (lookup-cases k first rest key r h) [
      | inl (same, f) ↦ (at, n, sym f ∙ e, p, Stack-le rest lo at c, omega arith)
      | inr later ↦
          let found = Stack-lookup rest lo at key r c later in
          (found.0, found.1, found.2, found.3, found.4, omega (arith, found))
    ]

-- Ranges in two blocks of partitions, one below the other.
pub Apart-of_Within :
    (lo mid hi : ℕ) (r r' : PartitionRange) → Within lo mid r → Within mid hi r' → Apart r r'
unfolding ◌+ℤ◌
Apart-of_Within lo mid hi r r' (at, n, e, p, l, u) (at', n', e', p', l', u') =
    rw e (rw e' (inl (ground arith)))

pub Apart-sym : (r r' : PartitionRange) → Apart r r' → Apart r' r
Apart-sym r r' (inl h) = inr h
Apart-sym r r' (inr h) = inl h

pub Chain-Apart :
    (entries : List (Bytes × PartitionRange)) (lo hi : ℕ) (key key' : Bytes) (r r' : PartitionRange)
    → Chain lo hi entries
    → lookup entries key ≡ some r
    → lookup entries key' ≡ some r'
    → key ≢ key'
    → Apart r r'
unfolding Chain lookup
Chain-Apart [] lo hi key key' r r' c h h' d = absurd (cc)
Chain-Apart ((k, first) ∷ rest) lo hi key key' r r' (n, e, p, c) h h' d =
    let w : Within lo (lo + n) first = (lo, n, e, p, omega arith, omega arith) in
    elim (lookup-cases k first rest key r h) [
      | inl (same, f) ↦ elim (lookup-cases k first rest key' r' h') [
        | inl (same', f') ↦ absurd (d (sym same ∙ same'))
        | inr later' ↦
            Apart-of_Within lo (lo + n) hi r r' (subst (Within lo (lo + n)) f w)
              (Chain-lookup rest (lo + n) hi key' r' c later')
      ]
      | inr later ↦ elim (lookup-cases k first rest key' r' h') [
        | inl (same', f') ↦ Apart-sym r' r (
            Apart-of_Within lo (lo + n) hi r' r (subst (Within lo (lo + n)) f' w)
              (Chain-lookup rest (lo + n) hi key r c later))
        | inr later' ↦ Chain-Apart rest (lo + n) hi key key' r r' c later later' d
      ]
    ]

pub Stack-Apart :
    (entries : List (Bytes × PartitionRange)) (lo hi : ℕ) (key key' : Bytes) (r r' : PartitionRange)
    → Stack lo hi entries
    → lookup entries key ≡ some r
    → lookup entries key' ≡ some r'
    → key ≢ key'
    → Apart r r'
unfolding Stack lookup
Stack-Apart [] lo hi key key' r r' c h h' d = absurd (cc)
Stack-Apart ((k, first) ∷ rest) lo hi key key' r r' (at, n, e, p, q, c) h h' d =
    let w : Within at hi first = (at, n, e, p, omega arith, omega arith) in
    elim (lookup-cases k first rest key r h) [
      | inl (same, f) ↦ elim (lookup-cases k first rest key' r' h') [
        | inl (same', f') ↦ absurd (d (sym same ∙ same'))
        | inr later' ↦ Apart-sym r' r (
            Apart-of_Within lo at hi r' r (Stack-lookup rest lo at key' r' c later')
              (subst (Within at hi) f w))
      ]
      | inr later ↦ elim (lookup-cases k first rest key' r' h') [
        | inl (same', f') ↦
            Apart-of_Within lo at hi r r' (Stack-lookup rest lo at key r c later)
              (subst (Within at hi) f' w)
        | inr later' ↦ Stack-Apart rest lo at key key' r r' c later later' d
      ]
    ]
