-- ===== src/Ledger/Storage/Upserts.antt =====
-- The upsert of internal/ledger/storage/reconciled_state_store.go.
use go_transaction_control_p.Ledger.Repository.{watermark, Above}
use go_transaction_control_p.Prelude.Int.{ℤ}
use go_transaction_control_p.Ledger.Storage.Rows.{
  find_state-single_other, find_state-replace_other, find_state-single, find_state-replace,
  is_keyed, find_state-append, or_else,
}
use go_transaction_control_p.Ledger.Types.{ReconciledState}
use go_transaction_control_p.Ledger.Storage.{
  pg_foreign_key_violation, pg_error, replace_state, references, SqlError, find_state, Database,
  write_states, where_advances, upsert_row, upsert_over,
}
use go_transaction_control_p.Prelude.{
  ◌∙◌, ℕ, arith, Bool-cases, ◌++◌, Bytes, ◌⊎◌, ◌≡◌, Result, Option, List, true, false, ok, err,
  none, some, [], ◌∷◌, inl, inr, refl,
}

advances-Above : (old new : Option ℤ) → where_advances old new ≡ true → Above old new
unfolding where_advances
advances-Above none new h = tt
advances-Above (some old) none h = absurd cc
advances-Above (some old) (some new) h = ground (arith, h)

stays-Above : (old new : Option ℤ) → where_advances old new ≡ false → ¬ Above old new
unfolding where_advances
stays-Above none new h = absurd cc
stays-Above (some old) none h = λ a. a
stays-Above (some old) (some new) h = λ a. absurd (ground (arith, h, a))

-- Nothing is written: the watermark does not advance, or the statement fails.
abbrev pub Kept : ReconciledState → Database → Database × Result SqlError ℕ → Type 0
Kept state d r =
    (r.0.transactions ≡ d.transactions)
    × (r.0.states ≡ d.states)
    × (((r.1 ≡ ok 0)
          × (¬ Above (watermark (find_state d.states state.tenant_id state.instrument))
              state.last_transaction_id))
        ⊎ ((e : SqlError) × (r.1 ≡ err e)))

-- The state is written under its key, and no other key is touched.
abbrev pub Written : ReconciledState → Database → Database × Result SqlError ℕ → Type 0
Written state d r =
    (r.0.transactions ≡ d.transactions)
    × (find_state r.0.states state.tenant_id state.instrument
        ≡ some (record state { updated_at = d.now }))
    × ((tenant instrument : Bytes)
        → is_keyed state tenant instrument ≡ false
        → find_state r.0.states tenant instrument ≡ find_state d.states tenant instrument)
    × (r.1 ≡ ok 1)
    × Above (watermark (find_state d.states state.tenant_id state.instrument))
        state.last_transaction_id

-- A list of states in which the one of a key is put in place.
abbrev Put : ReconciledState → List ReconciledState → List ReconciledState → Type 0
Put state before after =
    (find_state after state.tenant_id state.instrument ≡ some state)
    × ((tenant instrument : Bytes)
        → is_keyed state tenant instrument ≡ false
        → find_state after tenant instrument ≡ find_state before tenant instrument)

or_else-none : {A : Type 0} (o : Option A) → or_else o none ≡ o
or_else-none none = refl
or_else-none (some a) = refl

append-Put :
    (states : List ReconciledState) (state : ReconciledState)
    → find_state states state.tenant_id state.instrument ≡ none
    → Put state states (states ++ state ∷ [])
append-Put states state h = (
  find_state-append states (state ∷ []) state.tenant_id state.instrument
      ∙ rw h (find_state-single state),
  λ tenant instrument o.
      find_state-append states (state ∷ []) tenant instrument
      ∙ rw (find_state-single_other state tenant instrument o)
          (or_else-none (find_state states tenant instrument)),
)

write_states-Written :
    (state : ReconciledState) (d : Database) (states : List ReconciledState)
    → Put (record state { updated_at = d.now }) d.states states
    → Above
        (watermark (find_state d.states state.tenant_id state.instrument))
        state.last_transaction_id
    → let r = write_states d (record state { updated_at = d.now }) states in
      Kept state d r ⊎ Written state d r
unfolding write_states
write_states-Written state d states p a =
    elim (Bool-cases (references d.transactions state.last_transaction_id)) [
      | inl e ↦ rw e (inr (refl, p.0, p.1, refl, a))
      | inr e ↦ rw e (inl (refl, refl, inr (pg_error pg_foreign_key_violation, refl)))
    ]

upsert_over-Written :
    (state : ReconciledState) (d : Database) (found : Option ReconciledState)
    → find_state d.states state.tenant_id state.instrument ≡ found
    → let r = upsert_over d (record state { updated_at = d.now }) found in
      Kept state d r ⊎ Written state d r
unfolding upsert_over
upsert_over-Written state d none h =
    let stamped : ReconciledState = record state { updated_at = d.now } in
    write_states-Written state d (d.states ++ stamped ∷ []) (append-Put d.states stamped h)
      (rw h tt)
upsert_over-Written state d (some old) h =
    let stamped : ReconciledState = record state { updated_at = d.now } in
    elim (Bool-cases (where_advances old.last_transaction_id state.last_transaction_id)) [
      | inl e ↦ rw e (
          write_states-Written state d (replace_state d.states stamped)
            (
              find_state-replace d.states stamped old h,
              λ tenant instrument o. find_state-replace_other d.states stamped tenant instrument o,
            )
            (rw h (advances-Above old.last_transaction_id state.last_transaction_id e)))
      | inr e ↦ rw e (
          inl (
            refl,
            refl,
            inl (refl, rw h (stays-Above old.last_transaction_id state.last_transaction_id e)),
          ))
    ]

pub upsert_row-Written :
    (state : ReconciledState) (d : Database)
    → let r = upsert_row state d in Kept state d r ⊎ Written state d r
unfolding upsert_row
upsert_row-Written state d =
    upsert_over-Written state d (find_state d.states state.tenant_id state.instrument) refl
