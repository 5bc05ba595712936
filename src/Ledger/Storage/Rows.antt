-- ===== src/Ledger/Storage/Rows.antt =====
-- The two tables under the statements of internal/ledger/storage.
use mathlib.Core.Path.{ap₂}
use go_transaction_control_p.Ledger.Types.{ReconciledState, Transaction}
use go_transaction_control_p.Ledger.Storage.{
  lost_reply, lost_request, no_fault, replace_state, later_faults, run_faulty, next_fault,
  find_state, other_error, Fault, SqlError, find_event, execute, Database,
}
use go_transaction_control_p.Prelude.{
  if_true, if_false, ap, sym, eq_of_eq_bytes, some_inj, ◌∙◌, ◌&&◌, Bool, Option, eq_bytes, ◌⊎◌,
  eq_bytes_refl, Bool-cases, ◌++◌, ◌≡◌, Bytes, Result, List, true, false, err, none, some, [], ◌∷◌,
  inl, inr, refl,
}

pub both : (a b : Bool) → (a && b) ≡ true → (a ≡ true) × (b ≡ true)
both true true h = (refl, refl)
both true false h = absurd cc
both false b h = absurd cc

abbrev pub or_else : {A : Type 0} → Option A → Option A → Option A
or_else none other = other
or_else (some a) other = some a

-- A row behind the others is found where they have none.
pub find_event-append :
    (rows more : List Transaction) (event : Bytes)
    → find_event (rows ++ more) event ≡ or_else (find_event rows event) (find_event more event)
unfolding find_event
find_event-append [] more event = refl
find_event-append (x ∷ rows) more event = elim (Bool-cases (eq_bytes x.event_id event)) [
  | inl e ↦ rw e refl
  | inr e ↦ rw e (find_event-append rows more event)
]

pub find_event-single : (r : Transaction) → find_event (r ∷ []) r.event_id ≡ some r
unfolding find_event
find_event-single r = rw (eq_bytes_refl r.event_id) refl

-- The state of a key is that of the key's name.
abbrev pub is_keyed : ReconciledState → Bytes → Bytes → Bool
is_keyed state tenant instrument =
    eq_bytes state.tenant_id tenant && eq_bytes state.instrument instrument

pub find_state-append :
    (states more : List ReconciledState) (tenant instrument : Bytes)
    → find_state (states ++ more) tenant instrument
      ≡ or_else (find_state states tenant instrument) (find_state more tenant instrument)
unfolding find_state
find_state-append [] more tenant instrument = refl
find_state-append (x ∷ states) more tenant instrument =
    elim (Bool-cases (is_keyed x tenant instrument)) [
      | inl e ↦ rw e refl
      | inr e ↦ rw e (find_state-append states more tenant instrument)
    ]

keyed_self : (state : ReconciledState) → is_keyed state state.tenant_id state.instrument ≡ true
keyed_self state = rw (eq_bytes_refl state.tenant_id) (rw (eq_bytes_refl state.instrument) refl)

pub find_state-single :
    (state : ReconciledState)
    → find_state (state ∷ []) state.tenant_id state.instrument ≡ some state
unfolding find_state
find_state-single state = rw (keyed_self state) refl

pub find_state-single_other :
    (state : ReconciledState) (tenant instrument : Bytes)
    → is_keyed state tenant instrument ≡ false
    → find_state (state ∷ []) tenant instrument ≡ none
unfolding find_state
find_state-single_other state tenant instrument h = rw h refl

-- A replaced row is found at its key, where there was one.
pub find_state-replace :
    (states : List ReconciledState) (state old : ReconciledState)
    → find_state states state.tenant_id state.instrument ≡ some old
    → find_state (replace_state states state) state.tenant_id state.instrument ≡ some state
unfolding find_state replace_state
find_state-replace [] state old h = absurd cc
find_state-replace (x ∷ states) state old h =
    elim (Bool-cases (is_keyed x state.tenant_id state.instrument)) [
      | inl e ↦ rw e (rw (keyed_self state) refl)
      | inr e ↦ rw e (rw e (find_state-replace states state old (if_false _ _ _ _ e h)))
    ]

keyed_apart :
    (x state : ReconciledState) (tenant instrument : Bytes)
    → is_keyed x state.tenant_id state.instrument ≡ true
    → is_keyed x tenant instrument ≡ is_keyed state tenant instrument
keyed_apart x state tenant instrument h =
    let (t, i) =
      both (eq_bytes x.tenant_id state.tenant_id) (eq_bytes x.instrument state.instrument) h in
    ap₂ (λ u v. eq_bytes u tenant && eq_bytes v instrument)
      (eq_of_eq_bytes x.tenant_id state.tenant_id t)
      (eq_of_eq_bytes x.instrument state.instrument i)

pub find_state-replace_other :
    (states : List ReconciledState) (state : ReconciledState) (tenant instrument : Bytes)
    → is_keyed state tenant instrument ≡ false
    → find_state (replace_state states state) tenant instrument
      ≡ find_state states tenant instrument
unfolding find_state replace_state
find_state-replace_other [] state tenant instrument h = refl
find_state-replace_other (x ∷ states) state tenant instrument h =
    elim (Bool-cases (is_keyed x state.tenant_id state.instrument)) [
      | inl e ↦ rw e (rw h (rw (keyed_apart x state tenant instrument e ∙ h) refl))
      | inr e ↦ rw e (rw (find_state-replace_other states state tenant instrument h) refl)
    ]

pub find_state_keyed :
    (states : List ReconciledState) (tenant instrument : Bytes) (state : ReconciledState)
    → find_state states tenant instrument ≡ some state
    → (state.tenant_id ≡ tenant) × (state.instrument ≡ instrument)
unfolding find_state
find_state_keyed [] tenant instrument state h = absurd cc
find_state_keyed (x ∷ states) tenant instrument state h =
    elim (Bool-cases (is_keyed x tenant instrument)) [
      | inl e ↦
          let (t, i) = both (eq_bytes x.tenant_id tenant) (eq_bytes x.instrument instrument) e in
          let same = some_inj (if_true _ _ _ _ e h) in
          (
            sym (ap (λ r. r.tenant_id) same) ∙ eq_of_eq_bytes x.tenant_id tenant t,
            sym (ap (λ r. r.instrument) same) ∙ eq_of_eq_bytes x.instrument instrument i,
          )
      | inr e ↦ find_state_keyed states tenant instrument state (if_false _ _ _ _ e h)
    ]

-- What an executed statement leaves: the database but for its faults, or what the statement does,
-- with the statement's answer or with an error of the connection.
abbrev pub Executed :
    {A : Type 0}
    → (Database → Database × Result SqlError A)
    → Database
    → Database × Result SqlError A
    → Type 0
Executed {A} statement d r =
    (later : List Fault) × (((r.0 ≡ record d { faults = later }) × (r.1 ≡ err other_error))
      ⊎ ((r.0 ≡ (statement (record d { faults = later })).0)
          × ((r.1 ≡ err other_error) ⊎ (r.1 ≡ (statement (record d { faults = later })).1))))

executed :
    {A : Type 0} (statement : Database → Database × Result SqlError A) (fault : Fault)
    (later : List Fault) (d : Database)
    → Executed statement d (run_faulty fault statement (record d { faults = later }))
unfolding run_faulty
executed statement no_fault later d = (later, inr (refl, inr refl))
executed statement lost_request later d = (later, inl (refl, refl))
executed statement lost_reply later d = (later, inr (refl, inl refl))

pub execute-Executed :
    {A : Type 0} (statement : Database → Database × Result SqlError A) (d : Database)
    → Executed statement d (execute statement d)
unfolding execute
execute-Executed statement d = executed statement (next_fault d.faults) (later_faults d.faults) d
