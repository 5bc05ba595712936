-- ===== src/Consumer/Tests/Reloads.antt =====
-- Reloads of a consumer's assignment (internal/processor/kafka/reload.go), over a client that is the
-- list of what is assigned.
use go_transaction_control_p.Consumer.Reload.Sets.{has-without}
use go_transaction_control_p.Prelude.Int.{eqb_ℤ, ℤ, pos}
use go_transaction_control_p.Consumer.Reload.Assignment.{run-Follows, failures, last_target}
use go_transaction_control_p.Prelude.{
  not, ◌+◌, ◌&&◌, ◌∙◌, ap, ◌≡◌, ◌++◌, ◌||◌, codes, List, Bool, true, false, refl, ok, err, [], ◌∷◌,
}
use go_transaction_control_p.Consumer.Reload.{
  without, malformed, has, Loaded, Client, Assigned, run,
}

abbrev list_client : Client (List ℤ)
list_client = record {
  add_consume_partitions = λ c topic partitions. partitions ++ c;
  remove_consume_partitions = λ c topic partitions. without c partitions;
}

or_assoc : (a b c : Bool) → (a || (b || c)) ≡ ((a || b) || c)
or_assoc true b c = refl
or_assoc false b c = refl

has-append : (a b : List ℤ) (p : ℤ) → has (a ++ b) p ≡ (has a p || has b p)
unfolding has
has-append [] b p = refl
has-append (q ∷ a) b p =
    ap (λ r. eqb_ℤ q p || r) (has-append a b p) ∙ or_assoc (eqb_ℤ q p) (has a p) (has b p)

abbrev shifted : Loaded
shifted = ok ((codes "acme", record { start = pos 1; count = pos 2 }) ∷ [])

abbrev first_assignment : Assigned (List ℤ)
first_assignment = record {
  client = pos 0 ∷ pos 1 ∷ [];
  assignment = pos 0 ∷ pos 1 ∷ [];
  reload_errors = 0;
}

abbrev ticks : List Loaded
ticks = shifted ∷ err malformed ∷ []

abbrev last_state : Assigned (List ℤ)
last_state = run list_client (codes "t") (codes "acme") first_assignment ticks

run-Follows_example :
    ((p : ℤ) → has last_state.client p ≡ has last_state.assignment p)
    × ((p : ℤ)
        → has last_state.assignment p
          ≡ has (last_target (codes "acme") first_assignment.assignment ticks) p)
    × (last_state.reload_errors ≡ failures (codes "acme") ticks + 0)
run-Follows_example =
    run-Follows list_client (codes "t") has (λ c partitions p. has-append partitions c p)
      (λ c partitions p. has-without c partitions p) (codes "acme") first_assignment ticks
      (λ p. refl)

abbrev target : List ℤ
target = pos 1 ∷ pos 2 ∷ []

first_has : has first_assignment.client (pos 1) ≡ true
unfolding has
first_has = refl

target-has : has target (pos 1) ≡ true
unfolding has
target-has = refl

or_true : (b : Bool) → (b || true) ≡ true
or_true true = refl
or_true false = refl

stays_added : (c partitions : List ℤ) → has c (pos 1) ≡ true → has (partitions ++ c) (pos 1) ≡ true
stays_added c partitions h =
    has-append partitions c (pos 1)
    ∙ ap (λ b. has partitions (pos 1) || b) h
    ∙ or_true (has partitions (pos 1))

stays_removed :
    (c partitions : List ℤ)
    → ((p : ℤ) → has target p ≡ true → (has c p ≡ true) × (has partitions p ≡ false))
    → has c (pos 1) ≡ true
    → has (without c partitions) (pos 1) ≡ true
stays_removed c partitions f h =
    has-without c partitions (pos 1)
    ∙ ap (λ b. b && not (has partitions (pos 1))) h
    ∙ ap not (f (pos 1) target-has).1
