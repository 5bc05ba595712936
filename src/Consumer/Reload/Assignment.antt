-- ===== src/Consumer/Reload/Assignment.antt =====
-- internal/processor/kafka/reload.go: a consumer's assignment and what its client has assigned.
-- The client is any one whose two calls do what kgo documents: they assign partitions and remove
-- them, and leave the others alone.
use go_transaction_control_p.Consumer.Reload.Sets.{
  and_false, moved, gained, no_difference, has-without,
}
use go_transaction_control_p.Consumer.Config.{is_nil}
use go_transaction_control_p.Prelude.Int.{ℤ}
use go_transaction_control_p.Prelude.{
  arith, inr, inl, ap, ◌∙◌, Result-cases, Bool-cases, not, ◌&&◌, ◌||◌, ◌+◌, [], ◌≡◌, ◌∷◌, ℕ, Bool,
  Result, List, Bytes, true, false, refl, ok, err,
}
use go_transaction_control_p.Consumer.Reload.{
  without, remove_all, reload_once, apply_assignment, add_all, Assigned, load_target, has, Loaded,
  LoadError, Client, run,
}

abbrev pub target_or : List ℤ → Result LoadError (List ℤ) → List ℤ
target_or target (err e) = target
target_or target (ok new) = new

abbrev pub failure : Result LoadError (List ℤ) → ℕ
failure (err e) = 1
failure (ok new) = 0

-- The target that the last good load gave, or the one before.
abbrev pub last_target : Bytes → List ℤ → List Loaded → List ℤ
last_target tenant target [] = target
last_target tenant target (loaded ∷ ticks) =
    last_target tenant (target_or target (load_target tenant loaded)) ticks

target_or_same :
    (a b : List ℤ) (loaded : Result LoadError (List ℤ))
    → ((p : ℤ) → has a p ≡ has b p)
    → (p : ℤ) → has (target_or a loaded) p ≡ has (target_or b loaded) p
target_or_same a b (err e) h p = h p
target_or_same a b (ok new) h p = refl

-- How many of the loads fail.
abbrev pub failures : Bytes → List Loaded → ℕ
failures tenant [] = 0
failures tenant (loaded ∷ ticks) = failure (load_target tenant loaded) + failures tenant ticks

last_target_same :
    (tenant : Bytes) (a b : List ℤ) (ticks : List Loaded)
    → ((p : ℤ) → has a p ≡ has b p)
    → (p : ℤ) → has (last_target tenant a ticks) p ≡ has (last_target tenant b ticks) p
last_target_same tenant a b [] h p = h p
last_target_same tenant a b (loaded ∷ ticks) h p =
    last_target_same tenant (target_or a (load_target tenant loaded))
      (target_or b (load_target tenant loaded)) ticks
      (target_or_same a b (load_target tenant loaded) h) p

module _ {C : Type 0} (api : Client C) (topic : Bytes) (assigned : C → ℤ → Bool)
    (adds : (c : C) (partitions : List ℤ) (p : ℤ)
      → assigned (api.add_consume_partitions c topic partitions) p
        ≡ (has partitions p || assigned c p))
    (removes : (c : C) (partitions : List ℤ) (p : ℤ)
      → assigned (api.remove_consume_partitions c topic partitions) p
        ≡ (assigned c p && not (has partitions p))) where
  -- The client has exactly the partitions assigned that the consumer records.
  abbrev pub Agrees : Assigned C → Type 0
  Agrees con = (p : ℤ) → assigned con.client p ≡ has con.assignment p

  added_all :
      (c : C) (partitions : List ℤ) (p : ℤ)
      → assigned (add_all api topic c partitions) p ≡ (has partitions p || assigned c p)
  unfolding add_all has
  added_all c [] p = refl
  added_all c (q ∷ partitions) p = adds c (q ∷ partitions) p

  and_true : (a : Bool) → a ≡ (a && true)
  and_true true = refl
  and_true false = refl

  removed_all :
      (c : C) (partitions : List ℤ) (p : ℤ)
      → assigned (remove_all api topic c partitions) p ≡ (assigned c p && not (has partitions p))
  unfolding remove_all has
  removed_all c [] p = and_true (assigned c p)
  removed_all c (q ∷ partitions) p = removes c (q ∷ partitions) p

  -- Between the two calls the old and the new partitions are assigned.
  between_calls :
      (con : Assigned C) (target : List ℤ) (p : ℤ)
      → Agrees con
      → assigned (add_all api topic con.client (without target con.assignment)) p
        ≡ ((has target p && not (has con.assignment p)) || has con.assignment p)
  between_calls con target p h =
      added_all con.client (without target con.assignment) p
      ∙ ap (λ b. b || assigned con.client p) (has-without target con.assignment p)
      ∙ ap (λ b. (has target p && not (has con.assignment p)) || b) (h p)

  moved_client :
      (con : Assigned C) (target : List ℤ) (p : ℤ)
      → Agrees con
      → assigned
          (remove_all api topic
            (add_all api topic con.client (without target con.assignment))
            (without con.assignment target))
          p
        ≡ has target p
  moved_client con target p h =
      removed_all _ (without con.assignment target) p
      ∙ ap (λ b. b && not (has (without con.assignment target) p)) (between_calls con target p h)
      ∙ ap (λ b. ((has target p && not (has con.assignment p)) || has con.assignment p) && not b)
          (has-without con.assignment target p)
      ∙ moved (has con.assignment p) (has target p)

  -- The assignment becomes the target and the client follows.
  abbrev pub Follows : Assigned C → List ℤ → Type 0
  Follows con target = Agrees con × ((p : ℤ) → has con.assignment p ≡ has target p)

  apply_assignment-Follows :
      (con : Assigned C) (target : List ℤ)
      → Agrees con
      → Follows (apply_assignment api topic con target) target
  unfolding apply_assignment
  apply_assignment-Follows con target h =
      elim (Bool-cases
        (is_nil (without target con.assignment) && is_nil (without con.assignment target))) [
          | inl e ↦ rw e (h, λ p. no_difference con.assignment target p e)
          | inr e ↦ rw e ((λ p. moved_client con target p h), λ p. refl)
        ]

  apply_assignment_errors :
      (con : Assigned C) (target : List ℤ)
      → (apply_assignment api topic con target).reload_errors ≡ con.reload_errors
  unfolding apply_assignment
  apply_assignment_errors con target =
      elim (Bool-cases
        (is_nil (without target con.assignment) && is_nil (without con.assignment target))) [
          | inl e ↦ rw e refl
          | inr e ↦ rw e refl
        ]

  reload_once-Follows :
      (tenant : Bytes) (con : Assigned C) (loaded : Loaded)
      → Agrees con
      → Follows
          (reload_once api topic tenant con loaded)
          (target_or con.assignment (load_target tenant loaded))
        × ((reload_once api topic tenant con loaded).reload_errors
            ≡ failure (load_target tenant loaded) + con.reload_errors)
  unfolding reload_once
  reload_once-Follows tenant con loaded h = elim (Result-cases (load_target tenant loaded)) [
    | inl (target, e) ↦
        rw e
          (apply_assignment-Follows con target h, omega (arith, apply_assignment_errors con target))
    | inr (e, f) ↦ rw f ((h, λ q. refl), omega arith)
  ]

  -- At a client whose additions and removals change just the partitions that they name, and that
  -- agrees with the consumer's assignment: any sequence of loads ends with a client that has
  -- assigned exactly what the consumer records, which is the target that load_target makes of the last
  -- load that it accepts, the first assignment when it accepts none; and each load that it refuses is
  -- counted once.
  pub run-Follows :
      (tenant : Bytes) (con : Assigned C) (ticks : List Loaded)
      → Agrees con
      → Agrees (run api topic tenant con ticks)
        × ((p : ℤ)
            → has (run api topic tenant con ticks).assignment p
              ≡ has (last_target tenant con.assignment ticks) p)
        × ((run api topic tenant con ticks).reload_errors
            ≡ failures tenant ticks + con.reload_errors)
  unfolding run
  run-Follows tenant con [] h = (h, λ p. refl, omega arith)
  run-Follows tenant con (loaded ∷ ticks) h =
      let once = reload_once-Follows tenant con loaded h in
      let rest = run-Follows tenant (reload_once api topic tenant con loaded) ticks once.0.0 in
      (
        rest.0,
        λ p. rest.1 p ∙ last_target_same tenant _ _ ticks once.0.1 p,
        rest.2 ∙ omega (arith, once.1),
      )

  add_all_keeps :
      (P : C → Type 0)
      → ((c : C) (partitions : List ℤ) → P c → P (api.add_consume_partitions c topic partitions))
      → (c : C) (partitions : List ℤ) → P c
      → P (add_all api topic c partitions)
  unfolding add_all
  add_all_keeps P grows c [] h = h
  add_all_keeps P grows c (q ∷ partitions) h = grows c (q ∷ partitions) h

  remove_all_keeps :
      (P : C → Type 0) (c : C) (partitions : List ℤ)
      → (P c → P (api.remove_consume_partitions c topic partitions))
      → P c
      → P (remove_all api topic c partitions)
  unfolding remove_all
  remove_all_keeps P c [] shrinks h = h
  remove_all_keeps P c (q ∷ partitions) shrinks h = shrinks h

  -- At a client whose additions and removals change just the partitions that they name, and that
  -- agrees with the consumer's assignment, an assignment is changed without a gap: what holds of
  -- the client, survives every addition, and survives a removal of partitions outside the target
  -- from a client that has the whole target assigned, still holds at the end.
  pub apply_assignment_keeps :
      (P : C → Type 0) (con : Assigned C) (target : List ℤ)
      → ((c : C) (partitions : List ℤ) → P c → P (api.add_consume_partitions c topic partitions))
      → ((c : C) (partitions : List ℤ)
          → ((p : ℤ) → has target p ≡ true → (assigned c p ≡ true) × (has partitions p ≡ false))
          → P c
          → P (api.remove_consume_partitions c topic partitions))
      → Agrees con
      → P con.client
      → P (apply_assignment api topic con target).client
  unfolding apply_assignment
  apply_assignment_keeps P con target grows shrinks h start =
      elim (Bool-cases
        (is_nil (without target con.assignment) && is_nil (without con.assignment target))) [
          | inl e ↦ rw e start
          | inr e ↦ rw e (
              remove_all_keeps P _ (without con.assignment target)
                (shrinks _ _ (λ p k. (
                  between_calls con target p h
                      ∙ ap (λ b. (b && not (has con.assignment p)) || has con.assignment p) k
                      ∙ gained (has con.assignment p),
                  has-without con.assignment target p
                      ∙ ap (λ b. has con.assignment p && not b) k
                      ∙ and_false (has con.assignment p),
                )))
                (add_all_keeps P grows con.client (without target con.assignment) start))
        ]
