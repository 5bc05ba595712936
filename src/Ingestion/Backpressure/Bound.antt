-- ===== src/Ingestion/Backpressure/Bound.antt =====
-- The bound on calls in flight (internal/ingestion/backpressure.go, Publish) under any interleaving.
use mathlib.Core.Path.{subst}
use go_transaction_control_p.Prelude.Int.{ℤ, pos, negsuc, pos_part}
use go_transaction_control_p.Prelude.{
  refl, ◌↔◌, ap, ◌∷◌, [], ◌≤◌, ◌++◌, ok, err, arith, ◌≡◌, suc, length, ℕ, List,
}
use go_transaction_control_p.Ingestion.Backpressure.{
  publish_queue_full, validate_limit, take_slot, release_slot, new_limiter, Limiter,
}

-- A limiter made for a configured limit, with the calls that are in the wrapped publisher, as the
-- steps of calls lead to it.
pub data InFlight (max_in_flight : ℤ) : Limiter → List ℕ → Type 0 where
  started :
      (limiter : Limiter)
      → new_limiter max_in_flight ≡ ok limiter
      → InFlight max_in_flight limiter []
  admitted :
      {before after : Limiter} {calls : List ℕ} (call : ℕ)
      → InFlight max_in_flight before calls
      → take_slot before ≡ ok after
      → InFlight max_in_flight after (call ∷ calls)
  returned :
      {limiter : Limiter} (earlier : List ℕ) (call : ℕ) (later : List ℕ)
      → InFlight max_in_flight limiter (earlier ++ call ∷ later)
      → InFlight max_in_flight (release_slot limiter) (earlier ++ later)

-- As many slots are held as calls are in flight, of as many as were configured.
abbrev Counted : ℤ → Limiter → ℕ → Type 0
Counted max_in_flight limiter n =
    (limiter.slots ≡ n)
    × (n ≤ limiter.capacity)
    × (max_in_flight ≡ pos limiter.capacity)
    × (limiter.capacity ≤ 100000)

new_limiter-Counted :
    (max_in_flight : ℤ) (limiter : Limiter)
    → new_limiter max_in_flight ≡ ok limiter
    → Counted max_in_flight limiter 0
unfolding new_limiter validate_limit
new_limiter-Counted (pos n) limiter h = ground arith
new_limiter-Counted (negsuc n) limiter h = ground arith

take_slot-Counted :
    (max_in_flight : ℤ) (before after : Limiter) (n : ℕ)
    → Counted max_in_flight before n
    → take_slot before ≡ ok after
    → Counted max_in_flight after (suc n)
unfolding take_slot
take_slot-Counted max_in_flight before after n c h = ground arith

release_slot-Counted :
    (max_in_flight : ℤ) (limiter : Limiter) (n : ℕ)
    → Counted max_in_flight limiter (suc n)
    → Counted max_in_flight (release_slot limiter) n
unfolding release_slot
release_slot-Counted max_in_flight limiter n c = ground arith

length_remove :
    (earlier : List ℕ) (call : ℕ) (later : List ℕ)
    → length (earlier ++ call ∷ later) ≡ suc (length (earlier ++ later))
length_remove [] call later = refl
length_remove (e ∷ earlier) call later = ap suc (length_remove earlier call later)

module _ (max_in_flight : ℤ) where
  InFlight-Counted :
      (limiter : Limiter) (calls : List ℕ)
      → InFlight max_in_flight limiter calls
      → Counted max_in_flight limiter (length calls)
  InFlight-Counted _ _ (started limiter h) = new_limiter-Counted max_in_flight limiter h
  InFlight-Counted _ _ (admitted {before} {after} {calls} call path h) =
      take_slot-Counted max_in_flight before after (length calls)
        (InFlight-Counted before calls path) h
  InFlight-Counted _ _ (returned {limiter} earlier call later path) =
      let c = InFlight-Counted limiter (earlier ++ call ∷ later) path in
      release_slot-Counted max_in_flight limiter (length (earlier ++ later))
        (subst (Counted max_in_flight limiter) (length_remove earlier call later) c)

take_slot_iff :
    (limiter : Limiter) (n : ℕ)
    → limiter.slots ≡ n
    → n ≤ limiter.capacity
    → (take_slot limiter ≡ err publish_queue_full) ↔ (n ≡ limiter.capacity)
unfolding take_slot
take_slot_iff limiter n e b = ground arith

full_iff :
    (limiter : Limiter) (n m : ℕ)
    → Counted (pos m) limiter n
    → (n ≤ m) × (m ≤ 100000) × ((take_slot limiter ≡ err publish_queue_full) ↔ (n ≡ m))
full_iff limiter n m c =
    let same : m ≡ limiter.capacity = ap pos_part c.2 in
    rw same (c.1, c.3, take_slot_iff limiter n c.0 c.1)

-- Behind a limiter that was made for `limit` calls in flight, and under any interleaving of calls and
-- returns, no more than `limit` calls are in the wrapped publisher, `limit` is at most 100,000, and a
-- call is refused if and only if exactly `limit` calls are in it: no slot is lost.
pub publish_bound :
    (limit : ℕ) (limiter : Limiter) (calls : List ℕ)
    → InFlight (pos limit) limiter calls
    → (length calls ≤ limit)
      × (limit ≤ 100000)
      × ((take_slot limiter ≡ err publish_queue_full) ↔ (length calls ≡ limit))
publish_bound limit limiter calls path =
    full_iff limiter (length calls) limit (InFlight-Counted (pos limit) limiter calls path)
