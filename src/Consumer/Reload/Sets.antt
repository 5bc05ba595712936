-- ===== src/Consumer/Reload/Sets.antt =====
-- Sets of partitions, as lists of their members (internal/processor/kafka/reload.go).
use go_transaction_control_p.Consumer.Reload.Entry.{has-eq}
use go_transaction_control_p.Consumer.Config.{is_nil}
use go_transaction_control_p.Prelude.Int.{eqb_ℤ, ℤ}
use go_transaction_control_p.Consumer.Reload.{without, has}
use go_transaction_control_p.Prelude.{
  inr, inl, ◌∙◌, [], Bool-cases, ◌∷◌, ◌||◌, sym, ap, not, ◌≡◌, ◌&&◌, List, Bool, true, false, refl,
}

both_false : (a b c : Bool) → c ≡ true → (a && not c) ≡ (b && not c)
both_false true true c h = refl
both_false true false c h = ap not h
both_false false true c h = sym (ap not h)
both_false false false c h = refl

first_left_out :
    (partitions others : List ℤ) (q p : ℤ)
    → has others q ≡ true
    → (has partitions p && not (has others p))
      ≡ ((eqb_ℤ q p || has partitions p) && not (has others p))
first_left_out partitions others q p h = elim (Bool-cases (eqb_ℤ q p)) [
  | inl e ↦ both_false _ _ (has others p) (sym (has-eq others q p e) ∙ h)
  | inr e ↦ ap (λ b. (b || has partitions p) && not (has others p)) (sym e)
]

first_kept :
    (partitions others : List ℤ) (q p : ℤ)
    → has others q ≡ false
    → (eqb_ℤ q p || (has partitions p && not (has others p)))
      ≡ ((eqb_ℤ q p || has partitions p) && not (has others p))
first_kept partitions others q p h = elim (Bool-cases (eqb_ℤ q p)) [
  | inl e ↦
      ap (λ b. b || (has partitions p && not (has others p))) e
      ∙ sym (ap not (sym (has-eq others q p e) ∙ h))
      ∙ sym (ap (λ b. (b || has partitions p) && not (has others p)) e)
  | inr e ↦
      ap (λ b. b || (has partitions p && not (has others p))) e
      ∙ sym (ap (λ b. (b || has partitions p) && not (has others p)) e)
]

pub has-without :
    (partitions others : List ℤ) (p : ℤ)
    → has (without partitions others) p ≡ (has partitions p && not (has others p))
unfolding has without
has-without [] others p = refl
has-without (q ∷ partitions) others p = elim (Bool-cases (has others q)) [
  | inl h ↦ rw h (has-without partitions others p ∙ first_left_out partitions others q p h)
  | inr h ↦ rw h (
      ap (λ b. eqb_ℤ q p || b) (has-without partitions others p)
      ∙ first_kept partitions others q p h)
]

-- What is assigned once `new` lost and `old` gained what they lack.
pub moved : (old new : Bool) → (((new && not old) || old) && not (old && not new)) ≡ new
moved true true = refl
moved true false = refl
moved false true = refl
moved false false = refl

same_members : (a b : Bool) → (a && not b) ≡ false → (b && not a) ≡ false → a ≡ b
same_members true true h k = refl
same_members true false h k = h
same_members false true h k = sym k
same_members false false h k = refl

has-of_is_nil : (partitions : List ℤ) (p : ℤ) → is_nil partitions ≡ true → has partitions p ≡ false
unfolding has
has-of_is_nil [] p h = refl
has-of_is_nil (q ∷ partitions) p h = absurd (let e : false ≡ true = h in cc)

and_left : (a b : Bool) → (a && b) ≡ true → a ≡ true
and_left true b h = refl
and_left false b h = h

and_right : (a b : Bool) → (a && b) ≡ true → b ≡ true
and_right true b h = h
and_right false b h = absurd cc

-- Nothing to add and nothing to remove: the same members.
pub no_difference :
    (old new : List ℤ) (p : ℤ)
    → (is_nil (without new old) && is_nil (without old new)) ≡ true
    → has old p ≡ has new p
no_difference old new p h =
    same_members (has old p) (has new p)
      (sym (has-without old new p)
        ∙ has-of_is_nil (without old new) p (and_right (is_nil (without new old)) _ h))
      (sym (has-without new old p)
        ∙ has-of_is_nil (without new old) p (and_left _ (is_nil (without old new)) h))

pub gained : (b : Bool) → ((true && not b) || b) ≡ true
gained true = refl
gained false = refl

pub and_false : (b : Bool) → (b && false) ≡ false
and_false true = refl
and_false false = refl
