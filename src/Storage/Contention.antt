-- ===== src/Storage/Contention.antt =====
-- The conditional writes and the idempotent creations of src/central/storage/local-file-storage.ts,
-- made twice.
use newconduit.Base.{
  Bool, Option, Option-cases, ap, arith, false, get, get-put_self, inl, inr, list_eq, nat_eq, none,
  option_eq, or_else, pair_eq, put, refl, some, string_eq, sym, true, values, ℕ, ◌+◌, ◌==◌, ◌∙◌,
  ◌≡◌, ◌⊎◌,
}
use newconduit.Model.{
  DelegationRecord, InteractionRecord, condition_eq, event_type_eq, lifecycle_eq, status_eq,
}
use newconduit.Storage.Claims.{
  compare_and_set_delegation, compare_and_set_interaction, create_delegation, create_interaction,
  current_at, delegation_by_key, interaction_by_adapter_request, write_if, write_if-true,
}
use newconduit.Storage.Records.{read_delegation, read_interaction}
use newconduit.World.{Result, Store, World, err, ok}

-- A conditional write that was made was one to the next revision.
write_if_advances {ℓ} :
    {A : Type ℓ} (found : Option A) (advances : Bool) (same : A → Bool) (write : Store → Store)
    (w : World)
    → (write_if found advances same write w).0 ≡ ok true
    → advances ≡ true
unfolding write_if
write_if_advances none advances same write w h = absurd (ground arith)
write_if_advances (some c) true same write w h = refl
write_if_advances (some c) false same write w h = absurd (ground arith)

next_revision : (n r : ℕ) → (n == r + 1) ≡ true → (n == r) ≡ false
next_revision n r h = ground arith

outdated {ℓ} :
    {A : Type ℓ} (revision : A → ℕ) (r : ℕ) (a : A)
    → (revision a == r) ≡ false
    → current_at revision r (some a) ≡ none
outdated revision r a h = rw h refl

-- Of two conditional writes of a delegation that expect the same revision, where the first is made the
-- second is refused and changes nothing.
pub compare_and_set_delegation_once :
    (r : ℕ) (d e : DelegationRecord) (w : World)
    → e.delegation_id ≡ d.delegation_id
    → (compare_and_set_delegation r d w).0 ≡ ok true
    → compare_and_set_delegation r e (compare_and_set_delegation r d w).1
      ≡ (ok false, (compare_and_set_delegation r d w).1)
unfolding compare_and_set_delegation read_delegation write_if
compare_and_set_delegation_once r d e w same h =
    let later = next_revision d.revision r (write_if_advances _ _ _ _ w h) in
    rw (write_if-true _ _ _ _ w h)
      (rw same (rw (get-put_self d.delegation_id d w.store.delegations) (rw later refl)))

-- Of two conditional writes of an interaction that expect the same revision, where the first is made
-- the second is refused and changes nothing.
pub compare_and_set_interaction_once :
    (r : ℕ) (x y : InteractionRecord) (w : World)
    → y.interaction_id ≡ x.interaction_id
    → (compare_and_set_interaction r x w).0 ≡ ok true
    → compare_and_set_interaction r y (compare_and_set_interaction r x w).1
      ≡ (ok false, (compare_and_set_interaction r x w).1)
unfolding compare_and_set_interaction read_interaction write_if
compare_and_set_interaction_once r x y w same h =
    let later = next_revision x.revision r (write_if_advances _ _ _ _ w h) in
    rw (write_if-true _ _ _ _ w h)
      (rw same (rw (get-put_self x.interaction_id x w.store.interactions) (rw later refl)))

answer_of {ℓ} : {A : Type ℓ} → A → Result (A × Bool) → A
answer_of d (ok (a, is_new)) = a
answer_of d (err e) = d

same_answer {ℓ} :
    {A : Type ℓ} (a x : A) (b c : Bool) (r q : Result (A × Bool))
    → r ≡ ok (a, b)
    → q ≡ ok (x, c)
    → r ≡ q
    → a ≡ x
unfolding answer_of
same_answer a x b c r q r_is q_is h = ap (answer_of a) (sym r_is ∙ h ∙ q_is)

create_delegation_cases :
    (d : DelegationRecord) (w : World)
    → ((old : DelegationRecord) × (create_delegation d w ≡ (ok (old, false), w)))
      ⊎ (create_delegation d w ≡ (
        ok (d, true),
        record w {
          store = record w.store { delegations = put d.delegation_id d w.store.delegations };
        },
      ))
unfolding create_delegation read_delegation
create_delegation_cases d w =
    let taken =
      delegation_by_key d.parent_session_id d.resolved_delegate.id d.target_ref
        (values w.store.delegations) in
    elim (Option-cases (or_else (get d.delegation_id w.store.delegations) taken)) [
      | inr (old, e) ↦ inl (old, rw e refl)
      | inl e ↦ inr (rw e refl)
    ]

create_delegation_known :
    (d a : DelegationRecord) (w : World)
    → get d.delegation_id w.store.delegations ≡ some a
    → create_delegation d w ≡ (ok (a, false), w)
unfolding create_delegation read_delegation
create_delegation_known d a w h = rw h refl

-- A creation of a delegation that is made again answers with the record of the first answer, as one
-- that is not new, and changes nothing.
pub create_delegation_again :
    (d x : DelegationRecord) (w : World) (is_new : Bool)
    → (create_delegation d w).0 ≡ ok (x, is_new)
    → create_delegation d (create_delegation d w).1 ≡ (ok (x, false), (create_delegation d w).1)
create_delegation_again d x w is_new h = elim (create_delegation_cases d w) [
  | inl (old, e) ↦
      let same : old ≡ x = same_answer old x _ _ _ _ (ap (λ r. r.0) e) h refl in
      rw e (e ∙ ap (λ a. (ok (a, false), w)) same)
  | inr e ↦
      let same : d ≡ x = same_answer d x _ _ _ _ (ap (λ r. r.0) e) h refl in
      let u : World = record w {
        store = record w.store { delegations = put d.delegation_id d w.store.delegations };
      } in
      let stored = get-put_self d.delegation_id d w.store.delegations in
      rw e (create_delegation_known d d u stored ∙ ap (λ a. (ok (a, false), u)) same)
]

create_interaction_cases :
    (d : InteractionRecord) (w : World)
    → ((old : InteractionRecord) × (create_interaction d w ≡ (ok (old, false), w)))
      ⊎ (create_interaction d w ≡ (
        ok (d, true),
        record w {
          store = record w.store { interactions = put d.interaction_id d w.store.interactions };
        },
      ))
unfolding create_interaction read_interaction
create_interaction_cases d w =
    let taken =
      interaction_by_adapter_request d.owner_session_id d.request_lease_id d.adapter_request_id
        (values w.store.interactions) in
    elim (Option-cases (or_else (get d.interaction_id w.store.interactions) taken)) [
      | inr (old, e) ↦ inl (old, rw e refl)
      | inl e ↦ inr (rw e refl)
    ]

create_interaction_known :
    (d a : InteractionRecord) (w : World)
    → get d.interaction_id w.store.interactions ≡ some a
    → create_interaction d w ≡ (ok (a, false), w)
unfolding create_interaction read_interaction
create_interaction_known d a w h = rw h refl

-- A creation of an interaction that is made again answers with the record of the first answer, as one
-- that is not new, and changes nothing.
pub create_interaction_again :
    (d x : InteractionRecord) (w : World) (is_new : Bool)
    → (create_interaction d w).0 ≡ ok (x, is_new)
    → create_interaction d (create_interaction d w).1 ≡ (ok (x, false), (create_interaction d w).1)
create_interaction_again d x w is_new h = elim (create_interaction_cases d w) [
  | inl (old, e) ↦
      let same : old ≡ x = same_answer old x _ _ _ _ (ap (λ r. r.0) e) h refl in
      rw e (e ∙ ap (λ a. (ok (a, false), w)) same)
  | inr e ↦
      let same : d ≡ x = same_answer d x _ _ _ _ (ap (λ r. r.0) e) h refl in
      let u : World = record w {
        store = record w.store { interactions = put d.interaction_id d w.store.interactions };
      } in
      let stored = get-put_self d.interaction_id d w.store.interactions in
      rw e (create_interaction_known d d u stored ∙ ap (λ a. (ok (a, false), u)) same)
]
