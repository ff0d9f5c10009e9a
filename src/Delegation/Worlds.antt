-- ===== src/Delegation/Worlds.antt =====
-- The stored relations of src/central/managers/delegation, and what its operations and other tasks
-- keep of them.
use newconduit.Storage.Families.{delegation_records}
use newconduit.Storage.Versioned.{Holds, Keeps, Turn, commit, commit_keeps}
use newconduit.Delegation.Changes.{Change, IsSound}
use newconduit.World.{Result, Store, World, ok}
use newconduit.Base.{
  All, Option, String, Table, get, get-put_self, list_eq, nat_eq, none, option_eq, pair_eq, put,
  refl, some, string_eq, true, values, ℕ, ◌≡◌,
}
use newconduit.Delegation.Rounds.{commit_relation}
use newconduit.Delegation.Steps.{Change-identity}
use newconduit.Model.{DelegationRecord, condition_eq, event_type_eq, lifecycle_eq, status_eq}
use newconduit.Storage.Claims.{compare_and_set_delegation, write_if-true}
use newconduit.World.Contend.{contend_value, contend_won}

-- A property of the stored relations that a creation and each change of a stored relation keep.
pub record IsKept (P : Table String DelegationRecord → Type 0) : Type 0 where
  pub located :
      (t : Table String DelegationRecord)
      → P t
      → All (λ d. get d.delegation_id t ≡ some d) (values t)
  pub keyed :
      (t : Table String DelegationRecord) (id : String) (d : DelegationRecord)
      → P t
      → get id t ≡ some d
      → d.delegation_id ≡ id
  pub changed :
      (t : Table String DelegationRecord) (d d' : DelegationRecord)
      → P t
      → get d.delegation_id t ≡ some d
      → Change d d'
      → P (put d'.delegation_id d' t)
  pub fresh :
      (t : Table String DelegationRecord) (d : DelegationRecord)
      → P t
      → get d.delegation_id t ≡ none
      → IsSound d
      → P (put d.delegation_id d t)

abbrev pub KeepsRelations : (Table String DelegationRecord → Type 0) → (Store → Store) → Type 0
KeepsRelations P r = Keeps delegation_records P r

abbrev pub Inv : (Table String DelegationRecord → Type 0) → World → Type 0
Inv P w = Holds delegation_records P w

-- A round of a loop on a relation.
abbrev pub Outcome : {A : Type 0} → World → Result (Option A) × World → Type 0
Outcome w r = Turn delegation_records Change w r

pub same_relation_key : (d d' : DelegationRecord) → Change d d' → d'.delegation_id ≡ d.delegation_id
same_relation_key d d' c = (Change-identity d c).0

pub commit_as :
    {A : Type 0} (d next : DelegationRecord) (a : A) (w : World)
    → commit_relation d next a w ≡ commit delegation_records d next a w
unfolding commit_relation commit
commit_as d next a w = refl

pub commit_kept :
    {P : Table String DelegationRecord → Type 0} (k : IsKept P) {A : Type 0}
    (d next : DelegationRecord) (a : A) (w : World)
    → Inv P w
    → get d.delegation_id w.store.delegations ≡ some d
    → Change d next
    → Inv P (commit_relation d next a w).1
unfolding commit_relation commit
commit_kept k d next a w v found change =
    commit_keeps delegation_records Change same_relation_key k.changed d next a w v found change

-- A commit that returned its value has stored the record.
cas_stored :
    (n : ℕ) (next : DelegationRecord) (w : World)
    → (compare_and_set_delegation n next w).0 ≡ ok true
    → get next.delegation_id (compare_and_set_delegation n next w).1.store.delegations ≡ some next
unfolding compare_and_set_delegation
cas_stored n next w h =
    rw (write_if-true _ _ _ _ w h) (get-put_self next.delegation_id next w.store.delegations)

pub commit_stored :
    {A : Type 0} (d next : DelegationRecord) (a b : A) (w : World)
    → (commit_relation d next a w).0 ≡ ok (some b)
    → get next.delegation_id (commit_relation d next a w).1.store.delegations ≡ some next
unfolding commit_relation
commit_stored d next a b w h =
    contend_won (λ u. get next.delegation_id u.store.delegations ≡ some next)
      (compare_and_set_delegation d.revision next) a b w h (cas_stored d.revision next)

pub commit_value :
    {A : Type 0} (d next : DelegationRecord) (a b : A) (w : World)
    → (commit_relation d next a w).0 ≡ ok (some b)
    → b ≡ a
unfolding commit_relation
commit_value d next a b w h = contend_value (compare_and_set_delegation d.revision next) a b w h
