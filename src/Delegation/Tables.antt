-- ===== src/Delegation/Tables.antt =====
-- What holds of the stored relations of src/central/managers/delegation at all times: they are stored
-- under their identifiers, once each, and are sound; and the status of one only moves along the diagram.
use newconduit.Base.{
  All, Bool-cases, HasUniqueKeys, String, Table, ap, arith, default, get, get-put_ne, get-put_self,
  get-values, inl, inr, list_eq, nat_eq, none, option_eq, pair_eq, put, put-HasUniqueKeys,
  put_cases, refl, some, string_eq, subst, sym, true, values, ◌==◌, ◌∙◌, ◌≡◌, ◌≢◌,
}
use newconduit.Delegation.Changes.{Change, IsSound, is_failed}
use newconduit.Delegation.Steps.{
  Change-IsSound, Change-identity, Change-⟶, fail_status, open_child, stay, ◌⟶◌,
}
use newconduit.Delegation.Worlds.{IsKept}
use newconduit.Model.{
  DelegationRecord, DelegationStatus, condition_eq, event_type_eq, lifecycle_eq, status_eq,
}

pub record IsFiled (t : Table String DelegationRecord) : Type 0 where
  pub unique : HasUniqueKeys t
  pub own_key : (id : String) (d : DelegationRecord) → get id t ≡ some d → d.delegation_id ≡ id
  pub all_sound : (id : String) (d : DelegationRecord) → get id t ≡ some d → IsSound d

put-IsFiled :
    (d : DelegationRecord) (t : Table String DelegationRecord)
    → IsFiled t
    → IsSound d
    → IsFiled (put d.delegation_id d t)
put-IsFiled d t f s = record {
  unique = put-HasUniqueKeys d.delegation_id d t f.unique;
  own_key = λ id x h. elim (put_cases d.delegation_id id d x t h) [
    | inl (key, same) ↦ ap (λ y. y.delegation_id) (sym same) ∙ key
    | inr (other, old) ↦ f.own_key id x old
  ];
  all_sound = λ id x h. elim (put_cases d.delegation_id id d x t h) [
    | inl (key, same) ↦ subst IsSound same s
    | inr (other, old) ↦ f.all_sound id x old
  ];
}

filed_located :
    (t : Table String DelegationRecord)
    → IsFiled t
    → All (λ d. get d.delegation_id t ≡ some d) (values t)
filed_located t f = (get-values (λ d. d.delegation_id) t f.unique f.own_key).0

pub IsFiled-IsKept : IsKept IsFiled
IsFiled-IsKept = record {
  located = filed_located;
  keyed = λ t id d f h. f.own_key id d h;
  changed =
      λ t d d' f h c. put-IsFiled d' t f (Change-IsSound d c (f.all_sound d.delegation_id d h));
  fresh = λ t d f h s. put-IsFiled d t f s;
}

-- A way through the diagram.
infix 40 ◌⟶*◌
pub data ◌⟶*◌ (s : DelegationStatus) : DelegationStatus → Type 0 where
  start : s ⟶* s
  step : {t u : DelegationStatus} → s ⟶* t → t ⟶ u → s ⟶* u

-- The relation `id`, which was seen with the status `s`, is stored with one that is reached from it.
pub record HasMoved (id : String) (s : DelegationStatus) (t : Table String DelegationRecord)
    : Type 0 where
  pub filed : IsFiled t
  pub current : DelegationRecord
  pub at : get id t ≡ some current
  pub moved : s ⟶* current.status

same_relation : (x y : DelegationRecord) → some x ≡ some y → x ≡ y
same_relation x y h = ap (λ o. default o x) h

module _ (id : String) (s : DelegationStatus) (t : Table String DelegationRecord)
    (m : HasMoved id s t) where
  stays_moved :
      (d : DelegationRecord)
      → IsSound d
      → d.delegation_id ≢ id
      → HasMoved id s (put d.delegation_id d t)
  stays_moved d sound ne = record {
    filed = put-IsFiled d t m.filed sound;
    current = m.current;
    at = get-put_ne d.delegation_id id d t ne ∙ m.at;
    moved = m.moved;
  }

  moves_on :
      (d d' : DelegationRecord)
      → get d.delegation_id t ≡ some d
      → Change d d'
      → d'.delegation_id ≡ id
      → HasMoved id s (put d'.delegation_id d' t)
  moves_on d d' h c own =
      let found : get id t ≡ some d =
        subst (λ k. get k t ≡ some d) (sym (Change-identity d c).0 ∙ own) h in
      let same = same_relation m.current d (sym m.at ∙ found) in
      record {
        filed =
            put-IsFiled d' t m.filed (Change-IsSound d c (m.filed.all_sound d.delegation_id d h));
        current = d';
        at =
            subst (λ k. get k (put d'.delegation_id d' t) ≡ some d') own
              (get-put_self d'.delegation_id d' t);
        moved = step (subst (λ x. s ⟶* x.status) same m.moved) (Change-⟶ d c);
      }

pub HasMoved-IsKept : (id : String) (s : DelegationStatus) → IsKept (HasMoved id s)
HasMoved-IsKept id s = record {
  located = λ t m. filed_located t m.filed;
  keyed = λ t j d m h. m.filed.own_key j d h;
  changed = λ t d d' m h c. elim (Bool-cases (d'.delegation_id == id)) [
    | inl e ↦ moves_on id s t m d d' h c ((string_eq.equal_iff d'.delegation_id id).0 e)
    | inr e ↦
        stays_moved id s t m d' (Change-IsSound d c (m.filed.all_sound d.delegation_id d h))
          (λ same. ground (arith, e, (string_eq.equal_iff d'.delegation_id id).1 same))
  ];
  fresh = λ t d m h f.
      stays_moved id s t m d f
        (λ same. absurd (ground (arith, m.at, subst (λ k. get k t ≡ none) same h)));
}

failed_step : {s t : DelegationStatus} → s ⟶ t → is_failed s ≡ true → is_failed t ≡ true
failed_step stay h = h
failed_step open_child h = absurd (ground (arith, h))
failed_step fail_status h = refl

-- Nothing leaves the failed status.
pub failed_final : {s t : DelegationStatus} → s ⟶* t → is_failed s ≡ true → is_failed t ≡ true
failed_final start h = h
failed_final (step m e) h = failed_step e (failed_final m h)
