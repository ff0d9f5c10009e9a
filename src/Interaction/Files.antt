-- ===== src/Interaction/Files.antt =====
-- What holds of the stored interactions of src/central/managers/interaction at all times.
use newconduit.Base.{
  All, Bool-cases, HasUniqueKeys, String, Table, ap, arith, default, get, get-put_ne, get-put_self,
  get-values, inl, inr, list_eq, nat_eq, none, option_eq, pair_eq, put, put-HasUniqueKeys,
  put_cases, refl, some, string_eq, subst, sym, values, ◌==◌, ◌∙◌, ◌≡◌, ◌≢◌,
}
use newconduit.Interaction.{delivered_to, interrupted_for, projected, resolved_with}
use newconduit.Interaction.Loops.{IsPreserved}
use newconduit.Interaction.Transitions.{
  IsConsistent, Transition, Transition-IsConsistent, Transition-same, abandon_one, accept_one,
  interrupt_one, project_one, resolve_one,
}
use newconduit.Model.{
  InteractionRecord, condition_eq, event_type_eq, interrupted, lifecycle_eq, resolved, status_eq,
}

-- The interactions are stored under their identifiers, once each, and are consistent.
pub record AreFiled (t : Table String InteractionRecord) : Type 0 where
  pub unique : HasUniqueKeys t
  pub own_key : (id : String) (x : InteractionRecord) → get id t ≡ some x → x.interaction_id ≡ id
  pub all_consistent : (id : String) (x : InteractionRecord) → get id t ≡ some x → IsConsistent x

put-AreFiled :
    (x : InteractionRecord) (t : Table String InteractionRecord)
    → AreFiled t
    → IsConsistent x
    → AreFiled (put x.interaction_id x t)
put-AreFiled x t f s = record {
  unique = put-HasUniqueKeys x.interaction_id x t f.unique;
  own_key = λ id y h. elim (put_cases x.interaction_id id x y t h) [
    | inl (key, same) ↦ ap (λ z. z.interaction_id) (sym same) ∙ key
    | inr (other, old) ↦ f.own_key id y old
  ];
  all_consistent = λ id y h. elim (put_cases x.interaction_id id x y t h) [
    | inl (key, same) ↦ subst IsConsistent same s
    | inr (other, old) ↦ f.all_consistent id y old
  ];
}

filed_at_own_key :
    (t : Table String InteractionRecord)
    → AreFiled t
    → All (λ x. get x.interaction_id t ≡ some x) (values t)
filed_at_own_key t f = (get-values (λ x. x.interaction_id) t f.unique f.own_key).0

pub AreFiled-IsPreserved : IsPreserved AreFiled
AreFiled-IsPreserved = record {
  located = filed_at_own_key;
  keyed = λ t id x f h. f.own_key id x h;
  consistent = λ t id x f h. f.all_consistent id x h;
  changed = λ t x x' f h c.
      put-AreFiled x' t f (Transition-IsConsistent x x' c (f.all_consistent x.interaction_id x h));
  fresh = λ t x f h s. put-AreFiled x t f s;
}

-- A record that changes of `x` lead to.
infix 40 ◌⇝◌
pub data ◌⇝◌ (x : InteractionRecord) : InteractionRecord → Type 0 where
  unchanged_yet : x ⇝ x
  further_change : {y z : InteractionRecord} → x ⇝ y → Transition y z → x ⇝ z

-- The interaction `id`, which was seen as `x`, is stored as one that changes of it lead to.
pub record HasFollowed (id : String) (x : InteractionRecord) (t : Table String InteractionRecord)
    : Type 0 where
  pub filed : AreFiled t
  pub current : InteractionRecord
  pub at : get id t ≡ some current
  pub follows : x ⇝ current

same_interaction : (x y : InteractionRecord) → some x ≡ some y → x ≡ y
same_interaction x y h = ap (λ o. default o x) h

module _ (id : String) (x : InteractionRecord) (t : Table String InteractionRecord)
    (m : HasFollowed id x t) where
  other_put :
      (y : InteractionRecord)
      → IsConsistent y
      → y.interaction_id ≢ id
      → HasFollowed id x (put y.interaction_id y t)
  other_put y s ne = record {
    filed = put-AreFiled y t m.filed s;
    current = m.current;
    at = get-put_ne y.interaction_id id y t ne ∙ m.at;
    follows = m.follows;
  }

  own_put :
      (y y' : InteractionRecord)
      → get y.interaction_id t ≡ some y
      → Transition y y'
      → y'.interaction_id ≡ id
      → HasFollowed id x (put y'.interaction_id y' t)
  own_put y y' h c own =
      let found : get id t ≡ some y =
        subst (λ k. get k t ≡ some y) (sym (Transition-same y y' c) ∙ own) h in
      let same = same_interaction m.current y (sym m.at ∙ found) in
      record {
        filed =
            put-AreFiled y' t m.filed
              (Transition-IsConsistent y y' c (m.filed.all_consistent y.interaction_id y h));
        current = y';
        at =
            subst (λ k. get k (put y'.interaction_id y' t) ≡ some y') own
              (get-put_self y'.interaction_id y' t);
        follows = further_change (subst (λ z. x ⇝ z) same m.follows) c;
      }

pub HasFollowed-IsPreserved : (id : String) (x : InteractionRecord) → IsPreserved (HasFollowed id x)
HasFollowed-IsPreserved id x = record {
  located = λ t m. filed_at_own_key t m.filed;
  keyed = λ t j y m h. m.filed.own_key j y h;
  consistent = λ t j y m h. m.filed.all_consistent j y h;
  changed = λ t y y' m h c. elim (Bool-cases (y'.interaction_id == id)) [
    | inl e ↦ own_put id x t m y y' h c ((string_eq.equal_iff y'.interaction_id id).0 e)
    | inr e ↦
        other_put id x t m y'
          (Transition-IsConsistent y y' c (m.filed.all_consistent y.interaction_id y h))
          (λ same. ground (arith, e, (string_eq.equal_iff y'.interaction_id id).1 same))
  ];
  fresh = λ t y m h s.
      other_put id x t m y s
        (λ same. absurd (ground (arith, m.at, subst (λ k. get k t ≡ none) same h)));
}

-- The answer of a resolved interaction is final, and so is a delivery that was accepted.
resolved_step :
    (x y : InteractionRecord)
    → Transition x y
    → x.state ≡ resolved
    → (y.state ≡ resolved) × (y.resolution ≡ x.resolution)
unfolding resolved_with interrupted_for delivered_to projected
resolved_step x y (resolve_one r command views t o c e f) h = absurd (ground (arith, o, h))
resolved_step x y (interrupt_one reason at views t o e f) h = absurd (ground (arith, o, h))
resolved_step x y (accept_one t p f) h = rw f (h, refl)
resolved_step x y (abandon_one t p f) h = rw f (h, refl)
resolved_step x y (project_one p session t f) h = rw f (h, refl)

pub resolved_final :
    {x y : InteractionRecord}
    → x ⇝ y
    → x.state ≡ resolved
    → (y.state ≡ resolved) × (y.resolution ≡ x.resolution)
resolved_final unchanged_yet h = (h, refl)
resolved_final (further_change m c) h =
    let (now_resolved, same) = resolved_final m h in
    let (still, again) = resolved_step _ _ c now_resolved in (still, again ∙ same)

interrupted_step :
    (x y : InteractionRecord)
    → Transition x y
    → x.state ≡ interrupted
    → (y.state ≡ interrupted) × (y.interruption ≡ x.interruption)
unfolding resolved_with interrupted_for delivered_to projected
interrupted_step x y (resolve_one r command views t o c e f) h = absurd (ground (arith, o, h))
interrupted_step x y (interrupt_one reason at views t o e f) h = absurd (ground (arith, o, h))
interrupted_step x y (accept_one t p f) h = rw f (h, refl)
interrupted_step x y (abandon_one t p f) h = rw f (h, refl)
interrupted_step x y (project_one p session t f) h = rw f (h, refl)

pub interrupted_final :
    {x y : InteractionRecord}
    → x ⇝ y
    → x.state ≡ interrupted
    → (y.state ≡ interrupted) × (y.interruption ≡ x.interruption)
interrupted_final unchanged_yet h = (h, refl)
interrupted_final (further_change m c) h =
    let (before, same) = interrupted_final m h in
    let (still, again) = interrupted_step _ _ c before in (still, again ∙ same)
