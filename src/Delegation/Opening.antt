-- ===== src/Delegation/Opening.antt =====
-- `startCall` of src/central/managers/delegation/delegation-manager.ts on stored relations.
use newconduit.Base.{
  Bool-cases, Option-cases, String, Table, get, inl, inr, list_eq, nat_eq, option_eq, pair_eq, refl,
  some, string_eq, subst, suc, sym, zero, ℕ, ◌+◌, ◌≡◌,
}
use newconduit.Delegation.Worlds.{Inv, IsKept, commit_kept}
use newconduit.Model.{
  DelegationRecord, SessionRecord, condition_eq, event_type_eq, lifecycle_eq, status_eq,
}
use newconduit.Session.Lifecycle.{CreateInput, create, new_session, same_intent}
use newconduit.Storage.Records.{create_session, read_delegation, read_session, write_session}
use newconduit.World.{World}
use newconduit.Delegation.Operations.{Result-cases}
use newconduit.Delegation.{is_creating, is_open_relation, opened}
use newconduit.Delegation.Changes.{open_one}
use newconduit.Delegation.Rounds.{commit_relation}
use newconduit.Delegation.Start.{
  DelegationOptions, child_intent, ensure_child_and_open, open_relation_of,
}

pub moved-Inv :
    (P : Table String DelegationRecord → Type 0) (w u : World)
    → u.store.delegations ≡ w.store.delegations
    → u.rivals ≡ w.rivals
    → u.host ≡ w.host
    → Inv P w
    → Inv P u
moved-Inv P w u st rs h v = rw st (rw rs (rw h v))

abbrev pub SameRelations : World → World → Type 0
SameRelations w u =
    (u.store.delegations ≡ w.store.delegations) × (u.rivals ≡ w.rivals) × (u.host ≡ w.host)

create_session_same : (s : SessionRecord) (w : World) → SameRelations w (create_session s w).1
unfolding create_session read_session write_session
create_session_same s w = elim (Option-cases (get s.session_id w.store.sessions)) [
  | inl e ↦ rw e (refl, refl, refl)
  | inr (x, e) ↦ rw e (refl, refl, refl)
]

create_same :
    (input : CreateInput) (id : String) (w : World)
    → input.session_id ≡ some id
    → SameRelations w (create input w).1
unfolding create
create_same input id w given = rw given (
    let t = w.host.clock w.readings in
    let u : World = record w { readings = w.readings + 1 } in
    let s = new_session input id t in
    let (st, rs, h) = create_session_same s u in
    elim (Result-cases (create_session s u).0) [
      | inr (e, f) ↦ rw f (st, rs, h)
      | inl ((actual, is_new), f) ↦ rw f (elim (Bool-cases (same_intent actual input)) [
        | inl g ↦ rw g (st, rs, h)
        | inr g ↦ rw g (st, rs, h)
      ])
    ])

module _ (P : Table String DelegationRecord → Type 0) (k : IsKept P) where
  StoredAs : String → World → Type 0
  StoredAs id u = (d : DelegationRecord) × (get id u.store.delegations ≡ some d)

  pub latest_stored :
      (id : String) (d : DelegationRecord) (u : World)
      → Inv P u
      → get id u.store.delegations ≡ some d
      → get d.delegation_id u.store.delegations ≡ some d
  latest_stored id d u v h =
      subst (λ j. get j u.store.delegations ≡ some d) (sym (k.keyed u.store.delegations id d v.0 h))
        h

  open_relation_of-Inv :
      (n : ℕ) (d : DelegationRecord) (w : World)
      → Inv P w
      → get d.delegation_id w.store.delegations ≡ some d
      → Inv P (open_relation_of n d w).1
  unfolding open_relation_of read_delegation
  open_relation_of-Inv zero d w v h = v
  open_relation_of-Inv (suc n) d w v h = elim (Bool-cases (is_creating d.status)) [
    | inr e ↦
        rw e (elim (Bool-cases (is_open_relation d.status)) [ inl f ↦ rw f v | inr f ↦ rw f v ])
    | inl e ↦
        let t = w.host.clock w.readings in
        let u : World = record w { readings = w.readings + 1 } in
        let r = commit_relation d (opened d t) (opened d t) u in
        let kept = commit_kept k d (opened d t) (opened d t) u v h (open_one t e refl) in
        rw e (elim (Result-cases r.0) [
          | inr (x, f) ↦ rw f kept
          | inl (made, f) ↦ rw f (elim (Option-cases made) [
            | inr (a, g) ↦ rw g kept
            | inl g ↦ rw g (elim (Option-cases (get d.delegation_id r.1.store.delegations)) [
              | inl q ↦ rw q kept
              | inr (latest, q) ↦ rw q (
                  open_relation_of-Inv n latest r.1 kept
                    (latest_stored d.delegation_id latest r.1 kept q))
            ])
          ])
        ])
  ]

  pub ensure_child_and_open-Inv :
      (n : ℕ) (o : DelegationOptions) (d : DelegationRecord) (parent : SessionRecord) (w : World)
      → Inv P w
      → get d.delegation_id w.store.delegations ≡ some d
      → Inv P (ensure_child_and_open n o d parent w).1
  unfolding ensure_child_and_open read_delegation child_intent
  ensure_child_and_open-Inv n o d parent w v h =
      let r = create (child_intent o d parent) w in
      let (st, rs, ho) = create_same (child_intent o d parent) d.child_session_id w refl in
      let kept = moved-Inv P w r.1 st rs ho v in
      elim (Result-cases r.0) [
        | inr (x, f) ↦ rw f kept
        | inl (child, f) ↦
            let there : get d.delegation_id r.1.store.delegations ≡ some d = rw st h in
            rw f (rw there (open_relation_of-Inv n d r.1 kept there))
      ]
