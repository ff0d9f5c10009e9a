-- ===== src/Delegation/Appending.antt =====
-- `appendCall` of src/central/managers/delegation/delegation-manager.ts: what it keeps of the stored
-- relations.
use newconduit.Base.{
  Bool-cases, Option-cases, String, Table, ap, arith, byte_length, false, find, get, inl, inr, leb,
  list_eq, ltb, nat_eq, option_eq, pair_eq, refl, some, string_eq, subst, suc, sym, text_length,
  true, zero, ℕ, ◌==◌, ◌||◌, ◌∙◌, ◌≡◌,
}
use newconduit.Delegation.{appended, is_creating, is_open_relation, is_queued, new_call}
use newconduit.Delegation.Start.{
  DelegationOptions, StartDelegationCallInput, after_append, append_call, appended_call,
  ensure_child_and_open, has_key, queued_count,
}
use newconduit.Model.{
  DelegationCallRecord, DelegationRecord, SessionRecord, condition_eq, event_type_eq, lifecycle_eq,
  status_eq,
}
use newconduit.World.{Result, World, err, ok}
use newconduit.Delegation.Changes.{append_one}
use newconduit.Delegation.Opening.{
  SameRelations, ensure_child_and_open-Inv, latest_stored, moved-Inv,
}
use newconduit.Delegation.Operations.{Result-cases}
use newconduit.Delegation.Rounds.{commit_relation}
use newconduit.Delegation.Worlds.{Inv, IsKept, commit_kept, commit_stored, commit_value}
use newconduit.Storage.Records.{read_delegation}

-- What a relation and a call for it are when the call may be appended.
record Appendable (d : DelegationRecord) (c : DelegationCallRecord) : Type 0 where
  can : (is_open_relation d.status || is_creating d.status) ≡ true
  queued : is_queued c.status ≡ true
  named : (c.delegation_call_id == "") ≡ false

abbrev value_of : {A : Type 0} → A → Result A → A
value_of d (ok a) = a
value_of d (err e) = d

appended_call_lem :
    (input : StartDelegationCallInput) (hash : String) (d : DelegationRecord) (w : World)
    → ((i : ℕ) → (w.host.uuid i == "") ≡ false)
    → SameRelations w (appended_call input hash d w).1
      × ((c : DelegationCallRecord) → (appended_call input hash d w).0 ≡ ok c → Appendable d c)
unfolding appended_call new_call
appended_call_lem input hash d w given =
    elim (Bool-cases (is_open_relation d.status || is_creating d.status)) [
      | inr e ↦ rw e ((refl, refl, refl), λ c x. absurd (ground (arith, x)))
      | inl e ↦ rw e (elim (Bool-cases (text_length input.input == 0)) [
        | inl f ↦ rw f ((refl, refl, refl), λ c x. absurd (ground (arith, x)))
        | inr f ↦
            rw f
              (elim (Bool-cases
                (leb (byte_length input.input) d.resolved_delegate.max_input_bytes)) [
                  | inr g ↦ rw g ((refl, refl, refl), λ c x. absurd (ground (arith, x)))
                  | inl g ↦
                      rw g
                        (elim (Bool-cases
                          (ltb (queued_count d.calls) d.resolved_delegate.max_queued_calls)) [
                            | inr q ↦ rw q ((refl, refl, refl), λ c x. absurd (ground (arith, x)))
                            | inl q ↦ rw q (
                              (refl, refl, refl),
                              λ c x.
                                  subst (Appendable d) (ap (value_of c) x)
                                    (record { can = e; queued = refl; named = given w.drawn }),
                            )
                          ])
                ])
      ])
    ]

module _ (P : Table String DelegationRecord → Type 0) (k : IsKept P) (o : DelegationOptions) where
  after_append-Inv :
      (fuel : ℕ) (parent : SessionRecord) (d : DelegationRecord) (c : DelegationCallRecord)
      (w : World)
      → Inv P w
      → get d.delegation_id w.store.delegations ≡ some d
      → Inv P (after_append fuel o parent d c w).1
  unfolding after_append
  after_append-Inv fuel parent d c w v h = elim (Bool-cases (is_creating d.status)) [
    | inr e ↦ rw e v
    | inl e ↦ rw e (
        let kept = ensure_child_and_open-Inv P k fuel o d parent w v h in
        elim (Result-cases (ensure_child_and_open fuel o d parent w).0) [
          | inl (x, f) ↦ rw f kept
          | inr (x, f) ↦ rw f kept
        ])
  ]

  pub append_call-Inv :
      (n : ℕ) (input : StartDelegationCallInput) (hash : String) (d : DelegationRecord) (w : World)
      → Inv P w
      → get d.delegation_id w.store.delegations ≡ some d
      → Inv P (append_call n o input hash d w).1
  unfolding append_call read_delegation
  append_call-Inv zero input hash d w v h = v
  append_call-Inv (suc n) input hash d w v h =
      let r = appended_call input hash d w in
      let ((st, rs, ho), fits) = appended_call_lem input hash d w v.2 in
      let still = moved-Inv P w r.1 st rs ho v in
      elim (Result-cases r.0) [
        | inr (x, f) ↦ rw f still
        | inl (c, f) ↦
            let next = appended d c c.created_at in
            let q = commit_relation d next next r.1 in
            let a = fits c f in
            let change = append_one c c.created_at a.can a.queued a.named refl in
            let kept = commit_kept k d next next r.1 still (rw st h) change in
            rw f (elim (Result-cases q.0) [
              | inr (x, g) ↦ rw g kept
              | inl (made, g) ↦ rw g (elim (Option-cases made) [
                | inr (a, e) ↦
                    let got : q.0 ≡ ok (some a) = g ∙ ap ok e in
                    let same : a ≡ next = commit_value d next next a r.1 got in
                    rw e (
                      after_append-Inv (suc n) input.parent_session a c q.1 kept (
                        subst (λ y. get y.delegation_id q.1.store.delegations ≡ some y) (sym same)
                          (commit_stored d next next a r.1 got)))
                | inl e ↦ rw e (elim (Option-cases (get d.delegation_id q.1.store.delegations)) [
                  | inl s ↦ rw s kept
                  | inr (latest, s) ↦
                      rw s (elim (Option-cases (find (has_key input) latest.calls)) [
                        | inl t ↦ rw t (
                            append_call-Inv n input hash latest q.1 kept
                              (latest_stored P k d.delegation_id latest q.1 kept s))
                        | inr (again, t) ↦ rw t (elim (Bool-cases (again.input_hash == hash)) [
                          | inl b ↦ rw b kept
                          | inr b ↦ rw b kept
                        ])
                      ])
                ])
              ])
            ])
      ]
