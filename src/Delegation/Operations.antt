-- ===== src/Delegation/Operations.antt =====
-- Each round of src/central/managers/delegation throws, stays, or makes one conditional write of a
-- change of the record that it read.
use newconduit.Storage.Versioned.{rests, writes}
use newconduit.Delegation.Worlds.{Outcome, commit_as}
use newconduit.Base.{
  All, All-find, Bool, Bool-cases, Option, Option-cases, String, ap, arith, byte_length, find, get,
  inl, inr, is_some, leb, list_eq, nat_eq, none, not, option_eq, pair_eq, refl, some, string_eq,
  subst, sym, text_length, values, ℕ, ◌+◌, ◌==◌, ◌||◌, ◌∙◌, ◌≡◌, ◌≢◌, ◌⊎◌,
}
use newconduit.Delegation.{
  accepted_call, accepted_dispatch, amended, closed_for, completed_one, completed_relation,
  failed_by_turn, failed_one, is_terminal_call, revised,
}
use newconduit.Delegation.Rounds.{
  acknowledge_round, active_in, active_of, by_child, close_round, commit_relation, complete_update,
  fail_update, is_accepted, is_command, reason_is, turn_of, update_round,
}
use newconduit.Model.{
  DelegationCallDispatch, DelegationCallRecord, DelegationCloseReason, DelegationFailure,
  DelegationRecord, condition_eq, event_type_eq, lifecycle_eq, status_eq,
}
use newconduit.Storage.Records.{read_delegation, read_delegations}
use newconduit.World.{
  Fault, M, Result, World, empty_message, err, message_too_long, no_active_call, no_relation, ok,
  out_of_fuel, unmatched_command, unmatched_turn,
}
use newconduit.Delegation.Changes.{Change, amend_one, close_one, complete_one, fail_one}
use newconduit.Delegation.Soundness.{find-Among}
use newconduit.Admission.{digest_json}

abbrev pub Located : World → Type 0
Located w = All (λ d. get d.delegation_id w.store.delegations ≡ some d) (values w.store.delegations)

-- A result that ends the loop, in a world whose records were not touched.
ends :
    {A : Type 0} (w : World) (r : Result (Option A)) (u : World)
    → r ≢ ok none
    → r ≢ err out_of_fuel
    → u.store ≡ w.store
    → u.rivals ≡ w.rivals
    → u.host ≡ w.host
    → Outcome w (r, u)
ends w r u live fed st rs h = rests u live fed refl st rs h

fault_of {ℓ} : {A : Type ℓ} → Fault → Result A → Fault
fault_of d (ok a) = d
fault_of d (err e) = e

first_of : {A B : Type 0} → A → Result (A × B) → A
first_of d (ok (a, b)) = a
first_of d (err e) = d

first_same :
    {A B : Type 0} (a x : A) (b c : B) → ◌≡◌ {A = Result (A × B)} (ok (a, b)) (ok (x, c)) → a ≡ x
unfolding first_of
first_same a x b c h = ap (first_of a) h

pub throws :
    {A : Type 0} (w u : World) (e : Fault)
    → e ≢ out_of_fuel
    → u.store ≡ w.store
    → u.rivals ≡ w.rivals
    → u.host ≡ w.host
    → Outcome {A = A} w (err e, u)
unfolding fault_of
throws w u e fed =
    ends w (err e) u (λ x. ground (arith, x)) (λ x. fed (ap (fault_of no_relation) x))

pub stays : {A : Type 0} (w : World) (a : A) → Outcome w (ok (some a), w)
stays w a = ends w (ok (some a)) w (λ x. ground (arith, x)) (λ x. ground (arith, x)) refl refl refl

pub commits :
    {A : Type 0} (w : World) (d next : DelegationRecord) (a : A) (u : World)
    → get d.delegation_id w.store.delegations ≡ some d
    → u.store ≡ w.store
    → u.rivals ≡ w.rivals
    → u.host ≡ w.host
    → Change d next
    → Outcome w (commit_relation d next a u)
commits w d next a u found st rs h change =
    writes d next a u found change st rs h (commit_as d next a u)

stored_where :
    (p : DelegationRecord → Bool) (w : World) (d : DelegationRecord)
    → Located w
    → find p (values w.store.delegations) ≡ some d
    → get d.delegation_id w.store.delegations ≡ some d
stored_where p w d at e = All-find _ p (values w.store.delegations) {x = d} at e

accepted_dispatch-is_some :
    (o : Option DelegationCallDispatch) → is_some (accepted_dispatch o) ≡ is_some o
accepted_dispatch-is_some none = refl
accepted_dispatch-is_some (some p) = refl

pub acknowledge_round-Outcome :
    (child event_id : String) (turn_seq : ℕ) (w : World)
    → Located w
    → Outcome w (acknowledge_round child event_id turn_seq w)
unfolding acknowledge_round read_delegations accepted_call
acknowledge_round-Outcome child event_id turn_seq w at =
    elim (Option-cases (find (by_child child) (values w.store.delegations))) [
      | inl e ↦ rw e (throws w w no_relation (λ x. cc) refl refl refl)
      | inr (d, e) ↦
          rw e (elim (Option-cases (find (λ x. is_command event_id turn_seq x.dispatch) d.calls)) [
            | inl f ↦ rw f (throws w w unmatched_command (λ x. cc) refl refl refl)
            | inr (c, f) ↦
                rw f (elim (Bool-cases (is_accepted c.dispatch || is_terminal_call c.status)) [
                  | inl g ↦ rw g (stays w tt)
                  | inr g ↦ rw g (
                      let t = w.host.clock w.readings in
                      let u = w.host.clock (w.readings + 1) in
                      commits w d (amended d (accepted_call c t) u) tt
                        (record w { readings = w.readings + 1 + 1 }) (stored_where _ w d at e) refl
                        refl refl
                        (amend_one c (accepted_call c t) u
                          (find-Among (λ x. is_command event_id turn_seq x.dispatch) d.calls c f)
                          refl refl (accepted_dispatch-is_some c.dispatch) refl))
                ])
          ])
    ]

-- An update that changes no record itself, and gives a change of the record that it is given.
pub record Updates {A : Type 0}
    (update : DelegationRecord → DelegationCallRecord → M (DelegationRecord × A)) : Type 0 where
  pub quiet :
      (d : DelegationRecord) (c : DelegationCallRecord) (w : World)
      → ((update d c w).1.store ≡ w.store)
        × ((update d c w).1.rivals ≡ w.rivals)
        × ((update d c w).1.host ≡ w.host)
  pub fed :
      (d : DelegationRecord) (c : DelegationCallRecord) (w : World)
      → (update d c w).0 ≢ err out_of_fuel
  changes :
      (d next : DelegationRecord) (c : DelegationCallRecord) (a : A) (w : World) (t : ℕ)
      → (update d c w).0 ≡ ok (next, a)
      → active_of d ≡ some c
      → Change d (revised d next t)

pub Result-cases {ℓ} :
    {A : Type ℓ} (r : Result A) → ((a : A) × (r ≡ ok a)) ⊎ ((e : Fault) × (r ≡ err e))
Result-cases (ok a) = inl (a, refl)
Result-cases (err e) = inr (e, refl)

pub update_round-Outcome :
    {A : Type 0} (child : String)
    (update : DelegationRecord → DelegationCallRecord → M (DelegationRecord × A)) (w : World)
    → Updates update
    → Located w
    → Outcome w (update_round child update w)
unfolding update_round read_delegations
update_round-Outcome child update w good at =
    elim (Option-cases (find (by_child child) (values w.store.delegations))) [
      | inl e ↦ rw e (throws w w no_active_call (λ x. cc) refl refl refl)
      | inr (d, e) ↦ rw e (elim (Option-cases (active_in d.active_call_id d.calls)) [
        | inl f ↦ rw f (throws w w no_active_call (λ x. cc) refl refl refl)
        | inr (c, f) ↦ rw f (
            let (st, rs, h) = good.quiet d c w in
            elim (Result-cases (update d c w).0) [
              | inr (x, g) ↦ rw g (throws w _ x (λ same. good.fed d c w (g ∙ ap err same)) st rs h)
              | inl ((next, a), g) ↦ rw g (
                  commits w d _ a _ (stored_where _ w d at e) st rs h
                    (good.changes d next c a w _ g f))
            ])
      ])
    ]

-- An update that throws, or gives a change after a reading of the clock, is one.
after_checks :
    {A : Type 0} (update : DelegationRecord → DelegationCallRecord → M (DelegationRecord × A))
    → ((d : DelegationRecord) (c : DelegationCallRecord) (w : World)
        → ((e : Fault) × (e ≢ out_of_fuel) × (update d c w ≡ (err e, w)))
          ⊎ ((next : DelegationRecord) × (a : A) × (update d c w
                ≡ (ok (next, a), record w { readings = w.readings + 1 }))
              × ((t : ℕ) → active_of d ≡ some c → Change d (revised d next t))))
    → Updates update
unfolding fault_of
after_checks update cases = record {
  quiet = λ d c w. elim (cases d c w) [
    | inl (e, ne, q) ↦ rw q (refl, refl, refl)
    | inr (next, a, q, k) ↦ rw q (refl, refl, refl)
  ];
  fed = λ d c w x. elim (cases d c w) [
    | inl (e, ne, q) ↦ ne (ap (fault_of no_relation) (sym (ap (λ r. r.0) q) ∙ x))
    | inr (next, a, q, k) ↦ absurd (ground (arith, sym (ap (λ r. r.0) q) ∙ x))
  ];
  changes = λ d next c a w t g f. elim (cases d c w) [
    | inl (e, ne, q) ↦ absurd (ground (arith, sym (ap (λ r. r.0) q) ∙ g))
    | inr (next', b, q, k) ↦
        subst (λ n. Change d (revised d n t))
          (first_same next' next b a (sym (ap (λ r. r.0) q) ∙ g)) (k t f)
  ];
}

pub complete_update-Updates :
    (turn_seq : ℕ) (result : String) → Updates (complete_update turn_seq result)
unfolding complete_update
complete_update-Updates turn_seq result = after_checks (complete_update turn_seq result) (λ d c w.
    elim (Bool-cases (turn_of c.dispatch == some turn_seq)) [
      | inr e ↦ inl (unmatched_turn, (λ x. cc), rw e refl)
      | inl e ↦ elim (Bool-cases (not (text_length result == 0))) [
        | inr f ↦ inl (empty_message, (λ x. cc), rw e (rw f refl))
        | inl f ↦
            elim (Bool-cases (leb (byte_length result) d.resolved_delegate.max_result_bytes)) [
              | inr g ↦ inl (message_too_long, (λ x. cc), rw e (rw f (rw g refl)))
              | inl g ↦
                  let done =
                    completed_one c result (digest_json w.host result) (w.host.clock w.readings) in
                  inr (
                    completed_relation d done,
                    done,
                    rw e (rw f (rw g refl)),
                    λ t h.
                        complete_one c result (digest_json w.host result) (w.host.clock w.readings)
                          t h refl,
                  )
            ]
      ]
    ])

pub fail_update-Updates : (turn_seq : ℕ) (message : String) → Updates (fail_update turn_seq message)
unfolding fail_update
fail_update-Updates turn_seq message = after_checks (fail_update turn_seq message) (λ d c w.
    elim (Bool-cases (turn_of c.dispatch == some turn_seq)) [
      | inr e ↦ inl (unmatched_turn, (λ x. cc), rw e refl)
      | inl e ↦
          let t = w.host.clock w.readings in
          let failure : DelegationFailure = record {
            code = "child_turn_failed";
            message = message;
          } in
          inr (
            failed_by_turn d (failed_one c failure t) message t,
            tt,
            rw e refl,
            λ u h. fail_one c failure message t u h refl,
          )
    ])

pub close_round-Outcome :
    (id : String) (reason : DelegationCloseReason) (code : String)
    (message : DelegationRecord → String) (w : World)
    → ((d : DelegationRecord) → get id w.store.delegations ≡ some d → d.delegation_id ≡ id)
    → Outcome w (close_round id reason code message w)
unfolding close_round read_delegation
close_round-Outcome id reason code message w keyed =
    elim (Option-cases (get id w.store.delegations)) [
      | inl e ↦ rw e (stays w none)
      | inr (d, e) ↦ rw e (elim (Bool-cases (reason_is reason d.close_reason)) [
        | inl f ↦ rw f (stays w (some d))
        | inr f ↦ rw f (
            let t = w.host.clock w.readings in
            let failure : DelegationFailure = record { code = code; message = message d } in
            let next = closed_for d reason failure t in
            commits w d next (some next) (record w { readings = w.readings + 1 })
              (subst (λ k. get k w.store.delegations ≡ some d) (sym (keyed d e)) e) refl refl refl
              (close_one reason failure t refl))
      ])
    ]
