-- ===== src/Delegation/Starting.antt =====
-- `startCall` of src/central/managers/delegation/delegation-manager.ts: what a call that starts a relation,
-- or is a retry, keeps of the stored relations.
use newconduit.Base.{
  All-find, Bool, Bool-cases, Option, Option-cases, String, Table, any, arith, byte_length, false,
  find, get, get-put_self, inl, inr, leb, list_eq, nat_eq, option_eq, pair_eq, refl, some,
  string_eq, subst, text_length, true, values, ℕ, ◌&&◌, ◌+◌, ◌==◌, ◌≡◌,
}
use newconduit.Delegation.{is_creating, new_call}
use newconduit.Delegation.Start.{
  DelegationOptions, StartDelegationCallInput, StartDelegationCallResult, assert_parent,
  create_relation, ensure_child_and_open, find_by_caller_key, has_key, keyed_call, lacks_target,
  new_relation, retried, start_call, start_relation, validate_target_ref, with_call,
}
use newconduit.Model.{
  AgentSpec, DelegationCallRecord, DelegationRecord, ResolvedDelegate, SessionRecord, condition_eq,
  event_type_eq, lifecycle_eq, status_eq,
}
use newconduit.Storage.Families.{delegation_records}
use newconduit.Storage.Versioned.{others-Holds}
use newconduit.World.{World, let_others, ok, pure, ◌>>=◌}
use newconduit.Delegation.Changes.{IsSound}
use newconduit.Delegation.Opening.{ensure_child_and_open-Inv, latest_stored}
use newconduit.Delegation.Operations.{Result-cases}
use newconduit.Delegation.Worlds.{Inv, IsKept}
use newconduit.Storage.Records.{read_delegation, read_delegations}
use newconduit.Storage.Claims.{create_delegation, delegation_by_key}
use newconduit.Admission.{digest_json}
use newconduit.Registries.{resolve_callee}
use newconduit.Delegation.Appending.{append_call-Inv}
use newconduit.Delegation.Checks.{
  assert_parent_lem, keyed_call-found, new_relation-IsSound, resolve_agent_spec_lem,
  validate_target_ref_lem,
}

module _ (P : Table String DelegationRecord → Type 0) (k : IsKept P) where
  found_located :
      (p : DelegationRecord → Bool) (w : World) (d : DelegationRecord)
      → Inv P w
      → find p (values w.store.delegations) ≡ some d
      → get d.delegation_id w.store.delegations ≡ some d
  found_located p w d v e =
      All-find _ p (values w.store.delegations) {x = d} (k.located w.store.delegations v.0) e

  key_located :
      (parent delegate : String) (target : Option String) (w : World) (d : DelegationRecord)
      → Inv P w
      → delegation_by_key parent delegate target (values w.store.delegations) ≡ some d
      → get d.delegation_id w.store.delegations ≡ some d
  unfolding delegation_by_key
  key_located parent delegate target w d v e = found_located _ w d v e

  record Created (d : DelegationRecord) (w : World) : Type 0 where
    actual : DelegationRecord
    is_new : Bool
    result : (create_delegation d w).0 ≡ ok (actual, is_new)
    own : is_new ≡ true → actual ≡ d
    kept : Inv P (create_delegation d w).1
    stored : get actual.delegation_id (create_delegation d w).1.store.delegations ≡ some actual

  create_delegation-Created : (d : DelegationRecord) (w : World) → Inv P w → IsSound d → Created d w
  unfolding create_delegation read_delegation
  create_delegation-Created d w v sound =
      elim (Option-cases (get d.delegation_id w.store.delegations)) [
        | inr (old, e) ↦ record {
          actual = old;
          is_new = false;
          result = rw e refl;
          own = λ x. absurd (ground (arith, x));
          kept = rw e v;
          stored = rw e (latest_stored P k d.delegation_id old w v e);
        }
        | inl e ↦
            elim (Option-cases (
              delegation_by_key d.parent_session_id d.resolved_delegate.id d.target_ref
                (values w.store.delegations))) [
                  | inr (old, f) ↦ record {
                    actual = old;
                    is_new = false;
                    result = rw e (rw f refl);
                    own = λ x. absurd (ground (arith, x));
                    kept = rw e (rw f v);
                    stored = rw e (rw f (key_located _ _ d.target_ref w old v f));
                  }
                  | inl f ↦ record {
                    actual = d;
                    is_new = true;
                    result = rw e (rw f refl);
                    own = λ x. refl;
                    kept = rw e (rw f (k.fresh w.store.delegations d v.0 e sound, v.1, v.2));
                    stored = rw e (rw f (get-put_self d.delegation_id d w.store.delegations));
                  }
                ]
      ]

  keyed_call-stored :
      (input : StartDelegationCallInput) (w : World) (r : StartDelegationCallResult)
      → Inv P w
      → keyed_call input (
          find
            (λ d.
              d.parent_session_id == input.parent_session.session_id && any (has_key input) d.calls)
            (values w.store.delegations))
        ≡ some r
      → get r.delegation.delegation_id w.store.delegations ≡ some r.delegation
  keyed_call-stored input w r v h = found_located _ w r.delegation v (keyed_call-found input _ r h)

  module _ (o : DelegationOptions) (fuel : ℕ) where
    opened-Inv :
        (d : DelegationRecord) (c : DelegationCallRecord) (parent : SessionRecord) (w : World)
        → Inv P w
        → get d.delegation_id w.store.delegations ≡ some d
        → Inv P ((ensure_child_and_open fuel o d parent >>= λ d'. pure (with_call c d')) w).1
    opened-Inv d c parent w v h =
        let kept = ensure_child_and_open-Inv P k fuel o d parent w v h in
        elim (Result-cases (ensure_child_and_open fuel o d parent w).0) [
          | inl (x, f) ↦ rw f kept
          | inr (x, f) ↦ rw f kept
        ]

    create_relation-Inv :
        (input : StartDelegationCallInput) (delegate : ResolvedDelegate) (hash : String)
        (callee : AgentSpec) (w : World)
        → Inv P w
        → Inv P (create_relation fuel o input delegate hash callee w).1
    unfolding create_relation
    create_relation-Inv input delegate hash callee w v =
        let (spec, spec_is) = resolve_agent_spec_lem o.runtime_tools callee w in
        let t = w.host.clock (w.readings + 1) in
        let id = w.host.uuid w.drawn in
        let c =
          new_call (w.host.uuid (w.drawn + 1)) id 1 input.caller_turn_seq
            input.caller_tool_request_id input.input hash delegate.deadline_ms t in
        let u : World = record w { readings = w.readings + 1 + 1; drawn = w.drawn + 1 + 1 + 1 } in
        let d = new_relation o input delegate spec id (w.host.uuid (w.drawn + 1 + 1)) c t in
        let u' = let_others u.rivals u in
        let made =
          create_delegation-Created d u' (others-Holds delegation_records P u.rivals u refl v) (
            new_relation-IsSound o input delegate spec id (w.host.uuid (w.drawn + 1))
              (w.host.uuid (w.drawn + 1 + 1)) hash t (v.2 (w.drawn + 1))) in
        rw spec_is (
          rw made.result (elim (Bool-cases made.is_new) [
            | inl b ↦ rw b (
                opened-Inv d c input.parent_session _ made.kept (
                  subst
                    (λ y. get y.delegation_id (create_delegation d u').1.store.delegations ≡ some y)
                    (made.own b) made.stored))
            | inr b ↦
                rw b (append_call-Inv P k o fuel input hash made.actual _ made.kept made.stored)
          ]))

    start_relation-Inv :
        (input : StartDelegationCallInput) (delegate : ResolvedDelegate) (hash : String) (w : World)
        → Inv P w
        → Inv P (start_relation fuel o input delegate hash w).1
    unfolding start_relation resolve_callee
    start_relation-Inv input delegate hash w v =
        let same = validate_target_ref_lem o input.parent_session input.target_ref w in
        elim (Result-cases (validate_target_ref o input.parent_session input.target_ref w).0) [
          | inr (x, e) ↦ rw e (rw same v)
          | inl (x, e) ↦ rw e (
              rw same (elim (Bool-cases (text_length input.input == 0)) [
                | inl f ↦ rw f v
                | inr f ↦
                    rw f
                      (elim (Bool-cases (leb (byte_length input.input) delegate.max_input_bytes)) [
                        | inr g ↦ rw g v
                        | inl g ↦ rw g (elim (Option-cases (get input.delegate_id o.callees)) [
                          | inl q ↦ rw q v
                          | inr (callee, q) ↦
                              rw q (create_relation-Inv input delegate hash callee w v)
                        ])
                      ])
              ]))
        ]

    retried-Inv :
        (input : StartDelegationCallInput) (hash : String) (r : StartDelegationCallResult)
        (w : World)
        → Inv P w
        → get r.delegation.delegation_id w.store.delegations ≡ some r.delegation
        → Inv P (retried fuel o input hash r w).1
    unfolding retried
    retried-Inv input hash r w v h =
        elim (Bool-cases
          (r.delegation.resolved_delegate.id == input.delegate_id && r.call.input_hash == hash)) [
            | inr e ↦ rw e v
            | inl e ↦ rw e (elim (Bool-cases (is_creating r.delegation.status)) [
              | inr f ↦ rw f v
              | inl f ↦ rw f (opened-Inv r.delegation r.call input.parent_session w v h)
            ])
          ]

    pub start_call-Inv :
        (input : StartDelegationCallInput) (w : World)
        → Inv P w
        → Inv P (start_call fuel o input w).1
    unfolding start_call read_delegations find_by_caller_key
    start_call-Inv input w v =
        let parent = input.parent_session in
        let hash = digest_json w.host input.input in
        let all = values w.store.delegations in
        let same = assert_parent_lem o parent input.delegate_id w in
        let mine : DelegationRecord → Bool =
          λ d. d.parent_session_id == parent.session_id && any (has_key input) d.calls in
        elim (Result-cases (assert_parent o parent input.delegate_id w).0) [
          | inr (x, e) ↦ rw e (rw same v)
          | inl (x, e) ↦ rw e (
              rw same (elim (Option-cases (get input.delegate_id o.delegates)) [
                | inl f ↦ rw f v
                | inr (delegate, f) ↦ rw f (elim (Bool-cases (lacks_target delegate input)) [
                  | inl g ↦ rw g v
                  | inr g ↦ rw g (elim (Option-cases (keyed_call input (find mine all))) [
                    | inr (r, q) ↦
                        rw q (retried-Inv input hash r w v (keyed_call-stored input w r v q))
                    | inl q ↦
                        rw q
                          (elim (Option-cases (
                            delegation_by_key parent.session_id input.delegate_id input.target_ref
                              all)) [
                                | inl s ↦ rw s (start_relation-Inv input delegate hash w v)
                                | inr (d, s) ↦ rw s (
                                    append_call-Inv P k o fuel input hash d w v
                                      (key_located _ _ input.target_ref w d v s))
                              ])
                  ])
                ])
              ]))
        ]
