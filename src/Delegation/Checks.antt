-- ===== src/Delegation/Checks.antt =====
-- The checks of `startCall` of src/central/managers/delegation/delegation-manager.ts, which change nothing,
-- and the relation that it makes.
use newconduit.Base.{
  Bool-cases, List, Option, Option-cases, String, any, ap, arith, default, false, get, inl, inr,
  is_some, list_eq, nat_eq, none, option_eq, pair_eq, present, refl, some, string_eq, ℕ, ◌&&◌, ◌+◌,
  ◌==◌, ◌≡◌,
}
use newconduit.Delegation.{new_call}
use newconduit.Delegation.Start.{
  DelegationOptions, StartDelegationCallInput, StartDelegationCallResult, assert_parent, keyed_call,
  new_relation, validate_target_ref, with_call, with_found,
}
use newconduit.Model.{
  AgentRuntimeToolDefinition, AgentSpec, DelegationCallRecord, DelegationRecord, ResolvedAgentSpec,
  ResolvedDelegate, SessionRecord, condition_eq, event_type_eq, lifecycle_eq, status_eq,
}
use newconduit.World.{World, ok}
use newconduit.Delegation.Changes.{IsSound}
use newconduit.Storage.Records.{read_case_device_binding}
use newconduit.Pairing.Manager.{is_active}
use newconduit.Admission.{resolve_agent_spec}

pub validate_target_ref_lem :
    (o : DelegationOptions) (parent : SessionRecord) (target : Option String) (w : World)
    → (validate_target_ref o parent target w).1 ≡ w
unfolding validate_target_ref read_case_device_binding
validate_target_ref_lem o parent target w = elim (Option-cases (present target)) [
  | inl e ↦ rw e refl
  | inr (ref, e) ↦ rw e (elim (Option-cases (get (parent.session_id, ref) w.store.bindings)) [
    | inl f ↦ rw f refl
    | inr (b, f) ↦
        rw f (elim (Bool-cases (b.tenant_id == o.tenant_id && b.case_id == parent.session_id)) [
          | inr g ↦ rw g refl
          | inl g ↦
              rw g
                (elim (Bool-cases (is_active b.status)) [ inl q ↦ rw q refl | inr q ↦ rw q refl ])
        ])
  ])
]

pub assert_parent_lem :
    (o : DelegationOptions) (parent : SessionRecord) (delegate : String) (w : World)
    → (assert_parent o parent delegate w).1 ≡ w
unfolding assert_parent
assert_parent_lem o parent delegate w = elim (Bool-cases (parent.tenant_id == o.tenant_id)) [
  | inr e ↦ rw e refl
  | inl e ↦ rw e (elim (Bool-cases (is_some parent.delegation_binding)) [
    | inl f ↦ rw f refl
    | inr f ↦
        rw f
          (elim (Bool-cases
            (any (λ id. id == delegate) parent.resolved_agent_spec.delegate_refs.as_caller)) [
              | inl g ↦ rw g refl
              | inr g ↦ rw g refl
            ])
  ])
]

with_found-owner :
    (d : DelegationRecord) (c : Option DelegationCallRecord) (r : StartDelegationCallResult)
    → with_found d c ≡ some r
    → d ≡ r.delegation
with_found-owner d none r h = absurd (ground (arith, h))
with_found-owner d (some c) r h = ap (λ o. (default o (with_call c d)).delegation) h

pub keyed_call-found :
    (input : StartDelegationCallInput) (found : Option DelegationRecord)
    (r : StartDelegationCallResult)
    → keyed_call input found ≡ some r
    → found ≡ some r.delegation
keyed_call-found input none r h = absurd (ground (arith, h))
keyed_call-found input (some d) r h = ap some (with_found-owner d _ r h)

pub resolve_agent_spec_lem :
    (tools : AgentSpec → List AgentRuntimeToolDefinition) (spec : AgentSpec) (w : World)
    → (s : ResolvedAgentSpec) × (resolve_agent_spec tools spec w
        ≡ (ok s, record w { readings = w.readings + 1 }))
unfolding resolve_agent_spec
resolve_agent_spec_lem tools spec w = (_, refl)

pub new_relation-IsSound :
    (o : DelegationOptions) (input : StartDelegationCallInput) (delegate : ResolvedDelegate)
    (spec : ResolvedAgentSpec) (id call_id child hash : String) (t : ℕ)
    → (call_id == "") ≡ false
    → IsSound (
        new_relation o input delegate spec id child
          (new_call call_id id 1 input.caller_turn_seq input.caller_tool_request_id input.input hash
            delegate.deadline_ms t)
          t)
unfolding new_relation new_call
new_relation-IsSound o input delegate spec id call_id child hash t given = record {
  sound_calls = (
    record {
      identified = given;
      claimed_named = λ x. absurd (ground (arith, x));
      claimed_bound = λ x. absurd (ground (arith, x));
      over_when_failed = λ x. absurd (ground (arith, x));
    },
    tt,
  );
  failed_inactive = λ x. refl;
}
