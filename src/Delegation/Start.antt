-- ===== src/Delegation/Start.antt =====
-- `startCall` of src/central/managers/delegation/delegation-manager.ts. The delegates, their callees and
-- the runtime tools of an agent spec are the arguments that the constructor is given.
use newconduit.Admission.{digest_json, resolve_agent_spec, validate_input}
use newconduit.Base.{
  Bool, List, Option, String, Table, [], any, default, false, find, get, is_some, keep, length,
  list_eq, ltb, nat_eq, none, not, option_eq, pair_eq, present, some, string_eq, suc, true, zero, ℕ,
  ◌&&◌, ◌==◌, ◌||◌, ◌∷◌,
}
use newconduit.Delegation.{appended, is_creating, is_open_relation, is_queued, new_call, opened}
use newconduit.Delegation.Rounds.{commit_relation}
use newconduit.Model.{
  AgentRuntimeToolDefinition, AgentSpec, DelegateTargetPolicy, DelegationCallRecord,
  DelegationRecord, Labels, ResolvedAgentSpec, ResolvedDelegate, SessionRecord, condition_eq,
  creating_child, device, event_type_eq, lifecycle_eq, pool, status_eq,
}
use newconduit.Pairing.Manager.{is_active}
use newconduit.Registries.{resolve_callee}
use newconduit.Session.Lifecycle.{CreateInput, create}
use newconduit.Storage.Claims.{create_delegation, delegation_by_key}
use newconduit.Storage.Records.{read_case_device_binding, read_delegation, read_delegations}
use newconduit.World.{
  M, branch, delegated_parent, ensure, foreign_parent, gets, key_reused, not_a_caller, now,
  on_option, others_run, out_of_fuel, pure, queue_full, random_uuid, relation_gone,
  relation_not_opened, relation_over, require, target_not_paired, target_required, target_revoked,
  throw, unknown_delegate, ◌>>=◌, ◌>>◌,
}

pub record StartDelegationCallInput : Type 0 where
  pub parent_session : SessionRecord
  pub caller_turn_seq : ℕ
  pub caller_tool_request_id : String
  pub delegate_id : String
  pub input : String
  pub target_ref : Option String

pub record StartDelegationCallResult : Type 0 where
  pub delegation : DelegationRecord
  pub call : DelegationCallRecord

pub record DelegationOptions : Type 0 where
  pub tenant_id : String
  pub delegates : Table String ResolvedDelegate
  pub callees : Table String AgentSpec
  pub runtime_tools : AgentSpec → List AgentRuntimeToolDefinition

abbrev pub has_key : StartDelegationCallInput → DelegationCallRecord → Bool
has_key input c =
    c.caller_turn_seq == input.caller_turn_seq
    && c.caller_tool_request_id == input.caller_tool_request_id

unfoldable pub assert_parent : DelegationOptions → SessionRecord → String → M (Unit {0})
assert_parent o parent delegate = do
  ensure (parent.tenant_id == o.tenant_id) foreign_parent
  ensure (not (is_some parent.delegation_binding)) delegated_parent
  ensure (any (λ id. id == delegate) parent.resolved_agent_spec.delegate_refs.as_caller)
      not_a_caller

abbrev is_device : DelegateTargetPolicy → Bool
is_device device = true
is_device pool = false

abbrev pub with_call : DelegationCallRecord → DelegationRecord → StartDelegationCallResult
with_call c d = record { delegation = d; call = c }

abbrev pub with_found :
    DelegationRecord → Option DelegationCallRecord → Option StartDelegationCallResult
with_found d none = none
with_found d (some c) = some (with_call c d)

abbrev pub keyed_call :
    StartDelegationCallInput → Option DelegationRecord → Option StartDelegationCallResult
keyed_call input none = none
keyed_call input (some d) = with_found d (find (has_key input) d.calls)

unfoldable pub find_by_caller_key :
    StartDelegationCallInput → List DelegationRecord → Option StartDelegationCallResult
find_by_caller_key input all = keyed_call input (
    find
      (λ d. d.parent_session_id == input.parent_session.session_id && any (has_key input) d.calls)
      all)

unfoldable pub validate_target_ref :
    DelegationOptions → SessionRecord → Option String → M (Unit {0})
unfolding read_case_device_binding
validate_target_ref o parent target = on_option (present target) (pure tt) (λ ref. do
  found ← read_case_device_binding parent.session_id ref
  b ← require found target_not_paired
  ensure (b.tenant_id == o.tenant_id && b.case_id == parent.session_id) target_not_paired
  ensure (is_active b.status) target_revoked)

abbrev device_labels : SessionRecord → Option String → Option Labels
device_labels parent none = none
device_labels parent (some ref) = some (("case", parent.session_id) ∷ ("deviceRef", ref) ∷ [])

unfoldable pub child_intent : DelegationOptions → DelegationRecord → SessionRecord → CreateInput
child_intent o d parent = record {
  session_id = some d.child_session_id;
  tenant_id = o.tenant_id;
  owner = parent.owner;
  resolved_agent_spec = d.resolved_callee_agent_spec;
  workspace_ref = d.child_session_id;
  delegation_binding = some (record {
    delegation_id = d.delegation_id;
    parent_session_id = parent.session_id;
    delegate_id = d.resolved_delegate.id;
  });
  required_worker_labels = device_labels parent (present d.target_ref);
}

-- The relation that was read is opened, or read again where another task wrote it meanwhile.
unfoldable pub open_relation_of : ℕ → DelegationRecord → M DelegationRecord
unfolding read_delegation commit_relation
open_relation_of zero d = throw out_of_fuel
open_relation_of (suc n) d =
    branch (is_creating d.status)
      (do
        t ← now
        made ← commit_relation d (opened d t) (opened d t)
        on_option made
            (do
              found ← read_delegation d.delegation_id
              latest ← require found relation_gone
              open_relation_of n latest)
            pure)
      (ensure (is_open_relation d.status) relation_not_opened >>= λ _. pure d)

unfoldable pub ensure_child_and_open :
    ℕ → DelegationOptions → DelegationRecord → SessionRecord → M DelegationRecord
unfolding child_intent open_relation_of read_delegation
ensure_child_and_open fuel o d parent = do
  child ← create (child_intent o d parent)
  found ← read_delegation d.delegation_id
  open_relation_of fuel (default found d)

abbrev pub queued_count : List DelegationCallRecord → ℕ
queued_count cs = length (keep (λ c. is_queued c.status) cs)

-- What follows a call that was appended.
unfoldable pub after_append :
    ℕ
    → DelegationOptions
    → SessionRecord
    → DelegationRecord
    → DelegationCallRecord
    → M StartDelegationCallResult
unfolding ensure_child_and_open
after_append fuel o parent next c =
    branch (is_creating next.status)
      (ensure_child_and_open fuel o next parent >>= λ d. pure (with_call c d))
      (pure (with_call c next))

-- The call that is appended to a relation that was read.
unfoldable pub appended_call :
    StartDelegationCallInput → String → DelegationRecord → M DelegationCallRecord
unfolding new_call
appended_call input hash d = do
  ensure (is_open_relation d.status || is_creating d.status) relation_over
  validate_input d.resolved_delegate input.input
  ensure (ltb (queued_count d.calls) d.resolved_delegate.max_queued_calls) queue_full
  t ← now
  id ← random_uuid
  pure (
      new_call id d.delegation_id d.next_call_seq input.caller_turn_seq input.caller_tool_request_id
        input.input hash d.resolved_delegate.deadline_ms t)

unfoldable pub append_call :
    ℕ
    → DelegationOptions
    → StartDelegationCallInput
    → String
    → DelegationRecord
    → M StartDelegationCallResult
unfolding appended_call after_append commit_relation read_delegation
append_call zero o input hash d = throw out_of_fuel
append_call (suc n) o input hash d = do
  c ← appended_call input hash d
  let next = appended d c c.created_at
  made ← commit_relation d next next
  on_option made
      (do
        found ← read_delegation d.delegation_id
        latest ← require found relation_gone
        on_option (find (has_key input) latest.calls) (append_call n o input hash latest) (λ again.
            ensure (again.input_hash == hash) key_reused >>= λ _. pure (with_call again latest)))
      (λ d'. after_append (suc n) o input.parent_session d' c)

unfoldable pub new_relation :
    DelegationOptions
    → StartDelegationCallInput
    → ResolvedDelegate
    → ResolvedAgentSpec
    → String
    → String
    → DelegationCallRecord
    → ℕ
    → DelegationRecord
new_relation o input delegate spec id child c t = record {
  delegation_id = id;
  tenant_id = o.tenant_id;
  parent_session_id = input.parent_session.session_id;
  child_session_id = child;
  resolved_delegate = delegate;
  resolved_callee_agent_spec = spec;
  status = creating_child;
  target_ref = present input.target_ref;
  active_call_id = none;
  next_call_seq = 2;
  close_reason = none;
  failure = none;
  calls = c ∷ [];
  revision = 1;
  created_at = t;
  updated_at = t;
}

-- A first call to the delegate, with a relation of its own, unless another task created one since the
-- relations were read.
unfoldable pub create_relation :
    ℕ
    → DelegationOptions
    → StartDelegationCallInput
    → ResolvedDelegate
    → String
    → AgentSpec
    → M StartDelegationCallResult
unfolding new_call new_relation create_delegation append_call ensure_child_and_open
create_relation fuel o input delegate hash callee = do
  spec ← resolve_agent_spec o.runtime_tools callee
  t ← now
  id ← random_uuid
  call_id ← random_uuid
  let c =
      new_call call_id id 1 input.caller_turn_seq input.caller_tool_request_id input.input hash
        delegate.deadline_ms t
  child ← random_uuid
  let d = new_relation o input delegate spec id child c t
  others_run
  (actual, is_new) ← create_delegation d
  branch is_new
      (ensure_child_and_open fuel o d input.parent_session >>= λ d'. pure (with_call c d'))
      (append_call fuel o input hash actual)

unfoldable pub start_relation :
    ℕ
    → DelegationOptions
    → StartDelegationCallInput
    → ResolvedDelegate
    → String
    → M StartDelegationCallResult
unfolding validate_target_ref create_relation
start_relation fuel o input delegate hash = do
  validate_target_ref o input.parent_session input.target_ref
  validate_input delegate input.input
  callee ← resolve_callee o.callees input.delegate_id
  create_relation fuel o input delegate hash callee

-- A retry of a call that was accepted before.
unfoldable pub retried :
    ℕ
    → DelegationOptions
    → StartDelegationCallInput
    → String
    → StartDelegationCallResult
    → M StartDelegationCallResult
unfolding ensure_child_and_open
retried fuel o input hash r = do
  ensure (r.delegation.resolved_delegate.id == input.delegate_id && r.call.input_hash == hash)
      key_reused
  branch (is_creating r.delegation.status)
      (ensure_child_and_open fuel o r.delegation input.parent_session >>= λ d.
        pure (with_call r.call d))
      (pure r)

abbrev pub lacks_target : ResolvedDelegate → StartDelegationCallInput → Bool
lacks_target delegate input = is_device delegate.target_policy && not (is_some input.target_ref)

unfoldable pub start_call :
    ℕ → DelegationOptions → StartDelegationCallInput → M StartDelegationCallResult
unfolding assert_parent find_by_caller_key retried start_relation append_call
start_call fuel o input = do
  assert_parent o input.parent_session input.delegate_id
  delegate ← require (get input.delegate_id o.delegates) unknown_delegate
  ensure (not (lacks_target delegate input)) target_required
  host ← gets λ w. w.host
  let hash = digest_json host input.input
  all ← read_delegations
  on_option (find_by_caller_key input all)
      (on_option
        (delegation_by_key input.parent_session.session_id input.delegate_id input.target_ref all)
        (start_relation fuel o input delegate hash) (append_call fuel o input hash))
      (retried fuel o input hash)
