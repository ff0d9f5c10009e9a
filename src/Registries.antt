-- ===== src/Registries.antt =====
-- src/central/registries: delegate-registry.ts and agent-spec-registry.ts. A `Map` is a table in the
-- order of insertion; a constructor that throws returns a fault.
pub mod Resolution
use newconduit.Base.{
  Bool, List, Option, String, Table, [], any, every, false, get, if◌then◌else◌, is_some, list_eq,
  ltb, nat_eq, none, not, option_eq, pair_eq, put, some, string_eq, true, truthy, values, ◌==◌,
  ◌||◌, ◌∷◌,
}
use newconduit.Model.{
  AgentSpec, ConfigNumber, Delegate, condition_eq, event_type_eq, integer, lifecycle_eq,
  other_number, status_eq,
}
use newconduit.World.{
  Fault, M, Result, agent_spec_not_found, duplicate_delegate, duplicate_refs, empty_field, err,
  many_callees, no_callee, not_positive, ok, require, tool_name_taken, unknown_delegate,
  unknown_policy,
}

abbrev is_positive : ConfigNumber → Bool
is_positive (integer n) = ltb 0 n
is_positive other_number = false

abbrev is_policy : Option String → Bool
is_policy none = true
is_policy (some p) = p == "pool" || p == "device"

-- The first check that fails throws.
abbrev check : Bool → Fault → Result (Unit {0}) → Result (Unit {0})
check true e rest = rest
check false e rest = err e

unfoldable pub validate_delegate : Delegate → Result (Unit {0})
validate_delegate d = check (not (d.id == "")) empty_field (
    check (not (d.tool_name == "")) empty_field (
      check (not (d.description == "")) empty_field (
        check (is_positive d.max_input_bytes) not_positive (
          check (is_positive d.max_result_bytes) not_positive (
            check (is_positive d.deadline_ms) not_positive (
              check (is_positive d.max_queued_calls) not_positive
                (check (is_policy d.target_policy) unknown_policy (ok tt))))))))

-- The delegates so far, and the tool names with their delegates.
pub record DelegateRegistry : Type 0 where
  pub delegates_by_id : Table String Delegate
  pub ids_by_tool_name : Table String String

unfoldable pub register_delegate : Delegate → DelegateRegistry → Result DelegateRegistry
unfolding validate_delegate
register_delegate d r = elim (validate_delegate d) [
  | err e ↦ err e
  | ok u ↦
      if is_some (get d.id r.delegates_by_id)
      then err duplicate_delegate
      else if truthy (get d.tool_name r.ids_by_tool_name)
      then err tool_name_taken
      else ok (record {
        delegates_by_id = put d.id d r.delegates_by_id;
        ids_by_tool_name = put d.tool_name d.id r.ids_by_tool_name;
      })
]

unfoldable pub register_all : List Delegate → DelegateRegistry → Result DelegateRegistry
register_all [] r = ok r
register_all (d ∷ ds) r = elim (register_delegate d r) [
  | err e ↦ err e
  | ok r' ↦ register_all ds r'
]

unfoldable pub new_delegate_registry : List Delegate → Result DelegateRegistry
unfolding register_all
new_delegate_registry ds = register_all ds (record { delegates_by_id = []; ids_by_tool_name = [] })

pub resolve_delegate : DelegateRegistry → String → Result Delegate
resolve_delegate r id = elim (get id r.delegates_by_id) [
  | none ↦ err unknown_delegate
  | some d ↦ ok d
]

abbrev list_delegates : DelegateRegistry → List Delegate
list_delegates r = values r.delegates_by_id

-- `new Set(refs).size !== refs.length`.
has_duplicates : List String → Bool
has_duplicates [] = false
has_duplicates (x ∷ xs) = any (λ y. y == x) xs || has_duplicates xs

validate_references : DelegateRegistry → List String → Result (Unit {0})
unfolding has_duplicates
validate_references r refs =
    if has_duplicates refs
    then err duplicate_refs
    else if every (λ id. is_some (get id r.delegates_by_id)) refs
    then ok tt
    else err unknown_delegate

-- The callees so far, with those of one agent spec.
bind_callees : AgentSpec → List String → Table String AgentSpec → Result (Table String AgentSpec)
bind_callees spec [] t = ok t
bind_callees spec (id ∷ ids) t =
    let rest = bind_callees spec ids (put id spec t) in
    if is_some (get id t) then err many_callees else rest

bind_spec : DelegateRegistry → AgentSpec → Table String AgentSpec → Result (Table String AgentSpec)
unfolding validate_references bind_callees
bind_spec r spec t = elim (validate_references r spec.delegate_refs.as_caller) [
  | err e ↦ err e
  | ok u ↦ elim (validate_references r spec.delegate_refs.as_callee) [
    | err e ↦ err e
    | ok v ↦ bind_callees spec spec.delegate_refs.as_callee t
  ]
]

bind_specs :
    DelegateRegistry → List AgentSpec → Table String AgentSpec → Result (Table String AgentSpec)
unfolding bind_spec
bind_specs r [] t = ok t
bind_specs r (s ∷ ss) t = elim (bind_spec r s t) [ err e ↦ err e | ok t' ↦ bind_specs r ss t' ]

new_binding_index : DelegateRegistry → List AgentSpec → Result (Table String AgentSpec)
unfolding bind_specs
new_binding_index r specs = elim (bind_specs r specs []) [
  | err e ↦ err e
  | ok t ↦ if every (λ d. is_some (get d.id t)) (list_delegates r) then ok t else err no_callee
]

unfoldable pub resolve_callee : Table String AgentSpec → String → M AgentSpec
resolve_callee t id = require (get id t) no_callee

-- `new Map(agentSpecs.map((spec) => [spec.agentSpecId, spec]))`: a later entry replaces an earlier one.
new_agent_spec_registry : List AgentSpec → Table String AgentSpec → Table String AgentSpec
new_agent_spec_registry [] t = t
new_agent_spec_registry (s ∷ ss) t = new_agent_spec_registry ss (put s.agent_spec_id s t)

resolve_spec : Table String AgentSpec → String → M AgentSpec
resolve_spec t id = require (get id t) agent_spec_not_found
