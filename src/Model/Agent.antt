-- ===== src/Model/Agent.antt =====
-- src/shared/models/agent-spec.ts, delegate.ts, create-session.ts and runtime-tool.ts.
use newconduit.Base.{
  Bool, List, Option, String, [], every, if◌then◌else◌, list_eq, nat_eq, none, option_eq, pair_eq,
  some, string_eq, ℕ, ◌==◌, ◌∷◌,
}
use newconduit.Model.Json.{JsonFields}

-- `Record<string, string>`.
abbrev pub Labels : Type 0
Labels = List (String × String)

-- `labels[key]`, and `Object.entries(required).every(([key, value]) => labels[key] === value)`.
pub label : Labels → String → Option String
label [] key = none
label ((k, v) ∷ rest) key = if k == key then some v else label rest key

unfoldable pub matches_labels : Labels → Labels → Bool
unfolding label
matches_labels labels required = every (λ e. label labels e.0 == some e.1) required

pub record LabelSelector : Type 0 where
  pub match_labels : Labels

pub record AgentSpecDelegateRefs : Type 0 where
  pub as_caller : List String
  pub as_callee : List String

pub record AgentRuntimeToolDefinition : Type 0 where
  name : String
  pub description : String
  input_schema : JsonFields
  pub delegate_id : String

pub record AgentSpec : Type 0 where
  pub agent_spec_id : String
  pub labels : Labels
  pub launch_command : String
  pub launch_args : List String
  pub instructions : String
  pub tool_profile : String
  pub delegate_refs : AgentSpecDelegateRefs
  pub worker_selector : LabelSelector
  pub pause_policy : String
  pub recovery_policy : String
  pub idle_pause_timeout_ms : ℕ
  pub version : String

pub record ResolvedAgentSpec : Type 0 where
  pub agent_spec_id : String
  pub labels : Labels
  pub launch_command : String
  pub launch_args : List String
  pub instructions : String
  pub tool_profile : String
  pub delegate_refs : AgentSpecDelegateRefs
  pub worker_selector : LabelSelector
  pub pause_policy : String
  pub recovery_policy : String
  pub idle_pause_timeout_ms : ℕ
  pub version : String
  pub runtime_tools : List AgentRuntimeToolDefinition
  pub resolved_at : ℕ
  pub digest : String

pub data DelegateTargetPolicy : Type 0 where
  pool device : DelegateTargetPolicy

-- A number of a configuration file is an integer or another number.
pub data ConfigNumber : Type 0 where
  integer : ℕ → ConfigNumber
  other_number : ConfigNumber

-- `targetPolicy` of a configuration file: left out, one of the two words, or another text.
pub record Delegate : Type 0 where
  pub id : String
  pub tool_name : String
  pub description : String
  pub max_input_bytes : ConfigNumber
  pub max_result_bytes : ConfigNumber
  pub deadline_ms : ConfigNumber
  pub max_queued_calls : ConfigNumber
  pub target_policy : Option String

pub record ResolvedDelegate : Type 0 where
  pub id : String
  pub tool_name : String
  pub description : String
  pub digest : String
  pub max_input_bytes : ℕ
  pub max_result_bytes : ℕ
  pub deadline_ms : ℕ
  pub max_queued_calls : ℕ
  pub target_policy : DelegateTargetPolicy

pub record PrincipalContext : Type 0 where
  pub principal_id : String
  pub is_user : Bool
  pub connection_id : Option String

pub record RequestContext : Type 0 where
  pub principal : PrincipalContext
  pub connection_id : Option String
