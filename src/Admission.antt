-- ===== src/Admission.antt =====
-- src/central/managers/admission: agent-spec-admission-manager.ts, and the checks on messages of
-- delegate-admission-manager.ts.
use newconduit.Base.{
  List, String, byte_length, leb, list_eq, nat_eq, not, option_eq, pair_eq, string_eq, text_length,
  ℕ, ◌==◌,
}
use newconduit.Model.{
  AgentRuntimeToolDefinition, AgentSpec, ResolvedAgentSpec, ResolvedDelegate, condition_eq,
  event_type_eq, lifecycle_eq, status_eq,
}
use newconduit.World.{
  Host, M, empty_message, ensure, gets, message_too_long, now, pure, ◌>>=◌, ◌>>◌,
}

abbrev validate_message : String → ℕ → M (Unit {0})
validate_message message max_bytes = do
  ensure (not (text_length message == 0)) empty_message
  ensure (leb (byte_length message) max_bytes) message_too_long

abbrev pub validate_input : ResolvedDelegate → String → M (Unit {0})
validate_input d input = validate_message input d.max_input_bytes

abbrev pub validate_result : ResolvedDelegate → String → M (Unit {0})
validate_result d result = validate_message result d.max_result_bytes

-- `digestJson` of a text.
pub digest_json : Host → String → String
digest_json host message = host.sha256_hex (host.quote_json message)

-- `resolveRuntimeTools` of the constructor is the argument `tools`.
unfoldable pub resolve_agent_spec :
    (AgentSpec → List AgentRuntimeToolDefinition) → AgentSpec → M ResolvedAgentSpec
resolve_agent_spec tools spec = do
  host ← gets λ w. w.host
  t ← now
  pure (record {
    agent_spec_id = spec.agent_spec_id;
    labels = spec.labels;
    launch_command = spec.launch_command;
    launch_args = spec.launch_args;
    instructions = spec.instructions;
    tool_profile = spec.tool_profile;
    delegate_refs = spec.delegate_refs;
    worker_selector = spec.worker_selector;
    pause_policy = spec.pause_policy;
    recovery_policy = spec.recovery_policy;
    idle_pause_timeout_ms = spec.idle_pause_timeout_ms;
    version = spec.version;
    runtime_tools = tools spec;
    resolved_at = t;
    digest = host.sha256_hex (host.spec_json spec (tools spec));
  })
