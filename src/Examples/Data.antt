-- ===== src/Examples/Data.antt =====
-- Test data.
use newconduit.Base.{
  Option, String, [], arith, get, list_eq, nat_eq, none, option_eq, pair_eq, some, string_eq, true,
  ◌+◌, ◌∷◌, ◌≡◌,
}
use newconduit.Model.{
  RequestContext, ResolvedAgentSpec, SessionRecord, SessionStatus, WorkerRecord, active,
  condition_eq, event_type_eq, lifecycle_eq, paused, ready, running, status_eq,
}
use newconduit.Session.Log.{IsLogged, IsLogged-close, SessionsOk, with_session}
use newconduit.World.{Host, Store, World, no_records}

abbrev pub test_host : Host
test_host = record {
  clock = λ i. 1000 + i;
  uuid = λ i. "uuid";
  token = λ i n. "token";
  hmac_hex = λ key message. "mac";
  sha256_hex = λ t. "digest";
  hex_bytes = λ t. 7 ∷ [];
  parse_json = λ t. none;
  quote_json = λ t. t;
  json_text = λ v. "json";
  takes = λ sent channel event. true;
  spec_json = λ spec tools. "spec";
}

abbrev pub test_world : Store → World
test_world st = record {
  store = st;
  host = test_host;
  readings = 0;
  drawn = 0;
  rivals = [];
  published = [];
}

abbrev test_spec : ResolvedAgentSpec
test_spec = record {
  agent_spec_id = "spec";
  labels = [];
  launch_command = "agent";
  launch_args = [];
  instructions = "";
  tool_profile = "default";
  delegate_refs = record { as_caller = []; as_callee = [] };
  worker_selector = record { match_labels = ("zone", "a") ∷ [] };
  pause_policy = "idle";
  recovery_policy = "restart";
  idle_pause_timeout_ms = 60000;
  version = "1";
  runtime_tools = [];
  resolved_at = 0;
  digest = "spec-digest";
}

abbrev test_session : SessionStatus → Option String → SessionRecord
test_session status lease = record {
  session_id = "s1";
  tenant_id = "t1";
  owner = "alice";
  resolved_agent_spec = test_spec;
  status = status;
  current_worker_id = elim lease [ none ↦ none | some l ↦ some "w1" ];
  session_lease_id = lease;
  storage_class = some "volume-snapshot";
  event_cursor = 0;
  next_turn_seq = 1;
  workspace_ref = "workspace";
  latest_snapshot_ref = none;
  lifecycle_reason = none;
  delegation_binding =
      some (record { delegation_id = "d1"; parent_session_id = "s0"; delegate_id = "delegate" });
  required_worker_labels = none;
  last_event_updated_at = 0;
  created_at = 0;
  updated_at = 0;
}

abbrev pub running_session : SessionRecord
running_session = test_session running (some "lease")

abbrev pub paused_session : SessionRecord
paused_session = test_session paused none

abbrev pub test_worker : WorkerRecord
test_worker = record {
  worker_id = "w1";
  tenant_id = "t1";
  capacity_scope = "t1";
  host_pool_instance_id = none;
  labels = ("zone", "a") ∷ [];
  storage_class = "volume-snapshot";
  reuse = none;
  description = none;
  capacity = 2;
  allocatable = 1;
  conditions = ready ∷ [];
  lifecycle_state = active;
  heartbeat_at = 0;
  expires_at = 5000;
  registered_at = some 10;
  current_session_count = 1;
  bound_session_id = none;
  terminal_reason = none;
  updated_at = 0;
}

abbrev pub test_context : RequestContext
test_context = record {
  principal = record { principal_id = "alice"; is_user = true; connection_id = none };
  connection_id = none;
}

abbrev pub store_of : SessionRecord → Store
store_of s = with_session s (record no_records { workers = ("w1", test_worker) ∷ [] })

no_sessions-IsLogged : IsLogged "s1" 0 (record no_records { workers = ("w1", test_worker) ∷ [] })
unfolding get
no_sessions-IsLogged = record {
  keyed = λ j s h. absurd (ground arith);
  others = λ j s ne h. absurd (ground arith);
  own = omega arith;
}

-- The world with one session is a possible one.
pub store_of-SessionsOk : (s : SessionRecord) → s.session_id ≡ "s1" → SessionsOk (store_of s)
store_of-SessionsOk s same = IsLogged-close no_sessions-IsLogged s same (omega arith)
