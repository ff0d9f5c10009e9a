-- ===== src/Session/Lifecycle.antt =====
-- src/central/managers/session/session-lifecycle-manager.ts. `onTerminal` is the argument `hook`.
use newconduit.Base.{
  Bool, Option, String, false, list_eq, nat_eq, none, not, option_eq, or_else, pair_eq, some,
  string_eq, true, ℕ, ◌&&◌, ◌+◌, ◌==◌,
}
use newconduit.Model.{
  Labels, ResolvedAgentSpec, SessionDelegationBinding, SessionRecord, SessionStatus, cancelled,
  completed, condition_eq, created, event_type_eq, failed, lifecycle_eq, paused, same_binding,
  status_eq,
}
use newconduit.Storage.Records.{create_session, write_session}
use newconduit.World.{
  M, branch, create_intent_differs, ensure, now, ok, on_option, pure, random_uuid, unexpected_turn,
  ◌>>=◌, ◌>>◌,
}

abbrev pub TerminalHook : Type 0
TerminalHook = Option (SessionRecord → M (Unit {0}))

abbrev pub is_terminal : SessionStatus → Bool
is_terminal completed = true
is_terminal cancelled = true
is_terminal failed = true
is_terminal _ = false

pub record CreateInput : Type 0 where
  pub session_id : Option String
  pub tenant_id : String
  pub owner : String
  pub resolved_agent_spec : ResolvedAgentSpec
  pub workspace_ref : String
  pub delegation_binding : Option SessionDelegationBinding
  pub required_worker_labels : Option Labels

pub same_intent : SessionRecord → CreateInput → Bool
same_intent s input =
    s.tenant_id == input.tenant_id
    && (s.owner == input.owner
        && (s.resolved_agent_spec.digest == input.resolved_agent_spec.digest
            && (s.workspace_ref == input.workspace_ref
                && (same_binding s.delegation_binding input.delegation_binding
                    && s.required_worker_labels == input.required_worker_labels))))

pub new_session : CreateInput → String → ℕ → SessionRecord
new_session input id t = record {
  session_id = id;
  tenant_id = input.tenant_id;
  owner = input.owner;
  resolved_agent_spec = input.resolved_agent_spec;
  status = created;
  current_worker_id = none;
  session_lease_id = none;
  storage_class = none;
  event_cursor = 0;
  next_turn_seq = 1;
  workspace_ref = input.workspace_ref;
  latest_snapshot_ref = none;
  lifecycle_reason = none;
  delegation_binding = input.delegation_binding;
  required_worker_labels = input.required_worker_labels;
  last_event_updated_at = t;
  created_at = t;
  updated_at = t;
}

unfoldable pub create : CreateInput → M SessionRecord
unfolding same_intent new_session
create input = do
  t ← now
  id ← on_option input.session_id random_uuid pure
  (actual, is_new) ← create_session (new_session input id t)
  ensure (same_intent actual input) create_intent_differs
  pure actual

run_hook : TerminalHook → SessionRecord → M (Unit {0})
run_hook none s w = (ok tt, w)
run_hook (some f) s w = f s w

-- The hook runs on the edge from a status that is not terminal to one that is.
unfoldable pub fire_terminal_hook : TerminalHook → SessionStatus → SessionRecord → M (Unit {0})
unfolding run_hook
fire_terminal_hook hook previous next =
    branch (is_terminal next.status && not (is_terminal previous)) (run_hook hook next) (pure tt)

reconcile_terminal_hook : TerminalHook → SessionRecord → M (Unit {0})
unfolding run_hook
reconcile_terminal_hook hook s = branch (is_terminal s.status) (run_hook hook s) (pure tt)

transition : TerminalHook → SessionRecord → SessionStatus → Option String → M SessionRecord
transition hook s status reason = do
  t ← now
  let next : SessionRecord = record s { status = status; lifecycle_reason = reason; updated_at = t }
  write_session next
  fire_terminal_hook hook s.status next
  pure next

unfoldable pub transition_after_event :
    TerminalHook → SessionRecord → SessionStatus → ℕ → ℕ → Option String → M SessionRecord
transition_after_event hook s status sequence timestamp reason = do
  t ← now
  let next : SessionRecord = record s {
    status = status;
    lifecycle_reason = reason;
    event_cursor = sequence;
    last_event_updated_at = timestamp;
    updated_at = t;
  }
  write_session next
  fire_terminal_hook hook s.status next
  pure next

pause_after_event : SessionRecord → ℕ → ℕ → Option String → Option String → M SessionRecord
pause_after_event s sequence timestamp reason snapshot = do
  t ← now
  let next : SessionRecord = record s {
    status = paused;
    current_worker_id = none;
    session_lease_id = none;
    latest_snapshot_ref = or_else snapshot s.latest_snapshot_ref;
    lifecycle_reason = reason;
    event_cursor = sequence;
    last_event_updated_at = timestamp;
    updated_at = t;
  }
  write_session next
  pure next

unfoldable pub allocate_next_turn : SessionRecord → M (SessionRecord × ℕ)
allocate_next_turn s = do
  t ← now
  let next : SessionRecord = record s { next_turn_seq = s.next_turn_seq + 1; updated_at = t }
  write_session next
  pure (next, s.next_turn_seq)

pub accept_turn_after_event :
    SessionRecord → ℕ → ℕ → ℕ → SessionStatus → Option String → M SessionRecord
accept_turn_after_event s turn_seq sequence timestamp status reason = do
  ensure (s.next_turn_seq == turn_seq) unexpected_turn
  t ← now
  let next : SessionRecord = record s {
    status = status;
    lifecycle_reason = reason;
    next_turn_seq = turn_seq + 1;
    event_cursor = sequence;
    last_event_updated_at = timestamp;
    updated_at = t;
  }
  write_session next
  pure next

unfoldable pub advance_event_cursor : SessionRecord → ℕ → M SessionRecord
advance_event_cursor s sequence = do
  t ← now
  let next : SessionRecord = record s {
    event_cursor = sequence;
    last_event_updated_at = t;
    updated_at = t;
  }
  write_session next
  pure next
