-- ===== src/Session/Manager.antt =====
-- src/central/managers/session/session-manager.ts. The admitted agent spec is an argument, and so is
-- the reconciler's pass, `reconcile`, that follows a resume.
use newconduit.Base.{
  Bool, List, Option, String, [], any, default, false, if◌then◌else◌, is_some, join, list_eq,
  nat_eq, none, option_eq, pair_eq, some, string_eq, true, truthy, ℕ, ◌&&◌, ◌+◌, ◌==◌, ◌||◌, ◌∷◌,
}
use newconduit.Model.{
  Actor, InteractionRecord, JsonValue, RequestContext, ResumeReason, RuntimeEvent, SessionRecord,
  SessionStatus, accepted_input, by_client, by_delegation_call, by_parent, central, client,
  client_requested, condition_eq, event_type_eq, input_accepted, input_command, lifecycle_eq,
  open_interaction, paused, pausing, queued, resume_requested, resuming, running, session_input,
  session_resume_requested, starting, status_eq, turn_error, turn_failed,
}
use newconduit.Session.Assignment.{WorkerCommandOutput}
use newconduit.Session.EventLog.{append}
use newconduit.Session.Lifecycle.{
  TerminalHook, advance_event_cursor, allocate_next_turn, transition_after_event,
}
use newconduit.Session.Pause.{PauseSessionOutcome, request}
use newconduit.Storage.Records.{read_events, read_interactions_by_session, read_session}
use newconduit.World.{
  M, branch, cannot_pause, cannot_resume, delegated_session_not_found, ensure, not_paused,
  not_running, pure, random_uuid, require, session_not_found, ◌>>=◌, ◌>>◌,
}

pub record AcceptInputOutcome : Type 0 where
  pub session : SessionRecord
  pub input_accepted_event : RuntimeEvent
  pub worker_command : Option WorkerCommandOutput
  pub turn_failed_event : Option RuntimeEvent

pub record ResumeSessionOutcome : Type 0 where
  pub session : SessionRecord
  pub resume_requested_event : RuntimeEvent

owned_by : String → SessionRecord → Option SessionRecord
owned_by principal s = if s.owner == principal then some s else none

-- `assertPublicSession` on what was read: a foreign session is not found.
unfoldable pub require_public_session : RequestContext → String → M SessionRecord
unfolding owned_by
require_public_session ctx id = do
  found ← read_session id
  s ← require found session_not_found
  require (owned_by ctx.principal.principal_id s) session_not_found

no_current_worker : SessionRecord → String → Option String → ℕ → RuntimeEvent → M AcceptInputOutcome
no_current_worker s id ack_id turn_seq accepted_event = do
  failure ← append (record {
    event_id = none;
    type = turn_failed;
    actor = central;
    payload =
        turn_error (join ("session " ∷ id ∷ " has no current worker for input.received" ∷ []))
          "no_current_worker" none;
    sequence = s.event_cursor + 1;
    session_id = some id;
    worker_id = none;
    ack_id = none;
    turn_seq = some turn_seq;
    session_lease_id = none;
  })
  failed_session ← advance_event_cursor s failure.sequence
  pure (record {
    session = failed_session;
    input_accepted_event = accepted_event;
    worker_command = none;
    turn_failed_event = some failure;
  })

input_command_to : SessionRecord → String → ℕ → JsonValue → RuntimeEvent → M AcceptInputOutcome
input_command_to s id turn_seq input accepted_event = do
  command_id ← random_uuid
  let worker_id = default s.current_worker_id ""
  pure (record {
    session = s;
    input_accepted_event = accepted_event;
    worker_command = some (record {
      worker_id = worker_id;
      event = record {
        event_id = command_id;
        session_id = some id;
        worker_id = some worker_id;
        ack_id = none;
        turn_seq = some turn_seq;
        sequence = accepted_event.sequence;
        type = session_input;
        timestamp = accepted_event.timestamp;
        actor = central;
        session_lease_id = s.session_lease_id;
        payload = input_command (record {
          session_id = id;
          worker_id = worker_id;
          session_lease_id = default s.session_lease_id "";
          turn_seq = turn_seq;
          input = input;
        });
      };
    });
    turn_failed_event = none;
  })

-- `serializeInput` makes inputs of one session run one after another. Pauses, resumes, worker losses and
-- agent events are not in that sequence; none runs between this action's reads and writes here.
unfoldable pub accept_input :
    RequestContext → String → Option String → JsonValue → M AcceptInputOutcome
unfolding no_current_worker input_command_to
accept_input ctx id ack_id input = do
  s ← require_public_session ctx id
  (allocated, turn_seq) ← allocate_next_turn s
  event ← append (record {
    event_id = none;
    type = input_accepted;
    actor = central;
    payload = accepted_input input ctx.principal.principal_id;
    sequence = allocated.event_cursor + 1;
    session_id = some id;
    worker_id = none;
    ack_id = ack_id;
    turn_seq = some turn_seq;
    session_lease_id = none;
  })
  next ← advance_event_cursor allocated event.sequence
  branch (truthy next.current_worker_id) (input_command_to next id turn_seq input event)
      (no_current_worker next id ack_id turn_seq event)

read_session_events : RequestContext → String → ℕ → M (List RuntimeEvent)
read_session_events ctx id after = do _ ← require_public_session ctx id; read_events id after

abbrev pub is_open : InteractionRecord → Bool
is_open x = elim x.state [ open_interaction ↦ true | _ ↦ false ]

unfoldable pub pause_session :
    TerminalHook → RequestContext → String → Option String → M (Option PauseSessionOutcome)
pause_session hook ctx id ack_id = do
  s ← require_public_session ctx id
  ensure (s.status == running) not_running
  interactions ← read_interactions_by_session id
  branch (any is_open interactions) (pure none)
      (request hook s client client_requested ack_id >>= λ o. pure (some o))

-- Back to the queue, then one pass of the reconciler, then the session as it stands.
unfoldable pub requeue :
    TerminalHook
    → M (Unit {0})
    → SessionRecord
    → String
    → Actor
    → ResumeReason
    → Option String
    → String
    → M ResumeSessionOutcome
requeue hook reconcile s id actor reason ack_id lifecycle_reason = do
  event ← append (record {
    event_id = none;
    type = session_resume_requested;
    actor = actor;
    payload = resume_requested (some reason);
    sequence = s.event_cursor + 1;
    session_id = some id;
    worker_id = none;
    ack_id = ack_id;
    turn_seq = none;
    session_lease_id = none;
  })
  waiting ←
      transition_after_event hook s queued event.sequence event.timestamp (some lifecycle_reason)
  reconcile
  current ← read_session id
  pure (record { session = default current waiting; resume_requested_event = event })

unfoldable pub resume_session :
    TerminalHook → M (Unit {0}) → RequestContext → String → Option String → M ResumeSessionOutcome
unfolding requeue
resume_session hook reconcile ctx id ack_id = do
  s ← require_public_session ctx id
  ensure (s.status == paused) not_paused
  requeue hook reconcile s id client by_client ack_id "resume_requested"

-- `requireDelegatedSession`.
unfoldable pub require_delegated_session : String → M SessionRecord
require_delegated_session id = do
  found ← read_session id
  s ← require found delegated_session_not_found
  ensure (is_some s.delegation_binding) delegated_session_not_found
  pure s

unfoldable pub pause_delegated_session : TerminalHook → String → M (Option PauseSessionOutcome)
pause_delegated_session hook id = do
  s ← require_delegated_session id
  branch (s.status == paused || s.status == pausing) (pure none) (do
    ensure (s.status == running && (truthy s.current_worker_id && truthy s.session_lease_id))
        cannot_pause
    o ← request hook s central by_parent none
    pure (some o))

abbrev pub is_on_its_way : SessionStatus → Bool
is_on_its_way queued = true
is_on_its_way starting = true
is_on_its_way running = true
is_on_its_way resuming = true
is_on_its_way _ = false

unfoldable pub resume_delegated_session :
    TerminalHook → M (Unit {0}) → String → M (Option ResumeSessionOutcome)
unfolding requeue
resume_delegated_session hook reconcile id = do
  s ← require_delegated_session id
  branch (is_on_its_way s.status) (pure none) (do
    ensure (s.status == paused) cannot_resume
    o ← requeue hook reconcile s id central by_delegation_call none "delegation_call"
    pure (some o))
