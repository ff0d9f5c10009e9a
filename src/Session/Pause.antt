-- ===== src/Session/Pause.antt =====
-- src/central/managers/session/session-pause-manager.ts.
use newconduit.Base.{
  Bool, Option, String, default, find, list_eq, nat_eq, none, option_eq, pair_eq, some, string_eq,
  truthy, ◌&&◌, ◌+◌, ◌-◌, ◌==◌,
}
use newconduit.Model.{
  Actor, PauseReason, Payload, RuntimeEvent, SessionRecord, by_parent, central, client_requested,
  condition_eq, event_type_eq, idle_timeout, lifecycle_eq, pause_command, pause_requested, pausing,
  session_pause_requested, status_eq,
}
use newconduit.Persistence.{plan_capture}
use newconduit.Session.Assignment.{WorkerCommandOutput}
use newconduit.Session.EventLog.{append}
use newconduit.Session.Lifecycle.{TerminalHook, transition_after_event}
use newconduit.Storage.Records.{read_events}
use newconduit.World.{M, ensure, no_worker_lease, on_option, pure, random_uuid, ◌>>=◌, ◌>>◌}

pub record PauseSessionOutcome : Type 0 where
  pub session : SessionRecord
  pub pause_requested_event : RuntimeEvent
  pub worker_command : WorkerCommandOutput

unfoldable pub assert_worker_lease : SessionRecord → M (Unit {0})
assert_worker_lease s =
    ensure (truthy s.current_worker_id && truthy s.session_lease_id) no_worker_lease

pub reason_text : PauseReason → String
reason_text idle_timeout = "idle_timeout"
reason_text client_requested = "client_requested"
reason_text by_parent = "parent_terminal"

-- `event.payload.reason`.
reason_in : Payload → Option PauseReason
reason_in (pause_requested r) = r
reason_in _ = none

unfoldable pub to_worker_command : SessionRecord → RuntimeEvent → M WorkerCommandOutput
unfolding assert_worker_lease reason_in
to_worker_command s event = do
  assert_worker_lease s
  id ← random_uuid
  capture ← plan_capture s event.event_id
  let worker_id = default s.current_worker_id ""
  pure (record {
    worker_id = worker_id;
    event = record {
      event_id = id;
      session_id = some s.session_id;
      worker_id = some worker_id;
      ack_id = none;
      turn_seq = none;
      sequence = event.sequence;
      type = session_pause_requested;
      timestamp = event.timestamp;
      actor = central;
      session_lease_id = s.session_lease_id;
      payload = pause_command (record {
        session_id = s.session_id;
        worker_id = worker_id;
        session_lease_id = default s.session_lease_id "";
        reason = reason_in event.payload;
        capture = capture;
      });
    };
  })

-- The command for the worker, with what it follows from.
unfoldable pub with_command : SessionRecord → RuntimeEvent → M PauseSessionOutcome
unfolding to_worker_command
with_command held event = do
  command ← to_worker_command held event
  pure (record { session = held; pause_requested_event = event; worker_command = command })

-- After the event: the session pauses, and the command is made.
unfoldable pub hold :
    TerminalHook → SessionRecord → PauseReason → RuntimeEvent → M PauseSessionOutcome
unfolding with_command reason_text
hold hook s reason event = do
  held ←
      transition_after_event hook s pausing event.sequence event.timestamp
        (some (reason_text reason))
  with_command held event

unfoldable pub request :
    TerminalHook → SessionRecord → Actor → PauseReason → Option String → M PauseSessionOutcome
unfolding assert_worker_lease hold
request hook s actor reason ack_id = do
  assert_worker_lease s
  id ← random_uuid
  event ← append (record {
    event_id = some id;
    type = session_pause_requested;
    actor = actor;
    payload = pause_requested (some reason);
    sequence = s.event_cursor + 1;
    session_id = some s.session_id;
    worker_id = s.current_worker_id;
    ack_id = ack_id;
    turn_seq = none;
    session_lease_id = s.session_lease_id;
  })
  hold hook s reason event

is_pause_intent : SessionRecord → RuntimeEvent → Bool
is_pause_intent s e =
    e.type == session_pause_requested
    && (e.sequence == s.event_cursor
        && (e.worker_id == s.current_worker_id && e.session_lease_id == s.session_lease_id))

-- The command is made anew from the recorded intent, if that is the session's last event.
recover : SessionRecord → M (Option WorkerCommandOutput)
unfolding assert_worker_lease to_worker_command is_pause_intent
recover s = do
  assert_worker_lease s
  events ← read_events s.session_id (s.event_cursor - 1)
  on_option (find (is_pause_intent s) events) (pure none)
      (λ e. to_worker_command s e >>= λ c. pure (some c))
