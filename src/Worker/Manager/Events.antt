-- ===== src/Worker/Manager/Events.antt =====
-- src/central/managers/worker/worker-manager.ts. Events about a worker, its conditions and its expiry.
use newconduit.Base.{
  Bool, List, String, [], false, if◌then◌else◌, includes, list_eq, nat_eq, none, option_eq, pair_eq,
  some, string_eq, true, ◌∷◌,
}
use newconduit.Model.{
  EventType, Payload, RuntimeEvent, WorkerCondition, WorkerLifecycleState, WorkerRecord, active,
  busy, central, closed, condition_eq, draining, event_type_eq, expired, lifecycle_eq, ready,
  reason_only, registered, status_eq, worker_commands, worker_heartbeat_rejected,
}
use newconduit.Storage.Records.{append_event, read_worker}
use newconduit.World.{M, now, publish, random_uuid, require, worker_missing, ◌>>=◌}

unfoldable pub new_worker_event : String → EventType → Payload → M RuntimeEvent
unfolding append_event
new_worker_event worker_id type payload = do
  id ← random_uuid
  t ← now
  append_event (record {
    event_id = id;
    session_id = none;
    worker_id = some worker_id;
    ack_id = none;
    turn_seq = none;
    sequence = 0;
    type = type;
    timestamp = t;
    actor = central;
    session_lease_id = none;
    payload = payload;
  })

-- `appendWorkerEvent`.
unfoldable pub append_worker_event : WorkerRecord → EventType → Payload → M RuntimeEvent
unfolding new_worker_event
append_worker_event x type payload = new_worker_event x.worker_id type payload

-- `appendHeartbeatRejected` and `appendUnknownHeartbeatRejected`, with `notifyHeartbeatRejected`.
pub reject_heartbeat : String → String → M (Unit {0})
unfolding new_worker_event
reject_heartbeat worker_id reason = do
  event ← new_worker_event worker_id worker_heartbeat_rejected (reason_only reason)
  publish (worker_commands worker_id) event

abbrev pub normalize_active_conditions : List WorkerCondition → List WorkerCondition
normalize_active_conditions cs =
    if includes cs draining
    then draining ∷ []
    else if includes cs busy
    then busy ∷ []
    else ready ∷ []

-- `registered` and `active` are the states that a heartbeat may find.
abbrev pub is_live : WorkerLifecycleState → Bool
is_live registered = true
is_live active = true
is_live closed = false
is_live expired = false

pub require_worker : String → M WorkerRecord
unfolding read_worker
require_worker id = do found ← read_worker id; require found worker_missing
