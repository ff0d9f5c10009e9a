-- ===== src/Session/Start.antt =====
-- src/central/managers/session/session-start-manager.ts.
use newconduit.Base.{
  Bool, Option, String, is_some, list_eq, nat_eq, none, not, option_eq, pair_eq, some, string_eq,
  ◌+◌, ◌==◌,
}
use newconduit.Model.{
  Payload, RuntimeEvent, SessionRecord, catalog_entry, central, condition_eq, created,
  event_type_eq, lifecycle_eq, queued, session_catalog_updated, session_created, status_eq,
}
use newconduit.Session.Assignment.{WorkerCommandOutput, assign_ready_worker}
use newconduit.Session.EventLog.{append}
use newconduit.Session.Lifecycle.{accept_turn_after_event}
use newconduit.World.{M, cannot_start, ensure, pure, ◌>>=◌, ◌>>◌}

pub record StartSessionOutcome : Type 0 where
  pub session : SessionRecord
  pub session_created_event : RuntimeEvent
  pub session_catalog_updated_event : RuntimeEvent
  pub worker_command : Option WorkerCommandOutput
  pub needs_reconcile : Bool

parent_of : SessionRecord → Option String
parent_of s = elim s.delegation_binding [ none ↦ none | some b ↦ some b.parent_session_id ]

catalog_event : RuntimeEvent → SessionRecord → RuntimeEvent
unfolding parent_of
catalog_event e s = record e {
  ack_id = none;
  turn_seq = none;
  type = session_catalog_updated;
  payload = catalog_entry s.session_id s.status (parent_of s);
}

module _ (before : String → String → Bool) where
  -- The first turn is accepted with the creation, and a worker is looked for at once.
  pub start_created_session :
      SessionRecord → Option String → Option String → Payload → M StartSessionOutcome
  unfolding catalog_event
  start_created_session s event_id ack_id payload = do
    ensure (s.status == created) cannot_start
    let turn_seq = s.next_turn_seq
    event ← append (record {
      event_id = event_id;
      type = session_created;
      actor = central;
      payload = payload;
      sequence = s.event_cursor + 1;
      session_id = some s.session_id;
      worker_id = none;
      ack_id = ack_id;
      turn_seq = some turn_seq;
      session_lease_id = none;
    })
    waiting ←
        accept_turn_after_event s turn_seq event.sequence event.timestamp queued
          (some "waiting-for-worker")
    (assigned, command) ← assign_ready_worker before waiting
    pure (record {
      session = assigned;
      session_created_event = event;
      session_catalog_updated_event = catalog_event event assigned;
      worker_command = command;
      needs_reconcile = not (is_some command);
    })
