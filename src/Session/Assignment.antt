-- ===== src/Session/Assignment.antt =====
-- src/central/managers/session/session-assignment-manager.ts. `before` orders texts as
-- `localeCompare` does; the selector's time is a reading of the clock.
use newconduit.Base.{
  Bool, Option, String, [], default, if◌then◌else◌, join, ltb, none, some, ℕ, ◌+◌, ◌-◌, ◌∷◌,
}
use newconduit.Model.{
  RuntimeEvent, SessionRecord, SnapshotRestoreRef, WorkerRecord, assign_command, busy, central,
  session_assign,
}
use newconduit.Persistence.{plan_restore}
use newconduit.Storage.Records.{read_workers, write_worker}
use newconduit.Worker.Lease.{assign}
use newconduit.Worker.Selector.{reuses, select}
use newconduit.World.{M, now, on_option, pure, random_uuid, ◌>>=◌, ◌>>◌}

pub record WorkerCommandOutput : Type 0 where
  pub worker_id : String
  pub event : RuntimeEvent

-- What the worker's record becomes when a session is placed on it.
placed : WorkerRecord → SessionRecord → ℕ → WorkerRecord
placed x s t = record x {
  allocatable = x.allocatable - 1;
  conditions = if ltb 0 (x.allocatable - 1) then x.conditions else busy ∷ [];
  current_session_count = x.current_session_count + 1;
  bound_session_id =
      if reuses x.reuse then x.bound_session_id else some (default x.bound_session_id s.session_id);
  updated_at = t;
}

assign_event : SessionRecord → WorkerRecord → Option SnapshotRestoreRef → M RuntimeEvent
assign_event s x restore = do
  id ← random_uuid
  t ← now
  pure (record {
    event_id = id;
    session_id = some s.session_id;
    worker_id = some x.worker_id;
    ack_id = none;
    turn_seq = none;
    sequence = s.event_cursor + 1;
    type = session_assign;
    timestamp = t;
    actor = central;
    session_lease_id = s.session_lease_id;
    payload = assign_command (record {
      session_id = s.session_id;
      worker_id = x.worker_id;
      session_lease_id = default s.session_lease_id "";
      workspace_ref = s.workspace_ref;
      copilot_session_state_ref = join ("copilot-session:" ∷ s.session_id ∷ []);
      resolved_agent_spec = s.resolved_agent_spec;
      restore = restore;
    });
  })

-- The session gets its lease first, then the worker's capacity is taken.
place : SessionRecord → WorkerRecord → M (SessionRecord × Option WorkerCommandOutput)
unfolding placed assign_event
place s x = do
  assigned ← assign s x
  t ← now
  write_worker (placed x s t)
  restore ← plan_restore assigned
  event ← assign_event assigned x restore
  pure (assigned, some (record { worker_id = x.worker_id; event = event }))

module _ (before : String → String → Bool) where
  pub assign_ready_worker : SessionRecord → M (SessionRecord × Option WorkerCommandOutput)
  assign_ready_worker s = do
    workers ← read_workers
    t ← now
    on_option (select before t s workers) (pure (s, none)) (place s)
