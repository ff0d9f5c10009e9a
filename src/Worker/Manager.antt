-- ===== src/Worker/Manager.antt =====
-- src/central/managers/worker/worker-manager.ts: the lifetime of a worker, and what its sessions
-- lose with it.
pub mod Events
pub mod Loss
use newconduit.Base.{
  Bool, List, Option, String, [], if◌then◌else◌, keep, leb, list_eq, ltb, min, nat_eq, none,
  option_eq, pair_eq, some, string_eq, ℕ, ◌&&◌, ◌+◌, ◌-◌, ◌==◌, ◌∷◌,
}
use newconduit.Model.{
  EventType, WorkerHeartbeatPayload, WorkerLifecycleState, WorkerRecord, WorkerRegisterPayload,
  active, closed, condition_eq, disconnected, draining, event_type_eq, expired, lifecycle_eq,
  no_payload, ready, reason_only, registered, status_eq, worker_closed, worker_draining,
  worker_expired, worker_heartbeat, worker_profile, worker_registered, worker_report,
}
use newconduit.Storage.Records.{read_sessions, read_worker, read_workers, write_worker}
use newconduit.Worker.Manager.Events.{
  append_worker_event, is_live, normalize_active_conditions, reject_heartbeat, require_worker,
}
use newconduit.Worker.Manager.Loss.{fail_session_for_worker_loss, has_active_lease}
use newconduit.World.{
  M, branch, collect, ensure, for_each, now, on_option, pure, random_uuid, worker_not_active, ◌>>=◌,
  ◌>>◌,
}

pub state_name : WorkerLifecycleState → String
state_name registered = "registered"
state_name active = "active"
state_name closed = "closed"
state_name expired = "expired"

-- `this.keepaliveTtlMs` is the argument `ttl`.
register : ℕ → String → WorkerRegisterPayload → M WorkerRecord
register ttl tenant_id input = do
  t ← now
  id ← random_uuid
  let worker : WorkerRecord = record {
    worker_id = id;
    tenant_id = tenant_id;
    capacity_scope = tenant_id;
    host_pool_instance_id = input.host_pool_instance_id;
    labels = input.labels;
    storage_class = input.storage_class;
    reuse = none;
    description = input.description;
    capacity = input.capacity;
    allocatable = 0;
    conditions = disconnected ∷ [];
    lifecycle_state = registered;
    heartbeat_at = t;
    expires_at = t + ttl;
    registered_at = some t;
    current_session_count = 0;
    bound_session_id = none;
    terminal_reason = none;
    updated_at = t;
  }
  write_worker worker
  _ ← append_worker_event worker worker_registered (
      worker_profile worker.storage_class worker.labels worker.description worker.capacity
        input.allocatable)
  pure worker

accept_heartbeat : ℕ → WorkerHeartbeatPayload → WorkerRecord → M (Option WorkerRecord)
accept_heartbeat ttl input x = do
  t ← now
  let next : WorkerRecord = record x {
    capacity = input.capacity;
    allocatable = input.allocatable;
    conditions = normalize_active_conditions input.conditions;
    lifecycle_state = active;
    heartbeat_at = t;
    expires_at = t + ttl;
    updated_at = t;
  }
  write_worker next
  _ ← append_worker_event next worker_heartbeat (
      worker_report next.capacity next.allocatable next.conditions next.heartbeat_at
        next.expires_at)
  pure (some next)

pub heartbeat : ℕ → WorkerHeartbeatPayload → M (Option WorkerRecord)
unfolding accept_heartbeat
heartbeat ttl input = do
  found ← read_worker input.worker_id
  on_option found (reject_heartbeat input.worker_id "unknown-worker" >>= λ _. pure none) (λ x.
      branch (is_live x.lifecycle_state) (accept_heartbeat ttl input x)
        (reject_heartbeat x.worker_id "terminal-worker" >>= λ _. pure (some x)))

-- `assertActiveWorker`.
assert_active_worker : WorkerRecord → M (Unit {0})
assert_active_worker x = ensure (x.lifecycle_state == active) worker_not_active

pub drain : String → M WorkerRecord
unfolding assert_active_worker
drain id = do
  x ← require_worker id
  assert_active_worker x
  t ← now
  let next : WorkerRecord = record x { allocatable = 0; conditions = draining ∷ []; updated_at = t }
  write_worker next
  _ ← append_worker_event next worker_draining no_payload
  pure next

unfoldable pub fail_leased_sessions : WorkerRecord → M (Unit {0})
unfolding state_name
fail_leased_sessions x = do
  sessions ← read_sessions
  for_each (keep (has_active_lease x.worker_id) sessions)
      (λ s. fail_session_for_worker_loss s (state_name x.lifecycle_state) >>= λ _. pure tt)

unfoldable pub terminated : WorkerRecord → WorkerLifecycleState → String → ℕ → WorkerRecord
terminated x state reason t = record x {
  allocatable = 0;
  current_session_count = 0;
  conditions = disconnected ∷ [];
  lifecycle_state = state;
  terminal_reason = some reason;
  updated_at = t;
}

unfoldable pub terminate : WorkerRecord → WorkerLifecycleState → String → EventType → M WorkerRecord
unfolding terminated
terminate x state reason type = do
  t ← now
  let next = terminated x state reason t
  write_worker next
  _ ← append_worker_event next type (reason_only reason)
  fail_leased_sessions next
  pure next

pub close : String → M WorkerRecord
unfolding assert_active_worker
close id = do
  x ← require_worker id
  assert_active_worker x
  terminate x closed "worker_closed" worker_closed

is_overdue : ℕ → WorkerRecord → Bool
is_overdue t x = is_live x.lifecycle_state && leb x.expires_at t

expire_workers : M (List WorkerRecord)
unfolding is_overdue
expire_workers = do
  t ← now
  workers ← read_workers
  collect (keep (is_overdue t) workers)
      (λ x. terminate x expired "worker_keepalive_expired" worker_expired)

expire : String → String → M WorkerRecord
expire id reason = do
  x ← require_worker id
  branch (is_live x.lifecycle_state) (terminate x expired reason worker_expired) (pure x)

await_fresh_report : String → ℕ → M WorkerRecord
await_fresh_report id deadline = do
  x ← require_worker id
  branch (is_live x.lifecycle_state)
      (do
        t ← now
        let next : WorkerRecord = record x {
          allocatable = 0;
          conditions = disconnected ∷ [];
          expires_at = deadline;
          updated_at = t;
        }
        write_worker next
        pure next)
      (pure x)

released : WorkerRecord → ℕ → WorkerRecord
released x t = record x {
  current_session_count = x.current_session_count - 1;
  allocatable = min x.capacity (x.allocatable + 1);
  conditions = if ltb 0 (min x.capacity (x.allocatable + 1)) then ready ∷ [] else x.conditions;
  updated_at = t;
}

release_session_lease : String → M WorkerRecord
unfolding released
release_session_lease id = do
  x ← require_worker id
  branch (x.lifecycle_state == active)
      (do t ← now; let next = released x t; write_worker next; pure next) (pure x)
