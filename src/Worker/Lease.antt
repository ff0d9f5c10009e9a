-- ===== src/Worker/Lease.antt =====
-- src/central/managers/worker/worker-lease-manager.ts.
use newconduit.Base.{String, default, list_eq, nat_eq, option_eq, pair_eq, some, string_eq, ◌==◌}
use newconduit.Model.{
  SessionRecord, WorkerRecord, condition_eq, event_type_eq, lifecycle_eq, starting, status_eq,
}
use newconduit.Storage.Records.{write_session}
use newconduit.World.{M, ensure, pure, random_uuid, stale_lease, ◌>>=◌, ◌>>◌}

pub assign : SessionRecord → WorkerRecord → M SessionRecord
unfolding write_session
assign s x = do
  lease ← random_uuid
  let next : SessionRecord = record s {
    current_worker_id = some x.worker_id;
    session_lease_id = some lease;
    storage_class = some (default s.storage_class x.storage_class);
    status = starting;
  }
  write_session next
  pure next

unfoldable pub assert_current : SessionRecord → String → M (Unit {0})
assert_current s lease = ensure (s.session_lease_id == some lease) stale_lease
