-- ===== src/Persistence.antt =====
-- src/central/persistence: the storage classes, and the manager that resolves one for a session.
pub mod Capture
use mathlib.Core.Option
use newconduit.Base.{
  List, Option, String, [], default, find, if◌then◌else◌, join, list_eq, map, nat_eq, none,
  option_eq, pair_eq, some, string_eq, truthy, ◌==◌, ◌∷◌,
}
use newconduit.Model.{
  SessionRecord, SnapshotCaptureRef, SnapshotPartName, SnapshotRestoreRef, WorkspaceSnapshot,
  condition_eq, event_type_eq, lifecycle_eq, status_eq,
}
use newconduit.Storage.Records.{read_snapshot, write_snapshot}
use newconduit.World.{
  M, branch, no_storage_class, now, pure, require, throw, unknown_storage_class, ◌>>=◌, ◌>>◌,
}

pub data StorageClass : Type 0 where
  volume_snapshot host_managed : StorageClass

class_id : StorageClass → String
class_id volume_snapshot = "volume-snapshot"
class_id host_managed = "host-managed"

pub data StorageAttachmentKind : Type 0 where
  worker_pull kept_by_host : StorageAttachmentKind

attachment_kind_of : StorageClass → StorageAttachmentKind
attachment_kind_of volume_snapshot = worker_pull
attachment_kind_of host_managed = kept_by_host

pub build_handle : String → String → String
build_handle session_id snapshot_id = join (session_id ∷ "/" ∷ snapshot_id ∷ [])

-- `storageClasses.get(id)` over the two registered classes.
pub class_of_id : String → Option StorageClass
unfolding class_id
class_of_id id = find (λ c. class_id c == id) (volume_snapshot ∷ host_managed ∷ [])

unfoldable pub resolve : SessionRecord → M StorageClass
unfolding class_of_id
resolve s =
    branch (truthy s.storage_class)
      (require (class_of_id (default s.storage_class "")) unknown_storage_class)
      (throw no_storage_class)

attachment_kind : SessionRecord → M StorageAttachmentKind
attachment_kind s = do c ← resolve s; pure (attachment_kind_of c)

pub class_plan_capture : StorageClass → SessionRecord → String → Option SnapshotCaptureRef
unfolding class_id build_handle
class_plan_capture volume_snapshot s snapshot_id = some (record {
  snapshot_id = snapshot_id;
  storage_class = class_id volume_snapshot;
  handle = build_handle s.session_id snapshot_id;
})
class_plan_capture host_managed s snapshot_id = none

unfoldable pub plan_capture : SessionRecord → String → M (Option SnapshotCaptureRef)
unfolding class_plan_capture
plan_capture s snapshot_id = do c ← resolve s; pure (class_plan_capture c s snapshot_id)

restore_ref : WorkspaceSnapshot → SnapshotRestoreRef
restore_ref x = record {
  snapshot_id = x.snapshot_id;
  storage_class = x.storage_class;
  handle = x.handle;
  parts = x.parts;
}

class_plan_restore : StorageClass → SessionRecord → M (Option SnapshotRestoreRef)
unfolding read_snapshot restore_ref
class_plan_restore volume_snapshot s =
    branch (truthy s.latest_snapshot_ref)
      (read_snapshot s.session_id (default s.latest_snapshot_ref "") >>= λ found.
        pure (Option.map restore_ref found))
      (pure none)
class_plan_restore host_managed s = pure none

pub plan_restore : SessionRecord → M (Option SnapshotRestoreRef)
unfolding class_plan_restore
plan_restore s = do c ← resolve s; class_plan_restore c s

class_record_capture :
    StorageClass → SessionRecord → String → List SnapshotPartName → M (Option WorkspaceSnapshot)
unfolding class_id build_handle write_snapshot
class_record_capture volume_snapshot s snapshot_id parts = do
  t ← now
  let snapshot : WorkspaceSnapshot = record {
    snapshot_id = snapshot_id;
    session_id = s.session_id;
    storage_class = class_id volume_snapshot;
    handle = build_handle s.session_id snapshot_id;
    parts = parts;
    base_event_cursor = s.event_cursor;
    size = none;
    checksum = none;
    created_at = t;
  }
  write_snapshot snapshot
  pure (some snapshot)
class_record_capture host_managed s snapshot_id parts = pure none

pub record_capture : SessionRecord → String → List SnapshotPartName → M (Option WorkspaceSnapshot)
unfolding class_record_capture
record_capture s snapshot_id parts = do c ← resolve s; class_record_capture c s snapshot_id parts
