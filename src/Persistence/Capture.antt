-- ===== src/Persistence/Capture.antt =====
-- Captures and restores of src/central/persistence/persistence-class.ts.
use newconduit.Base.{
  List, String, get-put_self, nat_eq, option_eq, pair_eq, refl, some, string_eq, true, truthy, ◌≡◌,
}
use newconduit.Model.{
  SessionRecord, SnapshotPartName, SnapshotRestoreRef, condition_eq, event_type_eq, lifecycle_eq,
  status_eq,
}
use newconduit.Persistence.{
  build_handle, class_plan_restore, class_record_capture, plan_capture, plan_restore,
  record_capture, resolve, volume_snapshot,
}
use newconduit.World.{World, ok}

resolve_volume :
    (s : SessionRecord) (w : World)
    → s.storage_class ≡ some "volume-snapshot"
    → resolve s w ≡ (ok volume_snapshot, w)
unfolding resolve
resolve_volume s w e = rw (e, resolve)

-- A capture on volume snapshots writes one record, which the restore reads.
class_restore-record :
    (s : SessionRecord) (id : String) (parts : List SnapshotPartName) (w : World)
    → truthy (some id) ≡ true
    → (class_plan_restore volume_snapshot
        (record s { latest_snapshot_ref = some id })
        (class_record_capture volume_snapshot s id parts w).1).0
      ≡ ok (
          some (record {
            snapshot_id = id;
            storage_class = "volume-snapshot";
            handle = build_handle s.session_id id;
            parts = parts;
          }))
unfolding class_plan_restore class_record_capture
class_restore-record s id parts w named =
    rw (named, class_plan_restore) (rw (get-put_self {K = String × String} (s.session_id, id)))

-- What a worker was told to capture is what a later restore hands out: the same identifier, class
-- and handle, with the parts that were recorded, for every session on volume snapshots and every
-- snapshot identifier that is not empty.
pub plan_restore-record_capture :
    (s : SessionRecord) (id : String) (parts : List SnapshotPartName) (w : World)
    → s.storage_class ≡ some "volume-snapshot"
    → truthy (some id) ≡ true
    → let captured = (record_capture s id parts w).1 in
      (r : SnapshotRestoreRef) × ((plan_restore
          (record s { latest_snapshot_ref = some id })
          captured).0
        ≡ ok (some r))
      × ((plan_capture s id w).0
          ≡ ok (
              some (record {
                snapshot_id = r.snapshot_id;
                storage_class = r.storage_class;
                handle = r.handle;
              })))
      × (r.parts ≡ parts)
unfolding record_capture plan_restore plan_capture
plan_restore-record_capture s id parts w volume named = (
  record {
    snapshot_id = id;
    storage_class = "volume-snapshot";
    handle = build_handle s.session_id id;
    parts = parts;
  },
  rw
      (
        resolve_volume s w volume,
        resolve_volume (record s { latest_snapshot_ref = some id }) _ volume,
      )
      (class_restore-record s id parts w named),
  rw (resolve_volume s w volume),
  refl,
)
