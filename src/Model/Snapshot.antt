-- ===== src/Model/Snapshot.antt =====
-- src/shared/models/snapshot.ts.
use newconduit.Base.{List, Option, String, ℕ}

pub data SnapshotPartName : Type 0 where
  workspace agent_state : SnapshotPartName

pub record WorkspaceSnapshot : Type 0 where
  pub snapshot_id : String
  pub session_id : String
  pub storage_class : String
  pub handle : String
  pub parts : List SnapshotPartName
  pub base_event_cursor : ℕ
  pub size : Option ℕ
  pub checksum : Option String
  pub created_at : ℕ

pub record SnapshotCaptureRef : Type 0 where
  pub snapshot_id : String
  pub storage_class : String
  pub handle : String

pub record SnapshotRestoreRef : Type 0 where
  pub snapshot_id : String
  pub storage_class : String
  pub handle : String
  pub parts : List SnapshotPartName
