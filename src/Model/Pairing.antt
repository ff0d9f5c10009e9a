-- ===== src/Model/Pairing.antt =====
-- src/shared/models/case-pairing.ts and case-device.ts.
use newconduit.Base.{Bool, Option, String, ℕ}

pub data PairingInviteStatus : Type 0 where
  pending_invite redeemed_invite revoked_invite : PairingInviteStatus

pub record PairingInviteRecord : Type 0 where
  pub invite_id : String
  pub tenant_id : String
  pub case_id : String
  pub invite_secret_hash : String
  pub invite_secret_salt : String
  pub status : PairingInviteStatus
  pub expires_at : ℕ
  pub created_at : ℕ
  pub updated_at : ℕ
  pub redeemed_at : Option ℕ
  pub redeemed_device_ref : Option String
  pub revision : ℕ

pub data CaseDeviceBindingStatus : Type 0 where
  active_binding revoked_binding : CaseDeviceBindingStatus

pub record CaseDeviceBindingRecord : Type 0 where
  pub tenant_id : String
  pub case_id : String
  pub device_id : String
  pub device_ref : String
  pub binding_credential_hash : String
  pub binding_credential_salt : String
  pub device_label : String
  pub worker_id : Option String
  pub status : CaseDeviceBindingStatus
  pub created_at : ℕ
  pub updated_at : ℕ
  pub last_redeemed_at : ℕ
  pub last_registered_at : Option ℕ
  pub revoked_at : Option ℕ
  pub revision : ℕ

pub record CaseDeviceView : Type 0 where
  pub device_ref : String
  pub device_label : String
  pub is_online : Bool
  pub is_ready : Bool
  pub is_busy : Bool
  pub worker_id : Option String
  pub last_heartbeat_at : Option ℕ
  pub last_redeemed_at : ℕ
