-- ===== src/Model/Fanout.antt =====
-- src/shared/models/fanout-group.ts.
use newconduit.Base.{List, Option, String, ℕ}
use newconduit.Model.Delegation.{DelegationFailure}
use newconduit.Model.Json.{JsonValue}

pub data FanoutMemberStatus : Type 0 where
  member_starting member_pending member_completed member_failed : FanoutMemberStatus

pub record FanoutGroupMember : Type 0 where
  pub device_ref : String
  pub delegation_call_id : Option String
  pub status : FanoutMemberStatus
  pub result : Option String
  pub failure : Option DelegationFailure
  pub updated_at : ℕ

pub data FanoutGroupStatus : Type 0 where
  open_group settled : FanoutGroupStatus

pub data FanoutDeliveryStatus : Type 0 where
  undelivered delivered : FanoutDeliveryStatus

-- What the text of `aggregate` encodes: one entry for each device, and the summary over them.
pub data Observation : Type 0 where
  parsed : JsonValue → Observation
  raw : String → Observation

pub data DeviceOutcome : Type 0 where
  observed : String → Observation → DeviceOutcome
  unobserved : String → String → String → DeviceOutcome

pub record Aggregate : Type 0 where
  pub total : ℕ
  pub completed_count : ℕ
  pub failed_count : ℕ
  pub devices : List DeviceOutcome

pub record FanoutGroupRecord : Type 0 where
  pub group_id : String
  pub tenant_id : String
  pub parent_session_id : String
  pub parent_turn_seq : ℕ
  pub parent_request_id : String
  pub case_id : String
  pub delegate_id : String
  pub input : String
  pub members : List FanoutGroupMember
  pub status : FanoutGroupStatus
  pub aggregate : Option Aggregate
  pub delivery_status : FanoutDeliveryStatus
  pub revision : ℕ
  pub created_at : ℕ
  pub updated_at : ℕ
