-- ===== src/Fanout.antt =====
-- src/central/managers/delegation/fanout-manager.ts: one tool request fanned out to many devices.
pub mod Aggregate
pub mod Rounds
pub mod Invariant
pub mod Preservation
pub mod Operations
pub mod Progress
pub mod Kept
pub mod Settlement
pub mod Finality
pub mod Once
use newconduit.Base.{
  Bool, List, Option, String, any, false, find, if◌then◌else◌, list_eq, map, nat_eq, none,
  option_eq, pair_eq, some, string_eq, true, ℕ, ◌&&◌, ◌==◌,
}
use newconduit.Model.{
  FanoutDeliveryStatus, FanoutGroupMember, FanoutGroupRecord, FanoutGroupStatus, FanoutMemberStatus,
  condition_eq, delivered, event_type_eq, lifecycle_eq, member_completed, member_failed,
  member_starting, open_group, settled, status_eq, undelivered,
}
use newconduit.Storage.Claims.{create_fanout_group, device_refs}
use newconduit.Storage.Records.{read_fanout_group, read_fanout_groups}
use newconduit.World.{M, group_not_found, now, pure, random_uuid, require, ◌>>=◌, ◌>>◌}

pub record OpenFanoutGroupInput : Type 0 where
  pub parent_session_id : String
  pub parent_turn_seq : ℕ
  pub parent_request_id : String
  pub case_id : String
  pub delegate_id : String
  pub input : String
  pub device_refs : List String

new_member : ℕ → String → FanoutGroupMember
new_member t ref = record {
  device_ref = ref;
  delegation_call_id = none;
  status = member_starting;
  result = none;
  failure = none;
  updated_at = t;
}

new_group : String → OpenFanoutGroupInput → ℕ → String → FanoutGroupRecord
unfolding new_member
new_group tenant_id input t id = record {
  group_id = id;
  tenant_id = tenant_id;
  parent_session_id = input.parent_session_id;
  parent_turn_seq = input.parent_turn_seq;
  parent_request_id = input.parent_request_id;
  case_id = input.case_id;
  delegate_id = input.delegate_id;
  input = input.input;
  members = map (new_member t) input.device_refs;
  status = open_group;
  aggregate = none;
  delivery_status = undelivered;
  revision = 1;
  created_at = t;
  updated_at = t;
}

open_group_for : String → OpenFanoutGroupInput → M (FanoutGroupRecord × Bool)
unfolding new_group
open_group_for tenant_id input = do
  t ← now
  id ← random_uuid
  create_fanout_group (new_group tenant_id input t id)

read_group_by_request : String → String → M (Option FanoutGroupRecord)
read_group_by_request session_id request_id = do
  groups ← read_fanout_groups
  pure (find (λ g. g.parent_session_id == session_id && g.parent_request_id == request_id) groups)

abbrev pub has_call : String → FanoutGroupMember → Bool
has_call call_id m = m.delegation_call_id == some call_id

pub read_group_by_member : String → M (Option FanoutGroupRecord)
read_group_by_member call_id = do
  groups ← read_fanout_groups
  pure (find (λ g. any (has_call call_id) g.members) groups)

owned_group : String → FanoutGroupRecord → Option FanoutGroupRecord
owned_group tenant_id g = if g.tenant_id == tenant_id then some g else none

unfoldable pub require_group : String → String → M FanoutGroupRecord
unfolding owned_group
require_group tenant_id id = do
  found ← read_fanout_group id
  g ← require found group_not_found
  require (owned_group tenant_id g) group_not_found

abbrev pub is_starting : FanoutMemberStatus → Bool
is_starting member_starting = true
is_starting _ = false

abbrev pub is_done : FanoutMemberStatus → Bool
is_done member_completed = true
is_done member_failed = true
is_done _ = false

abbrev pub is_completed : FanoutMemberStatus → Bool
is_completed member_completed = true
is_completed _ = false

abbrev pub is_settled : FanoutGroupStatus → Bool
is_settled open_group = false
is_settled settled = true

abbrev pub is_delivered : FanoutDeliveryStatus → Bool
is_delivered undelivered = false
is_delivered delivered = true
