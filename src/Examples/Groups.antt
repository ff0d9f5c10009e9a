-- ===== src/Examples/Groups.antt =====
-- The theorems on groups at a group of two devices, one of which is done, and a rival write.
use newconduit.Base.{
  List, String, [], arith, get, keep, length, list_eq, map, nat_eq, none, option_eq, pair_eq, put,
  refl, some, string_eq, ◌+◌, ◌∷◌, ◌≡◌, ◌≢◌,
}
use newconduit.Examples.Data.{test_host, test_world}
use newconduit.Fanout.Aggregate.{aggregate, aggregate_counts, device_of, is_observed}
use newconduit.Fanout.Invariant.{IsWellFormed}
use newconduit.Fanout.Kept.{calls-FanoutInv, calls_end}
use newconduit.Fanout.Preservation.{FanoutInv, GroupsOk, put-GroupsOk}
use newconduit.Fanout.Rounds.{
  FanoutMemberOutcome, RecordFanoutOutcomeResult, attach_member_call, completed_with, has_ref,
  mark_delivered, record_outcome, record_outcome_in_group, record_startup_failure,
}
use newconduit.Model.{
  FanoutGroupMember, FanoutGroupRecord, FanoutMemberStatus, condition_eq, event_type_eq,
  lifecycle_eq, member_completed, member_failed, member_pending, open_group, settled, status_eq,
  undelivered,
}
use newconduit.Storage.Claims.{compare_and_set_fanout_group, device_refs, write_if}
use newconduit.World.{Store, World, err, no_records, ok, out_of_fuel}
use newconduit.Fanout.Finality.{FanoutCall, perform_calls, to_attach, to_deliver}
use newconduit.Fanout.Settlement.{HasSettled, settled_HasSettled}
use newconduit.Fanout.{require_group}
use newconduit.Storage.Records.{read_fanout_group}
use newconduit.World.Retry.{retry}

abbrev member : String → FanoutMemberStatus → FanoutGroupMember
member ref status = record {
  device_ref = ref;
  delegation_call_id = some ref;
  status = status;
  result = none;
  failure = none;
  updated_at = 0;
}

abbrev group : FanoutGroupRecord
group = record {
  group_id = "g1";
  tenant_id = "t1";
  parent_session_id = "s1";
  parent_turn_seq = 1;
  parent_request_id = "r1";
  case_id = "c1";
  delegate_id = "delegate";
  input = "look";
  members = member "left" member_failed ∷ member "right" member_pending ∷ [];
  status = open_group;
  aggregate = none;
  delivery_status = undelivered;
  revision = 3;
  created_at = 0;
  updated_at = 0;
}

-- Another task, which writes nothing to the groups.
abbrev rival : Store → Store
rival st = record st { workers = [] }

abbrev groups_world : World
groups_world = record (test_world (record no_records { groups = put "g1" group [] })) {
  rivals = rival ∷ [];
}

no_groups-GroupsOk : GroupsOk test_host.parse_json no_records
unfolding get
no_groups-GroupsOk = record {
  at = λ id g h. absurd (ground arith);
  keyed = λ id g h. absurd (ground arith);
}

group-IsWellFormed : IsWellFormed test_host.parse_json group
group-IsWellFormed = record {
  settled_when_done = refl;
  aggregate_when_settled = refl;
  delivered_when_settled = refl;
}

groups_world-FanoutInv : FanoutInv groups_world
groups_world-FanoutInv = record {
  groups_ok =
      put-GroupsOk test_host.parse_json group no_records no_groups-GroupsOk group-IsWellFormed;
  rivals_ok = (λ st v. record { at = v.at; keyed = v.keyed }, tt);
}

abbrev outcome : FanoutMemberOutcome
outcome = completed_with "done"

calls-FanoutInv_example :
    FanoutInv (attach_member_call 2 "t1" "g1" "right" "call" groups_world).1
    × FanoutInv (record_startup_failure 2 "t1" "g1" "right" "code" "message" groups_world).1
    × FanoutInv (record_outcome 2 "t1" "call" outcome groups_world).1
    × FanoutInv (mark_delivered 2 "t1" "g1" groups_world).1
calls-FanoutInv_example =
    calls-FanoutInv 2 "t1" "g1" "right" "call" "code" "message" outcome groups_world
      groups_world-FanoutInv

calls_end_example :
    ((attach_member_call 2 "t1" "g1" "right" "call" groups_world).0 ≢ err out_of_fuel)
    × ((record_startup_failure 2 "t1" "g1" "right" "code" "message" groups_world).0
        ≢ err out_of_fuel)
    × ((record_outcome 2 "t1" "call" outcome groups_world).0 ≢ err out_of_fuel)
    × ((mark_delivered 2 "t1" "g1" groups_world).0 ≢ err out_of_fuel)
calls_end_example =
    calls_end 2 "t1" "g1" "right" "call" "code" "message" outcome groups_world
      groups_world-FanoutInv (omega arith)

aggregate_counts_example :
    let a = aggregate test_host.parse_json group.members in
    (map device_of a.devices ≡ device_refs group.members)
    × (a.total ≡ length a.devices)
    × (a.completed_count ≡ length (keep is_observed a.devices))
    × (a.completed_count + a.failed_count ≡ a.total)
aggregate_counts_example = aggregate_counts test_host.parse_json group.members

abbrev full_members : List FanoutGroupMember
full_members =
    member "left" member_failed
    ∷ record (member "right" member_completed) { result = some "done"; updated_at = 1000 }
    ∷ []

abbrev full_group : FanoutGroupRecord
full_group = record group {
  members = full_members;
  status = settled;
  aggregate = some (aggregate test_host.parse_json full_members);
  revision = 4;
  updated_at = 1000;
}

abbrev last_outcome : RecordFanoutOutcomeResult
last_outcome = record { group = full_group; settled_aggregate = full_group.aggregate }

abbrev settled_world : World
settled_world = (record_outcome_in_group 2 "t1" "g1" (has_ref "right") outcome groups_world).1

last_outcome_returned :
    (record_outcome_in_group 2 "t1" "g1" (has_ref "right") outcome groups_world).0 ≡ ok last_outcome
unfolding record_outcome_in_group retry require_group read_fanout_group get put
    compare_and_set_fanout_group write_if
last_outcome_returned = refl

settled_HasSettled_example :
    HasSettled test_host.parse_json "t1" "g1"
      (aggregate test_host.parse_json full_members)
      full_group
      settled_world
settled_HasSettled_example =
    settled_HasSettled "t1" "g1" (has_ref "right") outcome 2 groups_world last_outcome
      (aggregate test_host.parse_json full_members) groups_world-FanoutInv last_outcome_returned
      refl

-- After the settlement its group is delivered, and a late attachment is tried.
abbrev later_calls : List FanoutCall
later_calls = to_deliver 1 "t1" "g1" ∷ to_attach 1 "t1" "g1" "left" "call" ∷ []

abbrev delivered_world : World
delivered_world = perform_calls later_calls settled_world
