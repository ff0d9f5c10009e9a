-- ===== src/Fanout/Rounds.antt =====
-- The loops of src/central/managers/delegation/fanout-manager.ts, one round each: read the group,
-- decide, let other tasks run, then write on the condition that the group still has the revision that
-- was read.
use newconduit.Base.{
  Bool, List, Option, String, every, false, find, if◌then◌else◌, is_some, list_eq, map, nat_eq,
  none, not, option_eq, pair_eq, some, string_eq, true, ℕ, ◌&&◌, ◌+◌, ◌==◌,
}
use newconduit.Fanout.{
  has_call, is_delivered, is_done, is_settled, is_starting, read_group_by_member, require_group,
}
use newconduit.Fanout.Aggregate.{aggregate}
use newconduit.Model.{
  Aggregate, FanoutGroupMember, FanoutGroupRecord, JsonValue, condition_eq, delivered,
  event_type_eq, lifecycle_eq, member_completed, member_failed, member_pending, open_group, settled,
  status_eq,
}
use newconduit.Storage.Claims.{compare_and_set_fanout_group}
use newconduit.World.{
  M, branch, delivered_before_settlement, ensure, gets, member_attached_elsewhere, member_not_found,
  now, on_option, others_run, pure, require, ◌>>=◌, ◌>>◌,
}
use newconduit.World.Retry.{retry}

pub data FanoutMemberOutcome : Type 0 where
  completed_with : String → FanoutMemberOutcome
  failed_with : String → String → FanoutMemberOutcome

pub record RecordFanoutOutcomeResult : Type 0 where
  pub group : FanoutGroupRecord
  pub settled_aggregate : Option Aggregate

abbrev pub written {ℓ} : {A : Type ℓ} → A → Bool → Option A
written a true = some a
written a false = none

abbrev pub has_ref : String → FanoutGroupMember → Bool
has_ref ref m = m.device_ref == ref

unfoldable pub attach_one : String → String → ℕ → FanoutGroupMember → FanoutGroupMember
attach_one ref call_id t m =
    if has_ref ref m
    then record m { delegation_call_id = some call_id; status = member_pending; updated_at = t }
    else m

unfoldable pub attached : FanoutGroupRecord → String → String → ℕ → FanoutGroupRecord
unfolding attach_one
attached g ref call_id t = record g {
  members = map (attach_one ref call_id t) g.members;
  revision = g.revision + 1;
  updated_at = t;
}

-- One conditional write, after the others had their turn.
unfoldable pub commit {ℓ} : {A : Type ℓ} → FanoutGroupRecord → FanoutGroupRecord → A → M (Option A)
commit g next a = do
  others_run
  done ← compare_and_set_fanout_group g.revision next
  pure (written a done)

unfoldable pub attach_round : String → String → String → String → M (Option FanoutGroupRecord)
unfolding attached commit
attach_round tenant_id group_id ref call_id = do
  g ← require_group tenant_id group_id
  m ← require (find (has_ref ref) g.members) member_not_found
  branch (m.delegation_call_id == some call_id && not (is_starting m.status)) (pure (some g)) (do
    ensure (is_starting m.status) member_attached_elsewhere
    t ← now
    commit g (attached g ref call_id t) (attached g ref call_id t))

unfoldable pub attach_member_call : ℕ → String → String → String → String → M FanoutGroupRecord
unfolding attach_round
attach_member_call fuel tenant_id group_id ref call_id =
    retry fuel (attach_round tenant_id group_id ref call_id)

unfoldable pub delivered_group : FanoutGroupRecord → ℕ → FanoutGroupRecord
delivered_group g t = record g {
  delivery_status = delivered;
  revision = g.revision + 1;
  updated_at = t;
}

unfoldable pub deliver_round : String → String → M (Option FanoutGroupRecord)
unfolding delivered_group commit
deliver_round tenant_id group_id = do
  g ← require_group tenant_id group_id
  branch (is_delivered g.delivery_status) (pure (some g)) (do
    ensure (is_settled g.status && is_some g.aggregate) delivered_before_settlement
    t ← now
    commit g (delivered_group g t) (delivered_group g t))

unfoldable pub mark_delivered : ℕ → String → String → M FanoutGroupRecord
unfolding deliver_round
mark_delivered fuel tenant_id group_id = retry fuel (deliver_round tenant_id group_id)

apply_outcome : FanoutMemberOutcome → ℕ → FanoutGroupMember → FanoutGroupMember
apply_outcome (completed_with r) t m = record m {
  status = member_completed;
  result = some r;
  updated_at = t;
}
apply_outcome (failed_with code message) t m = record m {
  status = member_failed;
  failure = some (record { code = code; message = message });
  updated_at = t;
}

pub record_one :
    (FanoutGroupMember → Bool) → FanoutMemberOutcome → ℕ → FanoutGroupMember → FanoutGroupMember
unfolding apply_outcome
record_one matches outcome t m = if matches m then apply_outcome outcome t m else m

abbrev pub all_done : List FanoutGroupMember → Bool
all_done = every λ m. is_done m.status

-- The group with the outcome, settled if no member is left.
unfoldable pub recorded :
    (String → Option JsonValue)
    → (FanoutGroupMember → Bool)
    → FanoutMemberOutcome
    → ℕ
    → FanoutGroupRecord
    → FanoutGroupRecord
unfolding record_one
recorded parse matches outcome t g =
    let members = map (record_one matches outcome t) g.members in
    record g {
      members = members;
      status = if all_done members then settled else open_group;
      aggregate = if all_done members then some (aggregate parse members) else g.aggregate;
      revision = g.revision + 1;
      updated_at = t;
    }

-- `settledAggregate` of the result of a write.
unfoldable pub answer : FanoutGroupRecord → RecordFanoutOutcomeResult
answer g = record {
  group = g;
  settled_aggregate = if is_settled g.status then g.aggregate else none;
}

unfoldable pub record_round :
    String
    → String
    → (FanoutGroupMember → Bool)
    → FanoutMemberOutcome
    → M (Option RecordFanoutOutcomeResult)
unfolding recorded answer commit
record_round tenant_id group_id matches outcome = do
  g ← require_group tenant_id group_id
  branch (is_settled g.status) (pure (some (record { group = g; settled_aggregate = none }))) (do
    m ← require (find matches g.members) member_not_found
    t ← now
    branch (is_done m.status) (pure (some (record { group = g; settled_aggregate = none }))) (do
      parse ← gets λ w. w.host.parse_json
      commit g (recorded parse matches outcome t g) (answer (recorded parse matches outcome t g))))

unfoldable pub record_outcome_in_group :
    ℕ
    → String
    → String
    → (FanoutGroupMember → Bool)
    → FanoutMemberOutcome
    → M RecordFanoutOutcomeResult
unfolding record_round
record_outcome_in_group fuel tenant_id group_id matches outcome =
    retry fuel (record_round tenant_id group_id matches outcome)

unfoldable pub record_startup_failure :
    ℕ → String → String → String → String → String → M RecordFanoutOutcomeResult
unfolding record_outcome_in_group
record_startup_failure fuel tenant_id group_id ref code message =
    record_outcome_in_group fuel tenant_id group_id (has_ref ref) (failed_with code message)

unfoldable pub record_outcome :
    ℕ → String → String → FanoutMemberOutcome → M (Option RecordFanoutOutcomeResult)
unfolding record_outcome_in_group
record_outcome fuel tenant_id call_id outcome = do
  found ← read_group_by_member call_id
  on_option found (pure none) (λ g.
      record_outcome_in_group fuel tenant_id g.group_id (has_call call_id) outcome >>= λ r.
      pure (some r))
