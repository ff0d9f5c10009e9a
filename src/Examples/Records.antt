-- ===== src/Examples/Records.antt =====
-- The theorems on the storage's records at one delegation and one interaction.
use newconduit.Base.{
  [], false, get, list_eq, nat_eq, none, option_eq, pair_eq, refl, string_eq, true, ℕ, ◌∷◌, ◌≡◌,
}
use newconduit.Examples.Data.{running_session, test_world}
use newconduit.Model.{
  DelegationRecord, InteractionRecord, ResolvedDelegate, approval, condition_eq, event_type_eq,
  lifecycle_eq, not_ready, null, open_interaction, open_relation, pool, status_eq,
}
use newconduit.Storage.Claims.{
  compare_and_set_delegation, compare_and_set_interaction, create_delegation, create_interaction,
  delegation_by_key, interaction_by_adapter_request, write_if,
}
use newconduit.Storage.Contention.{
  compare_and_set_delegation_once, compare_and_set_interaction_once, create_delegation_again,
  create_interaction_again,
}
use newconduit.Storage.Records.{read_delegation, read_interaction}
use newconduit.World.{World, no_records, ok}

abbrev test_delegate : ResolvedDelegate
test_delegate = record {
  id = "delegate";
  tool_name = "look";
  description = "";
  digest = "digest";
  max_input_bytes = 100;
  max_result_bytes = 100;
  deadline_ms = 1000;
  max_queued_calls = 2;
  target_policy = pool;
}

abbrev pub test_delegation : ℕ → DelegationRecord
test_delegation revision = record {
  delegation_id = "d1";
  tenant_id = "t1";
  parent_session_id = "s0";
  child_session_id = "s1";
  resolved_delegate = test_delegate;
  resolved_callee_agent_spec = running_session.resolved_agent_spec;
  status = open_relation;
  target_ref = none;
  active_call_id = none;
  next_call_seq = 1;
  close_reason = none;
  failure = none;
  calls = [];
  revision = revision;
  created_at = 0;
  updated_at = 0;
}

abbrev pub test_interaction : ℕ → InteractionRecord
test_interaction revision = record {
  interaction_id = "x1";
  tenant_id = "t1";
  kind = approval;
  request = null;
  owner_session_id = "s1";
  owner_turn_seq = 1;
  adapter_request_id = "q1";
  request_lease_id = "lease";
  views = [];
  state = open_interaction;
  resolution = none;
  interruption = none;
  delivery = record { state = not_ready; command_event_id = none };
  revision = revision;
  created_at = 0;
  updated_at = 0;
}

abbrev records_world : World
records_world = test_world (record no_records {
  delegations = ("d1", test_delegation 3) ∷ [];
  interactions = ("x1", test_interaction 5) ∷ [];
})

compare_and_set_delegation_once_example :
    compare_and_set_delegation 3
      (test_delegation 4)
      (compare_and_set_delegation 3 (test_delegation 4) records_world).1
    ≡ (ok false, (compare_and_set_delegation 3 (test_delegation 4) records_world).1)
unfolding compare_and_set_delegation read_delegation get write_if
compare_and_set_delegation_once_example =
    compare_and_set_delegation_once 3 (test_delegation 4) (test_delegation 4) records_world refl
      refl

compare_and_set_interaction_once_example :
    compare_and_set_interaction 5
      (test_interaction 6)
      (compare_and_set_interaction 5 (test_interaction 6) records_world).1
    ≡ (ok false, (compare_and_set_interaction 5 (test_interaction 6) records_world).1)
unfolding compare_and_set_interaction read_interaction get write_if
compare_and_set_interaction_once_example =
    compare_and_set_interaction_once 5 (test_interaction 6) (test_interaction 6) records_world refl
      refl

create_delegation_again_example :
    create_delegation
      (test_delegation 1)
      (create_delegation (test_delegation 1) (test_world no_records)).1
    ≡ (
      ok (test_delegation 1, false),
      (create_delegation (test_delegation 1) (test_world no_records)).1,
    )
unfolding create_delegation read_delegation get delegation_by_key
create_delegation_again_example =
    create_delegation_again (test_delegation 1) (test_delegation 1) (test_world no_records) true
      refl

create_interaction_again_example :
    create_interaction
      (test_interaction 1)
      (create_interaction (test_interaction 1) (test_world no_records)).1
    ≡ (
      ok (test_interaction 1, false),
      (create_interaction (test_interaction 1) (test_world no_records)).1,
    )
unfolding create_interaction read_interaction get interaction_by_adapter_request
create_interaction_again_example =
    create_interaction_again (test_interaction 1) (test_interaction 1) (test_world no_records) true
      refl
