-- ===== src/Examples/Relations.antt =====
-- Witnesses for src/central/managers/delegation on one relation, and for src/central/registries.
use newconduit.Delegation.Tails.{dispatch_each, dispatch_next_rejected}
use newconduit.Delegation.Rounds.{
  acknowledge_command, active_in, complete_turn, fail_for_child_lost, fail_for_parent_terminal,
  fail_turn, mark_await_responded, register_await,
}
use newconduit.Delegation.Kept.{relations_end}
use newconduit.Delegation.Runs.{
  Operation, failed_for_good, perform_all, perform_all-IsFiled, status_moved, to_claim, to_complete,
  to_lose_child,
}
use newconduit.Base.{
  All, HasDistinct, List, [], ap, arith, byte_length, false, get, here, inl, inr, list_eq, nat_eq,
  none, option_eq, pair_eq, put, put_cases, refl, some, string_eq, subst, sym, text_length, true,
  ◌∙◌, ◌∷◌, ◌≡◌, ◌≢◌, ◌≤◌,
}
use newconduit.Delegation.{appended, is_queued, is_terminal_call, new_call}
use newconduit.Delegation.Changes.{IsSound, is_failed}
use newconduit.Delegation.Order.{Claimed, claim_call-Claimed}
use newconduit.Delegation.Queue.{claim_call}
use newconduit.Delegation.Tables.{IsFiled, IsFiled-IsKept, ◌⟶*◌}
use newconduit.Delegation.Worlds.{Inv}
use newconduit.Examples.Data.{running_session, store_of, test_world}
use newconduit.Examples.Records.{test_delegation}
use newconduit.Model.{
  Delegate, DelegationCallRecord, DelegationRecord, condition_eq, event_type_eq, failed_relation,
  integer, lifecycle_eq, open_relation, status_eq,
}
use newconduit.Registries.{
  new_delegate_registry, register_all, register_delegate, resolve_delegate, validate_delegate,
}
use newconduit.Registries.Resolution.{new_delegate_registry-resolve_delegate}
use newconduit.World.{World, child_missing, err, no_records, ok, out_of_fuel}
use newconduit.Delegation.Dispatch.{dispatch_next, previous_of}
use newconduit.World.Retry.{retry}
use newconduit.Delegation.Room.{appended_call-queued_count}
use newconduit.Delegation.Start.{StartDelegationCallInput, appended_call, queued_count}

abbrev waiting_call : DelegationCallRecord
unfolding new_call
waiting_call = new_call "c1" "d1" 1 1 "request" "look" "digest" 1000 0

abbrev waiting_relation : DelegationRecord
waiting_relation = record (test_delegation 3) { calls = waiting_call ∷ []; next_call_seq = 2 }

abbrev failed_test_relation : DelegationRecord
failed_test_relation = record (test_delegation 3) { status = failed_relation }

abbrev world_of : DelegationRecord → World
world_of d = test_world (record (store_of running_session) { delegations = ("d1", d) ∷ [] })

abbrev test_operations : List Operation
test_operations = to_claim "d1" ∷ to_complete "s1" 1 "a cat" ∷ to_lose_child "s1" "worker_lost" ∷ []

one_relation :
    (d : DelegationRecord) → d.delegation_id ≡ "d1" → IsSound d → IsFiled (("d1", d) ∷ [])
unfolding get put
one_relation d own sound = record {
  unique = (refl, tt);
  own_key = λ id x h. elim (put_cases "d1" id d x [] h) [
    | inl (key, same) ↦ sym (ap (λ y. y.delegation_id) same) ∙ own ∙ key
    | inr (other, listed) ↦ absurd (ground arith)
  ];
  all_sound = λ id x h. elim (put_cases "d1" id d x [] h) [
    | inl (key, same) ↦ subst IsSound same sound
    | inr (other, listed) ↦ absurd (ground arith)
  ];
}

waiting_relation-IsFiled : IsFiled (world_of waiting_relation).store.delegations
unfolding new_call
waiting_relation-IsFiled = one_relation waiting_relation refl (record {
  sound_calls = (
    record {
      identified = refl;
      claimed_named = λ x. absurd (ground (arith, x));
      claimed_bound = λ x. absurd (ground (arith, x));
      over_when_failed = λ x. absurd (ground (arith, x));
    },
    tt,
  );
  failed_inactive = λ x. refl;
})

failed_test_relation-IsFiled : IsFiled (world_of failed_test_relation).store.delegations
failed_test_relation-IsFiled =
    one_relation failed_test_relation refl
      (record { sound_calls = tt; failed_inactive = λ x. refl })

perform_all-IsFiled_example :
    Inv IsFiled (perform_all 2 test_operations (world_of waiting_relation))
perform_all-IsFiled_example =
    perform_all-IsFiled 2 test_operations (world_of waiting_relation)
      (waiting_relation-IsFiled, tt, λ i. refl)

status_moved_example :
    (d' : DelegationRecord) × (get "d1"
        (perform_all 2 test_operations (world_of waiting_relation)).store.delegations
      ≡ some d')
    × (open_relation ⟶* d'.status)
unfolding get
status_moved_example =
    status_moved 2 test_operations (world_of waiting_relation) "d1" waiting_relation
      waiting_relation-IsFiled refl tt (λ i. refl)

failed_for_good_example :
    (d' : DelegationRecord) × (get "d1"
        (perform_all 2 test_operations (world_of failed_test_relation)).store.delegations
      ≡ some d')
    × (is_failed d'.status ≡ true)
    × (d'.active_call_id ≡ none)
    × All (λ c. is_terminal_call c.status ≡ true) d'.calls
unfolding get
failed_for_good_example =
    failed_for_good 2 test_operations (world_of failed_test_relation) "d1" failed_test_relation
      failed_test_relation-IsFiled refl tt (λ i. refl) refl

relations_end_example :
    ((acknowledge_command 1 "s1" "e1" 1 (world_of waiting_relation)).0 ≢ err out_of_fuel)
    × ((complete_turn 1 "s1" 1 "a cat" (world_of waiting_relation)).0 ≢ err out_of_fuel)
    × ((fail_turn 1 "s1" 1 "gone" (world_of waiting_relation)).0 ≢ err out_of_fuel)
    × ((register_await 1 "s1" 1 "q1" "e1" (world_of waiting_relation)).0 ≢ err out_of_fuel)
    × ((mark_await_responded 1 "e1" "q1" (world_of waiting_relation)).0 ≢ err out_of_fuel)
    × ((claim_call 1 "e1" (world_of waiting_relation)).0 ≢ err out_of_fuel)
    × ((fail_for_parent_terminal 1 "e1" (world_of waiting_relation)).0 ≢ err out_of_fuel)
    × ((fail_for_child_lost 1 "s1" "gone" (world_of waiting_relation)).0 ≢ err out_of_fuel)
relations_end_example =
    relations_end IsFiled-IsKept (world_of waiting_relation)
      (waiting_relation-IsFiled, tt, λ i. refl) 1 "s1" "e1" "q1" "a cat" "gone" 1 (omega arith)

claim_call-Claimed_example :
    Claimed 1 "d1" waiting_relation running_session (world_of waiting_relation)
unfolding get new_call active_in put
claim_call-Claimed_example =
    claim_call-Claimed 0 "d1" waiting_relation running_session waiting_call
      (world_of waiting_relation) refl refl refl refl refl (here refl) refl refl

abbrev test_entry : Delegate
test_entry = record {
  id = "look";
  tool_name = "look_around";
  description = "looks around";
  max_input_bytes = integer 100;
  max_result_bytes = integer 100;
  deadline_ms = integer 1000;
  max_queued_calls = integer 2;
  target_policy = some "device";
}

abbrev test_delegates : List Delegate
test_delegates = test_entry ∷ []

new_delegate_registry-resolve_delegate_example :
    HasDistinct (λ d. d.id) test_delegates
    × All
        (λ d.
          resolve_delegate
            (record {
              delegates_by_id = ("look", test_entry) ∷ [];
              ids_by_tool_name = ("look_around", "look") ∷ [];
            })
            d.id
          ≡ ok d)
        test_delegates
unfolding new_delegate_registry register_all register_delegate validate_delegate get put
new_delegate_registry-resolve_delegate_example =
    new_delegate_registry-resolve_delegate test_delegates _ refl

-- The child session is missing at the first dispatch, and there at the next.
abbrev childless_world : World
childless_world = test_world (record no_records { delegations = ("d1", waiting_relation) ∷ [] })

dispatch_next_rejected_example :
    let tails =
      dispatch_each
        (λ x y. false)
        1
        []
        (dispatch_next (λ x y. false) 1 "d1" [] childless_world).1 in
    dispatch_next (λ x y. false) 1 "d1" tails (world_of waiting_relation)
    ≡ (err child_missing, put "d1" (err child_missing) tails, world_of waiting_relation)
unfolding dispatch_next previous_of get newconduit.World.Retry.retry waiting_call
dispatch_next_rejected_example =
    dispatch_next_rejected (λ x y. false) 1 "d1" child_missing [] childless_world
      (world_of waiting_relation) [] refl

abbrev second_call : StartDelegationCallInput
second_call = record {
  parent_session = running_session;
  caller_turn_seq = 1;
  caller_tool_request_id = "again";
  delegate_id = "delegate";
  input = "look again";
  target_ref = none;
}

abbrev appended_test_call : DelegationCallRecord
unfolding new_call
appended_test_call = new_call "uuid" "d1" 2 1 "again" "look again" "digest" 1000 1000

appended_call-queued_count_example :
    (is_queued appended_test_call.status ≡ true)
    × (appended_test_call.call_seq ≡ 2)
    × (appended_test_call.input ≡ "look again")
    × (queued_count (appended waiting_relation appended_test_call 1000).calls ≤ 2)
unfolding appended_call new_call newconduit.Base.text_length newconduit.Base.byte_length
    waiting_call appended_test_call
appended_call-queued_count_example =
    appended_call-queued_count second_call "digest" waiting_relation appended_test_call 1000
      (world_of waiting_relation) refl
