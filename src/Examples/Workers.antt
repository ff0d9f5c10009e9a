-- ===== src/Examples/Workers.antt =====
-- The theorems on workers at worker `w1` and its session.
use newconduit.Base.{
  All, Among, Bool, String, [], false, get, keep, list_eq, nat_eq, none, option_eq, pair_eq, put,
  refl, some, string_eq, ◌↔◌, ◌∷◌, ◌≡◌,
}
use newconduit.Examples.Data.{
  running_session, store_of, store_of-SessionsOk, test_host, test_worker, test_world,
}
use newconduit.Model.{
  SessionRecord, WorkerRecord, closed, condition_eq, event_type_eq, failed, lifecycle_eq, status_eq,
  wire_name, worker_closed,
}
use newconduit.Session.Log.{SessionsOk}
use newconduit.Worker.Lost.{IsLost, ReturnsOrRefused, fail_leased_session-IsLost}
use newconduit.Worker.Manager.{fail_leased_sessions, terminate, terminated}
use newconduit.Worker.Manager.Loss.{
  after_failures, fail_leased_session, fail_session_for_worker_loss, fail_turn, has_active_lease,
  lease_lost_of, leave_session, lose_lease, loss_event, max_sequence, publish_session_event,
  unfailed_turn,
}
use newconduit.Worker.Selector.{fresher, is_eligible, select}
use newconduit.Worker.Selector.Choice.{IsStrict, select-Among, select-freshest, select-none}
use newconduit.Worker.Selector.Fitness.{CanServe}
use newconduit.Worker.Termination.{holds_lease, terminate_frees, terminate_returns}
use newconduit.World.{Result, World, for_each}
use newconduit.Storage.Records.{
  append_event, append_line, read_events, read_sessions, write_session, write_worker,
}
use newconduit.Worker.Manager.Events.{append_worker_event}

abbrev leased_world : World
leased_world = test_world (store_of running_session)

leased_world-SessionsOk : SessionsOk leased_world.store
leased_world-SessionsOk = store_of-SessionsOk running_session refl

abbrev ended : Result WorkerRecord × World
ended = terminate test_worker closed "worker_closed" worker_closed leased_world

terminate_returns_example :
    ReturnsOrRefused test_host (terminated test_worker closed "worker_closed" 1000) ended.0
    × SessionsOk ended.1.store
unfolding get put
terminate_returns_example =
    terminate_returns test_worker closed "worker_closed" worker_closed leased_world refl
      leased_world-SessionsOk (refl, tt)

abbrev failed_session : SessionRecord
failed_session = record running_session {
  status = failed;
  current_worker_id = none;
  session_lease_id = none;
  lifecycle_reason = some "worker_lost";
  event_cursor = 1;
  updated_at = 1003;
}

terminate_frees_example : holds_lease "w1" failed_session ≡ false
unfolding newconduit.Model.wire_name get put terminate append_worker_event append_event append_line
    write_worker fail_leased_sessions read_sessions has_active_lease for_each
    fail_session_for_worker_loss fail_leased_session read_events max_sequence fail_turn
    unfailed_turn after_failures lose_lease lease_lost_of loss_event leave_session write_session
    publish_session_event
terminate_frees_example =
    terminate_frees test_worker closed "worker_closed" worker_closed leased_world refl
      leased_world-SessionsOk (refl, tt) (terminated test_worker closed "worker_closed" 1000) refl
      "s1" failed_session refl

fail_leased_session_example :
    IsLost running_session leased_world (fail_leased_session running_session "closed" leased_world)
unfolding get put
fail_leased_session_example =
    fail_leased_session-IsLost running_session refl "closed" leased_world leased_world-SessionsOk
      refl

abbrev no_order : String → String → Bool
no_order a b = false

no_order-IsStrict : IsStrict no_order
no_order-IsStrict = record { irreflexive = λ a. refl; transitive = λ a b c h k. h }

select-Among_example :
    CanServe 1000 running_session test_worker × Among test_worker (test_worker ∷ [])
unfolding select
select-Among_example =
    select-Among no_order 1000 running_session (test_worker ∷ []) test_worker refl

select-none_example :
    (select no_order 9000 running_session (test_worker ∷ []) ≡ none)
    ↔ All (λ x. ¬ CanServe 9000 running_session x) (test_worker ∷ [])
select-none_example = select-none no_order 9000 running_session (test_worker ∷ [])

abbrev later_worker : WorkerRecord
later_worker = record test_worker { worker_id = "w2"; registered_at = some 20 }

abbrev choosy_session : SessionRecord
choosy_session = record running_session { required_worker_labels = some (("zone", "a") ∷ []) }

select-freshest_example :
    All
      (λ y. fresher no_order y later_worker ≡ false)
      (keep (is_eligible 1000 choosy_session) (test_worker ∷ later_worker ∷ []))
unfolding select
select-freshest_example =
    select-freshest no_order no_order-IsStrict 1000 choosy_session (test_worker ∷ later_worker ∷ [])
      later_worker refl refl
