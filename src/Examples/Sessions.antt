-- ===== src/Examples/Sessions.antt =====
-- The theorems on sessions at one session of worker `w1`.
use newconduit.Base.{
  [], get, list_eq, nat_eq, none, option_eq, pair_eq, put, refl, some, string_eq, true, false, ◌∷◌,
  ◌≡◌, ◌≢◌, ◌⊎◌,
}
use newconduit.Examples.Data.{
  paused_session, running_session, store_of, store_of-SessionsOk, test_context, test_world,
}
use newconduit.Model.{
  SnapshotRestoreRef, condition_eq, event_type_eq, lifecycle_eq, null, paused, status_eq, workspace,
}
use newconduit.Session.Kept.{accept_input-Kept, pause_session-Kept}
use newconduit.Session.KeptByAll.{pause_delegated_session-Kept}
use newconduit.Session.Log.{Kept, SessionsOk}
use newconduit.Session.Manager.{
  ResumeSessionOutcome, accept_input, is_on_its_way, pause_delegated_session, pause_session,
  resume_delegated_session, resume_session,
}
use newconduit.Session.Queued.{Begins, resume_delegated_session-Begins, resume_session-Begins}
use newconduit.Session.Turns.{Accepts, accept_input-IsAccepted}
use newconduit.World.{Result, World, cannot_resume, continue, err, not_paused, ok, pure}
use newconduit.Persistence.{plan_capture, plan_restore, record_capture}
use newconduit.Persistence.Capture.{plan_restore-record_capture}

abbrev bound_world : World
bound_world = test_world (store_of running_session)

abbrev idle_world : World
idle_world = test_world (store_of paused_session)

bound_world-SessionsOk : SessionsOk bound_world.store
bound_world-SessionsOk = store_of-SessionsOk running_session refl

idle_world-SessionsOk : SessionsOk idle_world.store
idle_world-SessionsOk = store_of-SessionsOk paused_session refl

accept_input_example :
    Accepts [] running_session (accept_input test_context "s1" none null bound_world)
unfolding get put
accept_input_example =
    accept_input-IsAccepted test_context "s1" none null bound_world running_session refl refl refl
      refl

accept_input-Kept_example : Kept (accept_input test_context "s1" none null bound_world)
accept_input-Kept_example =
    accept_input-Kept test_context "s1" none null bound_world bound_world-SessionsOk

pause_session-Kept_example : Kept (pause_session none test_context "s1" none bound_world)
pause_session-Kept_example =
    pause_session-Kept none test_context "s1" none bound_world bound_world-SessionsOk

resume_session-Begins_example :
    ((paused_session.status ≢ paused)
      × (resume_session none (pure tt) test_context "s1" none idle_world
          ≡ (err not_paused, idle_world)))
    ⊎ ((paused_session.status ≡ paused)
        × Begins
            (pure tt)
            idle_world
            "s1"
            paused_session
            (resume_session none (pure tt) test_context "s1" none idle_world))
unfolding get put
resume_session-Begins_example =
    resume_session-Begins (pure tt) "s1" idle_world paused_session refl refl idle_world-SessionsOk
      none test_context none refl

pause_delegated_session-Kept_example : Kept (pause_delegated_session none "s1" bound_world)
pause_delegated_session-Kept_example =
    pause_delegated_session-Kept none "s1" bound_world bound_world-SessionsOk

resume_delegated_session-Begins_example :
    ((is_on_its_way paused_session.status ≡ true)
      × (resume_delegated_session none (pure tt) "s1" idle_world ≡ (ok none, idle_world)))
    ⊎ ((is_on_its_way paused_session.status ≡ false)
        × (paused_session.status ≢ paused)
        × (resume_delegated_session none (pure tt) "s1" idle_world
            ≡ (err cannot_resume, idle_world)))
    ⊎ ((paused_session.status ≡ paused)
        × ((r : Result ResumeSessionOutcome × World) × Begins
              (pure tt)
              idle_world
              "s1"
              paused_session
              r
            × (resume_delegated_session none (pure tt) "s1" idle_world
                ≡ continue (λ o. pure (some o)) r.0 r.1)))
unfolding get put
resume_delegated_session-Begins_example =
    resume_delegated_session-Begins (pure tt) "s1" idle_world paused_session refl refl
      idle_world-SessionsOk none refl

plan_restore_example :
    let captured = (record_capture running_session "snap" (workspace ∷ []) bound_world).1 in
    (r : SnapshotRestoreRef) × ((plan_restore
        (record running_session { latest_snapshot_ref = some "snap" })
        captured).0
      ≡ ok (some r))
    × ((plan_capture running_session "snap" bound_world).0
        ≡ ok (
            some (record {
              snapshot_id = r.snapshot_id;
              storage_class = r.storage_class;
              handle = r.handle;
            })))
    × (r.parts ≡ workspace ∷ [])
plan_restore_example =
    plan_restore-record_capture running_session "snap" (workspace ∷ []) bound_world refl refl
