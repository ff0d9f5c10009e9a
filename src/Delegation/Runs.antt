-- ===== src/Delegation/Runs.antt =====
-- Any sequence of the calls of src/central/managers/delegation, between writes of other tasks.
use newconduit.Delegation.Kept.{relations_kept}
use newconduit.Base.{
  All, All-map, List, String, Table, [], false, get, list_eq, nat_eq, none, option_eq, pair_eq,
  some, string_eq, true, ℕ, ◌==◌, ◌∷◌, ◌≡◌,
}
use newconduit.Delegation.Rounds.{
  acknowledge_command, complete_turn, fail_for_child_lost, fail_for_parent_terminal, fail_turn,
  mark_await_responded, register_await,
}
use newconduit.Delegation.Starting.{start_call-Inv}
use newconduit.Delegation.Tables.{
  HasMoved, HasMoved-IsKept, IsFiled, IsFiled-IsKept, failed_final, start, ◌⟶*◌,
}
use newconduit.Delegation.{is_terminal_call}
use newconduit.Delegation.Changes.{is_failed}
use newconduit.Delegation.Queue.{claim_call}
use newconduit.Delegation.Start.{DelegationOptions, StartDelegationCallInput, start_call}
use newconduit.Delegation.Worlds.{Inv, IsKept, KeepsRelations}
use newconduit.Model.{DelegationRecord, condition_eq, event_type_eq, lifecycle_eq, status_eq}
use newconduit.World.{World}

-- The calls of the delegation manager, and the claim of the dispatcher.
pub data Operation : Type 0 where
  to_start : DelegationOptions → StartDelegationCallInput → Operation
  to_acknowledge : String → String → ℕ → Operation
  to_complete : String → ℕ → String → Operation
  to_fail : String → ℕ → String → Operation
  to_await : String → ℕ → String → String → Operation
  to_respond : String → String → Operation
  to_claim : String → Operation
  to_end_parent : String → Operation
  to_lose_child : String → String → Operation

-- The world after a call, whether it returns or throws.
perform : ℕ → Operation → World → World
unfolding start_call acknowledge_command complete_turn fail_turn register_await mark_await_responded
    claim_call fail_for_parent_terminal fail_for_child_lost
perform fuel (to_start o input) w = (start_call fuel o input w).1
perform fuel (to_acknowledge child event turn) w = (acknowledge_command fuel child event turn w).1
perform fuel (to_complete child turn result) w = (complete_turn fuel child turn result w).1
perform fuel (to_fail child turn message) w = (fail_turn fuel child turn message w).1
perform fuel (to_await parent turn call id) w = (register_await fuel parent turn call id w).1
perform fuel (to_respond call id) w = (mark_await_responded fuel call id w).1
perform fuel (to_claim id) w = (claim_call fuel id w).1
perform fuel (to_end_parent id) w = (fail_for_parent_terminal fuel id w).1
perform fuel (to_lose_child child message) w = (fail_for_child_lost fuel child message w).1

pub perform_all : ℕ → List Operation → World → World
unfolding perform
perform_all fuel [] w = w
perform_all fuel (x ∷ xs) w = perform_all fuel xs (perform fuel x w)

module _ {P : Table String DelegationRecord → Type 0} (k : IsKept P) (fuel : ℕ) where
  perform-Inv : (x : Operation) (w : World) → Inv P w → Inv P (perform fuel x w)
  unfolding perform
  perform-Inv (to_start o input) w v = start_call-Inv P k o fuel input w v
  perform-Inv (to_acknowledge child event turn) w v =
      (relations_kept k w v fuel child event "" "" "" turn).0
  perform-Inv (to_complete child turn result) w v =
      (relations_kept k w v fuel child "" "" result "" turn).1
  perform-Inv (to_fail child turn message) w v =
      (relations_kept k w v fuel child "" "" "" message turn).2
  perform-Inv (to_await parent turn call id) w v =
      (relations_kept k w v fuel parent id call "" "" turn).3
  perform-Inv (to_respond call id) w v = (relations_kept k w v fuel "" call id "" "" 0).4
  perform-Inv (to_claim id) w v = (relations_kept k w v fuel "" id "" "" "" 0).5
  perform-Inv (to_end_parent id) w v = (relations_kept k w v fuel "" id "" "" "" 0).6
  perform-Inv (to_lose_child child message) w v =
      (relations_kept k w v fuel child "" "" "" message 0).7

  perform_all-Inv : (xs : List Operation) (w : World) → Inv P w → Inv P (perform_all fuel xs w)
  unfolding perform_all
  perform_all-Inv [] w v = v
  perform_all-Inv (x ∷ xs) w v = perform_all-Inv xs (perform fuel x w) (perform-Inv x w v)

-- Whatever calls are made in whatever order, with the rounds that are given, with random identifiers
-- that are not empty, and between writes of other tasks that keep it so and raise the revision, the
-- stored relations stay filed: under their own identifiers, once each, and sound: an active call is
-- the one that its relation names, and has its turn; a failed relation names no call and all its calls
-- are over.
pub perform_all-IsFiled :
    (fuel : ℕ) (xs : List Operation) (w : World)
    → Inv IsFiled w
    → Inv IsFiled (perform_all fuel xs w)
perform_all-IsFiled fuel xs w v = perform_all-Inv IsFiled-IsKept fuel xs w v

module _ (fuel : ℕ) (xs : List Operation) (w : World) (id : String) (d : DelegationRecord)
    (filed : IsFiled w.store.delegations) (at : get id w.store.delegations ≡ some d)
    (others : All (KeepsRelations (HasMoved id d.status)) w.rivals)
    (given : (i : ℕ) → (w.host.uuid i == "") ≡ false) where
  moved_to : HasMoved id d.status (perform_all fuel xs w).store.delegations
  moved_to =
      (perform_all-Inv (HasMoved-IsKept id d.status) fuel xs w
        (record { filed = filed; current = d; at = at; moved = start }, others, given)).0

  -- Under the same conditions a stored relation stays stored, and its status moves only along the
  -- diagram: from creating its child to open, and from any status to failed.
  pub status_moved :
      (d' : DelegationRecord) × (get id (perform_all fuel xs w).store.delegations ≡ some d')
      × (d.status ⟶* d'.status)
  status_moved = (moved_to.current, moved_to.at, moved_to.moved)

  -- Where the stored relations are filed, random identifiers are not empty, and other tasks keep the
  -- relation on the diagram and raise the revision: a relation that failed is still stored after any
  -- sequence of calls, has failed, names no active call, and none of its calls is queued or active.
  pub failed_for_good :
      is_failed d.status ≡ true
      → (d' : DelegationRecord) × (get id (perform_all fuel xs w).store.delegations ≡ some d')
        × (is_failed d'.status ≡ true)
        × (d'.active_call_id ≡ none)
        × All (λ c. is_terminal_call c.status ≡ true) d'.calls
  failed_for_good gone =
      let over = failed_final moved_to.moved gone in
      let sound = moved_to.filed.all_sound id moved_to.current moved_to.at in
      (
        moved_to.current,
        moved_to.at,
        over,
        sound.failed_inactive over,
        All-map moved_to.current.calls (λ c call. call.over_when_failed over) sound.sound_calls,
      )
