-- ===== src/Delegation/Kept.antt =====
-- The operations of src/central/managers/delegation on stored relations: what they keep, and that
-- their loops end.
use newconduit.Base.{
  Option, Option-cases, String, Table, arith, find, get, inl, inr, length, list_eq, nat_eq,
  option_eq, pair_eq, some, string_eq, values, ℕ, ◌<◌, ◌≡◌, ◌≢◌,
}
use newconduit.Delegation.Claims.{claim_round-Outcome}
use newconduit.Delegation.Operations.{
  Located, acknowledge_round-Outcome, close_round-Outcome, complete_update-Updates,
  fail_update-Updates, update_round-Outcome,
}
use newconduit.Delegation.Awaits.{await_round-Outcome, respond_round-Outcome}
use newconduit.Delegation.Queue.{claim_call}
use newconduit.Delegation.Rounds.{
  acknowledge_command, by_child, close_for_terminal, close_round, complete_turn,
  fail_for_child_lost, fail_for_parent_terminal, fail_turn, mark_await_responded, parent_message,
  register_await,
}
use newconduit.Delegation.Worlds.{Inv, IsKept, Outcome, same_relation_key}
use newconduit.Delegation.Changes.{Change}
use newconduit.Storage.Versioned.{loop_ends, loop_keeps}
use newconduit.Storage.Families.{delegation_records}
use newconduit.Model.{
  DelegationRecord, child_terminal, condition_eq, event_type_eq, lifecycle_eq, parent_terminal,
  status_eq,
}
use newconduit.World.{M, World, err, out_of_fuel}
use newconduit.World.Retry.{retry}
use newconduit.Storage.Records.{read_delegations}

module _ {P : Table String DelegationRecord → Type 0} (k : IsKept P) (w : World) (v : Inv P w) where
  located : (u : World) → Inv P u → Located u
  located u i = k.located u.store.delegations i.0

  keyed_at :
      (id : String) (u : World)
      → Inv P u
      → (d : DelegationRecord) → get id u.store.delegations ≡ some d
      → d.delegation_id ≡ id
  keyed_at id u i d = k.keyed u.store.delegations id d i.0

  -- A loop of rounds that throw, stay or write a change.
  looped :
      {A : Type 0} (round : M (Option A)) (fuel : ℕ)
      → ((u : World) → Inv P u → Outcome u (round u))
      → Inv P (retry fuel round w).1
  looped round fuel each =
      loop_keeps delegation_records Change same_relation_key k.changed round fuel each w v

  loop_over :
      {A : Type 0} (round : M (Option A)) (fuel : ℕ)
      → ((u : World) → Inv P u → Outcome u (round u))
      → length w.rivals < fuel
      → (retry fuel round w).0 ≢ err out_of_fuel
  loop_over round fuel each few =
      loop_ends delegation_records Change same_relation_key k.changed round fuel each w v few

  module _ (fuel : ℕ) (child id request result message : String) (turn_seq : ℕ) where
    lost_kept : Inv P (fail_for_child_lost fuel child message w).1
    unfolding fail_for_child_lost read_delegations close_for_terminal
    lost_kept = elim (Option-cases (find (by_child child) (values w.store.delegations))) [
      | inl e ↦ rw e v
      | inr (d, e) ↦ rw e (
          looped (close_round d.delegation_id child_terminal "child_session_lost" (λ x. message))
            fuel
            (λ u i.
              close_round-Outcome d.delegation_id child_terminal "child_session_lost" (λ x. message)
                u (keyed_at d.delegation_id u i)))
    ]

    lost_ends :
        length w.rivals < fuel → (fail_for_child_lost fuel child message w).0 ≢ err out_of_fuel
    unfolding fail_for_child_lost read_delegations close_for_terminal
    lost_ends few = elim (Option-cases (find (by_child child) (values w.store.delegations))) [
      | inl e ↦ rw e (λ x. ground (arith, x))
      | inr (d, e) ↦ rw e (
          loop_over (close_round d.delegation_id child_terminal "child_session_lost" (λ x. message))
            fuel
            (λ u i.
              close_round-Outcome d.delegation_id child_terminal "child_session_lost" (λ x. message)
                u (keyed_at d.delegation_id u i))
            few)
    ]

    -- Acknowledging a command, completing and failing a turn, registering and answering an await, and
    -- claiming the next call keep every property of the stored relations that each change of one keeps.
    pub relations_kept :
        Inv P (acknowledge_command fuel child id turn_seq w).1
        × Inv P (complete_turn fuel child turn_seq result w).1
        × Inv P (fail_turn fuel child turn_seq message w).1
        × Inv P (register_await fuel child turn_seq request id w).1
        × Inv P (mark_await_responded fuel id request w).1
        × Inv P (claim_call fuel id w).1
        × Inv P (fail_for_parent_terminal fuel id w).1
        × Inv P (fail_for_child_lost fuel child message w).1
    unfolding acknowledge_command complete_turn fail_turn register_await mark_await_responded
        claim_call fail_for_parent_terminal
    relations_kept = (
      looped _ fuel (λ u i. acknowledge_round-Outcome child id turn_seq u (located u i)),
      looped _ fuel (λ u i.
          update_round-Outcome child _ u (complete_update-Updates turn_seq result) (located u i)),
      looped _ fuel (λ u i.
          update_round-Outcome child _ u (fail_update-Updates turn_seq message) (located u i)),
      looped _ fuel (λ u i. await_round-Outcome child turn_seq request id u (located u i)),
      looped _ fuel (λ u i. respond_round-Outcome id request u (located u i)),
      looped _ fuel (λ u i. claim_round-Outcome id u (keyed_at id u i)),
      looped _ fuel (λ u i.
          close_round-Outcome id parent_terminal "parent_terminal" parent_message u
            (keyed_at id u i)),
      lost_kept,
    )

    -- Where a property holds of the stored relations that each change and other tasks keep, and there are
    -- more rounds than other tasks have turns, acknowledging, completing and failing a turn, registering
    -- and answering an await, claiming the next call and closing for a lost parent or child do not run out
    -- of rounds.
    pub relations_end :
        length w.rivals < fuel
        → ((acknowledge_command fuel child id turn_seq w).0 ≢ err out_of_fuel)
          × ((complete_turn fuel child turn_seq result w).0 ≢ err out_of_fuel)
          × ((fail_turn fuel child turn_seq message w).0 ≢ err out_of_fuel)
          × ((register_await fuel child turn_seq request id w).0 ≢ err out_of_fuel)
          × ((mark_await_responded fuel id request w).0 ≢ err out_of_fuel)
          × ((claim_call fuel id w).0 ≢ err out_of_fuel)
          × ((fail_for_parent_terminal fuel id w).0 ≢ err out_of_fuel)
          × ((fail_for_child_lost fuel child message w).0 ≢ err out_of_fuel)
    unfolding acknowledge_command complete_turn fail_turn register_await mark_await_responded
        claim_call fail_for_parent_terminal
    relations_end few = (
      loop_over _ fuel (λ u i. acknowledge_round-Outcome child id turn_seq u (located u i)) few,
      loop_over _ fuel
          (λ u i.
            update_round-Outcome child _ u (complete_update-Updates turn_seq result) (located u i))
          few,
      loop_over _ fuel
          (λ u i.
            update_round-Outcome child _ u (fail_update-Updates turn_seq message) (located u i))
          few,
      loop_over _ fuel (λ u i. await_round-Outcome child turn_seq request id u (located u i)) few,
      loop_over _ fuel (λ u i. respond_round-Outcome id request u (located u i)) few,
      loop_over _ fuel (λ u i. claim_round-Outcome id u (keyed_at id u i)) few,
      loop_over _ fuel
          (λ u i.
            close_round-Outcome id parent_terminal "parent_terminal" parent_message u
              (keyed_at id u i))
          few,
      lost_ends few,
    )
