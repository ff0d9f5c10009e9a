-- ===== src/Delegation/Queue.antt =====
-- The queue of src/central/managers/delegation/delegation-dispatcher.ts: the first part of
-- `dispatchNextOnce`, up to the conditional write.
-- The call with the lowest number: the first element after a stable sort.
use newconduit.Base.{List, Option, String, [], if◌then◌else◌, keep, ltb, none, some, ℕ, ◌∷◌}
use newconduit.Delegation.{bound_call, dispatched, is_open_relation, is_queued}
use newconduit.Delegation.Rounds.{active_in, commit_relation}
use newconduit.Model.{DelegationCallRecord, DelegationRecord, pending_command}
use newconduit.Storage.Records.{read_delegation, read_session}
use newconduit.World.{M, branch, child_missing, now, on_option, pure, random_uuid, require, ◌>>=◌}
use newconduit.World.Retry.{retry}

unfoldable pub earliest : DelegationCallRecord → List DelegationCallRecord → DelegationCallRecord
earliest best [] = best
earliest best (c ∷ cs) = earliest (if ltb c.call_seq best.call_seq then c else best) cs

abbrev pub next_queued : List DelegationCallRecord → Option DelegationCallRecord
next_queued [] = none
next_queued (c ∷ cs) = some (earliest c cs)

-- One round: the relation that was read has an active call, or its next call becomes active.
unfoldable pub claim_round : String → M (Option (Option (DelegationRecord × DelegationCallRecord)))
unfolding read_delegation read_session commit_relation bound_call dispatched earliest active_in
claim_round id = do
  found ← read_delegation id
  on_option found (pure (some none)) (λ d.
      branch (is_open_relation d.status)
        (on_option (active_in d.active_call_id d.calls)
          (on_option (next_queued (keep (λ c. is_queued c.status) d.calls)) (pure (some none)) (λ c.
            do
              child ← read_session d.child_session_id
              s ← require child child_missing
              t ← now
              input_id ← random_uuid
              command_id ← random_uuid
              let active =
                  bound_call c
                    (record {
                      child_turn_seq = s.next_turn_seq;
                      input_event_id = input_id;
                      command_event_id = command_id;
                      command_state = pending_command;
                    })
                    t
              let next = dispatched d active t
              commit_relation d next (some (next, active))))
          (λ c. pure (some (some (d, c)))))
        (pure (some none)))

unfoldable pub claim_call : ℕ → String → M (Option (DelegationRecord × DelegationCallRecord))
unfolding claim_round
claim_call fuel id = retry fuel (claim_round id)
