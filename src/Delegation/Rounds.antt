-- ===== src/Delegation/Rounds.antt =====
-- The loops of src/central/managers/delegation/delegation-manager.ts on a stored relation, one round
-- each: read, decide, let other tasks run, write if the revision is still the one that was read.
use newconduit.Admission.{digest_json, validate_result}
use newconduit.Base.{
  Bool, List, Option, String, [], any, false, find, if◌then◌else◌, join, list_eq, nat_eq, none, not,
  option_eq, pair_eq, some, string_eq, true, ℕ, ◌&&◌, ◌==◌, ◌||◌, ◌∷◌,
}
use newconduit.Delegation.{
  accepted_call, amended, awaited_call, closed_for, completed_one, completed_relation,
  failed_by_turn, failed_one, is_terminal_call, responded_call, revised,
}
use newconduit.Fanout.Operations.{later}
use newconduit.Model.{
  DelegationCallAwaitRequest, DelegationCallDispatch, DelegationCallRecord, DelegationCloseReason,
  DelegationRecord, accepted_command, child_terminal, condition_eq, event_type_eq, lifecycle_eq,
  parent_terminal, pending_command, status_eq,
}
use newconduit.Session.Pause.{request}
use newconduit.Storage.Claims.{compare_and_set_delegation}
use newconduit.Storage.Records.{read_delegation, read_delegations}
use newconduit.World.{
  M, branch, call_not_found, ensure, gets, no_active_call, no_relation, now, on_option, pure,
  require, unmatched_command, unmatched_turn, ◌>>=◌, ◌>>◌,
}
use newconduit.World.Contend.{contend}
use newconduit.World.Retry.{retry}

abbrev pub by_child : String → DelegationRecord → Bool
by_child child d = d.child_session_id == child

unfoldable pub commit_relation {ℓ} :
    {A : Type ℓ} → DelegationRecord → DelegationRecord → A → M (Option A)
unfolding contend
commit_relation d next a = contend (compare_and_set_delegation d.revision next) a

abbrev pub is_command : String → ℕ → Option DelegationCallDispatch → Bool
is_command event_id turn_seq none = false
is_command event_id turn_seq (some p) =
    p.command_event_id == event_id && p.child_turn_seq == turn_seq

abbrev pub is_accepted : Option DelegationCallDispatch → Bool
is_accepted none = false
is_accepted (some p) = elim p.command_state [ accepted_command ↦ true | pending_command ↦ false ]

unfoldable pub acknowledge_round : String → String → ℕ → M (Option (Unit {0}))
unfolding read_delegations commit_relation
acknowledge_round child event_id turn_seq = do
  all ← read_delegations
  d ← require (find (by_child child) all) no_relation
  c ← require (find (λ x. is_command event_id turn_seq x.dispatch) d.calls) unmatched_command
  branch (is_accepted c.dispatch || is_terminal_call c.status) (pure (some tt))
      (do t ← now; later ← now; commit_relation d (amended d (accepted_call c t) later) tt)

unfoldable pub acknowledge_command : ℕ → String → String → ℕ → M (Unit {0})
unfolding acknowledge_round
acknowledge_command fuel child event_id turn_seq =
    retry fuel (acknowledge_round child event_id turn_seq)

-- `updateByChildSession`: what `update` makes of the relation and its active call is written.
unfoldable pub active_in : Option String → List DelegationCallRecord → Option DelegationCallRecord
active_in none cs = none
active_in (some id) cs =
    let named = find (λ c. c.delegation_call_id == id) cs in if id == "" then none else named

abbrev pub active_of : DelegationRecord → Option DelegationCallRecord
active_of d = active_in d.active_call_id d.calls

unfoldable pub update_round {ℓ} :
    {A : Type ℓ}
    → String
    → (DelegationRecord → DelegationCallRecord → M (DelegationRecord × A))
    → M (Option A)
unfolding read_delegations commit_relation active_in
update_round child update = do
  all ← read_delegations
  d ← require (find (by_child child) all) no_active_call
  c ← require (active_of d) no_active_call
  changed ← update d c
  t ← now
  commit_relation d (revised d changed.0 t) changed.1

abbrev pub turn_of : Option DelegationCallDispatch → Option ℕ
turn_of none = none
turn_of (some p) = some p.child_turn_seq

unfoldable pub complete_update :
    ℕ
    → String
    → DelegationRecord
    → DelegationCallRecord
    → M (DelegationRecord × DelegationCallRecord)
complete_update turn_seq result d c = do
  ensure (turn_of c.dispatch == some turn_seq) unmatched_turn
  validate_result d.resolved_delegate result
  host ← gets λ w. w.host
  t ← now
  let done = completed_one c result (digest_json host result) t
  pure (completed_relation d done, done)

unfoldable pub complete_turn : ℕ → String → ℕ → String → M DelegationCallRecord
unfolding update_round complete_update
complete_turn fuel child turn_seq result =
    retry fuel (update_round child (complete_update turn_seq result))

unfoldable pub fail_update :
    ℕ → String → DelegationRecord → DelegationCallRecord → M (DelegationRecord × Unit {0})
fail_update turn_seq message d c = do
  ensure (turn_of c.dispatch == some turn_seq) unmatched_turn
  t ← now
  let ended = failed_one c (record { code = "child_turn_failed"; message = message }) t
  pure (failed_by_turn d ended message t, tt)

unfoldable pub fail_turn : ℕ → String → ℕ → String → M (Unit {0})
unfolding update_round fail_update
fail_turn fuel child turn_seq message =
    retry fuel (update_round child (fail_update turn_seq message))

abbrev pub reason_is : DelegationCloseReason → Option DelegationCloseReason → Bool
reason_is parent_terminal (some parent_terminal) = true
reason_is child_terminal (some child_terminal) = true
reason_is _ _ = false

unfoldable pub close_round :
    String
    → DelegationCloseReason
    → String
    → (DelegationRecord → String)
    → M (Option (Option DelegationRecord))
unfolding read_delegation commit_relation
close_round id reason code message = do
  found ← read_delegation id
  on_option found (pure (some none)) (λ d.
      branch (reason_is reason d.close_reason) (pure (some (some d))) (do
        t ← now
        let next = closed_for d reason (record { code = code; message = message d }) t
        commit_relation d next (some next)))

unfoldable pub close_for_terminal :
    ℕ
    → String
    → DelegationCloseReason
    → String
    → (DelegationRecord → String)
    → M (Option DelegationRecord)
unfolding close_round
close_for_terminal fuel id reason code message = retry fuel (close_round id reason code message)

abbrev pub parent_message : DelegationRecord → String
parent_message d = join ("Parent Session " ∷ d.parent_session_id ∷ " is terminal" ∷ [])

unfoldable pub fail_for_parent_terminal : ℕ → String → M (Option DelegationRecord)
unfolding close_for_terminal
fail_for_parent_terminal fuel id =
    close_for_terminal fuel id parent_terminal "parent_terminal" parent_message

unfoldable pub fail_for_child_lost : ℕ → String → String → M (Option DelegationRecord)
unfolding read_delegations close_for_terminal
fail_for_child_lost fuel child message = do
  all ← read_delegations
  on_option (find (by_child child) all) (pure none) (λ d.
      close_for_terminal fuel d.delegation_id child_terminal "child_session_lost" (λ x. message))

-- `readCall`: the first relation with a call of the identifier.
unfoldable pub find_call :
    String → List DelegationRecord → Option (DelegationRecord × DelegationCallRecord)
find_call id [] = none
find_call id (d ∷ ds) =
    let rest = find_call id ds in
    elim (find (λ c. c.delegation_call_id == id) d.calls) [ none ↦ rest | some c ↦ some (d, c) ]

unfoldable pub read_call : String → M (Option (DelegationRecord × DelegationCallRecord))
unfolding read_delegations find_call
read_call id = do all ← read_delegations; pure (find_call id all)

unfoldable pub await_round : String → ℕ → String → String → M (Option DelegationCallRecord)
unfolding read_call commit_relation
await_round parent turn_seq request id = do
  found ← read_call id
  x ← require found call_not_found
  ensure (x.0.parent_session_id == parent) call_not_found
  branch (any (λ a. a.request_id == request) x.1.await_requests) (pure (some x.1)) (do
    t ← now
    let c = awaited_call x.1 request parent turn_seq t
    commit_relation x.0 (amended x.0 c t) c)

unfoldable pub register_await : ℕ → String → ℕ → String → String → M DelegationCallRecord
unfolding await_round
register_await fuel parent turn_seq request id = retry fuel (await_round parent turn_seq request id)

abbrev pub needs_response : Option DelegationCallAwaitRequest → Bool
needs_response none = false
needs_response (some a) = not a.is_responded

unfoldable pub respond_round : String → String → M (Option (Unit {0}))
unfolding read_call commit_relation
respond_round id request = do
  found ← read_call id
  x ← require found call_not_found
  branch (needs_response (find (λ a. a.request_id == request) x.1.await_requests))
      (do t ← now; commit_relation x.0 (amended x.0 (responded_call x.1 request t) t) tt)
      (pure (some tt))

unfoldable pub mark_await_responded : ℕ → String → String → M (Unit {0})
unfolding respond_round
mark_await_responded fuel id request = retry fuel (respond_round id request)
