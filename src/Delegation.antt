-- ===== src/Delegation.antt =====
-- src/central/managers/delegation: the records that delegation-manager.ts and
-- delegation-dispatcher.ts write. Each of them is a function of the record that was read.
pub mod Rounds
pub mod Start
pub mod Queue
pub mod Dispatch
pub mod Changes
pub mod Soundness
pub mod Steps
pub mod Worlds
pub mod Operations
pub mod Awaits
pub mod Claims
pub mod Kept
pub mod Opening
pub mod Appending
pub mod Checks
pub mod Room
pub mod Starting
pub mod Tables
pub mod Tails
pub mod Order
pub mod Runs
use newconduit.Base.{
  Bool, Option, String, [], false, if◌then◌else◌, list_eq, map, nat_eq, none, option_eq, pair_eq,
  some, string_eq, true, truthy, ℕ, ◌++◌, ◌+◌, ◌==◌, ◌∷◌,
}
use newconduit.Model.{
  DelegationCallAwaitRequest, DelegationCallDispatch, DelegationCallRecord, DelegationCallStatus,
  DelegationCloseReason, DelegationFailure, DelegationRecord, DelegationStatus, accepted_command,
  active_call, active_call_failed, cancel_requested, cancelled_call, completed_call, condition_eq,
  creating_child, event_type_eq, expired_call, failed, failed_call, failed_relation, lifecycle_eq,
  open_relation, queued_call, status_eq,
}
use newconduit.Session.Pause.{request}

abbrev pub is_terminal_call : DelegationCallStatus → Bool
is_terminal_call completed_call = true
is_terminal_call failed_call = true
is_terminal_call cancelled_call = true
is_terminal_call expired_call = true
is_terminal_call _ = false

abbrev pub is_queued : DelegationCallStatus → Bool
is_queued queued_call = true
is_queued _ = false

-- A call whose turn was handed to the child session and is not over.
abbrev pub is_claimed : DelegationCallStatus → Bool
is_claimed active_call = true
is_claimed cancel_requested = true
is_claimed _ = false

abbrev pub is_creating : DelegationStatus → Bool
is_creating creating_child = true
is_creating _ = false

abbrev pub is_open_relation : DelegationStatus → Bool
is_open_relation open_relation = true
is_open_relation _ = false

pub swap_call : DelegationCallRecord → DelegationCallRecord → DelegationCallRecord
swap_call c x = if x.delegation_call_id == c.delegation_call_id then c else x

pub replace_call : DelegationRecord → DelegationCallRecord → DelegationRecord
unfolding swap_call
replace_call d c = record d { calls = map (swap_call c) d.calls }

-- `createCall`.
unfoldable pub new_call :
    String → String → ℕ → ℕ → String → String → String → ℕ → ℕ → DelegationCallRecord
new_call id relation seq turn_seq request_id input hash deadline_ms t = record {
  delegation_call_id = id;
  delegation_id = relation;
  call_seq = seq;
  caller_turn_seq = turn_seq;
  caller_tool_request_id = request_id;
  input = input;
  input_hash = hash;
  status = queued_call;
  dispatch = none;
  await_requests = [];
  result = none;
  result_digest = none;
  failure = none;
  cancel_reason = none;
  deadline_at = t + deadline_ms;
  created_at = t;
  updated_at = t;
}

pub appended : DelegationRecord → DelegationCallRecord → ℕ → DelegationRecord
appended d c t = record d {
  calls = d.calls ++ c ∷ [];
  next_call_seq = d.next_call_seq + 1;
  revision = d.revision + 1;
  updated_at = t;
}

pub opened : DelegationRecord → ℕ → DelegationRecord
opened d t = record d { status = open_relation; revision = d.revision + 1; updated_at = t }

-- The call with its binding to a turn of the child, and the relation that it is active in.
pub bound_call : DelegationCallRecord → DelegationCallDispatch → ℕ → DelegationCallRecord
bound_call c dispatch t = record c {
  status = active_call;
  dispatch = some dispatch;
  updated_at = t;
}

pub dispatched : DelegationRecord → DelegationCallRecord → ℕ → DelegationRecord
unfolding replace_call
dispatched d c t = record (replace_call d c) {
  active_call_id = some c.delegation_call_id;
  revision = d.revision + 1;
  updated_at = t;
}

abbrev accepted_dispatch : Option DelegationCallDispatch → Option DelegationCallDispatch
accepted_dispatch none = none
accepted_dispatch (some p) = some (record p { command_state = accepted_command })

pub accepted_call : DelegationCallRecord → ℕ → DelegationCallRecord
accepted_call c t = record c { dispatch = accepted_dispatch c.dispatch; updated_at = t }

-- A replacement of a call that keeps its status, with the next revision.
pub amended : DelegationRecord → DelegationCallRecord → ℕ → DelegationRecord
unfolding replace_call
amended d c t = record (replace_call d c) { revision = d.revision + 1; updated_at = t }

pub completed_one : DelegationCallRecord → String → String → ℕ → DelegationCallRecord
completed_one c result digest t = record c {
  status = completed_call;
  result = some result;
  result_digest = some digest;
  updated_at = t;
}

pub failed_one : DelegationCallRecord → DelegationFailure → ℕ → DelegationCallRecord
failed_one c failure t = record c { status = failed_call; failure = some failure; updated_at = t }

-- `completeTurn` and `failTurn`, before the revision is set.
pub completed_relation : DelegationRecord → DelegationCallRecord → DelegationRecord
unfolding replace_call
completed_relation d c = record (replace_call d c) { active_call_id = none }

pub fail_queued : DelegationCallRecord → String → ℕ → DelegationCallRecord → DelegationCallRecord
unfolding failed_one
fail_queued ended message t x =
    if x.delegation_call_id == ended.delegation_call_id
    then ended
    else if is_queued x.status
    then failed_one x (record { code = "delegation_closed"; message = message }) t
    else x

pub failed_by_turn : DelegationRecord → DelegationCallRecord → String → ℕ → DelegationRecord
unfolding fail_queued
failed_by_turn d ended message t = record d {
  active_call_id = none;
  status = failed_relation;
  close_reason = some active_call_failed;
  failure = ended.failure;
  calls = map (fail_queued ended message t) d.calls;
}

pub revised : DelegationRecord → DelegationRecord → ℕ → DelegationRecord
revised d next t = record next { revision = d.revision + 1; updated_at = t }

pub fail_unless_terminal : DelegationFailure → ℕ → DelegationCallRecord → DelegationCallRecord
unfolding failed_one
fail_unless_terminal failure t x = if is_terminal_call x.status then x else failed_one x failure t

-- `closeForTerminal`.
pub closed_for : DelegationRecord → DelegationCloseReason → DelegationFailure → ℕ → DelegationRecord
unfolding fail_unless_terminal
closed_for d reason failure t = record d {
  status = failed_relation;
  active_call_id = none;
  close_reason = some reason;
  failure = some failure;
  calls = map (fail_unless_terminal failure t) d.calls;
  revision = d.revision + 1;
  updated_at = t;
}

pub awaited_call : DelegationCallRecord → String → String → ℕ → ℕ → DelegationCallRecord
awaited_call c request parent turn_seq t = record c {
  await_requests =
      c.await_requests
      ++ record {
        request_id = request;
        parent_session_id = parent;
        parent_turn_seq = turn_seq;
        is_responded = false;
        requested_at = t;
        responded_at = none;
      }
        ∷ [];
  updated_at = t;
}

abbrev respond_one : String → ℕ → DelegationCallAwaitRequest → DelegationCallAwaitRequest
respond_one request t x =
    if x.request_id == request then record x { is_responded = true; responded_at = some t } else x

pub responded_call : DelegationCallRecord → String → ℕ → DelegationCallRecord
responded_call c request t = record c {
  await_requests = map (respond_one request t) c.await_requests;
  updated_at = t;
}
