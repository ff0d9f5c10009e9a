-- ===== src/Model/Delegation.antt =====
-- src/shared/models/delegation.ts.
use newconduit.Base.{Bool, List, Option, String, ℕ}
use newconduit.Model.Agent.{ResolvedAgentSpec, ResolvedDelegate}

pub data DelegationStatus : Type 0 where
  creating_child open_relation closing closed_relation failed_relation : DelegationStatus

pub data DelegationCloseReason : Type 0 where
  parent_terminal active_call_cancelled active_call_expired active_call_failed child_terminal :
      DelegationCloseReason

pub data DelegationCallStatus : Type 0 where
  queued_call active_call cancel_requested completed_call failed_call cancelled_call expired_call :
      DelegationCallStatus

pub record DelegationFailure : Type 0 where
  pub code : String
  pub message : String

pub data CommandState : Type 0 where
  pending_command accepted_command : CommandState

pub record DelegationCallDispatch : Type 0 where
  pub child_turn_seq : ℕ
  pub input_event_id : String
  pub command_event_id : String
  pub command_state : CommandState

pub record DelegationCallAwaitRequest : Type 0 where
  pub request_id : String
  pub parent_session_id : String
  pub parent_turn_seq : ℕ
  pub is_responded : Bool
  pub requested_at : ℕ
  pub responded_at : Option ℕ

pub data CancelReason : Type 0 where
  by_caller by_deadline by_parent_terminal : CancelReason

pub record DelegationCallRecord : Type 0 where
  pub delegation_call_id : String
  pub delegation_id : String
  pub call_seq : ℕ
  pub caller_turn_seq : ℕ
  pub caller_tool_request_id : String
  pub input : String
  pub input_hash : String
  pub status : DelegationCallStatus
  pub dispatch : Option DelegationCallDispatch
  pub await_requests : List DelegationCallAwaitRequest
  pub result : Option String
  pub result_digest : Option String
  pub failure : Option DelegationFailure
  pub cancel_reason : Option CancelReason
  pub deadline_at : ℕ
  pub created_at : ℕ
  pub updated_at : ℕ

pub record DelegationRecord : Type 0 where
  pub delegation_id : String
  pub tenant_id : String
  pub parent_session_id : String
  pub child_session_id : String
  pub resolved_delegate : ResolvedDelegate
  pub resolved_callee_agent_spec : ResolvedAgentSpec
  pub status : DelegationStatus
  pub target_ref : Option String
  pub active_call_id : Option String
  pub next_call_seq : ℕ
  pub close_reason : Option DelegationCloseReason
  pub failure : Option DelegationFailure
  pub calls : List DelegationCallRecord
  pub revision : ℕ
  pub created_at : ℕ
  pub updated_at : ℕ
