-- ===== src/Model/Event.antt =====
-- src/shared/models/event.ts: events and the payloads that the modelled services build or read.
-- src/shared/contracts/transport.ts: the channels that they are published on.
use newconduit.Base.{List, Option, String, ℕ}
use newconduit.Model.Agent.{Labels, ResolvedAgentSpec}
use newconduit.Model.EventTypes.{EventType}
use newconduit.Model.Interaction.{InterruptionReason, Response}
use newconduit.Model.Json.{JsonValue}
use newconduit.Model.Session.{InteractionKind, SessionStatus}
use newconduit.Model.Snapshot.{SnapshotCaptureRef, SnapshotRestoreRef}
use newconduit.Model.Worker.{WorkerCondition}

pub data Actor : Type 0 where
  client central sidecar system : Actor

pub data PauseReason : Type 0 where
  idle_timeout client_requested by_parent : PauseReason

pub data ResumeReason : Type 0 where
  by_client by_delegation_call : ResumeReason

pub record SessionAssignPayload : Type 0 where
  pub session_id : String
  pub worker_id : String
  pub session_lease_id : String
  pub workspace_ref : String
  pub copilot_session_state_ref : String
  pub resolved_agent_spec : ResolvedAgentSpec
  pub restore : Option SnapshotRestoreRef

pub record SessionInputCommandPayload : Type 0 where
  pub session_id : String
  pub worker_id : String
  pub session_lease_id : String
  pub turn_seq : ℕ
  pub input : JsonValue

pub record SessionPauseCommandPayload : Type 0 where
  pub session_id : String
  pub worker_id : String
  pub session_lease_id : String
  pub reason : Option PauseReason
  pub capture : Option SnapshotCaptureRef

pub record InteractionResponseCommandPayload : Type 0 where
  pub session_id : String
  pub worker_id : String
  pub session_lease_id : String
  pub interaction_id : String
  pub adapter_request_id : String
  pub kind : InteractionKind
  pub response : Response

pub data Payload : Type 0 where
  json : JsonValue → Payload
  worker_profile : String → Labels → Option Labels → ℕ → ℕ → Payload
  worker_report : ℕ → ℕ → List WorkerCondition → ℕ → ℕ → Payload
  reason_only : String → Payload
  no_payload : Payload
  turn_error : String → String → Option String → Payload
  lease_lost : String → String → Payload
  session_state : String → SessionStatus → Option String → Payload
  catalog_entry : String → SessionStatus → Option String → Payload
  accepted_input : JsonValue → String → Payload
  accepted_call_input : JsonValue → String → Payload
  pause_requested : Option PauseReason → Payload
  pause_done : Option PauseReason → Payload
  resume_requested : Option ResumeReason → Payload
  assign_command : SessionAssignPayload → Payload
  input_command : SessionInputCommandPayload → Payload
  pause_command : SessionPauseCommandPayload → Payload
  interaction_opened : String → InteractionKind → JsonValue → Option (String × String) → Payload
  interaction_answered : String → InteractionKind → Response → Payload
  interaction_ended : String → InteractionKind → InterruptionReason → Payload
  interaction_command : InteractionResponseCommandPayload → Payload

pub record RuntimeEvent : Type 0 where
  pub event_id : String
  pub session_id : Option String
  pub worker_id : Option String
  pub ack_id : Option String
  pub turn_seq : Option ℕ
  pub sequence : ℕ
  pub type : EventType
  pub timestamp : ℕ
  pub actor : Actor
  pub session_lease_id : Option String
  pub payload : Payload

pub data RuntimeChannel : Type 0 where
  tenant_inbox client_inbox : RuntimeChannel
  client_private_inbox session_events worker_commands : String → RuntimeChannel
