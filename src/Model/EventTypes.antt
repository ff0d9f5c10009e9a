-- ===== src/Model/EventTypes.antt =====
-- src/shared/models/event.ts: the event types by their wire names, which the code compares.
use text.Mathlib.TextEquality.{eq_iff}
use newconduit.Base.{
  Bool, Comparable, List, Option, String, [], ap, find, nat_eq, option_eq, pair_eq, refl, some,
  string_eq, true, ◌==◌, ◌↔◌, ◌∷◌, ◌≡◌,
}

pub data EventType : Type 0 where
  session_create_requested : EventType
  session_created : EventType
  session_created_ack : EventType
  session_catalog_updated : EventType
  session_status_updated : EventType
  session_list_requested : EventType
  session_listed : EventType
  session_events_requested : EventType
  session_events_replayed : EventType
  case_pairing_mint_requested : EventType
  case_pairing_minted : EventType
  case_devices_requested : EventType
  case_devices_provided : EventType
  session_assign : EventType
  session_input : EventType
  input_received : EventType
  input_accepted : EventType
  input_accepted_ack : EventType
  agent_output : EventType
  turn_completed : EventType
  turn_failed : EventType
  status_changed : EventType
  session_pause_requested : EventType
  snapshot_created : EventType
  session_paused : EventType
  session_resume_requested : EventType
  session_resumed : EventType
  session_cancel_requested : EventType
  session_cancelled : EventType
  worker_registered : EventType
  worker_heartbeat : EventType
  worker_drain_requested : EventType
  worker_draining : EventType
  worker_close_requested : EventType
  worker_closed : EventType
  worker_expired : EventType
  worker_heartbeat_rejected : EventType
  worker_command_accepted : EventType
  worker_command_rejected : EventType
  worker_result_acknowledged : EventType
  session_lease_lost : EventType
  agent_interaction_requested : EventType
  interaction_requested : EventType
  interaction_responded : EventType
  interaction_interrupted : EventType
  interaction_respond_requested : EventType
  interaction_responded_ack : EventType
  session_interaction_response : EventType
  runtime_tool_requested : EventType
  session_runtime_tool_response : EventType

unfoldable pub wire_name : EventType → String
wire_name session_create_requested = "session.create.requested"
wire_name session_created = "session.created"
wire_name session_created_ack = "session.created.ack"
wire_name session_catalog_updated = "session.catalog.updated"
wire_name session_status_updated = "session.status.updated"
wire_name session_list_requested = "session.list.requested"
wire_name session_listed = "session.listed"
wire_name session_events_requested = "session.events.requested"
wire_name session_events_replayed = "session.events.replayed"
wire_name case_pairing_mint_requested = "case.pairing.mint.requested"
wire_name case_pairing_minted = "case.pairing.minted"
wire_name case_devices_requested = "case.devices.requested"
wire_name case_devices_provided = "case.devices.provided"
wire_name session_assign = "session.assign"
wire_name session_input = "session.input"
wire_name input_received = "input.received"
wire_name input_accepted = "input.accepted"
wire_name input_accepted_ack = "input.accepted.ack"
wire_name agent_output = "agent.output"
wire_name turn_completed = "turn.completed"
wire_name turn_failed = "turn.failed"
wire_name status_changed = "status.changed"
wire_name session_pause_requested = "session.pause.requested"
wire_name snapshot_created = "snapshot.created"
wire_name session_paused = "session.paused"
wire_name session_resume_requested = "session.resume.requested"
wire_name session_resumed = "session.resumed"
wire_name session_cancel_requested = "session.cancel.requested"
wire_name session_cancelled = "session.cancelled"
wire_name worker_registered = "worker.registered"
wire_name worker_heartbeat = "worker.heartbeat"
wire_name worker_drain_requested = "worker.drain.requested"
wire_name worker_draining = "worker.draining"
wire_name worker_close_requested = "worker.close.requested"
wire_name worker_closed = "worker.closed"
wire_name worker_expired = "worker.expired"
wire_name worker_heartbeat_rejected = "worker.heartbeat.rejected"
wire_name worker_command_accepted = "worker.command.accepted"
wire_name worker_command_rejected = "worker.command.rejected"
wire_name worker_result_acknowledged = "worker.result.acknowledged"
wire_name session_lease_lost = "session.lease.lost"
wire_name agent_interaction_requested = "agent.interaction.requested"
wire_name interaction_requested = "interaction.requested"
wire_name interaction_responded = "interaction.responded"
wire_name interaction_interrupted = "interaction.interrupted"
wire_name interaction_respond_requested = "interaction.respond.requested"
wire_name interaction_responded_ack = "interaction.responded.ack"
wire_name session_interaction_response = "session.interaction.response"
wire_name runtime_tool_requested = "runtime.tool.requested"
wire_name session_runtime_tool_response = "session.runtime.tool.response"

event_types : List EventType
event_types =
    session_create_requested ∷ session_created ∷ session_created_ack ∷ session_catalog_updated
    ∷ session_status_updated ∷ session_list_requested ∷ session_listed ∷ session_events_requested
    ∷ session_events_replayed ∷ case_pairing_mint_requested ∷ case_pairing_minted
    ∷ case_devices_requested ∷ case_devices_provided ∷ session_assign ∷ session_input
    ∷ input_received ∷ input_accepted ∷ input_accepted_ack ∷ agent_output ∷ turn_completed
    ∷ turn_failed ∷ status_changed ∷ session_pause_requested ∷ snapshot_created ∷ session_paused
    ∷ session_resume_requested ∷ session_resumed ∷ session_cancel_requested ∷ session_cancelled
    ∷ worker_registered ∷ worker_heartbeat ∷ worker_drain_requested ∷ worker_draining
    ∷ worker_close_requested ∷ worker_closed ∷ worker_expired ∷ worker_heartbeat_rejected
    ∷ worker_command_accepted ∷ worker_command_rejected ∷ worker_result_acknowledged
    ∷ session_lease_lost ∷ agent_interaction_requested ∷ interaction_requested
    ∷ interaction_responded ∷ interaction_interrupted ∷ interaction_respond_requested
    ∷ interaction_responded_ack ∷ session_interaction_response ∷ runtime_tool_requested
    ∷ session_runtime_tool_response ∷ []

named : String → List EventType → Option EventType
unfolding wire_name
named n types = find (λ t. wire_name t == n) types

named-wire_name : (t : EventType) → named (wire_name t) event_types ≡ some t
unfolding named event_types
named-wire_name session_create_requested = refl
named-wire_name session_created = refl
named-wire_name session_created_ack = refl
named-wire_name session_catalog_updated = refl
named-wire_name session_status_updated = refl
named-wire_name session_list_requested = refl
named-wire_name session_listed = refl
named-wire_name session_events_requested = refl
named-wire_name session_events_replayed = refl
named-wire_name case_pairing_mint_requested = refl
named-wire_name case_pairing_minted = refl
named-wire_name case_devices_requested = refl
named-wire_name case_devices_provided = refl
named-wire_name session_assign = refl
named-wire_name session_input = refl
named-wire_name input_received = refl
named-wire_name input_accepted = refl
named-wire_name input_accepted_ack = refl
named-wire_name agent_output = refl
named-wire_name turn_completed = refl
named-wire_name turn_failed = refl
named-wire_name status_changed = refl
named-wire_name session_pause_requested = refl
named-wire_name snapshot_created = refl
named-wire_name session_paused = refl
named-wire_name session_resume_requested = refl
named-wire_name session_resumed = refl
named-wire_name session_cancel_requested = refl
named-wire_name session_cancelled = refl
named-wire_name worker_registered = refl
named-wire_name worker_heartbeat = refl
named-wire_name worker_drain_requested = refl
named-wire_name worker_draining = refl
named-wire_name worker_close_requested = refl
named-wire_name worker_closed = refl
named-wire_name worker_expired = refl
named-wire_name worker_heartbeat_rejected = refl
named-wire_name worker_command_accepted = refl
named-wire_name worker_command_rejected = refl
named-wire_name worker_result_acknowledged = refl
named-wire_name session_lease_lost = refl
named-wire_name agent_interaction_requested = refl
named-wire_name interaction_requested = refl
named-wire_name interaction_responded = refl
named-wire_name interaction_interrupted = refl
named-wire_name interaction_respond_requested = refl
named-wire_name interaction_responded_ack = refl
named-wire_name session_interaction_response = refl
named-wire_name runtime_tool_requested = refl
named-wire_name session_runtime_tool_response = refl

abbrev event_type_beq : EventType → EventType → Bool
event_type_beq a b = wire_name a == wire_name b

-- Two types are told apart by their names.
pub event_type_beq_iff : (a b : EventType) → (event_type_beq a b ≡ true) ↔ (a ≡ b)
event_type_beq_iff a b = (
  (λ h. cc (named-wire_name a, named-wire_name b, (eq_iff (wire_name a) (wire_name b)).0 h)),
  (λ e. (eq_iff _ _).1 (ap wire_name e)),
)

instance abbrev pub event_type_eq : Comparable EventType
event_type_eq = record { equal = event_type_beq; equal_iff = event_type_beq_iff }
