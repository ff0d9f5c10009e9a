-- ===== src/Model/Interaction.antt =====
-- src/shared/models/interaction.ts.
use newconduit.Base.{Bool, List, Option, String, ℕ}
use newconduit.Model.Json.{JsonValue}
use newconduit.Model.Session.{InteractionKind}

pub data ViewRole : Type 0 where
  owner_view parent_projection : ViewRole

pub record InteractionView : Type 0 where
  pub session_id : String
  pub turn_seq : ℕ
  pub role : ViewRole
  pub source : Option (String × String)
  pub requested_event_id : String
  pub requested_projected : Bool
  pub responded_event_id : Option String
  pub responded_projected : Bool
  pub interrupted_event_id : Option String
  pub interrupted_projected : Bool

-- The response that `buildResponse` makes: a decision with its scope, or a tool's result.
pub data Response : Type 0 where
  decision : Bool → Bool → Response
  result_of : Option JsonValue → Response

pub record InteractionResolution : Type 0 where
  pub response : Response
  pub principal_id : String
  pub via_session_id : String
  pub resolved_at : ℕ

pub data InterruptionReason : Type 0 where
  owner_lease_lost owner_turn_failed owner_session_terminal : InterruptionReason

pub record InteractionInterruption : Type 0 where
  pub reason : InterruptionReason
  pub interrupted_at : ℕ

pub data DeliveryState : Type 0 where
  not_ready pending_delivery accepted abandoned : DeliveryState

pub record InteractionDelivery : Type 0 where
  pub state : DeliveryState
  pub command_event_id : Option String

pub data InteractionState : Type 0 where
  open_interaction resolved interrupted : InteractionState

pub record InteractionRecord : Type 0 where
  pub interaction_id : String
  pub tenant_id : String
  pub kind : InteractionKind
  pub request : JsonValue
  pub owner_session_id : String
  pub owner_turn_seq : ℕ
  pub adapter_request_id : String
  pub request_lease_id : String
  pub views : List InteractionView
  pub state : InteractionState
  pub resolution : Option InteractionResolution
  pub interruption : Option InteractionInterruption
  pub delivery : InteractionDelivery
  pub revision : ℕ
  pub created_at : ℕ
  pub updated_at : ℕ
