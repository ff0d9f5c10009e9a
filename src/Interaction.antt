-- ===== src/Interaction.antt =====
-- src/central/managers/interaction/interaction-manager.ts: the records that its conditional writes make
-- of an interaction. Interaction.Update, Views, Reconcile, Admit, Answer and Manager have its
-- operations; the other modules below have the proofs.
pub mod Update
pub mod Views
pub mod Reconcile
pub mod Admit
pub mod Answer
pub mod Manager
pub mod Transitions
pub mod Turns
pub mod Loops
pub mod Resolution
pub mod Kept
pub mod Admission
pub mod Files
pub mod Calls
pub mod Final
pub mod Recorded
use newconduit.Base.{
  Bool, List, String, false, if◌then◌else◌, list_eq, map, nat_eq, none, option_eq, pair_eq, some,
  string_eq, true, ℕ, ◌+◌, ◌==◌,
}
use newconduit.Model.{
  DeliveryState, InteractionRecord, InteractionResolution, InteractionState, InteractionView,
  InterruptionReason, abandoned, accepted, condition_eq, event_type_eq, interrupted, lifecycle_eq,
  open_interaction, pending_delivery, resolved, status_eq,
}

abbrev pub is_open_state : InteractionState → Bool
is_open_state open_interaction = true
is_open_state _ = false

abbrev pub is_resolved : InteractionState → Bool
is_resolved resolved = true
is_resolved _ = false

abbrev pub is_interrupted : InteractionState → Bool
is_interrupted interrupted = true
is_interrupted _ = false

abbrev pub is_pending_delivery : DeliveryState → Bool
is_pending_delivery pending_delivery = true
is_pending_delivery _ = false

abbrev pub is_accepted_delivery : DeliveryState → Bool
is_accepted_delivery accepted = true
is_accepted_delivery _ = false

abbrev pub is_abandoned : DeliveryState → Bool
is_abandoned abandoned = true
is_abandoned _ = false

-- `resolve`.
pub resolved_with :
    InteractionRecord
    → InteractionResolution
    → String
    → List InteractionView
    → ℕ
    → InteractionRecord
resolved_with x resolution command views t = record x {
  state = resolved;
  resolution = some resolution;
  delivery = record { state = pending_delivery; command_event_id = some command };
  views = views;
  revision = x.revision + 1;
  updated_at = t;
}

pub delivered_to : DeliveryState → InteractionRecord → ℕ → InteractionRecord
delivered_to state x t = record x {
  delivery = record x.delivery { state = state };
  revision = x.revision + 1;
  updated_at = t;
}

pub interrupted_for :
    InteractionRecord → InterruptionReason → ℕ → List InteractionView → ℕ → InteractionRecord
interrupted_for x reason at views t = record x {
  state = interrupted;
  interruption = some (record { reason = reason; interrupted_at = at });
  delivery = record { state = abandoned; command_event_id = none };
  views = views;
  revision = x.revision + 1;
  updated_at = t;
}

-- `markViewProjected`.
pub data Projection : Type 0 where
  of_request of_response of_interruption : Projection

abbrev pub mark_view : Projection → InteractionView → InteractionView
mark_view of_request v = record v { requested_projected = true }
mark_view of_response v = record v { responded_projected = true }
mark_view of_interruption v = record v { interrupted_projected = true }

pub mark_one : Projection → String → InteractionView → InteractionView
mark_one p session v = if v.session_id == session then mark_view p v else v

pub projected : Projection → String → InteractionRecord → ℕ → InteractionRecord
unfolding mark_one
projected p session x t = record x {
  views = map (mark_one p session) x.views;
  revision = x.revision + 1;
  updated_at = t;
}
