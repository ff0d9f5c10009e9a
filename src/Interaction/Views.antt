-- ===== src/Interaction/Views.antt =====
-- src/central/managers/interaction/interaction-manager.ts: the events of an interaction in the sessions
-- that see it. The chain of promises makes the projections into one session run one after another.
use newconduit.Base.{
  List, String, [], find, list_eq, ltb, nat_eq, none, option_eq, pair_eq, present, some, string_eq,
  ℕ, ◌+◌, ◌==◌, ◌∷◌,
}
use newconduit.Interaction.{Projection, of_interruption, of_request, of_response}
use newconduit.Interaction.Update.{mark_view_projected}
use newconduit.Model.{
  EventType, InteractionRecord, InteractionView, Payload, SessionRecord, central, condition_eq,
  event_type_eq, interaction_answered, interaction_ended, interaction_interrupted,
  interaction_opened, interaction_requested, interaction_responded, lifecycle_eq, session_events,
  status_eq,
}
use newconduit.Session.EventLog.{append}
use newconduit.Session.Lifecycle.{advance_event_cursor}
use newconduit.Storage.Records.{read_events, read_session}
use newconduit.World.{
  M, branch, on_option, projection_missing, publish, pure, require, session_not_found, ◌>>=◌, ◌>>◌,
}

abbrev pub require_session : String → M SessionRecord
require_session id = do found ← read_session id; require found session_not_found

unfoldable pub append_view_event : InteractionView → String → EventType → Payload → M (Unit {0})
unfolding read_events read_session append advance_event_cursor
append_view_event v id type payload = do
  log ← read_events v.session_id 0
  s ← require_session v.session_id
  event ←
      on_option (find (λ e. e.event_id == id) log)
        (append (record {
          event_id = some id;
          type = type;
          actor = central;
          payload = payload;
          sequence = s.event_cursor + 1;
          session_id = some v.session_id;
          worker_id = none;
          ack_id = none;
          turn_seq = some v.turn_seq;
          session_lease_id = none;
        }))
        pure
  branch (ltb s.event_cursor event.sequence)
      (advance_event_cursor s event.sequence >>= λ s'. pure tt) (pure tt)
  publish (session_events v.session_id) event

-- `projectRequested`, `projectResponded` and `projectInterrupted`.
unfoldable pub project : Projection → InteractionRecord → InteractionView → M (Unit {0})
unfolding append_view_event
project of_request x v =
    append_view_event v v.requested_event_id interaction_requested
      (interaction_opened x.interaction_id x.kind x.request v.source)
project of_response x v = do
  r ← require x.resolution projection_missing
  id ← require (present v.responded_event_id) projection_missing
  append_view_event v id interaction_responded
      (interaction_answered x.interaction_id x.kind r.response)
project of_interruption x v = do
  r ← require x.interruption projection_missing
  id ← require (present v.interrupted_event_id) projection_missing
  append_view_event v id interaction_interrupted
      (interaction_ended x.interaction_id x.kind r.reason)

-- The views that are not projected yet, one after another.
unfoldable pub project_each :
    ℕ → Projection → List InteractionView → InteractionRecord → M InteractionRecord
unfolding project mark_view_projected
project_each fuel p [] x = pure x
project_each fuel p (v ∷ vs) x = do
  project p x v
  next ← mark_view_projected fuel x.interaction_id v.session_id p
  project_each fuel p vs next
