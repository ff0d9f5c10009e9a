-- ===== src/Interaction/Answer.antt =====
-- src/central/managers/interaction/interaction-manager.ts: who may answer, and what an answer makes of an
-- open interaction.
use newconduit.Base.{
  Option, String, any, false, list_eq, nat_eq, option_eq, pair_eq, some, string_eq, ◌&&◌, ◌==◌,
  ◌||◌,
}
use newconduit.Interaction.{resolved_with}
use newconduit.Interaction.Views.{require_session}
use newconduit.Model.{
  InteractionKind, InteractionRecord, InteractionView, JsonValue, RequestContext, Response,
  approval, condition_eq, decision, event_type_eq, lifecycle_eq, result_of, status_eq, tool_call,
}
use newconduit.Session.EventLog.{event_id_or_new}
use newconduit.Storage.Records.{read_session}
use newconduit.World.{
  M, branch, collect, decision_required, ensure, interaction_not_found, not_visible, now, pure,
  random_uuid, ◌>>=◌, ◌>>◌,
}

pub record InteractionRespondRequestPayload : Type 0 where
  pub interaction_id : String
  pub decision : Option String
  pub scope : Option String
  pub result : Option JsonValue

-- `authorizeResponse`.
unfoldable pub authorize_response : InteractionRecord → String → RequestContext → M (Unit {0})
unfolding read_session
authorize_response x addressed_id context = do
  ensure (any (λ v. v.session_id == addressed_id) x.views) not_visible
  addressed ← require_session addressed_id
  owner ←
      branch (addressed_id == x.owner_session_id) (pure addressed)
        (require_session x.owner_session_id)
  ensure
      (addressed.owner == context.principal.principal_id
        && owner.owner == context.principal.principal_id)
      interaction_not_found

-- `buildResponse`.
abbrev pub build_response : InteractionKind → InteractionRespondRequestPayload → M Response
build_response approval reply = do
  let approves = reply.decision == some "approved"
  ensure (approves || reply.decision == some "denied") decision_required
  pure (decision approves (reply.scope == some "session"))
build_response tool_call reply = pure (result_of reply.result)

unfoldable pub answering_view : InteractionView → M InteractionView
unfolding event_id_or_new
answering_view v = do
  id ← event_id_or_new v.responded_event_id
  pure (record v { responded_event_id = some id; responded_projected = false })

unfoldable pub resolve_open :
    RequestContext
    → String
    → InteractionRespondRequestPayload
    → InteractionRecord
    → M InteractionRecord
unfolding answering_view
resolve_open context addressed_id reply x = do
  t ← now
  response ← build_response x.kind reply
  command ← random_uuid
  views ← collect x.views answering_view
  pure (
      resolved_with x
        (record {
          response = response;
          principal_id = context.principal.principal_id;
          via_session_id = addressed_id;
          resolved_at = t;
        })
        command views t)
