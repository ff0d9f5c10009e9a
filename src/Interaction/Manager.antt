-- ===== src/Interaction/Manager.antt =====
-- src/central/managers/interaction/interaction-manager.ts: the public operations.
use newconduit.Base.{
  Bool, Option, String, default, false, find, keep, list_eq, nat_eq, not, option_eq, pair_eq,
  present, some, string_eq, true, ℕ, ◌==◌,
}
use newconduit.Interaction.{is_accepted_delivery, is_interrupted, is_pending_delivery, is_resolved}
use newconduit.Interaction.Admit.{
  AgentInteractionRequestedPayload, build_views, is_same_admission, new_interaction,
}
use newconduit.Interaction.Reconcile.{reconcile_interaction, try_reconcile}
use newconduit.Interaction.Update.{accept_delivery, interrupt, is_for_command, update_interaction}
use newconduit.Interaction.Views.{require_session}
use newconduit.Model.{
  InteractionRecord, InterruptionReason, RequestContext, RuntimeEvent, condition_eq, event_type_eq,
  lifecycle_eq, status_eq,
}
use newconduit.Storage.Claims.{compare_and_set_interaction, create_interaction}
use newconduit.Storage.Records.{read_interaction, read_interactions, read_session}
use newconduit.Worker.Lease.{assert_current}
use newconduit.World.{
  M, adapter_request_reused, branch, ensure, event_without_lease, event_without_session,
  event_without_turn, for_each, gets, interaction_interrupted_already, interaction_not_found, now,
  on_option, pure, random_uuid, require, ◌>>=◌, ◌>>◌,
}
use newconduit.World.Contend.{contend}
use newconduit.World.Retry.{retry}
use newconduit.Interaction.Answer.{
  InteractionRespondRequestPayload, authorize_response, resolve_open,
}

pub data ResolveStatus : Type 0 where
  resolved_now already_resolved : ResolveStatus

pub record ResolveInteractionResult : Type 0 where
  pub interaction_id : String
  pub status : ResolveStatus

abbrev pub is_new_resolution : ResolveStatus → Bool
is_new_resolution resolved_now = true
is_new_resolution already_resolved = false

-- What follows the creation: the interaction that is stored is the candidate, or an earlier admission.
unfoldable pub finish_admission : ℕ → InteractionRecord → InteractionRecord → M InteractionRecord
unfolding try_reconcile read_interaction
finish_admission fuel candidate actual = do
  host ← gets λ w. w.host
  ensure (is_same_admission host actual candidate) adapter_request_reused
  try_reconcile fuel actual.interaction_id
  latest ← read_interaction actual.interaction_id
  pure (default latest actual)

module _ (tenant_id : String) where
  unfoldable pub admit_agent_request :
      ℕ → RuntimeEvent → AgentInteractionRequestedPayload → M InteractionRecord
  unfolding read_session build_views new_interaction create_interaction finish_admission
  admit_agent_request fuel event payload = do
    id ← require (present event.session_id) event_without_session
    owner ← require_session id
    lease ← require (present event.session_lease_id) event_without_lease
    assert_current owner lease
    turn_seq ← require event.turn_seq event_without_turn
    t ← now
    new_id ← random_uuid
    views ← build_views owner turn_seq
    let candidate = new_interaction tenant_id owner turn_seq lease payload new_id views t
    made ← create_interaction candidate
    finish_admission fuel candidate made.0

  -- One round of `resolve`.
  unfoldable pub resolve_round :
      RequestContext
      → String
      → InteractionRespondRequestPayload
      → M (Option ResolveInteractionResult)
  unfolding read_interaction authorize_response resolve_open contend
  resolve_round context addressed_id reply = do
    found ← read_interaction reply.interaction_id
    x ← require found interaction_not_found
    ensure (x.tenant_id == tenant_id) interaction_not_found
    authorize_response x addressed_id context
    branch (is_resolved x.state)
        (pure (some (record { interaction_id = x.interaction_id; status = already_resolved })))
        (do
          ensure (not (is_interrupted x.state)) interaction_interrupted_already
          next ← resolve_open context addressed_id reply x
          contend (compare_and_set_interaction x.revision next)
              (record { interaction_id = x.interaction_id; status = resolved_now }))

  unfoldable pub resolve :
      ℕ → RequestContext → String → InteractionRespondRequestPayload → M ResolveInteractionResult
  unfolding resolve_round try_reconcile
  resolve fuel context addressed_id reply = do
    r ← retry fuel (resolve_round context addressed_id reply)
    branch (is_new_resolution r.status) (try_reconcile fuel r.interaction_id >>= λ u. pure r)
        (pure r)

unfoldable pub acknowledge_delivery : ℕ → String → M Bool
unfolding update_interaction accept_delivery
acknowledge_delivery fuel command = do
  all ← read_interactions
  on_option (find (is_for_command command) all) (pure false) (λ x.
      branch (is_accepted_delivery x.delivery.state) (pure true) (
        branch (is_pending_delivery x.delivery.state)
          (update_interaction fuel x.interaction_id (accept_delivery command) >>= λ x'. pure true)
          (pure false)))

unfoldable pub reconcile : ℕ → M (Unit {0})
unfolding reconcile_interaction
reconcile fuel = do
  all ← read_interactions
  for_each all (λ x. reconcile_interaction fuel x.interaction_id)

unfoldable pub interrupt_for_owner_session : ℕ → String → InterruptionReason → M (Unit {0})
unfolding interrupt try_reconcile
interrupt_for_owner_session fuel owner reason = do
  all ← read_interactions
  for_each (keep (λ x. x.owner_session_id == owner) all)
      (λ x. interrupt fuel x.interaction_id reason >>= λ x'. try_reconcile fuel x.interaction_id)
