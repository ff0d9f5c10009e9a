-- ===== src/Interaction/Update.antt =====
-- src/central/managers/interaction/interaction-manager.ts: `update` and what it is called with.
-- One round of `update`.
use newconduit.Base.{
  Bool, Option, String, false, list_eq, nat_eq, none, option_eq, pair_eq, some, string_eq, ℕ, ◌&&◌,
  ◌==◌,
}
use newconduit.Interaction.{
  Projection, delivered_to, interrupted_for, is_open_state, is_pending_delivery, projected,
}
use newconduit.Model.{
  InteractionRecord, InteractionView, InterruptionReason, abandoned, accepted, condition_eq,
  event_type_eq, lifecycle_eq, status_eq,
}
use newconduit.Session.EventLog.{event_id_or_new}
use newconduit.Storage.Claims.{compare_and_set_interaction}
use newconduit.Storage.Records.{read_interaction}
use newconduit.World.{
  M, branch, collect, interaction_not_found, now, on_option, pure, require, ◌>>=◌,
}
use newconduit.World.Contend.{contend}
use newconduit.World.Retry.{retry}

unfoldable pub update_interaction_round :
    String → (InteractionRecord → M (Option InteractionRecord)) → M (Option InteractionRecord)
unfolding read_interaction contend
update_interaction_round id mutate = do
  found ← read_interaction id
  x ← require found interaction_not_found
  made ← mutate x
  on_option made (pure (some x))
      (λ next. contend (compare_and_set_interaction x.revision next) next)

unfoldable pub update_interaction :
    ℕ → String → (InteractionRecord → M (Option InteractionRecord)) → M InteractionRecord
unfolding update_interaction_round
update_interaction fuel id mutate = retry fuel (update_interaction_round id mutate)

abbrev pub is_for_command : String → InteractionRecord → Bool
is_for_command command x = x.delivery.command_event_id == some command

unfoldable pub accept_delivery : String → InteractionRecord → M (Option InteractionRecord)
accept_delivery command x =
    branch (is_for_command command x && is_pending_delivery x.delivery.state)
      (do t ← now; pure (some (delivered_to accepted x t))) (pure none)

unfoldable pub abandon_delivery : InteractionRecord → M (Option InteractionRecord)
abandon_delivery x =
    branch (is_pending_delivery x.delivery.state)
      (do t ← now; pure (some (delivered_to abandoned x t))) (pure none)

unfoldable pub ending_view : InteractionView → M InteractionView
ending_view v = do
  id ← event_id_or_new v.interrupted_event_id
  pure (record v { interrupted_event_id = some id; interrupted_projected = false })

unfoldable pub interrupt_open :
    InterruptionReason → InteractionRecord → M (Option InteractionRecord)
interrupt_open reason x =
    branch (is_open_state x.state)
      (do
        at ← now
        views ← collect x.views ending_view
        t ← now
        pure (some (interrupted_for x reason at views t)))
      (pure none)

unfoldable pub interrupt : ℕ → String → InterruptionReason → M InteractionRecord
unfolding update_interaction interrupt_open
interrupt fuel id reason = update_interaction fuel id (interrupt_open reason)

unfoldable pub mark_projected :
    Projection → String → InteractionRecord → M (Option InteractionRecord)
mark_projected p session x = do t ← now; pure (some (projected p session x t))

unfoldable pub mark_view_projected : ℕ → String → String → Projection → M InteractionRecord
unfolding update_interaction mark_projected
mark_view_projected fuel id session p = update_interaction fuel id (mark_projected p session)
