-- ===== src/Interaction/Reconcile.antt =====
-- src/central/managers/interaction/interaction-manager.ts: `reconcileInteraction`. The chain of promises
-- makes the reconciliations of one interaction run one after another.
use newconduit.Base.{
  Bool, Option, String, false, if◌then◌else◌, keep, list_eq, nat_eq, none, not, option_eq, pair_eq,
  present, some, string_eq, ℕ, ◌&&◌, ◌==◌, ◌||◌,
}
use newconduit.Interaction.{
  is_abandoned, is_accepted_delivery, is_interrupted, is_open_state, is_pending_delivery,
  is_resolved, of_interruption, of_request, of_response,
}
use newconduit.Interaction.Update.{abandon_delivery, interrupt, update_interaction}
use newconduit.Interaction.Views.{project_each, require_session}
use newconduit.Model.{
  InteractionRecord, Response, RuntimeEvent, SessionRecord, central, condition_eq, event_type_eq,
  interaction_command, lifecycle_eq, owner_lease_lost, session_interaction_response, status_eq,
  worker_commands,
}
use newconduit.Storage.Records.{read_interaction, read_session}
use newconduit.World.{M, Result, branch, err, now, ok, on_option, out_of_fuel, publish, pure, ◌>>=◌}

abbrev pub has_lease : Option SessionRecord → String → Bool
has_lease none lease = false
has_lease (some s) lease = s.session_lease_id == some lease

unfoldable pub reconcile_lease : ℕ → InteractionRecord → M InteractionRecord
unfolding read_session interrupt update_interaction abandon_delivery
reconcile_lease fuel x = do
  owner ← read_session x.owner_session_id
  branch
      (has_lease owner x.request_lease_id
        || (is_accepted_delivery x.delivery.state || is_abandoned x.delivery.state))
      (pure x)
      (branch (is_open_state x.state) (interrupt fuel x.interaction_id owner_lease_lost) (
        branch (is_resolved x.state && is_pending_delivery x.delivery.state)
          (update_interaction fuel x.interaction_id abandon_delivery) (pure x)))

abbrev pub leased_worker : InteractionRecord → SessionRecord → Option String
leased_worker x s =
    if s.session_lease_id == some x.request_lease_id then present s.current_worker_id else none

response_command : InteractionRecord → SessionRecord → String → String → Response → ℕ → RuntimeEvent
response_command x owner command worker response t = record {
  event_id = command;
  session_id = some owner.session_id;
  worker_id = some worker;
  ack_id = none;
  turn_seq = some x.owner_turn_seq;
  sequence = owner.event_cursor;
  type = session_interaction_response;
  timestamp = t;
  actor = central;
  session_lease_id = some x.request_lease_id;
  payload = interaction_command (record {
    session_id = owner.session_id;
    worker_id = worker;
    session_lease_id = x.request_lease_id;
    interaction_id = x.interaction_id;
    adapter_request_id = x.adapter_request_id;
    kind = x.kind;
    response = response;
  });
}

-- What is to be delivered: the command's identifier and the response.
abbrev pub deliverable : InteractionRecord → Option (String × Response)
deliverable x = elim (present x.delivery.command_event_id) [
  | none ↦ none
  | some command ↦ elim x.resolution [
    | none ↦ none
    | some r ↦ if is_pending_delivery x.delivery.state then some (command, r.response) else none
  ]
]

unfoldable pub deliver : ℕ → InteractionRecord → M (Unit {0})
unfolding read_session reconcile_lease response_command
deliver fuel x = on_option (deliverable x) (pure tt) (λ (command, response). do
  owner ← require_session x.owner_session_id
  on_option (leased_worker x owner) (reconcile_lease fuel x >>= λ x'. pure tt) (λ worker. do
    t ← now
    publish (worker_commands worker) (response_command x owner command worker response t)))

-- What follows the projections of the answer.
unfoldable pub settle : ℕ → InteractionRecord → M (Unit {0})
unfolding project_each deliver
settle fuel x =
    branch (is_resolved x.state)
      (project_each fuel of_response (keep (λ v. not v.responded_projected) x.views) x >>= λ next.
        deliver fuel next)
      (branch (is_interrupted x.state)
        (project_each fuel of_interruption (keep (λ v. not v.interrupted_projected) x.views) x
          >>= λ next. pure tt)
        (pure tt))

unfoldable pub reconcile_interaction : ℕ → String → M (Unit {0})
unfolding read_interaction reconcile_lease project_each settle
reconcile_interaction fuel id = do
  found ← read_interaction id
  on_option found (pure tt) (λ x. do
    leased ← reconcile_lease fuel x
    next ← project_each fuel of_request (keep (λ v. not v.requested_projected) leased.views) leased
    settle fuel next)

-- `try { … } catch { … }`: only the model's own fault goes on.
abbrev caught : Result (Unit {0}) → Result (Unit {0})
caught (ok u) = ok u
caught (err out_of_fuel) = err out_of_fuel
caught (err _) = ok tt

unfoldable pub try_reconcile : ℕ → String → M (Unit {0})
unfolding reconcile_interaction
try_reconcile fuel id w = let (r, w') = reconcile_interaction fuel id w in (caught r, w')
