-- ===== src/Interaction/Calls.antt =====
-- Any sequence of the operations of src/central/managers/interaction/interaction-manager.ts, between
-- writes of other tasks.
use newconduit.Base.{
  Bool-cases, List, Option-cases, String, Table, [], find, inl, inr, keep, list_eq, nat_eq,
  option_eq, pair_eq, string_eq, values, ℕ, ◌==◌, ◌∷◌,
}
use newconduit.Delegation.Operations.{Result-cases}
use newconduit.Interaction.{is_accepted_delivery, is_pending_delivery}
use newconduit.Interaction.Admission.{admit_agent_request-keeps, try_reconcile-keeps}
use newconduit.Interaction.Admit.{AgentInteractionRequestedPayload}
use newconduit.Interaction.Answer.{InteractionRespondRequestPayload}
use newconduit.Interaction.Kept.{reconcile-keeps}
use newconduit.Interaction.Loops.{IsPreserved, Stored, sound_in, update-keeps}
use newconduit.Storage.Versioned.{loop_keeps}
use newconduit.Interaction.Manager.{
  resolve, acknowledge_delivery, admit_agent_request, interrupt_for_owner_session,
  is_new_resolution, reconcile, resolve_round,
}
use newconduit.Interaction.Reconcile.{reconcile_interaction, try_reconcile}
use newconduit.Interaction.Resolution.{resolve_round-Turn}
use newconduit.Interaction.Transitions.{Transition, Transition-same}
use newconduit.Interaction.Turns.{accept_delivery-Mutates, interrupt_open-Mutates}
use newconduit.Interaction.Update.{
  accept_delivery, interrupt, interrupt_open, is_for_command, update_interaction,
}
use newconduit.Model.{
  InteractionRecord, InterruptionReason, RequestContext, RuntimeEvent, condition_eq, event_type_eq,
  lifecycle_eq, status_eq,
}
use newconduit.Storage.Families.{interaction_records}
use newconduit.Storage.Records.{read_interactions}
use newconduit.World.{M, World, for_each, ◌>>=◌}
use newconduit.World.Retry.{retry}

pub data InteractionCall : Type 0 where
  admits : String → RuntimeEvent → AgentInteractionRequestedPayload → InteractionCall
  answers : String → RequestContext → String → InteractionRespondRequestPayload → InteractionCall
  acknowledges : String → InteractionCall
  reconciles : InteractionCall
  interrupts : String → InterruptionReason → InteractionCall

-- The world after a call, whether it returns or throws.
serve : ℕ → InteractionCall → World → World
unfolding admit_agent_request resolve acknowledge_delivery reconcile interrupt_for_owner_session
serve fuel (admits tenant event payload) w = (admit_agent_request tenant fuel event payload w).1
serve fuel (answers tenant context addressed reply) w =
    (resolve tenant fuel context addressed reply w).1
serve fuel (acknowledges command) w = (acknowledge_delivery fuel command w).1
serve fuel reconciles w = (reconcile fuel w).1
serve fuel (interrupts owner reason) w = (interrupt_for_owner_session fuel owner reason w).1

pub serve_all : ℕ → List InteractionCall → World → World
unfolding serve
serve_all fuel [] w = w
serve_all fuel (x ∷ xs) w = serve_all fuel xs (serve fuel x w)

for_each-keeps :
    {A : Type 0} (P : World → Type 0) (body : A → M (Unit {0}))
    → ((a : A) (w : World) → P w → P (body a w).1)
    → (xs : List A) (w : World) → P w
    → P (for_each xs body w).1
unfolding for_each
for_each-keeps P body each [] w v = v
for_each-keeps P body each (x ∷ xs) w v = elim (Result-cases (body x w).0) [
  | inr (e, f) ↦ rw f (each x w v)
  | inl (u, f) ↦ rw f (for_each-keeps P body each xs _ (each x w v))
]

module _ {P : Table String InteractionRecord → Type 0} (k : IsPreserved P) (fuel : ℕ) where
  resolve-keeps :
      (tenant_id : String) (context : RequestContext) (addressed_id : String)
      (reply : InteractionRespondRequestPayload) (w : World)
      → Stored P w
      → Stored P (resolve tenant_id fuel context addressed_id reply w).1
  unfolding resolve
  resolve-keeps tenant_id context addressed_id reply w v =
      let round = resolve_round tenant_id context addressed_id reply in
      let looped =
        loop_keeps interaction_records Transition Transition-same k.changed round fuel
          (λ u i.
            resolve_round-Turn tenant_id context addressed_id reply u i.2
              (sound_in k fuel reply.interaction_id u i))
          w v in
      elim (Result-cases (retry fuel round w).0) [
        | inr (e, f) ↦ rw f looped
        | inl (r, f) ↦ rw f (elim (Bool-cases (is_new_resolution r.status)) [
          | inr g ↦ rw g looped
          | inl g ↦ rw g (
              let tried = try_reconcile-keeps k fuel r.interaction_id _ looped in
              elim (Result-cases (try_reconcile fuel r.interaction_id (retry fuel round w).1).0) [
                | inl (y, q) ↦ rw q tried
                | inr (y, q) ↦ rw q tried
              ])
        ])
      ]

  acknowledge_delivery-keeps :
      (command : String) (w : World) → Stored P w → Stored P (acknowledge_delivery fuel command w).1
  unfolding acknowledge_delivery read_interactions
  acknowledge_delivery-keeps command w v =
      elim (Option-cases (find (is_for_command command) (values w.store.interactions))) [
        | inl e ↦ rw e v
        | inr (x, e) ↦ rw e (elim (Bool-cases (is_accepted_delivery x.delivery.state)) [
          | inl f ↦ rw f v
          | inr f ↦ rw f (elim (Bool-cases (is_pending_delivery x.delivery.state)) [
            | inr g ↦ rw g v
            | inl g ↦ rw g (
                let done =
                  update-keeps k fuel x.interaction_id (accept_delivery command) w
                    (accept_delivery-Mutates command) v in
                elim (Result-cases
                  (update_interaction fuel x.interaction_id (accept_delivery command) w).0) [
                    | inl (y, q) ↦ rw q done
                    | inr (y, q) ↦ rw q done
                  ])
          ])
        ])
      ]

  interrupt_each-keeps :
      (reason : InterruptionReason) (x : InteractionRecord) (w : World)
      → Stored P w
      → Stored P
          ((interrupt fuel x.interaction_id reason >>= λ x'. try_reconcile fuel x.interaction_id)
            w).1
  unfolding interrupt
  interrupt_each-keeps reason x w v =
      let done =
        update-keeps k fuel x.interaction_id (interrupt_open reason) w
          (interrupt_open-Mutates reason) v in
      elim (Result-cases (update_interaction fuel x.interaction_id (interrupt_open reason) w).0) [
        | inr (y, q) ↦ rw q done
        | inl (y, q) ↦ rw q (try_reconcile-keeps k fuel x.interaction_id _ done)
      ]

  serve-keeps : (x : InteractionCall) (w : World) → Stored P w → Stored P (serve fuel x w)
  unfolding serve reconcile interrupt_for_owner_session read_interactions
  serve-keeps (admits tenant event payload) w v =
      admit_agent_request-keeps k fuel tenant event payload w v
  serve-keeps (answers tenant context addressed reply) w v =
      resolve-keeps tenant context addressed reply w v
  serve-keeps (acknowledges command) w v = acknowledge_delivery-keeps command w v
  serve-keeps reconciles w v =
      for_each-keeps (Stored P) (λ x. reconcile_interaction fuel x.interaction_id)
        (λ x u i. reconcile-keeps k fuel x.interaction_id u i) (values w.store.interactions) w v
  serve-keeps (interrupts owner reason) w v =
      for_each-keeps (Stored P)
        (λ x. interrupt fuel x.interaction_id reason >>= λ x'. try_reconcile fuel x.interaction_id)
        (interrupt_each-keeps reason)
        (keep (λ x. x.owner_session_id == owner) (values w.store.interactions)) w v

  pub serve_all-keeps :
      (xs : List InteractionCall) (w : World) → Stored P w → Stored P (serve_all fuel xs w)
  unfolding serve_all
  serve_all-keeps [] w v = v
  serve_all-keeps (x ∷ xs) w v = serve_all-keeps xs (serve fuel x w) (serve-keeps x w v)
