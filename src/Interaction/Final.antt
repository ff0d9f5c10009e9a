-- ===== src/Interaction/Final.antt =====
-- The states of src/central/managers/interaction/interaction-manager.ts from which an interaction does
-- not come back, and that its loops end.
use newconduit.Storage.Versioned.{Keeps, loop_ends}
use newconduit.Base.{
  All, Bool-cases, List, String, Table, ap, arith, false, get, inl, inr, length, list_eq, nat_eq,
  option_eq, pair_eq, refl, some, string_eq, subst, suc, sym, zero, ℕ, ◌<◌, ◌==◌, ◌∙◌, ◌≡◌, ◌≢◌,
  ◌⊎◌,
}
use newconduit.Interaction.Answer.{InteractionRespondRequestPayload}
use newconduit.Interaction.Calls.{InteractionCall, serve_all, serve_all-keeps}
use newconduit.Interaction.Files.{
  AreFiled, AreFiled-IsPreserved, HasFollowed, HasFollowed-IsPreserved, interrupted_final,
  resolved_final, unchanged_yet, ◌⇝◌,
}
use newconduit.Interaction.Loops.{IsPreserved, Stored, sound_in, update-ends}
use newconduit.Interaction.Manager.{
  ResolveInteractionResult, already_resolved, resolve, resolve_round, resolved_now,
}
use newconduit.Interaction.Resolution.{authorize_response_lem, resolve_round-Turn}
use newconduit.Model.{
  InteractionRecord, InterruptionReason, RequestContext, condition_eq, event_type_eq, interrupted,
  lifecycle_eq, resolved, status_eq,
}
use newconduit.Storage.Families.{interaction_records}
use newconduit.Storage.Records.{read_interaction}
use newconduit.World.{Fault, Result, World, err, interaction_not_found, ok, out_of_fuel}
use newconduit.World.Retry.{retry}
use newconduit.Interaction.{Projection}
use newconduit.Interaction.Transitions.{Transition, Transition-same}
use newconduit.Interaction.Turns.{
  abandon_delivery-Mutates, accept_delivery-Mutates, interrupt_open-Mutates, mark_projected-Mutates,
}
use newconduit.Interaction.Update.{
  abandon_delivery, accept_delivery, interrupt, interrupt_open, mark_projected, mark_view_projected,
  update_interaction,
}

-- Whatever operations run in whatever order, with random identifiers that are not empty, and between
-- writes of other tasks that keep it so and raise the revision, the stored interactions stay filed:
-- under their own identifiers, once each, and consistent: an open one has no answer, a resolved one has
-- an answer, a command and in each view the identifier of the event that tells it, and an interrupted
-- one has a reason and the like.
pub serve_all-AreFiled :
    (fuel : ℕ) (xs : List InteractionCall) (w : World)
    → Stored AreFiled w
    → Stored AreFiled (serve_all fuel xs w)
serve_all-AreFiled fuel xs w v = serve_all-keeps AreFiled-IsPreserved fuel xs w v

round_again :
    (tenant_id : String) (context : RequestContext) (addressed_id : String)
    (reply : InteractionRespondRequestPayload) (x : InteractionRecord) (w : World)
    → get reply.interaction_id w.store.interactions ≡ some x
    → x.state ≡ resolved
    → ((e : Fault) × (resolve_round tenant_id context addressed_id reply w ≡ (err e, w)))
      ⊎ (resolve_round tenant_id context addressed_id reply w ≡ (
        ok (some (record { interaction_id = x.interaction_id; status = already_resolved })),
        w,
      ))
unfolding resolve_round read_interaction
round_again tenant_id context addressed_id reply x w at done =
    elim (Bool-cases (x.tenant_id == tenant_id)) [
      | inr e ↦ inl (interaction_not_found, rw at (rw e refl))
      | inl e ↦ elim (authorize_response_lem x addressed_id context w) [
        | inr (fault, f, fed) ↦ inl (fault, rw at (rw e (rw f refl)))
        | inl f ↦ inr (rw at (rw e (rw f (rw done refl))))
      ]
    ]

abbrev of_result :
    ResolveInteractionResult → Result ResolveInteractionResult → ResolveInteractionResult
of_result d (ok r) = r
of_result d (err e) = d

resolve_again :
    (fuel : ℕ) (tenant_id : String) (context : RequestContext) (addressed_id : String)
    (reply : InteractionRespondRequestPayload) (x : InteractionRecord) (w : World)
    (r : ResolveInteractionResult)
    → get reply.interaction_id w.store.interactions ≡ some x
    → x.state ≡ resolved
    → (resolve tenant_id fuel context addressed_id reply w).0 ≡ ok r
    → r.status ≡ already_resolved
unfolding resolve retry
resolve_again zero tenant_id context addressed_id reply x w r at done h = absurd (ground (arith, h))
resolve_again (suc n) tenant_id context addressed_id reply x w r at done h =
    elim (round_again tenant_id context addressed_id reply x w at done) [
      | inl (e, f) ↦
          let failed : (resolve tenant_id (suc n) context addressed_id reply w).0 ≡ err e =
            rw (f, retry) refl in
          absurd (ground (arith, h, failed))
      | inr f ↦
          let told : (resolve tenant_id (suc n) context addressed_id reply w).0
              ≡ ok (record { interaction_id = x.interaction_id; status = already_resolved }) =
            rw (f, retry) refl in
          ap (λ q. (of_result r q).status) (sym h ∙ told)
    ]

module _ (fuel : ℕ) (xs : List InteractionCall) (w : World) (id : String) (x : InteractionRecord)
    (filed : AreFiled w.store.interactions) (at : get id w.store.interactions ≡ some x)
    (others : All (Keeps interaction_records (HasFollowed id x)) w.rivals)
    (given : (i : ℕ) → (w.host.uuid i == "") ≡ false) where
  followed : HasFollowed id x (serve_all fuel xs w).store.interactions
  followed =
      (serve_all-keeps (HasFollowed-IsPreserved id x) fuel xs w
        (record { filed = filed; current = x; at = at; follows = unchanged_yet }, others, given)).0

  -- Where the stored interactions are filed, random identifiers are not empty, and other tasks only make
  -- such changes of the interaction and raise the revision: a stored interaction stays stored, as one
  -- that changes of it lead to; and once it is resolved its answer is final, as is the reason once it is
  -- interrupted.
  pub settled_final :
      (y : InteractionRecord) × (get id (serve_all fuel xs w).store.interactions ≡ some y)
      × (x ⇝ y)
      × (x.state ≡ resolved → (y.state ≡ resolved) × (y.resolution ≡ x.resolution))
      × (x.state ≡ interrupted → (y.state ≡ interrupted) × (y.interruption ≡ x.interruption))
  settled_final =
      let m = followed in
      (m.current, m.at, m.follows, resolved_final m.follows, interrupted_final m.follows)

  -- Under the same conditions an interaction that is resolved is not resolved again: whatever ran since,
  -- no answer to it is told that it resolved it.
  pub answered_once :
      (tenant_id addressed_id told : String) (context : RequestContext)
      (reply : InteractionRespondRequestPayload)
      → x.state ≡ resolved
      → reply.interaction_id ≡ id
      → (resolve tenant_id fuel context addressed_id reply (serve_all fuel xs w)).0
        ≢ ok (record { interaction_id = told; status = resolved_now })
  answered_once tenant_id addressed_id told context reply done asked answered =
      let m = followed in
      let again =
        resolve_again fuel tenant_id context addressed_id reply m.current (serve_all fuel xs w)
          (record { interaction_id = told; status = resolved_now })
          (subst (λ k. get k (serve_all fuel xs w).store.interactions ≡ some m.current) (sym asked)
            m.at)
          (resolved_final m.follows done).0 answered in
      ground (arith, again)

-- Where a property holds of the stored interactions that each change and other tasks keep, and there
-- are more rounds than other tasks have turns, the loops of `update`, with each of its mutations, and of
-- `resolve` do not run out of rounds.
pub interaction_loops_end :
    {P : Table String InteractionRecord → Type 0}
    → IsPreserved P
    → (fuel : ℕ) (w : World) (id session tenant_id addressed_id command : String)
      (reason : InterruptionReason) (p : Projection) (context : RequestContext)
      (reply : InteractionRespondRequestPayload)
    → Stored P w
    → length w.rivals < fuel
    → ((interrupt fuel id reason w).0 ≢ err out_of_fuel)
      × ((mark_view_projected fuel id session p w).0 ≢ err out_of_fuel)
      × ((update_interaction fuel id (accept_delivery command) w).0 ≢ err out_of_fuel)
      × ((update_interaction fuel id abandon_delivery w).0 ≢ err out_of_fuel)
      × ((retry fuel (resolve_round tenant_id context addressed_id reply) w).0 ≢ err out_of_fuel)
unfolding interrupt mark_view_projected
interaction_loops_end k fuel w id session tenant_id addressed_id command reason p context reply v
      few =
    (
      update-ends k fuel id (interrupt_open reason) w (interrupt_open-Mutates reason) v few,
      update-ends k fuel id (mark_projected p session) w (mark_projected-Mutates p session) v few,
      update-ends k fuel id (accept_delivery command) w (accept_delivery-Mutates command) v few,
      update-ends k fuel id abandon_delivery w abandon_delivery-Mutates v few,
      loop_ends interaction_records Transition Transition-same k.changed
          (resolve_round tenant_id context addressed_id reply) fuel
          (λ u i.
            resolve_round-Turn tenant_id context addressed_id reply u i.2
              (sound_in k fuel reply.interaction_id u i))
          w v few,
    )
