-- ===== src/Interaction/Resolution.antt =====
-- The rounds of `resolve` of src/central/managers/interaction/interaction-manager.ts.
use newconduit.Storage.Versioned.{commit, writes}
use newconduit.Base.{
  All, Bool-cases, Option-cases, String, any, arith, false, get, inl, inr, list_eq, nat_eq,
  option_eq, pair_eq, refl, some, string_eq, subst, sym, ◌&&◌, ◌+◌, ◌==◌, ◌||◌, ◌≡◌, ◌≢◌, ◌⊎◌,
}
use newconduit.Interaction.{is_interrupted, is_resolved, resolved_with}
use newconduit.Interaction.Answer.{
  InteractionRespondRequestPayload, answering_view, authorize_response, build_response,
  resolve_open,
}
use newconduit.Interaction.Loops.{InTurn, gives, halts}
use newconduit.Interaction.Manager.{resolve_round}
use newconduit.Interaction.Transitions.{HasEvents, IsConsistent, Transition, resolve_one}
use newconduit.Interaction.Turns.{Random, Same, answering_view-Draws, collect-Draws}
use newconduit.Model.{
  InteractionKind, InteractionRecord, InteractionResolution, InteractionState, RequestContext,
  Response, approval, condition_eq, decision, event_type_eq, interrupted, lifecycle_eq,
  open_interaction, resolved, result_of, status_eq, tool_call,
}
use newconduit.Storage.Records.{read_interaction, read_session}
use newconduit.World.{
  Fault, Result, World, decision_required, err, interaction_interrupted_already,
  interaction_not_found, not_visible, ok, out_of_fuel, session_not_found,
}

pub authorize_response_lem :
    (x : InteractionRecord) (addressed_id : String) (context : RequestContext) (w : World)
    → (authorize_response x addressed_id context w ≡ (ok tt, w))
      ⊎ ((e : Fault) × (authorize_response x addressed_id context w ≡ (err e, w))
          × (e ≢ out_of_fuel))
unfolding authorize_response read_session
authorize_response_lem x addressed_id context w =
    elim (Bool-cases (any (λ v. v.session_id == addressed_id) x.views)) [
      | inr e ↦ inr (not_visible, rw e refl, λ y. cc)
      | inl e ↦ elim (Option-cases (get addressed_id w.store.sessions)) [
        | inl f ↦ inr (session_not_found, rw e (rw f refl), λ y. cc)
        | inr (addressed, f) ↦ elim (Bool-cases (addressed_id == x.owner_session_id)) [
          | inl g ↦
              elim (Bool-cases (
                addressed.owner == context.principal.principal_id
                && addressed.owner == context.principal.principal_id)) [
                  | inl q ↦ inl (rw e (rw f (rw g (rw q refl))))
                  | inr q ↦ inr (interaction_not_found, rw e (rw f (rw g (rw q refl))), λ y. cc)
                ]
          | inr g ↦ elim (Option-cases (get x.owner_session_id w.store.sessions)) [
            | inl o ↦ inr (session_not_found, rw e (rw f (rw g (rw o refl))), λ y. cc)
            | inr (owner, o) ↦
                elim (Bool-cases (
                  addressed.owner == context.principal.principal_id
                  && owner.owner == context.principal.principal_id)) [
                    | inl q ↦ inl (rw e (rw f (rw g (rw o (rw q refl)))))
                    | inr q ↦
                        inr (interaction_not_found, rw e (rw f (rw g (rw o (rw q refl)))), λ y. cc)
                  ]
          ]
        ]
      ]
    ]

build_response_lem :
    (kind : InteractionKind) (reply : InteractionRespondRequestPayload) (w : World)
    → ((r : Response) × (build_response kind reply w ≡ (ok r, w)))
      ⊎ (build_response kind reply w ≡ (err decision_required, w))
build_response_lem tool_call reply w = inl (result_of reply.result, refl)
build_response_lem approval reply w =
    elim (Bool-cases (reply.decision == some "approved" || reply.decision == some "denied")) [
      | inl e ↦
          inl (
            decision (reply.decision == some "approved") (reply.scope == some "session"),
            rw e refl,
          )
      | inr e ↦ inr (rw e refl)
    ]

-- What an answer makes of an open interaction: a resolved one, or it is refused.
data Answered (x : InteractionRecord) (w : World) (r : Result InteractionRecord × World)
    : Type 0 where
  resolves :
      (next : InteractionRecord) (u : World)
      → r ≡ (ok next, u)
      → Transition x next
      → Same w u
      → Answered x w r
  refuses : (u : World) → r ≡ (err decision_required, u) → Same w u → Answered x w r

resolve_open-Answered :
    (context : RequestContext) (addressed_id : String) (reply : InteractionRespondRequestPayload)
    (x : InteractionRecord) (w : World)
    → Random w
    → IsConsistent x
    → x.state ≡ open_interaction
    → Answered x w (resolve_open context addressed_id reply x w)
unfolding resolve_open
resolve_open-Answered context addressed_id reply x w random s o =
    let t = w.host.clock w.readings in
    let u : World = record w { readings = w.readings + 1 } in
    elim (build_response_lem x.kind reply u) [
      | inr e ↦ refuses u (rw e refl) (refl, refl, refl)
      | inl (response, e) ↦
          let command = w.host.uuid w.drawn in
          let drawn : World = record u { drawn = w.drawn + 1 } in
          let views =
            collect-Draws answering_view (HasEvents open_interaction) (HasEvents resolved)
              answering_view-Draws x.views drawn random
              (subst (λ q. All (HasEvents q) x.views) o s.events) in
          let resolution : InteractionResolution = record {
            response = response;
            principal_id = context.principal.principal_id;
            via_session_id = addressed_id;
            resolved_at = t;
          } in
          resolves (resolved_with x resolution command views.value t) views.world
            (rw e (rw views.is refl))
            (resolve_one resolution command views.value t o (random w.drawn) views.holds refl)
            views.same
    ]

not_resolved :
    (s : InteractionState) → is_resolved s ≡ false → is_interrupted s ≡ false → s ≡ open_interaction
not_resolved open_interaction h k = refl
not_resolved resolved h k = absurd (ground (arith, h))
not_resolved interrupted h k = absurd (ground (arith, k))

pub resolve_round-Turn :
    (tenant_id : String) (context : RequestContext) (addressed_id : String)
    (reply : InteractionRespondRequestPayload) (w : World)
    → Random w
    → ((x : InteractionRecord)
        → get reply.interaction_id w.store.interactions ≡ some x
        → IsConsistent x × (x.interaction_id ≡ reply.interaction_id))
    → InTurn w (resolve_round tenant_id context addressed_id reply w)
unfolding resolve_round read_interaction commit
resolve_round-Turn tenant_id context addressed_id reply w random sound =
    elim (Option-cases (get reply.interaction_id w.store.interactions)) [
      | inl e ↦ rw e (halts w w interaction_not_found (λ x. cc) (refl, refl, refl))
      | inr (x, e) ↦ rw e (elim (Bool-cases (x.tenant_id == tenant_id)) [
        | inr f ↦ rw f (halts w w interaction_not_found (λ x. cc) (refl, refl, refl))
        | inl f ↦ rw f (elim (authorize_response_lem x addressed_id context w) [
          | inr (fault, g, fed) ↦ rw g (halts w w fault fed (refl, refl, refl))
          | inl g ↦ rw g (elim (Bool-cases (is_resolved x.state)) [
            | inl q ↦ rw q (gives w _)
            | inr q ↦ rw q (elim (Bool-cases (is_interrupted x.state)) [
              | inl p ↦
                  rw p (halts w w interaction_interrupted_already (λ x. cc) (refl, refl, refl))
              | inr p ↦
                  rw p
                    (elim (resolve_open-Answered context addressed_id reply x w random (sound x e).0
                      (not_resolved x.state q p)) [
                        | refuses u r same ↦ rw r (halts w u decision_required (λ x. cc) same)
                        | resolves next u r change (st, rs, h) ↦ rw r (
                            writes x next _ u
                              (subst (λ k. get k w.store.interactions ≡ some x) (sym (sound x e).1)
                                e)
                              change st rs h refl)
                      ])
            ])
          ])
        ])
      ])
    ]
