-- ===== src/Interaction/Admission.antt =====
-- What `admitAgentRequest` and the other operations of
-- src/central/managers/interaction/interaction-manager.ts keep of the stored interactions.
use newconduit.Base.{
  All, Bool-cases, List, Option-cases, String, Table, ap, arith, get, inl, inr, list_eq, nat_eq,
  option_eq, pair_eq, present, refl, some, string_eq, subst, values, ℕ, ◌+◌, ◌==◌, ◌≡◌,
}
use newconduit.Delegation.Operations.{Result-cases}
use newconduit.Interaction.Admit.{
  AgentInteractionRequestedPayload, build_views, is_same_admission, new_interaction, served_call,
}
use newconduit.Interaction.Kept.{SameInteractions, reconcile-keeps, carries_over}
use newconduit.Interaction.Loops.{IsPreserved, Stored}
use newconduit.Interaction.Manager.{admit_agent_request, finish_admission}
use newconduit.Interaction.Reconcile.{try_reconcile}
use newconduit.Interaction.Transitions.{HasEvents, IsConsistent}
use newconduit.Model.{
  InteractionRecord, InteractionView, RuntimeEvent, SessionRecord, condition_eq, event_type_eq,
  lifecycle_eq, open_interaction, status_eq,
}
use newconduit.Storage.Claims.{create_interaction, interaction_by_adapter_request}
use newconduit.Storage.Records.{read_delegation, read_interaction, read_session}
use newconduit.Worker.Lease.{assert_current}
use newconduit.World.{
  Fault, Result, World, err, no_call_for_turn, ok, parent_of_other_owner, session_not_found, ◌>>=◌,
}

value_in : {A : Type 0} → A → Result A → A
value_in d (ok a) = a
value_in d (err e) = d

abbrev AreNew : World → Result (List InteractionView) × World → Type 0
AreNew w r =
    SameInteractions w r.1
    × ((vs : List InteractionView) → r.0 ≡ ok vs → All (HasEvents open_interaction) vs)

made_new :
    (w u : World) (vs : List InteractionView)
    → SameInteractions w u
    → All (HasEvents open_interaction) vs
    → AreNew w (ok vs, u)
unfolding value_in
made_new w u vs same h =
    (same, λ ys e. subst (All (HasEvents open_interaction)) (ap (value_in vs) e) h)

fails : (w u : World) (e : Fault) → SameInteractions w u → AreNew w (err e, u)
fails w u e same = (same, λ ys f. absurd (ground (arith, f)))

build_views_lem :
    (owner : SessionRecord) (turn_seq : ℕ) (w : World) → AreNew w (build_views owner turn_seq w)
unfolding build_views read_delegation read_session
build_views_lem owner turn_seq w =
    let u : World = record w { drawn = w.drawn + 1 } in
    elim (Option-cases owner.delegation_binding) [
      | inl e ↦ rw e (made_new w u _ (refl, refl, refl) ((refl, refl), tt))
      | inr (binding, e) ↦
          rw e
            (elim (Option-cases
              (served_call owner turn_seq (get binding.delegation_id w.store.delegations))) [
                | inl f ↦ rw f (fails w u no_call_for_turn (refl, refl, refl))
                | inr ((d, c), f) ↦
                    rw f (elim (Option-cases (get d.parent_session_id w.store.sessions)) [
                      | inl g ↦ rw g (fails w u session_not_found (refl, refl, refl))
                      | inr (parent, g) ↦ rw g (elim (Bool-cases (parent.owner == owner.owner)) [
                        | inr q ↦ rw q (fails w u parent_of_other_owner (refl, refl, refl))
                        | inl q ↦ rw q (
                            made_new w (record u { drawn = w.drawn + 1 + 1 }) _ (refl, refl, refl)
                              ((refl, refl), ((refl, refl), tt)))
                      ])
                    ])
              ])
    ]

new_interaction-IsConsistent :
    (tenant_id : String) (owner : SessionRecord) (turn_seq : ℕ) (lease : String)
    (payload : AgentInteractionRequestedPayload) (id : String) (views : List InteractionView)
    (t : ℕ)
    → All (HasEvents open_interaction) views
    → IsConsistent (new_interaction tenant_id owner turn_seq lease payload id views t)
unfolding new_interaction
new_interaction-IsConsistent tenant_id owner turn_seq lease payload id views t h = record {
  shaped = (refl, refl, refl);
  events = h;
}

module _ {P : Table String InteractionRecord → Type 0} (k : IsPreserved P) (fuel : ℕ) where
  pub try_reconcile-keeps :
      (id : String) (w : World) → Stored P w → Stored P (try_reconcile fuel id w).1
  unfolding try_reconcile
  try_reconcile-keeps id w v = reconcile-keeps k fuel id w v

  finish_admission-keeps :
      (candidate actual : InteractionRecord) (w : World)
      → Stored P w
      → Stored P (finish_admission fuel candidate actual w).1
  unfolding finish_admission read_interaction
  finish_admission-keeps candidate actual w v =
      elim (Bool-cases (is_same_admission w.host actual candidate)) [
        | inr e ↦ rw e v
        | inl e ↦ rw e (
            let tried = try_reconcile-keeps actual.interaction_id w v in
            elim (Result-cases (try_reconcile fuel actual.interaction_id w).0) [
              | inr (x, f) ↦ rw f tried
              | inl (x, f) ↦ rw f tried
            ])
      ]

  -- The candidate is stored, or nothing is.
  created-keeps :
      (candidate : InteractionRecord) (w : World)
      → Stored P w
      → IsConsistent candidate
      → Stored P
          ((create_interaction candidate >>= λ made. finish_admission fuel candidate made.0) w).1
  unfolding create_interaction read_interaction
  created-keeps candidate w v s =
      elim (Option-cases (get candidate.interaction_id w.store.interactions)) [
        | inr (old, e) ↦ rw e (finish_admission-keeps candidate old w v)
        | inl e ↦
            rw e
              (elim (Option-cases (
                interaction_by_adapter_request candidate.owner_session_id candidate.request_lease_id
                  candidate.adapter_request_id (values w.store.interactions))) [
                    | inr (old, f) ↦ rw f (finish_admission-keeps candidate old w v)
                    | inl f ↦ rw f (
                        finish_admission-keeps candidate candidate _
                          (k.fresh w.store.interactions candidate v.0 e s, v.1, v.2))
                  ])
      ]

  pub admit_agent_request-keeps :
      (tenant_id : String) (event : RuntimeEvent) (payload : AgentInteractionRequestedPayload)
      (w : World)
      → Stored P w
      → Stored P (admit_agent_request tenant_id fuel event payload w).1
  unfolding admit_agent_request read_session assert_current
  admit_agent_request-keeps tenant_id event payload w v =
      elim (Option-cases (present event.session_id)) [
        | inl e ↦ rw e v
        | inr (id, e) ↦ rw e (elim (Option-cases (get id w.store.sessions)) [
          | inl f ↦ rw f v
          | inr (owner, f) ↦ rw f (elim (Option-cases (present event.session_lease_id)) [
            | inl g ↦ rw g v
            | inr (lease, g) ↦ rw g (elim (Bool-cases (owner.session_lease_id == some lease)) [
              | inr q ↦ rw q v
              | inl q ↦ rw q (elim (Option-cases event.turn_seq) [
                | inl o ↦ rw o v
                | inr (turn_seq, o) ↦ rw o (
                    let t = w.host.clock w.readings in
                    let new_id = w.host.uuid w.drawn in
                    let u : World = record w { readings = w.readings + 1; drawn = w.drawn + 1 } in
                    let (same, new) = build_views_lem owner turn_seq u in
                    let seen = carries_over P u (build_views owner turn_seq u).1 same v in
                    elim (Result-cases (build_views owner turn_seq u).0) [
                      | inr (x, i) ↦ rw i seen
                      | inl (views, i) ↦ rw i (
                          created-keeps
                            (new_interaction tenant_id owner turn_seq lease payload new_id views t)
                            (build_views owner turn_seq u).1 seen
                            (new_interaction-IsConsistent tenant_id owner turn_seq lease payload
                              new_id views t (new views i)))
                    ])
              ])
            ])
          ])
        ])
      ]
