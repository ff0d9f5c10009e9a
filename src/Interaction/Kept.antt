-- ===== src/Interaction/Kept.antt =====
-- What `reconcileInteraction` of src/central/managers/interaction/interaction-manager.ts keeps of the
-- stored interactions.
use newconduit.Base.{
  Bool-cases, List, Option-cases, String, Table, [], default, find, get, inl, inr, keep, list_eq,
  ltb, nat_eq, none, not, option_eq, pair_eq, present, refl, some, string_eq, truthy, ℕ, ◌&&◌, ◌+◌,
  ◌==◌, ◌||◌, ◌∷◌, ◌≡◌,
}
use newconduit.Delegation.Operations.{Result-cases}
use newconduit.Interaction.{
  Projection, is_abandoned, is_accepted_delivery, is_interrupted, is_open_state,
  is_pending_delivery, is_resolved, of_interruption, of_request, of_response,
}
use newconduit.Interaction.Loops.{IsPreserved, Stored, update-keeps}
use newconduit.Interaction.Reconcile.{
  deliver, deliverable, has_lease, leased_worker, reconcile_interaction, reconcile_lease, settle,
}
use newconduit.Interaction.Turns.{
  abandon_delivery-Mutates, interrupt_open-Mutates, mark_projected-Mutates,
}
use newconduit.Interaction.Update.{
  abandon_delivery, interrupt, interrupt_open, mark_projected, mark_view_projected,
  update_interaction,
}
use newconduit.Interaction.Views.{append_view_event, project, project_each}
use newconduit.Model.{
  EventType, InteractionRecord, InteractionView, Payload, central, condition_eq, event_type_eq,
  lifecycle_eq, owner_lease_lost, status_eq,
}
use newconduit.Session.EventLog.{EventInput, append, event_id_or_new}
use newconduit.Session.Lifecycle.{advance_event_cursor}
use newconduit.Storage.Records.{
  append_event, read_events, read_interaction, read_session, write_session,
}
use newconduit.World.{World}

abbrev pub SameInteractions : World → World → Type 0
SameInteractions w u =
    (u.store.interactions ≡ w.store.interactions) × (u.rivals ≡ w.rivals) × (u.host ≡ w.host)

append_same : (input : EventInput) (w : World) → SameInteractions w (append input w).1
unfolding append event_id_or_new append_event
append_same input w = elim (Option-cases input.event_id) [
  | inl e ↦ rw e (elim (Bool-cases (truthy input.session_id)) [
    | inl f ↦ rw f (refl, refl, refl)
    | inr f ↦ rw f (elim (Bool-cases (truthy input.worker_id)) [
      | inl g ↦ rw g (refl, refl, refl)
      | inr g ↦ rw g (refl, refl, refl)
    ])
  ])
  | inr (id, e) ↦ rw e (elim (Bool-cases (truthy input.session_id)) [
    | inl f ↦ rw f (refl, refl, refl)
    | inr f ↦ rw f (elim (Bool-cases (truthy input.worker_id)) [
      | inl g ↦ rw g (refl, refl, refl)
      | inr g ↦ rw g (refl, refl, refl)
    ])
  ])
]

append_view_event_same :
    (v : InteractionView) (id : String) (type : EventType) (payload : Payload) (w : World)
    → SameInteractions w (append_view_event v id type payload w).1
unfolding append_view_event read_events read_session advance_event_cursor write_session
append_view_event_same v id type payload w =
    elim (Option-cases (get v.session_id w.store.sessions)) [
      | inl e ↦ rw e (refl, refl, refl)
      | inr (s, e) ↦
          let log =
            keep (λ e. ltb 0 e.sequence) (default (get v.session_id w.store.session_logs) []) in
          rw e (elim (Option-cases (find (λ e. e.event_id == id) log)) [
            | inr (event, f) ↦ rw f (elim (Bool-cases (ltb s.event_cursor event.sequence)) [
              | inl g ↦ rw g (refl, refl, refl)
              | inr g ↦ rw g (refl, refl, refl)
            ])
            | inl f ↦
                let input : EventInput = record {
                  event_id = some id;
                  type = type;
                  actor = central;
                  payload = payload;
                  sequence = s.event_cursor + 1;
                  session_id = some v.session_id;
                  worker_id = none;
                  ack_id = none;
                  turn_seq = some v.turn_seq;
                  session_lease_id = none;
                } in
                let same = append_same input w in
                rw f (elim (Result-cases (append input w).0) [
                  | inr (x, g) ↦ rw g same
                  | inl (event, g) ↦ rw g (elim (Bool-cases (ltb s.event_cursor event.sequence)) [
                    | inl q ↦ rw q same
                    | inr q ↦ rw q same
                  ])
                ])
          ])
    ]

project_same :
    (p : Projection) (x : InteractionRecord) (v : InteractionView) (w : World)
    → SameInteractions w (project p x v w).1
unfolding project
project_same of_request x v w = append_view_event_same v v.requested_event_id _ _ w
project_same of_response x v w = elim (Option-cases x.resolution) [
  | inl e ↦ rw e (refl, refl, refl)
  | inr (r, e) ↦ rw e (elim (Option-cases (present v.responded_event_id)) [
    | inl f ↦ rw f (refl, refl, refl)
    | inr (id, f) ↦ rw f (append_view_event_same v id _ _ w)
  ])
]
project_same of_interruption x v w = elim (Option-cases x.interruption) [
  | inl e ↦ rw e (refl, refl, refl)
  | inr (r, e) ↦ rw e (elim (Option-cases (present v.interrupted_event_id)) [
    | inl f ↦ rw f (refl, refl, refl)
    | inr (id, f) ↦ rw f (append_view_event_same v id _ _ w)
  ])
]

pub carries_over :
    (P : Table String InteractionRecord → Type 0) (w u : World)
    → SameInteractions w u
    → Stored P w
    → Stored P u
carries_over P w u (st, rs, h) v = rw st (rw rs (rw h v))

module _ {P : Table String InteractionRecord → Type 0} (k : IsPreserved P) (fuel : ℕ) where
  project_each-keeps :
      (p : Projection) (vs : List InteractionView) (x : InteractionRecord) (w : World)
      → Stored P w
      → Stored P (project_each fuel p vs x w).1
  unfolding project_each mark_view_projected
  project_each-keeps p [] x w v = v
  project_each-keeps p (view ∷ vs) x w v =
      let u = (project p x view w).1 in
      let after = carries_over P w u (project_same p x view w) v in
      let mutate = mark_projected p view.session_id in
      let marked =
        update-keeps k fuel x.interaction_id mutate u (mark_projected-Mutates p view.session_id)
          after in
      elim (Result-cases (project p x view w).0) [
        | inr (e, f) ↦ rw f after
        | inl (done, f) ↦
            rw f (elim (Result-cases (update_interaction fuel x.interaction_id mutate u).0) [
              | inr (e, g) ↦ rw g marked
              | inl (next, g) ↦ rw g (project_each-keeps p vs next _ marked)
            ])
      ]

  reconcile_lease-keeps :
      (x : InteractionRecord) (w : World) → Stored P w → Stored P (reconcile_lease fuel x w).1
  unfolding reconcile_lease read_session interrupt
  reconcile_lease-keeps x w v =
      elim (Bool-cases (
        has_lease (get x.owner_session_id w.store.sessions) x.request_lease_id
        || (is_accepted_delivery x.delivery.state || is_abandoned x.delivery.state))) [
          | inl e ↦ rw e v
          | inr e ↦ rw e (elim (Bool-cases (is_open_state x.state)) [
            | inl f ↦ rw f (
                update-keeps k fuel x.interaction_id (interrupt_open owner_lease_lost) w
                  (interrupt_open-Mutates owner_lease_lost) v)
            | inr f ↦
                rw f
                  (elim (Bool-cases (is_resolved x.state && is_pending_delivery x.delivery.state)) [
                    | inr g ↦ rw g v
                    | inl g ↦ rw g (
                        update-keeps k fuel x.interaction_id abandon_delivery w
                          abandon_delivery-Mutates v)
                  ])
          ])
        ]

  deliver-keeps : (x : InteractionRecord) (w : World) → Stored P w → Stored P (deliver fuel x w).1
  unfolding deliver read_session
  deliver-keeps x w v = elim (Option-cases (deliverable x)) [
    | inl e ↦ rw e v
    | inr ((command, response), e) ↦
        rw e (elim (Option-cases (get x.owner_session_id w.store.sessions)) [
          | inl f ↦ rw f v
          | inr (owner, f) ↦ rw f (elim (Option-cases (leased_worker x owner)) [
            | inr (worker, g) ↦ rw g v
            | inl g ↦ rw g (
                let leased = reconcile_lease-keeps x w v in
                elim (Result-cases (reconcile_lease fuel x w).0) [
                  | inl (y, q) ↦ rw q leased
                  | inr (y, q) ↦ rw q leased
                ])
          ])
        ])
  ]

  settle-keeps : (x : InteractionRecord) (w : World) → Stored P w → Stored P (settle fuel x w).1
  unfolding settle
  settle-keeps x w v = elim (Bool-cases (is_resolved x.state)) [
    | inl e ↦ rw e (
        let vs = keep (λ v. not v.responded_projected) x.views in
        let told = project_each-keeps of_response vs x w v in
        elim (Result-cases (project_each fuel of_response vs x w).0) [
          | inr (y, f) ↦ rw f told
          | inl (next, f) ↦ rw f (deliver-keeps next _ told)
        ])
    | inr e ↦ rw e (elim (Bool-cases (is_interrupted x.state)) [
      | inr f ↦ rw f v
      | inl f ↦ rw f (
          let vs = keep (λ v. not v.interrupted_projected) x.views in
          let told = project_each-keeps of_interruption vs x w v in
          elim (Result-cases (project_each fuel of_interruption vs x w).0) [
            | inr (y, g) ↦ rw g told
            | inl (next, g) ↦ rw g told
          ])
    ])
  ]

  pub reconcile-keeps :
      (id : String) (w : World) → Stored P w → Stored P (reconcile_interaction fuel id w).1
  unfolding reconcile_interaction read_interaction
  reconcile-keeps id w v = elim (Option-cases (get id w.store.interactions)) [
    | inl e ↦ rw e v
    | inr (x, e) ↦ rw e (
        let leased = reconcile_lease-keeps x w v in
        let u = (reconcile_lease fuel x w).1 in
        elim (Result-cases (reconcile_lease fuel x w).0) [
          | inr (y, f) ↦ rw f leased
          | inl (y, f) ↦ rw f (
              let vs = keep (λ v. not v.requested_projected) y.views in
              let told = project_each-keeps of_request vs y u leased in
              elim (Result-cases (project_each fuel of_request vs y u).0) [
                | inr (z, g) ↦ rw g told
                | inl (z, g) ↦ rw g (settle-keeps z _ told)
              ])
        ])
  ]
