-- ===== src/Interaction/Transitions.antt =====
-- The changes of a stored interaction that src/central/managers/interaction/interaction-manager.ts
-- writes: a step relation, with one constructor for each kind of write.
-- What an interaction has in each state: an answer and a command once it is resolved, a reason once it is
-- interrupted, and in each view the identifier of the event that tells of it.
use newconduit.Base.{
  All, Bool-cases, List, String, [], arith, false, inl, inr, is_some, list_eq, map, nat_eq, none,
  option_eq, pair_eq, present, refl, some, string_eq, subst, true, ℕ, ◌==◌, ◌∷◌, ◌≡◌,
}
use newconduit.Interaction.{
  Projection, delivered_to, interrupted_for, is_pending_delivery, mark_one, mark_view,
  of_interruption, of_request, of_response, projected, resolved_with,
}
use newconduit.Model.{
  DeliveryState, InteractionRecord, InteractionResolution, InteractionState, InteractionView,
  InterruptionReason, abandoned, accepted, condition_eq, event_type_eq, interrupted, lifecycle_eq,
  open_interaction, resolved, status_eq,
}

abbrev pub HasEvents : InteractionState → InteractionView → Type 0
HasEvents open_interaction v = (v.responded_event_id ≡ none) × (v.interrupted_event_id ≡ none)
HasEvents resolved v = is_some (present v.responded_event_id) ≡ true
HasEvents interrupted v = is_some (present v.interrupted_event_id) ≡ true

abbrev IsShaped : InteractionState → InteractionRecord → Type 0
IsShaped open_interaction x =
    (x.resolution ≡ none) × (x.interruption ≡ none) × (is_pending_delivery x.delivery.state ≡ false)
IsShaped resolved x =
    (is_some x.resolution ≡ true)
    × (x.interruption ≡ none)
    × (is_some (present x.delivery.command_event_id) ≡ true)
IsShaped interrupted x =
    (x.resolution ≡ none)
    × (is_some x.interruption ≡ true)
    × (is_pending_delivery x.delivery.state ≡ false)

pub record IsConsistent (x : InteractionRecord) : Type 0 where
  pub shaped : IsShaped x.state x
  pub events : All (HasEvents x.state) x.views

pub data Transition (x x' : InteractionRecord) : Type 0 where
  resolve_one :
      (r : InteractionResolution) (command : String) (views : List InteractionView) (t : ℕ)
      → x.state ≡ open_interaction
      → (command == "") ≡ false
      → All (HasEvents resolved) views
      → x' ≡ resolved_with x r command views t
      → Transition x x'
  interrupt_one :
      (reason : InterruptionReason) (at : ℕ) (views : List InteractionView) (t : ℕ)
      → x.state ≡ open_interaction
      → All (HasEvents interrupted) views
      → x' ≡ interrupted_for x reason at views t
      → Transition x x'
  accept_one :
      (t : ℕ)
      → is_pending_delivery x.delivery.state ≡ true
      → x' ≡ delivered_to accepted x t
      → Transition x x'
  abandon_one :
      (t : ℕ)
      → is_pending_delivery x.delivery.state ≡ true
      → x' ≡ delivered_to abandoned x t
      → Transition x x'
  project_one :
      (p : Projection) (session : String) (t : ℕ) → x' ≡ projected p session x t → Transition x x'

pub Transition-same :
    (x x' : InteractionRecord) → Transition x x' → x'.interaction_id ≡ x.interaction_id
unfolding resolved_with interrupted_for delivered_to projected
Transition-same x x' (resolve_one r command views t o c e f) = rw f refl
Transition-same x x' (interrupt_one reason at views t o e f) = rw f refl
Transition-same x x' (accept_one t p f) = rw f refl
Transition-same x x' (abandon_one t p f) = rw f refl
Transition-same x x' (project_one p session t f) = rw f refl

-- A delivery is pending only where the interaction is resolved.
pending_resolved :
    (s : InteractionState) (x : InteractionRecord)
    → IsShaped s x
    → is_pending_delivery x.delivery.state ≡ true
    → s ≡ resolved
pending_resolved open_interaction x (r, i, d) p = absurd (ground (arith, d, p))
pending_resolved resolved x h p = refl
pending_resolved interrupted x (r, i, d) p = absurd (ground (arith, d, p))

delivered-IsConsistent :
    (state : DeliveryState) (x : InteractionRecord) (t : ℕ)
    → is_pending_delivery x.delivery.state ≡ true
    → IsConsistent x
    → IsConsistent (delivered_to state x t)
unfolding delivered_to
delivered-IsConsistent state x t p s =
    let now_resolved = pending_resolved x.state x s.shaped p in
    record {
      shaped = rw now_resolved (subst (λ q. IsShaped q x) now_resolved s.shaped);
      events = s.events;
    }

mark_view-HasEvents :
    (p : Projection) (s : InteractionState) (v : InteractionView)
    → HasEvents s v
    → HasEvents s (mark_view p v)
mark_view-HasEvents of_request open_interaction v h = h
mark_view-HasEvents of_request resolved v h = h
mark_view-HasEvents of_request interrupted v h = h
mark_view-HasEvents of_response open_interaction v h = h
mark_view-HasEvents of_response resolved v h = h
mark_view-HasEvents of_response interrupted v h = h
mark_view-HasEvents of_interruption open_interaction v h = h
mark_view-HasEvents of_interruption resolved v h = h
mark_view-HasEvents of_interruption interrupted v h = h

mark_one-HasEvents :
    (p : Projection) (session : String) (s : InteractionState) (v : InteractionView)
    → HasEvents s v
    → HasEvents s (mark_one p session v)
unfolding mark_one
mark_one-HasEvents p session s v h = elim (Bool-cases (v.session_id == session)) [
  | inr e ↦ rw e h
  | inl e ↦ rw e (mark_view-HasEvents p s v h)
]

marked_views :
    (p : Projection) (session : String) (s : InteractionState) (vs : List InteractionView)
    → All (HasEvents s) vs
    → All (HasEvents s) (map (mark_one p session) vs)
marked_views p session s [] h = tt
marked_views p session s (v ∷ vs) h =
    (mark_one-HasEvents p session s v h.0, marked_views p session s vs h.1)

same_shape :
    (s : InteractionState) (x y : InteractionRecord)
    → x.resolution ≡ y.resolution
    → x.interruption ≡ y.interruption
    → x.delivery ≡ y.delivery
    → IsShaped s y
    → IsShaped s x
same_shape open_interaction x y r i d h = rw r (rw i (rw d h))
same_shape resolved x y r i d h = rw r (rw i (rw d h))
same_shape interrupted x y r i d h = rw r (rw i (rw d h))

fresh_id : (o : String) → (o == "") ≡ false → is_some (present (some o)) ≡ true
fresh_id o h = rw h refl

-- Each change of a sound interaction gives a sound one.
pub Transition-IsConsistent :
    (x x' : InteractionRecord) → Transition x x' → IsConsistent x → IsConsistent x'
unfolding resolved_with interrupted_for projected
Transition-IsConsistent x x' (resolve_one r command views t o c e f) s = rw f (record {
  shaped = (refl, (subst (λ q. IsShaped q x) o s.shaped).1, fresh_id command c);
  events = e;
})
Transition-IsConsistent x x' (interrupt_one reason at views t o e f) s =
    rw f (record { shaped = ((subst (λ q. IsShaped q x) o s.shaped).0, refl, refl); events = e })
Transition-IsConsistent x x' (accept_one t p f) s = rw f (delivered-IsConsistent accepted x t p s)
Transition-IsConsistent x x' (abandon_one t p f) s = rw f (delivered-IsConsistent abandoned x t p s)
Transition-IsConsistent x x' (project_one p session t f) s = rw f (record {
  shaped = same_shape x.state (projected p session x t) x refl refl refl s.shaped;
  events = marked_views p session x.state x.views s.events;
})
