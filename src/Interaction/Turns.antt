-- ===== src/Interaction/Turns.antt =====
-- Each round of the loops of src/central/managers/interaction/interaction-manager.ts throws, stays, or
-- makes one conditional write of a change of the record that it read.
use newconduit.Base.{
  All, Bool, Bool-cases, List, Option, String, [], arith, false, inl, inr, is_some, list_eq, nat_eq,
  none, option_eq, pair_eq, present, refl, some, string_eq, subst, true, ℕ, ◌&&◌, ◌+◌, ◌==◌, ◌∙◌,
  ◌∷◌, ◌≡◌,
}
use newconduit.Interaction.{
  Projection, delivered_to, interrupted_for, is_open_state, is_pending_delivery, projected,
}
use newconduit.Interaction.Transitions.{
  Transition, IsConsistent, HasEvents, abandon_one, accept_one, interrupt_one, project_one,
}
use newconduit.Interaction.Answer.{answering_view}
use newconduit.Interaction.Update.{
  abandon_delivery, accept_delivery, ending_view, interrupt_open, is_for_command, mark_projected,
}
use newconduit.Model.{
  InteractionRecord, InteractionState, InteractionView, InterruptionReason, abandoned, accepted,
  condition_eq, event_type_eq, interrupted, lifecycle_eq, open_interaction, resolved, status_eq,
}
use newconduit.Session.EventLog.{event_id_or_new}
use newconduit.World.{M, Result, World, collect, ok}

abbrev pub Same : World → World → Type 0
Same w u = (u.store ≡ w.store) × (u.rivals ≡ w.rivals) × (u.host ≡ w.host)

abbrev pub Random : World → Type 0
Random w = (i : ℕ) → (w.host.uuid i == "") ≡ false

world_trans : (w u x : World) → Same w u → Same u x → Same w x
world_trans w u x p q = (q.0 ∙ p.0, q.1 ∙ p.1, q.2 ∙ p.2)

-- What an action gives for one element, in a world that it only draws from.
pub record Draws {B : Type 0} (P : B → Type 0) (w : World) (r : Result B × World) : Type 0 where
  pub value : B
  pub world : World
  pub is : r ≡ (ok value, world)
  pub holds : P value
  pub same : Same w world

pub collect-Draws :
    {A B : Type 0} (f : A → M B) (Q : A → Type 0) (P : B → Type 0)
    → ((a : A) (w : World) → Random w → Q a → Draws P w (f a w))
    → (xs : List A) (w : World) → Random w
    → All Q xs
    → Draws (All P) w (collect xs f w)
unfolding collect
collect-Draws f Q P each [] w given h = record {
  value = [];
  world = w;
  is = refl;
  holds = tt;
  same = (refl, refl, refl);
}
collect-Draws f Q P each (x ∷ xs) w given h =
    let one = each x w given h.0 in
    let rest = collect-Draws f Q P each xs one.world (rw one.same.2 given) h.1 in
    record {
      value = one.value ∷ rest.value;
      world = rest.world;
      is = rw one.is (rw rest.is refl);
      holds = (one.holds, rest.holds);
      same = world_trans w one.world rest.world one.same rest.same;
    }

id-Draws :
    (given : Option String) (w : World)
    → Random w
    → given ≡ none
    → Draws (λ id. is_some (present (some id)) ≡ true) w (event_id_or_new given w)
unfolding event_id_or_new
id-Draws given w random e = record {
  value = w.host.uuid w.drawn;
  world = record w { drawn = w.drawn + 1 };
  is = rw e refl;
  holds = rw (random w.drawn) refl;
  same = (refl, refl, refl);
}

pub answering_view-Draws :
    (v : InteractionView) (w : World)
    → Random w
    → HasEvents open_interaction v
    → Draws (HasEvents resolved) w (answering_view v w)
unfolding answering_view
answering_view-Draws v w random h =
    let id = id-Draws v.responded_event_id w random h.0 in
    record {
      value = record v { responded_event_id = some id.value; responded_projected = false };
      world = id.world;
      is = rw id.is refl;
      holds = id.holds;
      same = id.same;
    }

ending_view-Draws :
    (v : InteractionView) (w : World)
    → Random w
    → HasEvents open_interaction v
    → Draws (HasEvents interrupted) w (ending_view v w)
unfolding ending_view
ending_view-Draws v w random h =
    let id = id-Draws v.interrupted_event_id w random h.1 in
    record {
      value = record v { interrupted_event_id = some id.value; interrupted_projected = false };
      world = id.world;
      is = rw id.is refl;
      holds = id.holds;
      same = id.same;
    }

-- What `mutate` of `update` comes to: nothing, or a change.
pub data Mutated (x : InteractionRecord) (w : World) (r : Result (Option InteractionRecord) × World)
    : Type 0 where
  leaves_it : r ≡ (ok none, w) → Mutated x w r
  makes :
      (next : InteractionRecord) (u : World)
      → r ≡ (ok (some next), u)
      → Transition x next
      → Same w u
      → Mutated x w r

abbrev pub Mutates : (InteractionRecord → M (Option InteractionRecord)) → Type 0
Mutates mutate =
    (x : InteractionRecord) (w : World) → Random w → IsConsistent x → Mutated x w (mutate x w)

open_state : (s : InteractionState) → is_open_state s ≡ true → s ≡ open_interaction
open_state open_interaction h = refl
open_state resolved h = absurd (ground (arith, h))
open_state interrupted h = absurd (ground (arith, h))

both_right : (a b : Bool) → (a && b) ≡ true → b ≡ true
both_right true b h = h
both_right false b h = absurd (ground (arith, h))

pub accept_delivery-Mutates : (command : String) → Mutates (accept_delivery command)
unfolding accept_delivery
accept_delivery-Mutates command x w random s =
    elim (Bool-cases (is_for_command command x && is_pending_delivery x.delivery.state)) [
      | inr e ↦ leaves_it (rw e refl)
      | inl e ↦
          makes (delivered_to accepted x (w.host.clock w.readings))
            (record w { readings = w.readings + 1 }) (rw e refl)
            (accept_one (w.host.clock w.readings) (both_right (is_for_command command x) _ e) refl)
            (refl, refl, refl)
    ]

pub abandon_delivery-Mutates : Mutates abandon_delivery
unfolding abandon_delivery
abandon_delivery-Mutates x w random s = elim (Bool-cases (is_pending_delivery x.delivery.state)) [
  | inr e ↦ leaves_it (rw e refl)
  | inl e ↦
      makes (delivered_to abandoned x (w.host.clock w.readings))
        (record w { readings = w.readings + 1 }) (rw e refl)
        (abandon_one (w.host.clock w.readings) e refl) (refl, refl, refl)
]

pub mark_projected-Mutates :
    (p : Projection) (session : String) → Mutates (mark_projected p session)
unfolding mark_projected
mark_projected-Mutates p session x w random s =
    makes (projected p session x (w.host.clock w.readings)) (record w { readings = w.readings + 1 })
      refl (project_one p session (w.host.clock w.readings) refl) (refl, refl, refl)

pub interrupt_open-Mutates : (reason : InterruptionReason) → Mutates (interrupt_open reason)
unfolding interrupt_open
interrupt_open-Mutates reason x w random s = elim (Bool-cases (is_open_state x.state)) [
  | inr e ↦ leaves_it (rw e refl)
  | inl e ↦
      let o = open_state x.state e in
      let at = w.host.clock w.readings in
      let u : World = record w { readings = w.readings + 1 } in
      let views =
        collect-Draws ending_view (HasEvents open_interaction) (HasEvents interrupted)
          ending_view-Draws x.views u random (subst (λ q. All (HasEvents q) x.views) o s.events) in
      let t = views.world.host.clock views.world.readings in
      makes (interrupted_for x reason at views.value t)
        (record views.world { readings = views.world.readings + 1 }) (rw e (rw views.is refl))
        (interrupt_one reason at views.value t o views.holds refl) views.same
]
