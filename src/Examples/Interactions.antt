-- ===== src/Examples/Interactions.antt =====
-- Witnesses for src/central/managers/interaction/interaction-manager.ts on one interaction.
use newconduit.Interaction.Manager.{resolve, resolve_round, resolved_now}
use newconduit.Base.{
  List, [], ap, arith, false, get, inl, inr, list_eq, nat_eq, none, option_eq, pair_eq, put,
  put_cases, refl, some, string_eq, subst, sym, true, ◌∙◌, ◌∷◌, ◌≡◌, ◌≢◌,
}
use newconduit.Examples.Data.{running_session, store_of, test_world}
use newconduit.Examples.Records.{test_interaction}
use newconduit.Interaction.{of_request}
use newconduit.Interaction.Answer.{InteractionRespondRequestPayload, authorize_response}
use newconduit.Interaction.Calls.{
  InteractionCall, acknowledges, answers, interrupts, reconciles, serve_all,
}
use newconduit.Interaction.Files.{AreFiled, AreFiled-IsPreserved, ◌⇝◌}
use newconduit.Interaction.Final.{
  answered_once, interaction_loops_end, serve_all-AreFiled, settled_final,
}
use newconduit.Interaction.Loops.{Stored}
use newconduit.Interaction.Recorded.{Recorded, resolve_round-Recorded}
use newconduit.Interaction.Transitions.{IsConsistent}
use newconduit.Interaction.Update.{
  abandon_delivery, accept_delivery, interrupt, mark_view_projected, update_interaction,
}
use newconduit.Model.{
  InteractionRecord, InteractionResolution, InteractionView, RequestContext, condition_eq, decision,
  event_type_eq, interrupted, lifecycle_eq, owner_turn_failed, owner_view, pending_delivery,
  resolved, status_eq,
}
use newconduit.Storage.Records.{read_session}
use newconduit.World.{World, err, ok, out_of_fuel}
use newconduit.World.Retry.{retry}

abbrev owner_sees : InteractionView
owner_sees = record {
  session_id = "s1";
  turn_seq = 1;
  role = owner_view;
  source = none;
  requested_event_id = "e1";
  requested_projected = true;
  responded_event_id = none;
  responded_projected = false;
  interrupted_event_id = none;
  interrupted_projected = false;
}

abbrev asked : InteractionRecord
asked = record (test_interaction 5) { views = owner_sees ∷ [] }

abbrev told : InteractionView
told = record owner_sees { responded_event_id = some "e2" }

abbrev approved_once : InteractionResolution
approved_once = record {
  response = decision true false;
  principal_id = "alice";
  via_session_id = "s1";
  resolved_at = 10;
}

abbrev answered : InteractionRecord
answered = record (test_interaction 6) {
  views = told ∷ [];
  state = resolved;
  resolution = some approved_once;
  delivery = record { state = pending_delivery; command_event_id = some "command" };
}

abbrev world_with : InteractionRecord → World
world_with x = test_world (record (store_of running_session) { interactions = ("x1", x) ∷ [] })

abbrev alice : RequestContext
alice = record {
  principal = record { principal_id = "alice"; is_user = true; connection_id = none };
  connection_id = none;
}

abbrev approval_reply : InteractionRespondRequestPayload
approval_reply = record {
  interaction_id = "x1";
  decision = some "approved";
  scope = none;
  result = none;
}

abbrev test_calls : List InteractionCall
test_calls =
    answers "t1" alice "s1" approval_reply
    ∷ reconciles
    ∷ acknowledges "uuid"
    ∷ interrupts "s1" owner_turn_failed
    ∷ []

one_interaction :
    (x : InteractionRecord) → x.interaction_id ≡ "x1" → IsConsistent x → AreFiled (("x1", x) ∷ [])
unfolding get put
one_interaction x own sound = record {
  unique = (refl, tt);
  own_key = λ id y h. elim (put_cases "x1" id x y [] h) [
    | inl (key, same) ↦ sym (ap (λ z. z.interaction_id) same) ∙ own ∙ key
    | inr (other, listed) ↦ absurd (ground arith)
  ];
  all_consistent = λ id y h. elim (put_cases "x1" id x y [] h) [
    | inl (key, same) ↦ subst IsConsistent same sound
    | inr (other, listed) ↦ absurd (ground arith)
  ];
}

asked-IsConsistent : IsConsistent asked
asked-IsConsistent = record { shaped = (refl, refl, refl); events = ((refl, refl), tt) }

asked-AreFiled : AreFiled (world_with asked).store.interactions
asked-AreFiled = one_interaction asked refl asked-IsConsistent

answered-AreFiled : AreFiled (world_with answered).store.interactions
answered-AreFiled =
    one_interaction answered refl (record { shaped = (refl, refl, refl); events = (refl, tt) })

serve_all-AreFiled_example : Stored AreFiled (serve_all 2 test_calls (world_with asked))
serve_all-AreFiled_example =
    serve_all-AreFiled 2 test_calls (world_with asked) (asked-AreFiled, tt, λ i. refl)

settled_final_example :
    (y : InteractionRecord) × (get "x1"
        (serve_all 2 test_calls (world_with answered)).store.interactions
      ≡ some y)
    × (answered ⇝ y)
    × (answered.state ≡ resolved → (y.state ≡ resolved) × (y.resolution ≡ answered.resolution))
    × (answered.state ≡ interrupted
        → (y.state ≡ interrupted) × (y.interruption ≡ answered.interruption))
unfolding get
settled_final_example =
    settled_final 2 test_calls (world_with answered) "x1" answered answered-AreFiled refl tt
      (λ i. refl)

answered_once_example :
    (resolve "t1" 2 alice "s1" approval_reply (serve_all 2 test_calls (world_with answered))).0
    ≢ ok (record { interaction_id = "x1"; status = resolved_now })
unfolding get
answered_once_example =
    answered_once 2 test_calls (world_with answered) "x1" answered answered-AreFiled refl tt
      (λ i. refl) "t1" "s1" "x1" alice approval_reply refl refl

interaction_loops_end_example :
    ((interrupt 1 "x1" owner_turn_failed (world_with asked)).0 ≢ err out_of_fuel)
    × ((mark_view_projected 1 "x1" "s1" of_request (world_with asked)).0 ≢ err out_of_fuel)
    × ((update_interaction 1 "x1" (accept_delivery "c") (world_with asked)).0 ≢ err out_of_fuel)
    × ((update_interaction 1 "x1" abandon_delivery (world_with asked)).0 ≢ err out_of_fuel)
    × ((retry 1 (resolve_round "t1" alice "s1" approval_reply) (world_with asked)).0
        ≢ err out_of_fuel)
interaction_loops_end_example =
    interaction_loops_end AreFiled-IsPreserved 1 (world_with asked) "x1" "s1" "t1" "s1" "c"
      owner_turn_failed of_request alice approval_reply (asked-AreFiled, tt, λ i. refl)
      (omega arith)

resolve_round-Recorded_example :
    Recorded "t1" 0 alice "s1" approval_reply (decision true false) (world_with asked)
unfolding get authorize_response read_session put
resolve_round-Recorded_example =
    resolve_round-Recorded 0 alice "s1" approval_reply (decision true false) asked
      (world_with asked) refl refl asked-IsConsistent refl refl (λ u. refl) (λ i. refl) refl
