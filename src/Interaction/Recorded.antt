-- ===== src/Interaction/Recorded.antt =====
-- The first answer that `resolve` of src/central/managers/interaction/interaction-manager.ts is given.
use newconduit.Base.{
  All, List, String, [], beq_refl, get, get-put_self, list_eq, nat_eq, option_eq, pair_eq, put,
  refl, some, string_eq, subst, suc, sym, ℕ, ◌+◌, ◌∙◌, ◌≡◌,
}
use newconduit.Interaction.{resolved_with}
use newconduit.Interaction.Answer.{
  InteractionRespondRequestPayload, answering_view, authorize_response, build_response,
  resolve_open,
}
use newconduit.Interaction.Manager.{ResolveInteractionResult, resolve_round, resolved_now}
use newconduit.Interaction.Transitions.{HasEvents, IsConsistent}
use newconduit.Interaction.Turns.{Random, answering_view-Draws, collect-Draws}
use newconduit.Model.{
  InteractionRecord, InteractionResolution, InteractionView, RequestContext, Response, condition_eq,
  event_type_eq, lifecycle_eq, open_interaction, pending_delivery, resolved, status_eq,
}
use newconduit.Storage.Claims.{compare_and_set_interaction, write_if}
use newconduit.Storage.Records.{read_interaction}
use newconduit.World.{World, ok}
use newconduit.World.Contend.{contend}
use newconduit.World.Retry.{retry, retry_first}

answer_written :
    {A : Type 0} (x : InteractionRecord) (r : InteractionResolution) (command : String)
    (views : List InteractionView) (t : ℕ) (a : A) (w : World)
    → get x.interaction_id w.store.interactions ≡ some x
    → w.rivals ≡ []
    → contend (compare_and_set_interaction x.revision (resolved_with x r command views t)) a w ≡ (
      ok (some a),
      record w {
        store = record w.store {
          interactions =
              put x.interaction_id (resolved_with x r command views t) w.store.interactions;
        };
      },
    )
unfolding contend compare_and_set_interaction read_interaction write_if resolved_with
answer_written x r command views t a w at alone = rw alone (
    rw at (
      rw (beq_refl x.revision) (
        rw (beq_refl (x.revision + 1)) (
          rw (beq_refl x.tenant_id) (
            rw (beq_refl x.owner_session_id) (
              rw (beq_refl x.owner_turn_seq)
                (rw (beq_refl x.adapter_request_id) (rw (beq_refl x.request_lease_id) refl))))))))

-- An answer that was recorded, with what it left stored.
pub record Recorded (tenant_id : String) (fuel : ℕ) (context : RequestContext)
    (addressed_id : String) (reply : InteractionRespondRequestPayload) (response : Response)
    (w : World) : Type 0 where
  pub world : World
  pub stored : InteractionRecord
  pub resolved_at : ℕ
  pub command : String
  pub returned :
      retry (suc fuel) (resolve_round tenant_id context addressed_id reply) w
      ≡ (ok (record { interaction_id = reply.interaction_id; status = resolved_now }), world)
  pub found : get reply.interaction_id world.store.interactions ≡ some stored
  is_resolved_now : stored.state ≡ resolved
  pub answer :
      stored.resolution
      ≡ some (record {
        response = response;
        principal_id = context.principal.principal_id;
        via_session_id = addressed_id;
        resolved_at = resolved_at;
      })
  pub pending :
      stored.delivery ≡ record { state = pending_delivery; command_event_id = some command }

-- Where an answer to an open interaction of the tenant comes from someone who may give it, has the
-- response that its kind asks for, and no other task writes, the loop of `resolve` records it: the
-- interaction is stored resolved with that response and who gave it, and its delivery is pending.
pub resolve_round-Recorded :
    (fuel : ℕ) (context : RequestContext) (addressed_id : String)
    (reply : InteractionRespondRequestPayload) (response : Response) (x : InteractionRecord)
    (w : World)
    → get reply.interaction_id w.store.interactions ≡ some x
    → x.interaction_id ≡ reply.interaction_id
    → IsConsistent x
    → x.state ≡ open_interaction
    → authorize_response x addressed_id context w ≡ (ok tt, w)
    → ((u : World) → build_response x.kind reply u ≡ (ok response, u))
    → Random w
    → w.rivals ≡ []
    → Recorded x.tenant_id fuel context addressed_id reply response w
unfolding resolve_round read_interaction resolve_open resolved_with
resolve_round-Recorded fuel context addressed_id reply response x w at own sound o may builds random
      alone =
    let t = w.host.clock w.readings in
    let command = w.host.uuid w.drawn in
    let drawn : World = record w { readings = w.readings + 1; drawn = w.drawn + 1 } in
    let views =
      collect-Draws answering_view (HasEvents open_interaction) (HasEvents resolved)
        answering_view-Draws x.views drawn random
        (subst (λ q. All (HasEvents q) x.views) o sound.events) in
    let resolution : InteractionResolution = record {
      response = response;
      principal_id = context.principal.principal_id;
      via_session_id = addressed_id;
      resolved_at = t;
    } in
    let next = resolved_with x resolution command views.value t in
    let result : ResolveInteractionResult = record {
      interaction_id = x.interaction_id;
      status = resolved_now;
    } in
    let u = views.world in
    let after : World = record u {
      store = record u.store { interactions = put x.interaction_id next u.store.interactions };
    } in
    let written =
      answer_written x resolution command views.value t result u
        (rw views.same.0 (subst (λ k. get k w.store.interactions ≡ some x) (sym own) at))
        (views.same.1 ∙ alone) in
    let round : resolve_round x.tenant_id context addressed_id reply w ≡ (ok (some result), after) =
      rw at (
        (rw (beq_refl x.tenant_id) (
          rw may (
            rw o (rw (builds (record w { readings = w.readings + 1 })) (rw views.is written)))))) in
    record {
      world = after;
      stored = next;
      resolved_at = t;
      command = command;
      returned =
          retry_first (resolve_round x.tenant_id context addressed_id reply) fuel w after result
            round
          ∙ rw own refl;
      found =
          subst (λ k. get k after.store.interactions ≡ some next) own
            (get-put_self x.interaction_id next u.store.interactions);
      is_resolved_now = refl;
      answer = refl;
      pending = refl;
    }
