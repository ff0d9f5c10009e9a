-- ===== src/Interaction/Admit.antt =====
-- src/central/managers/interaction/interaction-manager.ts: what `admitAgentRequest` makes.
use newconduit.Base.{
  Bool, List, Option, String, [], false, find, if◌then◌else◌, list_eq, nat_eq, none, option_eq,
  pair_eq, some, string_eq, true, ℕ, ◌&&◌, ◌==◌, ◌∷◌,
}
use newconduit.Delegation.Rounds.{turn_of}
use newconduit.Interaction.Views.{require_session}
use newconduit.Model.{
  DelegationCallRecord, DelegationRecord, InteractionKind, InteractionRecord, InteractionView,
  JsonValue, SessionRecord, ViewRole, approval, condition_eq, event_type_eq, lifecycle_eq,
  not_ready, open_interaction, owner_view, parent_projection, status_eq, tool_call,
}
use newconduit.Storage.Records.{read_delegation, read_session}
use newconduit.World.{
  Host, M, ensure, no_call_for_turn, on_option, parent_of_other_owner, pure, random_uuid, require,
  ◌>>=◌, ◌>>◌,
}

pub record AgentInteractionRequestedPayload : Type 0 where
  pub adapter_request_id : String
  pub kind : InteractionKind
  pub request : JsonValue

abbrev new_view : String → ℕ → ViewRole → Option (String × String) → M InteractionView
new_view session turn_seq role source = do
  id ← random_uuid
  pure (record {
    session_id = session;
    turn_seq = turn_seq;
    role = role;
    source = source;
    requested_event_id = id;
    requested_projected = false;
    responded_event_id = none;
    responded_projected = false;
    interrupted_event_id = none;
    interrupted_projected = false;
  })

abbrev pub active_call : DelegationRecord → Option DelegationCallRecord
active_call d = elim d.active_call_id [
  | none ↦ none
  | some id ↦ find (λ c. c.delegation_call_id == id) d.calls
]

-- The active call of the delegation that an owner is the child of, where it serves the owner's turn.
abbrev pub served_call :
    SessionRecord → ℕ → Option DelegationRecord → Option (DelegationRecord × DelegationCallRecord)
served_call owner turn_seq none = none
served_call owner turn_seq (some d) = elim (active_call d) [
  | none ↦ none
  | some c ↦
      if d.child_session_id == owner.session_id && turn_of c.dispatch == some turn_seq
      then some (d, c)
      else none
]

unfoldable pub build_views : SessionRecord → ℕ → M (List InteractionView)
unfolding read_delegation read_session
build_views owner turn_seq = do
  view ← new_view owner.session_id turn_seq owner_view none
  on_option owner.delegation_binding (pure (view ∷ [])) (λ binding. do
    found ← read_delegation binding.delegation_id
    served ← require (served_call owner turn_seq found) no_call_for_turn
    parent ← require_session served.0.parent_session_id
    ensure (parent.owner == owner.owner) parent_of_other_owner
    projection ←
        new_view parent.session_id served.1.caller_turn_seq parent_projection
          (some (owner.session_id, owner.resolved_agent_spec.agent_spec_id))
    pure (view ∷ projection ∷ []))

abbrev kind_eq : InteractionKind → InteractionKind → Bool
kind_eq approval approval = true
kind_eq tool_call tool_call = true
kind_eq _ _ = false

-- `assertDuplicateAdmission`, with the requests compared by their texts.
abbrev pub is_same_admission : Host → InteractionRecord → InteractionRecord → Bool
is_same_admission host x y =
    x.owner_session_id == y.owner_session_id
    && (x.request_lease_id == y.request_lease_id
        && (x.adapter_request_id == y.adapter_request_id
            && (x.owner_turn_seq == y.owner_turn_seq
                && (kind_eq x.kind y.kind
                    && host.json_text x.request == host.json_text y.request))))

unfoldable pub new_interaction :
    String
    → SessionRecord
    → ℕ
    → String
    → AgentInteractionRequestedPayload
    → String
    → List InteractionView
    → ℕ
    → InteractionRecord
new_interaction tenant_id owner turn_seq lease payload id views t = record {
  interaction_id = id;
  tenant_id = tenant_id;
  kind = payload.kind;
  request = payload.request;
  owner_session_id = owner.session_id;
  owner_turn_seq = turn_seq;
  adapter_request_id = payload.adapter_request_id;
  request_lease_id = lease;
  views = views;
  state = open_interaction;
  resolution = none;
  interruption = none;
  delivery = record { state = not_ready; command_event_id = none };
  revision = 1;
  created_at = t;
  updated_at = t;
}
