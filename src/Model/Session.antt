-- ===== src/Model/Session.antt =====
-- src/shared/models/session.ts.
use newconduit.Base.{
  Bool, Comparable, Option, String, arith, false, list_eq, nat_eq, none, option_eq, pair_eq, some,
  string_eq, true, ℕ, ◌==◌, ◌↔◌, ◌≡◌,
}
use newconduit.Model.Agent.{Labels, ResolvedAgentSpec}

pub data SessionStatus : Type 0 where
  created queued starting running pausing paused resuming completed cancelled failed : SessionStatus

rank : SessionStatus → ℕ
rank created = 0
rank queued = 1
rank starting = 2
rank running = 3
rank pausing = 4
rank paused = 5
rank resuming = 6
rank completed = 7
rank cancelled = 8
rank failed = 9

abbrev pub status_beq : SessionStatus → SessionStatus → Bool
unfolding rank
status_beq a b = rank a == rank b

pub status_beq_iff : (a b : SessionStatus) → (status_beq a b ≡ true) ↔ (a ≡ b)
unfolding rank
status_beq_iff a b = ground arith

instance abbrev pub status_eq : Comparable SessionStatus
status_eq = record { equal = status_beq; equal_iff = status_beq_iff }

pub data InteractionKind : Type 0 where
  approval tool_call : InteractionKind

pub record SessionDelegationBinding : Type 0 where
  pub delegation_id : String
  pub parent_session_id : String
  pub delegate_id : String

abbrev binding_key : SessionDelegationBinding → String × (String × String)
binding_key b = (b.delegation_id, (b.parent_session_id, b.delegate_id))

-- Two bindings are compared by their JSON text, which their three fields determine.
abbrev pub same_binding : Option SessionDelegationBinding → Option SessionDelegationBinding → Bool
same_binding none none = true
same_binding (some a) (some b) = binding_key a == binding_key b
same_binding _ _ = false

pub record SessionRecord : Type 0 where
  pub session_id : String
  pub tenant_id : String
  pub owner : String
  pub resolved_agent_spec : ResolvedAgentSpec
  pub status : SessionStatus
  pub current_worker_id : Option String
  pub session_lease_id : Option String
  pub storage_class : Option String
  pub event_cursor : ℕ
  pub next_turn_seq : ℕ
  pub workspace_ref : String
  pub latest_snapshot_ref : Option String
  pub lifecycle_reason : Option String
  pub delegation_binding : Option SessionDelegationBinding
  pub required_worker_labels : Option Labels
  pub last_event_updated_at : ℕ
  pub created_at : ℕ
  pub updated_at : ℕ
