-- ===== src/Delegation/Changes.antt =====
-- The changes of a stored relation that src/central/managers/delegation/delegation-manager.ts and
-- delegation-dispatcher.ts write: a step relation, with one constructor for each kind of write.
use newconduit.Base.{
  All, Among, Bool, Option, String, false, is_some, list_eq, nat_eq, none, option_eq, pair_eq, some,
  string_eq, true, ℕ, ◌==◌, ◌||◌, ◌≡◌,
}
use newconduit.Delegation.{
  amended, appended, bound_call, closed_for, completed_one, completed_relation, dispatched,
  failed_by_turn, failed_one, is_claimed, is_creating, is_open_relation, is_queued,
  is_terminal_call, opened, revised,
}
use newconduit.Delegation.Rounds.{active_of}
use newconduit.Model.{
  DelegationCallDispatch, DelegationCallRecord, DelegationCloseReason, DelegationFailure,
  DelegationRecord, DelegationStatus, condition_eq, event_type_eq, failed_relation, lifecycle_eq,
  status_eq,
}

-- An active call is the one that the relation names and has its binding to a turn; nothing waits in a
-- relation that failed.
abbrev pub is_failed : DelegationStatus → Bool
is_failed failed_relation = true
is_failed _ = false

pub record IsSoundCall (status : DelegationStatus) (named : Option String)
    (c : DelegationCallRecord) : Type 0 where
  pub identified : (c.delegation_call_id == "") ≡ false
  pub claimed_named : is_claimed c.status ≡ true → named ≡ some c.delegation_call_id
  pub claimed_bound : is_claimed c.status ≡ true → is_some c.dispatch ≡ true
  pub over_when_failed : is_failed status ≡ true → is_terminal_call c.status ≡ true

pub record IsSound (d : DelegationRecord) : Type 0 where
  pub sound_calls : All (IsSoundCall d.status d.active_call_id) d.calls
  pub failed_inactive : is_failed d.status ≡ true → d.active_call_id ≡ none

pub data Change (d d' : DelegationRecord) : Type 0 where
  append_one :
      (c : DelegationCallRecord) (t : ℕ)
      → (is_open_relation d.status || is_creating d.status) ≡ true
      → is_queued c.status ≡ true
      → (c.delegation_call_id == "") ≡ false
      → d' ≡ appended d c t
      → Change d d'
  open_one : (t : ℕ) → is_creating d.status ≡ true → d' ≡ opened d t → Change d d'
  bind_one :
      (c : DelegationCallRecord) (p : DelegationCallDispatch) (t : ℕ)
      → is_open_relation d.status ≡ true
      → Among c d.calls
      → active_of d ≡ none
      → d' ≡ dispatched d (bound_call c p t) t
      → Change d d'
  amend_one :
      (c c' : DelegationCallRecord) (t : ℕ)
      → Among c d.calls
      → c'.delegation_call_id ≡ c.delegation_call_id
      → c'.status ≡ c.status
      → is_some c'.dispatch ≡ is_some c.dispatch
      → d' ≡ amended d c' t
      → Change d d'
  complete_one :
      (c : DelegationCallRecord) (result digest : String) (t u : ℕ)
      → active_of d ≡ some c
      → d' ≡ revised d (completed_relation d (completed_one c result digest t)) u
      → Change d d'
  fail_one :
      (c : DelegationCallRecord) (failure : DelegationFailure) (message : String) (t u : ℕ)
      → active_of d ≡ some c
      → d' ≡ revised d (failed_by_turn d (failed_one c failure t) message t) u
      → Change d d'
  close_one :
      (reason : DelegationCloseReason) (failure : DelegationFailure) (t : ℕ)
      → d' ≡ closed_for d reason failure t
      → Change d d'
