-- ===== src/Delegation/Dispatch.antt =====
-- src/central/managers/delegation/delegation-dispatcher.ts and delegated-session-manager.ts: the next
-- call of a relation becomes active, and the child session gets its input.
use newconduit.Base.{
  Bool, List, Option, String, Table, [], default, false, find, get, list_eq, nat_eq, none,
  option_eq, pair_eq, present, put, some, string_eq, true, ℕ, ◌++◌, ◌+◌, ◌==◌, ◌∷◌,
}
use newconduit.Delegation.Rounds.{is_accepted}
use newconduit.Model.{
  DelegationCallDispatch, DelegationCallRecord, DelegationRecord, JsonValue, RuntimeEvent,
  SessionRecord, SessionStatus, accepted_call_input, central, condition_eq, created, event_type_eq,
  field, input_accepted, input_command, lifecycle_eq, no_fields, object, running, session_input,
  status_eq, text,
}
use newconduit.Session.Assignment.{WorkerCommandOutput}
use newconduit.Session.EventLog.{append}
use newconduit.Session.Lifecycle.{accept_turn_after_event}
use newconduit.Storage.Records.{read_events, read_session}
use newconduit.World.{
  M, Result, World, branch, child_missing, child_not_running, ensure, err, no_dispatch, ok,
  on_option, pure, require, ◌>>=◌, ◌>>◌,
}
use newconduit.Session.Start.{start_created_session}
use newconduit.Delegation.Queue.{claim_call}

pub record PreparedDelegatedCall : Type 0 where
  pub session : SessionRecord
  pub worker_commands : List WorkerCommandOutput
  pub session_created_event : Option RuntimeEvent
  pub session_catalog_updated_event : Option RuntimeEvent
  pub needs_reconcile : Bool

pub record DispatchDelegationCallResult : Type 0 where
  pub delegation : DelegationRecord
  pub call : DelegationCallRecord
  pub worker_commands : List WorkerCommandOutput
  pub session_created_event : Option RuntimeEvent
  pub session_catalog_updated_event : Option RuntimeEvent
  pub needs_reconcile : Bool

abbrev belongs_to : DelegationRecord → SessionRecord → Bool
belongs_to d s = elim s.delegation_binding [
  | none ↦ false
  | some b ↦ b.delegation_id == d.delegation_id
]

require_child_session : DelegationRecord → M SessionRecord
unfolding read_session
require_child_session d = do
  found ← read_session d.child_session_id
  s ← require found child_missing
  ensure (belongs_to d s) child_missing
  pure s

abbrev agent_input : DelegationCallRecord → JsonValue
agent_input c = object (field "message" (text c.input) no_fields)

command_for :
    DelegationCallDispatch
    → DelegationCallRecord
    → SessionRecord
    → ℕ
    → String
    → String
    → WorkerCommandOutput
command_for p c s sequence worker lease = record {
  worker_id = worker;
  event = record {
    event_id = p.command_event_id;
    session_id = some s.session_id;
    worker_id = some worker;
    ack_id = none;
    turn_seq = some p.child_turn_seq;
    sequence = sequence;
    type = session_input;
    timestamp = c.updated_at;
    actor = central;
    session_lease_id = some lease;
    payload = input_command (record {
      session_id = s.session_id;
      worker_id = worker;
      session_lease_id = lease;
      turn_seq = p.child_turn_seq;
      input = agent_input c;
    });
  };
}

input_commands :
    DelegationCallDispatch → DelegationCallRecord → SessionRecord → ℕ → List WorkerCommandOutput
unfolding command_for
input_commands p c s sequence = elim (present s.current_worker_id) [
  | none ↦ []
  | some worker ↦ elim (present s.session_lease_id) [
    | none ↦ []
    | some lease ↦ command_for p c s sequence worker lease ∷ []
  ]
]

abbrev listed {ℓ} : {A : Type ℓ} → Option A → List A
listed none = []
listed (some a) = a ∷ []

abbrev is_created : SessionStatus → Bool
is_created created = true
is_created _ = false

abbrev is_running : SessionStatus → Bool
is_running running = true
is_running _ = false

-- `reconcileTails`: how the last dispatch of each relation ended.
abbrev pub ReconcileTails : Type 0
ReconcileTails = Table String (Result (Option DispatchDelegationCallResult))

-- A dispatch returns or throws, and leaves its end in the tails and what it did in the world.
abbrev Dispatched : Type 0
Dispatched = Result (Option DispatchDelegationCallResult) × ReconcileTails × World

-- `this.reconcileTails.get(delegationId) ?? Promise.resolve(undefined)`.
unfoldable pub previous_of : String → ReconcileTails → Result (Option DispatchDelegationCallResult)
previous_of id tails = default (get id tails) (ok none)

abbrev after_previous :
    Result (Option DispatchDelegationCallResult)
    → Result (Option DispatchDelegationCallResult) × World
    → String
    → ReconcileTails
    → World
    → Dispatched
after_previous (err e) run id tails w = (err e, put id (err e) tails, w)
after_previous (ok r) run id tails w = (run.0, put id run.0 tails, run.1)

module _ (before : String → String → Bool) where
  -- The first turn starts the child session, with its assignment.
  prepare_first :
      DelegationCallDispatch → DelegationCallRecord → SessionRecord → M PreparedDelegatedCall
  unfolding input_commands
  prepare_first p c s = do
    started ←
        start_created_session before s (some p.input_event_id) none
          (accepted_call_input (agent_input c) c.delegation_call_id)
    pure (record {
      session = started.session;
      worker_commands =
          listed started.worker_command
          ++ input_commands p c started.session started.session.event_cursor;
      session_created_event = some started.session_created_event;
      session_catalog_updated_event = some started.session_catalog_updated_event;
      needs_reconcile = started.needs_reconcile;
    })

  abbrev only_input : List WorkerCommandOutput → SessionRecord → PreparedDelegatedCall
  only_input commands s = record {
    session = s;
    worker_commands = commands;
    session_created_event = none;
    session_catalog_updated_event = none;
    needs_reconcile = false;
  }

  -- A later turn of a running child session.
  prepare_later :
      DelegationCallDispatch → DelegationCallRecord → SessionRecord → M PreparedDelegatedCall
  unfolding input_commands
  prepare_later p c s = do
    event ← append (record {
      event_id = some p.input_event_id;
      type = input_accepted;
      actor = central;
      payload = accepted_call_input (agent_input c) c.delegation_call_id;
      sequence = s.event_cursor + 1;
      session_id = some s.session_id;
      worker_id = none;
      ack_id = none;
      turn_seq = some p.child_turn_seq;
      session_lease_id = none;
    })
    next ← accept_turn_after_event s p.child_turn_seq event.sequence event.timestamp running none
    pure (only_input (input_commands p c next next.event_cursor) next)

  prepare_call : DelegationRecord → DelegationCallRecord → M PreparedDelegatedCall
  unfolding require_child_session prepare_first prepare_later read_events
  prepare_call d c = do
    p ← require c.dispatch no_dispatch
    s ← require_child_session d
    log ← read_events s.session_id 0
    on_option (find (λ e. e.event_id == p.input_event_id) log)
        (branch (is_created s.status) (prepare_first p c s)
          (ensure (is_running s.status) child_not_running >>= λ _. prepare_later p c s))
        (λ e.
          require_child_session d >>= λ s'. pure (only_input (input_commands p c s' e.sequence) s'))

  abbrev dispatch_result :
      DelegationRecord → DelegationCallRecord → PreparedDelegatedCall → DispatchDelegationCallResult
  dispatch_result d c p = record {
    delegation = d;
    call = c;
    worker_commands = p.worker_commands;
    session_created_event = p.session_created_event;
    session_catalog_updated_event = p.session_catalog_updated_event;
    needs_reconcile = p.needs_reconcile;
  }

  dispatch_next_once : ℕ → String → M (Option DispatchDelegationCallResult)
  unfolding claim_call prepare_call
  dispatch_next_once fuel id = do
    claimed ← claim_call fuel id
    on_option claimed (pure none) (λ x.
        branch (is_accepted x.1.dispatch) (pure none)
          (prepare_call x.0 x.1 >>= λ p. pure (some (dispatch_result x.0 x.1 p))))

  -- `previous.then(() => …)`: where the previous dispatch of the relation was rejected, this one is
  -- rejected with the same error, and nothing runs.
  unfoldable pub dispatch_next : ℕ → String → ReconcileTails → World → Dispatched
  unfolding dispatch_next_once
  dispatch_next fuel id tails w =
      after_previous (previous_of id tails) (dispatch_next_once fuel id w) id tails w
