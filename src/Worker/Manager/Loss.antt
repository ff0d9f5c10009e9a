-- ===== src/Worker/Manager/Loss.antt =====
-- src/central/managers/worker/worker-manager.ts. A session whose worker is gone: its turn in flight fails, its lease is lost, the session fails.
use newconduit.Base.{
  Bool, List, Option, String, [], any, find, if◌then◌else◌, is_some, keep, length, list_eq, ltb,
  max, nat_eq, none, option_eq, pair_eq, some, string_eq, truthy, ℕ, ◌&&◌, ◌++◌, ◌+◌, ◌-◌, ◌==◌,
  ◌||◌, ◌∷◌,
}
use newconduit.Model.{
  EventType, Payload, RuntimeEvent, SessionRecord, central, client_inbox, condition_eq,
  event_type_eq, failed, lease_lost, lifecycle_eq, session_events, session_lease_lost,
  session_state, session_status_updated, status_eq, turn_completed, turn_error, turn_failed,
}
use newconduit.Storage.Records.{append_event, read_events, write_session}
use newconduit.World.{M, branch, for_each, now, publish, pure, random_uuid, ◌>>=◌, ◌>>◌}

unfoldable pub has_active_lease : String → SessionRecord → Bool
has_active_lease worker_id s = s.current_worker_id == some worker_id && is_some s.session_lease_id

abbrev of_turn : ℕ → RuntimeEvent → Bool
of_turn seq e = e.turn_seq == some seq

abbrev is_turn_end : RuntimeEvent → Bool
is_turn_end e = e.type == turn_completed || e.type == turn_failed

-- `findInFlightTurnSeq`: the last turn, if it has begun and has not ended.
in_flight_turn_seq : SessionRecord → List RuntimeEvent → Option ℕ
in_flight_turn_seq s events =
    let seq = s.next_turn_seq - 1 in
    let turn = keep (of_turn seq) events in
    if ltb seq 1
    then none
    else if length turn == 0
    then none
    else if any is_turn_end turn
    then none
    else some seq

unfoldable pub max_sequence : ℕ → List RuntimeEvent → ℕ
max_sequence n [] = n
max_sequence n (e ∷ rest) = max_sequence (max n e.sequence) rest

turn_failure_of : SessionRecord → ℕ → List RuntimeEvent → Option RuntimeEvent
turn_failure_of s seq =
    find λ e. e.type == turn_failed && (of_turn seq e && e.session_lease_id == s.session_lease_id)

unfoldable pub lease_lost_of : SessionRecord → List RuntimeEvent → Option RuntimeEvent
lease_lost_of s = find λ e.
    e.type == session_lease_lost
    && (e.worker_id == s.current_worker_id && e.session_lease_id == s.session_lease_id)

unfoldable pub loss_event : SessionRecord → EventType → Option ℕ → ℕ → Payload → M RuntimeEvent
unfolding append_event
loss_event s type turn sequence payload = do
  id ← random_uuid
  t ← now
  append_event (record {
    event_id = id;
    session_id = some s.session_id;
    worker_id = s.current_worker_id;
    ack_id = none;
    turn_seq = turn;
    sequence = sequence;
    type = type;
    timestamp = t;
    actor = central;
    session_lease_id = s.session_lease_id;
    payload = payload;
  })

-- The turn in flight that has no failure yet.
unfoldable pub unfailed_turn : SessionRecord → List RuntimeEvent → Option ℕ
unfolding in_flight_turn_seq turn_failure_of
unfailed_turn s events = elim (in_flight_turn_seq s events) [
  | none ↦ none
  | some seq ↦ if is_some (turn_failure_of s seq events) then none else some seq
]

-- What a client is told of a lease that was lost.
abbrev pub status_notice : String → RuntimeEvent → RuntimeEvent
status_notice session_id event = record event {
  ack_id = none;
  type = session_status_updated;
  payload = session_state session_id failed (some "worker_lost");
}

-- `publishSessionEvent`.
unfoldable pub publish_session_event : String → RuntimeEvent → M (Unit {0})
publish_session_event session_id event = do
  publish (session_events session_id) event
  branch (event.type == session_lease_lost) (publish client_inbox (status_notice session_id event))
      (pure tt)

-- The failed turn's event, if there is one, at the next sequence number.
unfoldable pub fail_turn : SessionRecord → String → ℕ → Option ℕ → M (List RuntimeEvent)
unfolding loss_event
fail_turn s worker_state sequence none = pure []
fail_turn s worker_state sequence (some turn) = do
  event ←
      loss_event s turn_failed (some turn) (sequence + 1)
        (turn_error "worker was lost before the turn completed" "worker_lost" (some worker_state))
  pure (event ∷ [])

-- The lease's loss, recorded once.
unfoldable pub lose_lease : SessionRecord → String → ℕ → Option RuntimeEvent → M RuntimeEvent
unfolding loss_event
lose_lease s worker_state sequence (some old) = pure old
lose_lease s worker_state sequence none =
    loss_event s session_lease_lost none (sequence + 1) (lease_lost "worker_lost" worker_state)

-- The failed session's record, and its new events to the subscribers.
unfoldable pub leave_session :
    SessionRecord → ℕ → List RuntimeEvent → RuntimeEvent → M SessionRecord
leave_session s sequence failures lost = do
  t ← now
  let next : SessionRecord = record s {
    status = failed;
    current_worker_id = none;
    session_lease_id = none;
    lifecycle_reason = some "worker_lost";
    event_cursor = max sequence lost.sequence;
    updated_at = t;
  }
  write_session next
  for_each (failures ++ lost ∷ []) (publish_session_event s.session_id)
  pure next

-- After the failed turn's event: the lease is lost, and the session fails.
unfoldable pub after_failures :
    SessionRecord → String → List RuntimeEvent → ℕ → List RuntimeEvent → M SessionRecord
unfolding leave_session
after_failures s worker_state existing start failures = do
  lost ← lose_lease s worker_state (start + length failures) (lease_lost_of s existing)
  leave_session s (start + length failures) failures lost

unfoldable pub fail_leased_session : SessionRecord → String → M SessionRecord
unfolding after_failures
fail_leased_session s worker_state = do
  existing ← read_events s.session_id 0
  let start = max_sequence s.event_cursor existing
  failures ← fail_turn s worker_state start (unfailed_turn s existing)
  after_failures s worker_state existing start failures

unfoldable pub fail_session_for_worker_loss : SessionRecord → String → M SessionRecord
fail_session_for_worker_loss s worker_state =
    branch (truthy s.current_worker_id && truthy s.session_lease_id)
      (fail_leased_session s worker_state) (pure s)
