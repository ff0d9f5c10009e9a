-- ===== src/Session/EventLog.antt =====
-- src/central/managers/session/event-log-manager.ts.
use newconduit.Base.{Option, String, none, some, ℕ}
use newconduit.Model.{Actor, EventType, Payload, RuntimeEvent}
use newconduit.Storage.Records.{append_event}
use newconduit.World.{M, now, on_option, pure, random_uuid, ◌>>=◌}

pub record EventInput : Type 0 where
  pub event_id : Option String
  pub type : EventType
  pub actor : Actor
  pub payload : Payload
  pub sequence : ℕ
  pub session_id : Option String
  pub worker_id : Option String
  pub ack_id : Option String
  pub turn_seq : Option ℕ
  pub session_lease_id : Option String

-- `eventId ?? crypto.randomUUID()`.
unfoldable pub event_id_or_new : Option String → M String
event_id_or_new given = on_option given random_uuid pure

unfoldable pub append : EventInput → M RuntimeEvent
unfolding event_id_or_new
append input = do
  id ← event_id_or_new input.event_id
  t ← now
  append_event (record {
    event_id = id;
    session_id = input.session_id;
    worker_id = input.worker_id;
    ack_id = input.ack_id;
    turn_seq = input.turn_seq;
    sequence = input.sequence;
    type = input.type;
    timestamp = t;
    actor = input.actor;
    session_lease_id = input.session_lease_id;
    payload = input.payload;
  })

-- An event of one session, with the fields that most of them leave out.
abbrev session_event : String → EventType → Actor → Payload → ℕ → EventInput
session_event id type actor payload sequence = record {
  event_id = none;
  type = type;
  actor = actor;
  payload = payload;
  sequence = sequence;
  session_id = some id;
  worker_id = none;
  ack_id = none;
  turn_seq = none;
  session_lease_id = none;
}
