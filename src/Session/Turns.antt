-- ===== src/Session/Turns.antt =====
-- `acceptInput` of src/central/managers/session/session-manager.ts on a session of the caller's own.
use mathlib.Core.List.{append_assoc}
use newconduit.Base.{
  Bool-cases, List, Option, String, Table, [], ap, arith, default, get, get-put_self, if◌then◌else◌,
  inl, inr, is_some, list_eq, nat_eq, none, not, option_eq, pair_eq, refl, some, string_eq, true,
  truthy, ◌++◌, ◌+◌, ◌==◌, ◌∙◌, ◌∷◌, ◌≡◌,
}
use newconduit.Model.{
  JsonValue, RequestContext, RuntimeEvent, SessionRecord, condition_eq, event_type_eq, lifecycle_eq,
  status_eq,
}
use newconduit.Session.EventLog.{append}
use newconduit.Session.Lifecycle.{advance_event_cursor, allocate_next_turn}
use newconduit.Session.Manager.{AcceptInputOutcome, accept_input, require_public_session}
use newconduit.Storage.Records.{append_event, append_line, read_session, write_session}
use newconduit.World.{Result, World, err, ok}
use newconduit.Session.Log.{log_of}

abbrev listed : Option RuntimeEvent → List RuntimeEvent
listed none = []
listed (some e) = e ∷ []

append-one :
    (id : String) (e : RuntimeEvent) (logs : Table String (List RuntimeEvent))
    → default (get id (append_line id e logs)) [] ≡ default (get id logs) [] ++ e ∷ []
unfolding append_line
append-one id e logs = rw (get-put_self id (default (get id logs) [] ++ e ∷ []) logs) refl

append-two :
    (id : String) (e f : RuntimeEvent) (logs : Table String (List RuntimeEvent))
    → default (get id (append_line id f (append_line id e logs))) []
      ≡ default (get id logs) [] ++ e ∷ f ∷ []
append-two id e f logs =
    append-one id f (append_line id e logs)
    ∙ ap (λ l. l ++ f ∷ []) (append-one id e logs)
    ∙ append_assoc (default (get id logs) []) (e ∷ []) (f ∷ [])

-- What the turn's result says, where `s` is the session before.
pub record IsAccepted (before : List RuntimeEvent) (s : SessionRecord) (o : AcceptInputOutcome)
    (w : World) : Type 0 where
  pub stored : get s.session_id w.store.sessions ≡ some o.session
  pub logged :
      log_of s.session_id w.store ≡ before ++ o.input_accepted_event ∷ listed o.turn_failed_event
  pub turn : o.input_accepted_event.turn_seq ≡ some s.next_turn_seq
  next_turn : o.session.next_turn_seq ≡ s.next_turn_seq + 1
  pub number : o.input_accepted_event.sequence ≡ s.event_cursor + 1
  cursor :
      o.session.event_cursor
      ≡ (if truthy s.current_worker_id then s.event_cursor + 1 else s.event_cursor + 2)
  pub command : is_some o.worker_command ≡ truthy s.current_worker_id
  pub failure : is_some o.turn_failed_event ≡ not (truthy s.current_worker_id)

abbrev pub Accepts : List RuntimeEvent → SessionRecord → Result AcceptInputOutcome × World → Type 0
Accepts before s (ok o, w) = IsAccepted before s o w
Accepts before s (err e, w) = ⊥

-- An input to a stored session of the caller's own, with an identifier that is not empty, is
-- accepted. Its event has the session's next turn number and the next sequence number and stands in
-- the log; the stored session is the one returned, with the turn number advanced. With a worker there
-- is a command and no failure; without one there is a failure event, numbered and logged next, and no
-- command.
pub accept_input-IsAccepted :
    (ctx : RequestContext) (id : String) (ack_id : Option String) (input : JsonValue) (w : World)
    (s : SessionRecord)
    → get id w.store.sessions ≡ some s
    → s.session_id ≡ id
    → s.owner ≡ ctx.principal.principal_id
    → truthy (some id) ≡ true
    → Accepts (log_of id w.store) s (accept_input ctx id ack_id input w)
unfolding accept_input require_public_session read_session allocate_next_turn append append_event
    advance_event_cursor write_session
accept_input-IsAccepted ctx id ack_id input w s found same own named =
    let owns : (s.owner == ctx.principal.principal_id) ≡ true = (string_eq.equal_iff _ _).1 own in
    rw found (
      rw owns (
        rw named (elim (Bool-cases (truthy s.current_worker_id)) [
          | inl bound ↦ rw bound (record {
            stored = get-put_self s.session_id _ _;
            logged = rw same (append-one id _ w.store.session_logs);
            turn = refl;
            next_turn = refl;
            number = refl;
            cursor = rw bound refl;
            command = rw bound refl;
            failure = rw bound refl;
          })
          | inr free ↦ rw free (
              rw named (record {
                stored = get-put_self s.session_id _ _;
                logged = rw same (append-two id _ _ w.store.session_logs);
                turn = refl;
                next_turn = refl;
                number = refl;
                cursor = rw free (omega arith);
                command = rw free refl;
                failure = rw free refl;
              }))
        ])))
