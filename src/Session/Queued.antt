-- ===== src/Session/Queued.antt =====
-- The resumes of src/central/managers/session/session-manager.ts, up to the reconciler's pass and after
-- it. The pass is an argument: it may be any action.
use newconduit.Base.{
  Bool-cases, Option, String, [], arith, default, false, get, inl, inr, is_some, le_refl, list_eq,
  nat_eq, none, option_eq, pair_eq, refl, some, string_eq, true, truthy, ◌++◌, ◌+◌, ◌==◌, ◌∷◌, ◌≡◌,
  ◌≢◌, ◌⊎◌,
}
use newconduit.Model.{
  Actor, RequestContext, ResumeReason, RuntimeEvent, SessionRecord, by_client, by_delegation_call,
  central, client, condition_eq, event_type_eq, lifecycle_eq, paused, queued, resume_requested,
  session_resume_requested, status_eq,
}
use newconduit.Session.EventLog.{append}
use newconduit.Session.Lifecycle.{TerminalHook, fire_terminal_hook, transition_after_event}
use newconduit.Session.Log.{
  IsLogged-close, IsLogged-event, IsLogged-stored, SessionsOk, get-with_session,
  log-with_event_self, log_of, with_event, with_session,
}
use newconduit.Session.Manager.{
  ResumeSessionOutcome, is_on_its_way, requeue, require_delegated_session, require_public_session,
  resume_delegated_session, resume_session,
}
use newconduit.Storage.Records.{append_event, read_session, write_session}
use newconduit.World.{M, Result, World, cannot_resume, continue, err, not_paused, ok, pure, ◌>>=◌}

-- The world `u` in which the pass begins: the session waits with the resume's event as its last.
pub record IsQueued (w : World) (id : String) (s : SessionRecord) (event : RuntimeEvent)
    (next : SessionRecord) (u : World) : Type 0 where
  waiting : get id u.store.sessions ≡ some next
  in_queue : next.status ≡ queued
  same_turn : next.next_turn_seq ≡ s.next_turn_seq
  cursor : next.event_cursor ≡ s.event_cursor + 1
  number : event.sequence ≡ s.event_cursor + 1
  kind : event.type ≡ session_resume_requested
  logged : log_of id u.store ≡ log_of id w.store ++ event ∷ []
  sessions_ok : SessionsOk u.store

-- What follows the pass: the session as it then stands is returned, with the event.
abbrev as_it_stands : String → SessionRecord → RuntimeEvent → Unit {0} → M ResumeSessionOutcome
as_it_stands id next event done = read_session id >>= λ current.
    pure (record { session = default current next; resume_requested_event = event })

-- The session is queued, then `reconcile` runs, then the outcome is read.
abbrev pub Begins :
    M (Unit {0}) → World → String → SessionRecord → Result ResumeSessionOutcome × World → Type 0
Begins reconcile w id s r =
    (event : RuntimeEvent) × (next : SessionRecord) × (u : World) × IsQueued w id s event next u
    × (r ≡ continue (as_it_stands id next event) (reconcile u).0 (reconcile u).1)

module _ (reconcile : M (Unit {0})) (id : String) (w : World) (s : SessionRecord)
    (found : get id w.store.sessions ≡ some s) (named : truthy (some id) ≡ true)
    (v : SessionsOk w.store) where
  requeue-Begins :
      (hook : TerminalHook) (actor : Actor) (reason : ResumeReason) (ack_id : Option String)
      (lifecycle_reason : String)
      → Begins reconcile w id s (requeue hook reconcile s id actor reason ack_id lifecycle_reason w)
  unfolding requeue append append_event transition_after_event write_session fire_terminal_hook
  requeue-Begins hook actor reason ack_id lifecycle_reason =
      let same = v.keyed id s found in
      let event : RuntimeEvent = record {
        event_id = w.host.uuid w.drawn;
        session_id = some id;
        worker_id = none;
        ack_id = ack_id;
        turn_seq = none;
        sequence = s.event_cursor + 1;
        type = session_resume_requested;
        timestamp = w.host.clock w.readings;
        actor = actor;
        session_lease_id = none;
        payload = resume_requested (some reason);
      } in
      let next : SessionRecord = record s {
        status = queued;
        lifecycle_reason = some lifecycle_reason;
        event_cursor = s.event_cursor + 1;
        last_event_updated_at = w.host.clock w.readings;
        updated_at = w.host.clock (w.readings + 1);
      } in
      let u : World = record w {
        store = with_session next (with_event id event w.store);
        readings = w.readings + 1 + 1;
        drawn = w.drawn + 1;
      } in
      (
        event,
        next,
        u,
        record {
          waiting = get-with_session id next (with_event id event w.store) same;
          in_queue = refl;
          same_turn = refl;
          cursor = refl;
          number = refl;
          kind = refl;
          logged = log-with_event_self id event w.store;
          sessions_ok =
              IsLogged-close
                (IsLogged-event (IsLogged-stored id s w.store v found) event (omega arith)) next
                same (le_refl _);
        },
        rw named refl,
      )

  -- Where sessions are stored under their identifiers and none is behind its log: a client's resume of
  -- a stored session of its own, with an identifier that is not empty, is refused and changes nothing
  -- if the session is not paused. If it is paused, the reconciler's pass begins in a world where the
  -- session is stored as queued, the resume's event has the next sequence number and ends its log, and
  -- no session is behind its log; after the pass, whatever it does, the session that is then stored is
  -- returned with that event, or what the pass throws is thrown.
  pub resume_session-Begins :
      (hook : TerminalHook) (ctx : RequestContext) (ack_id : Option String)
      → s.owner ≡ ctx.principal.principal_id
      → ((s.status ≢ paused)
          × (resume_session hook reconcile ctx id ack_id w ≡ (err not_paused, w)))
        ⊎ ((s.status ≡ paused)
            × Begins reconcile w id s (resume_session hook reconcile ctx id ack_id w))
  unfolding resume_session require_public_session read_session
  resume_session-Begins hook ctx ack_id own =
      let owns : (s.owner == ctx.principal.principal_id) ≡ true = (string_eq.equal_iff _ _).1 own in
      elim (Bool-cases (s.status == paused)) [
        | inr e ↦ inl (
          λ held. ground (arith, (status_eq.equal_iff s.status paused).1 held, e),
          rw found (rw owns (rw e refl)),
        )
        | inl e ↦ inr (
          (status_eq.equal_iff s.status paused).0 e,
          rw found
              (rw owns (rw e (requeue-Begins hook client by_client ack_id "resume_requested"))),
        )
      ]

  -- Where sessions are stored under their identifiers and none is behind its log: the resume of a
  -- stored delegated session, with an identifier that is not empty, does nothing if the session is
  -- already on its way, and is refused and changes nothing if it is neither on its way nor paused. If
  -- it is paused, the reconciler's pass begins in a world where the session is stored as queued, the
  -- resume's event has the next sequence number and ends its log, and no session is behind its log;
  -- after the pass, whatever it does, the session that is then stored is returned with that event, or
  -- what the pass throws is thrown.
  pub resume_delegated_session-Begins :
      (hook : TerminalHook)
      → is_some s.delegation_binding ≡ true
      → ((is_on_its_way s.status ≡ true)
          × (resume_delegated_session hook reconcile id w ≡ (ok none, w)))
        ⊎ ((is_on_its_way s.status ≡ false)
            × (s.status ≢ paused)
            × (resume_delegated_session hook reconcile id w ≡ (err cannot_resume, w)))
        ⊎ ((s.status ≡ paused)
            × ((r : Result ResumeSessionOutcome × World) × Begins reconcile w id s r
                × (resume_delegated_session hook reconcile id w
                    ≡ continue (λ o. pure (some o)) r.0 r.1)))
  unfolding resume_delegated_session require_delegated_session read_session
  resume_delegated_session-Begins hook bound = elim (Bool-cases (is_on_its_way s.status)) [
    | inl e ↦ inl (e, rw found (rw bound (rw e refl)))
    | inr f ↦ inr (elim (Bool-cases (s.status == paused)) [
      | inr e ↦ inl (
        f,
        λ held. ground (arith, (status_eq.equal_iff s.status paused).1 held, e),
        rw found (rw bound (rw f (rw e refl))),
      )
      | inl e ↦ inr (
        (status_eq.equal_iff s.status paused).0 e,
        (
          requeue hook reconcile s id central by_delegation_call none "delegation_call" w,
          requeue-Begins hook central by_delegation_call none "delegation_call",
          rw found (rw bound (rw f (rw e refl))),
        ),
      )
    ])
  ]
