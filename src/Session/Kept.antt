-- ===== src/Session/Kept.antt =====
-- `acceptInput` and `pauseSession` of src/central/managers/session/session-manager.ts,
-- and `request` of session-pause-manager.ts, beside the logs.
use newconduit.Session.Log.{
  IsLogged, IsLogged-close, Kept, SessionsOk, append_event_keeps, get-with_session, kept,
  store-Kept, update_session-SessionsOk,
}
use newconduit.Base.{
  Bool-cases, Option, Option-cases, String, any, ap, arith, default, get, inl, inr, keep, le_refl,
  list_eq, lt_next, nat_eq, option_eq, pair_eq, refl, some, string_eq, subst, sym, truthy, values,
  ◌&&◌, ◌+◌, ◌==◌, ◌∙◌, ◌≡◌, ◌⊎◌,
}
use newconduit.Model.{
  Actor, JsonValue, PauseReason, RequestContext, RuntimeEvent, SessionRecord, client,
  client_requested, condition_eq, event_type_eq, lifecycle_eq, pausing, running, status_eq,
}
use newconduit.Session.EventLog.{append}
use newconduit.Session.Lifecycle.{
  TerminalHook, advance_event_cursor, allocate_next_turn, fire_terminal_hook,
  transition_after_event,
}
use newconduit.Session.Manager.{accept_input, is_open, pause_session, require_public_session}
use newconduit.Storage.Records.{
  append_event, read_interactions_by_session, read_session, write_session,
}
use newconduit.World.{Result, World, continue, continue-pure, err, ok, pure, session_not_found}
use newconduit.Persistence.{class_of_id, class_plan_capture, plan_capture, resolve}
use newconduit.Session.Pause.{
  assert_worker_lease, hold, reason_text, request, to_worker_command, with_command,
}

require_public_session_cases :
    (ctx : RequestContext) (id : String) (w : World)
    → (require_public_session ctx id w ≡ (err session_not_found, w))
      ⊎ ((s : SessionRecord) × (get id w.store.sessions ≡ some s)
          × (s.owner ≡ ctx.principal.principal_id)
          × (require_public_session ctx id w ≡ (ok s, w)))
unfolding require_public_session read_session
require_public_session_cases ctx id w = elim (Option-cases (get id w.store.sessions)) [
  | inl e ↦ inl (rw (e, require_public_session))
  | inr (s, e) ↦ elim (Bool-cases (s.owner == ctx.principal.principal_id)) [
    | inl own ↦ inr (
      s,
      e,
      ground (arith, string_eq.equal_iff s.owner ctx.principal.principal_id),
      rw (e, require_public_session) (rw own),
    )
    | inr foreign ↦ inl (rw (e, require_public_session) (rw foreign))
  ]
]

-- Where every session is stored under its identifier and its log has rising sequence numbers, the
-- last at most the session's event cursor, this holds again after an input, whatever it returns or
-- throws: no session, a foreign one, one with a worker, one without, or an event without an owner.
pub accept_input-Kept :
    (ctx : RequestContext) (id : String) (ack_id : Option String) (input : JsonValue) (w : World)
    → SessionsOk w.store
    → Kept (accept_input ctx id ack_id input w)
unfolding accept_input allocate_next_turn append append_event advance_event_cursor write_session
accept_input-Kept ctx id ack_id input w v = elim (require_public_session_cases ctx id w) [
  | inl e ↦ rw e (kept _ v)
  | inr (s, found, own, e) ↦ rw e (
      let allocated = record s {
        next_turn_seq = s.next_turn_seq + 1;
        updated_at = w.host.clock w.readings;
      } in
      let same = v.keyed id s found in
      append_event_keeps id allocated _ _ _
        (update_session-SessionsOk id s allocated w.store v found refl (omega arith))
        (get-with_session id allocated w.store same) refl (omega arith)
        (λ event u logged. elim (Bool-cases (truthy s.current_worker_id)) [
          | inl bound ↦ rw bound (kept _ (IsLogged-close logged _ same (le_refl _)))
          | inr free ↦ rw free (
              append_event_keeps id _ _ _ _ (IsLogged-close logged _ same (le_refl _))
                (get-with_session id _ u.store same) refl (lt_next _)
                (λ event' u' logged'. kept _ (IsLogged-close logged' _ same (le_refl _))))
        ]))
]

pub pure_keeps {ℓ κ} :
    {A : Type ℓ} {B : Type κ} (f : A → B) (r : Result A) (u : World)
    → SessionsOk u.store
    → Kept (continue (λ a. pure (f a)) r u)
pure_keeps f (ok a) u v = kept _ v
pure_keeps f (err e) u v = kept _ v

resolve-world : (s : SessionRecord) (w : World) → (resolve s w).1 ≡ w
unfolding resolve
resolve-world s w = elim (Bool-cases (truthy s.storage_class)) [
  | inr e ↦ rw e refl
  | inl e ↦ rw e (elim (Option-cases (class_of_id (default s.storage_class ""))) [
    | inl f ↦ rw f refl
    | inr (c, f) ↦ rw f refl
  ])
]

plan_capture-world : (s : SessionRecord) (id : String) (w : World) → (plan_capture s id w).1 ≡ w
unfolding plan_capture
plan_capture-world s id w = rw (continue-pure (λ c. class_plan_capture c s id)) (resolve-world s w)

to_worker_command-store :
    (s : SessionRecord) (e : RuntimeEvent) (w : World) → (to_worker_command s e w).1.store ≡ w.store
unfolding to_worker_command assert_worker_lease
to_worker_command-store s e w =
    elim (Bool-cases (truthy s.current_worker_id && truthy s.session_lease_id)) [
      | inr idle ↦ rw idle refl
      | inl leased ↦
          rw leased (ap (λ u. u.store) (continue-pure _ _ _ ∙ plan_capture-world s e.event_id _))
    ]

with_command-Kept :
    (s : SessionRecord) (e : RuntimeEvent) (w : World)
    → SessionsOk w.store
    → Kept (with_command s e w)
unfolding with_command
with_command-Kept s e w v =
    pure_keeps (λ c. record { session = s; pause_requested_event = e; worker_command = c })
      (to_worker_command s e w).0 (to_worker_command s e w).1
      (subst SessionsOk (sym (to_worker_command-store s e w)) v)

hold-Kept :
    (hook : TerminalHook) (id : String) (s : SessionRecord) (reason : PauseReason)
    (e : RuntimeEvent) (w : World)
    → s.session_id ≡ id
    → IsLogged id e.sequence w.store
    → Kept (hold hook s reason e w)
unfolding hold transition_after_event fire_terminal_hook write_session
hold-Kept hook id s reason e w same logged =
    let held = record s {
      status = pausing;
      lifecycle_reason = some (reason_text reason);
      event_cursor = e.sequence;
      last_event_updated_at = e.timestamp;
      updated_at = w.host.clock w.readings;
    } in
    with_command-Kept held e _ (IsLogged-close logged held same (le_refl _))

-- A pause that is asked for keeps the invariant, with any hook: a pausing session is not at an end.
pub request-Kept :
    (hook : TerminalHook) (id : String) (s : SessionRecord) (actor : Actor) (reason : PauseReason)
    (ack_id : Option String) (w : World)
    → SessionsOk w.store
    → get id w.store.sessions ≡ some s
    → Kept (request hook s actor reason ack_id w)
unfolding request append assert_worker_lease
request-Kept hook id s actor reason ack_id w v found =
    let same = v.keyed id s found in
    elim (Bool-cases (truthy s.current_worker_id && truthy s.session_lease_id)) [
      | inr idle ↦ rw idle (kept _ v)
      | inl leased ↦ rw leased (
          append_event_keeps id s _ _ _ v found (ap some same) (lt_next _)
            (λ event u logged. hold-Kept hook id s reason event u same logged))
    ]

-- Where every session is stored under its identifier and its log has rising sequence numbers, the
-- last at most the session's event cursor, this holds again after a client's pause, whatever it
-- returns or throws and whatever the terminal hook is.
pub pause_session-Kept :
    (hook : TerminalHook) (ctx : RequestContext) (id : String) (ack_id : Option String) (w : World)
    → SessionsOk w.store
    → Kept (pause_session hook ctx id ack_id w)
unfolding pause_session read_interactions_by_session
pause_session-Kept hook ctx id ack_id w v = elim (require_public_session_cases ctx id w) [
  | inl e ↦ rw e (kept _ v)
  | inr (s, found, own, e) ↦ rw e (elim (Bool-cases (s.status == running)) [
    | inr idle ↦ rw idle (kept _ v)
    | inl runs ↦
        rw runs
          (elim (Bool-cases (
            any is_open
              (keep (λ x. any (λ v. v.session_id == id) x.views) (values w.store.interactions)))) [
                | inl waits ↦ rw waits (kept _ v)
                | inr clear ↦ rw clear (
                    pure_keeps some _ _ (
                      store-Kept _
                        (request-Kept hook id s client client_requested ack_id w v found)))
              ])
  ])
]
