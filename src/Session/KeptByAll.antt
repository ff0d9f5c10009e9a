-- ===== src/Session/KeptByAll.antt =====
-- The pause of a delegated session, of
-- src/central/managers/session/session-manager.ts.
use newconduit.Base.{
  Bool-cases, Option-cases, String, get, inl, inr, is_some, list_eq, nat_eq, none, option_eq,
  pair_eq, refl, some, string_eq, truthy, ◌&&◌, ◌==◌, ◌||◌, ◌≡◌, ◌⊎◌,
}
use newconduit.Model.{
  SessionRecord, by_parent, central, condition_eq, event_type_eq, lifecycle_eq, paused, pausing,
  running, status_eq,
}
use newconduit.Session.Kept.{pure_keeps, request-Kept}
use newconduit.Session.Lifecycle.{TerminalHook}
use newconduit.Session.Log.{Kept, SessionsOk, kept, store-Kept}
use newconduit.Session.Manager.{pause_delegated_session, require_delegated_session}
use newconduit.Storage.Records.{read_session}
use newconduit.World.{World, delegated_session_not_found, err, ok}

require_delegated_session_cases :
    (id : String) (w : World)
    → (require_delegated_session id w ≡ (err delegated_session_not_found, w))
      ⊎ ((s : SessionRecord) × (get id w.store.sessions ≡ some s)
          × (require_delegated_session id w ≡ (ok s, w)))
unfolding require_delegated_session read_session
require_delegated_session_cases id w = elim (Option-cases (get id w.store.sessions)) [
  | inl e ↦ inl (rw e refl)
  | inr (s, e) ↦ elim (Bool-cases (is_some s.delegation_binding)) [
    | inl bound ↦ inr (s, e, rw e (rw bound refl))
    | inr free ↦ inl (rw e (rw free refl))
  ]
]

-- Where every session is stored under its identifier and its log has rising sequence numbers, the
-- last at most the session's event cursor, this holds again after the pause of a delegated session,
-- whatever it returns or throws.
pub pause_delegated_session-Kept :
    (hook : TerminalHook) (id : String) (w : World)
    → SessionsOk w.store
    → Kept (pause_delegated_session hook id w)
unfolding pause_delegated_session
pause_delegated_session-Kept hook id w v = elim (require_delegated_session_cases id w) [
  | inl e ↦ rw e (kept _ v)
  | inr (s, found, e) ↦ rw e (elim (Bool-cases (s.status == paused || s.status == pausing)) [
    | inl held ↦ rw held (kept _ v)
    | inr moving ↦
        rw moving
          (elim (Bool-cases
            (s.status == running && (truthy s.current_worker_id && truthy s.session_lease_id))) [
              | inr idle ↦ rw idle (kept _ v)
              | inl runs ↦ rw runs (
                  pure_keeps some _ _
                    (store-Kept _ (request-Kept hook id s central by_parent none w v found)))
            ])
  ])
]
