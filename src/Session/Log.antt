-- ===== src/Session/Log.antt =====
-- A session and its event log: the log of src/central/storage/local-file-storage.ts beside the
-- `eventCursor` of the session's record, for src/central/managers/session/ and
-- src/central/managers/worker/worker-manager.ts.
use newconduit.Storage.Records.{append_event, append_line}
use newconduit.Base.{
  Bool-cases, List, String, [], ap, arith, default, false, get, get-put_ne, get-put_self, inl, inr,
  le_refl, list_eq, nat_eq, option_eq, pair_eq, put, put_cases, refl, some, string_eq, subst, sym,
  truthy, ℕ, ◌++◌, ◌<◌, ◌||◌, ◌∙◌, ◌∷◌, ◌≡◌, ◌≢◌, ◌≤◌,
}
use newconduit.Model.{
  RuntimeEvent, SessionRecord, condition_eq, event_type_eq, lifecycle_eq, status_eq,
}
use newconduit.World.{M, Result, Store, World, continue, err, event_owner_required, ok}

-- Sequence numbers rise from event to event, and the last is at most `top`.
abbrev IsRising : ℕ → List RuntimeEvent → ℕ → Type 0
IsRising low [] top = low ≤ top
IsRising low (e ∷ rest) top = (low < e.sequence) × IsRising e.sequence rest top

IsRising-append :
    (low top next : ℕ) (log : List RuntimeEvent) (e : RuntimeEvent)
    → IsRising low log top
    → top < e.sequence
    → e.sequence ≤ next
    → IsRising low (log ++ e ∷ []) next
IsRising-append low top next [] e h k l = (omega arith, omega arith)
IsRising-append low top next (x ∷ xs) e h k l =
    (h.0, IsRising-append x.sequence top next xs e h.1 k l)

IsRising-weaken :
    (low top next : ℕ) (log : List RuntimeEvent)
    → IsRising low log top
    → top ≤ next
    → IsRising low log next
IsRising-weaken low top next [] h k = omega arith
IsRising-weaken low top next (x ∷ xs) h k = (h.0, IsRising-weaken x.sequence top next xs h.1 k)

abbrev pub log_of : String → Store → List RuntimeEvent
log_of id st = default (get id st.session_logs) []

-- Each session is stored under its identifier, and its event cursor is not behind its log.
pub record SessionsOk (st : Store) : Type 0 where
  pub keyed : (id : String) (s : SessionRecord) → get id st.sessions ≡ some s → s.session_id ≡ id
  pub logged :
      (id : String) (s : SessionRecord)
      → get id st.sessions ≡ some s
      → IsRising 0 (log_of id st) s.event_cursor

abbrev pub with_session : SessionRecord → Store → Store
with_session s st = record st { sessions = put s.session_id s st.sessions }

abbrev pub with_event : String → RuntimeEvent → Store → Store
with_event id e st = record st { session_logs = append_line id e st.session_logs }

-- After an event numbered `n` of session `id`, where the record has yet to follow.
pub record IsLogged (id : String) (n : ℕ) (st : Store) : Type 0 where
  pub keyed : (j : String) (s : SessionRecord) → get j st.sessions ≡ some s → s.session_id ≡ j
  pub others :
      (j : String) (s : SessionRecord)
      → id ≢ j
      → get j st.sessions ≡ some s
      → IsRising 0 (log_of j st) s.event_cursor
  pub own : IsRising 0 (log_of id st) n

pub IsLogged-stored :
    (id : String) (s : SessionRecord) (st : Store)
    → SessionsOk st
    → get id st.sessions ≡ some s
    → IsLogged id s.event_cursor st
IsLogged-stored id s st v found = record {
  keyed = v.keyed;
  others = λ j x _ h. v.logged j x h;
  own = v.logged id s found;
}

pub IsLogged-weaken :
    {id : String} {n m : ℕ} {st : Store} → IsLogged id n st → n ≤ m → IsLogged id m st
IsLogged-weaken {id} {n} {m} {st} g up = record {
  keyed = g.keyed;
  others = g.others;
  own = IsRising-weaken 0 n m (log_of id st) g.own up;
}

-- A record with a cursor that high closes the gap.
pub IsLogged-close :
    {id : String} {n : ℕ} {st : Store}
    → IsLogged id n st
    → (next : SessionRecord) → next.session_id ≡ id
    → n ≤ next.event_cursor
    → SessionsOk (with_session next st)
IsLogged-close {id} {n} {st} g next same up = record {
  keyed = λ j x h. elim (put_cases next.session_id j next x st.sessions h) [
    | inl (k, e) ↦ cc
    | inr (k, old) ↦ g.keyed j x old
  ];
  logged = λ j x h. elim (put_cases next.session_id j next x st.sessions h) [
    | inl (k, e) ↦
        subst (λ i. IsRising 0 (log_of i st) x.event_cursor) (sym same ∙ k)
          (subst (λ y. IsRising 0 (log_of id st) y.event_cursor) e
            (IsRising-weaken 0 _ _ _ g.own up))
    | inr (k, old) ↦ g.others j x (λ eq. k (same ∙ eq)) old
  ];
}

pub log-with_event_self :
    (id : String) (e : RuntimeEvent) (st : Store)
    → log_of id (with_event id e st) ≡ log_of id st ++ e ∷ []
unfolding append_line
log-with_event_self id e st = rw (get-put_self id (log_of id st ++ e ∷ []) st.session_logs) refl

log-with_event_ne :
    (id j : String) (e : RuntimeEvent) (st : Store)
    → id ≢ j
    → log_of j (with_event id e st) ≡ log_of j st
unfolding append_line
log-with_event_ne id j e st h = rw (get-put_ne id j (log_of id st ++ e ∷ []) st.session_logs h) refl

pub IsLogged-event :
    {id : String} {n : ℕ} {st : Store}
    → IsLogged id n st
    → (e : RuntimeEvent) → n < e.sequence
    → IsLogged id e.sequence (with_event id e st)
IsLogged-event {id} {n} {st} g e up = record {
  keyed = g.keyed;
  others = λ j x k h.
      subst (λ l. IsRising 0 l x.event_cursor) (sym (log-with_event_ne id j e st k))
        (g.others j x k h);
  own =
      subst (λ l. IsRising 0 l e.sequence) (sym (log-with_event_self id e st))
        (IsRising-append 0 n _ _ e g.own up (le_refl _));
}

-- `appendEvent` refuses an event without an owner and changes nothing, or records it.
pub append_event_cases {ℓ} :
    (P : Result RuntimeEvent × World → Type ℓ) (id : String) (n : ℕ) (e : RuntimeEvent) (w : World)
    → IsLogged id n w.store
    → e.session_id ≡ some id
    → n < e.sequence
    → ((truthy e.session_id || truthy e.worker_id) ≡ false → P (err event_owner_required, w))
    → ((u : World)
        → IsLogged id e.sequence u.store
        → u.store.sessions ≡ w.store.sessions
        → u.host ≡ w.host
        → P (ok e, u))
    → P (append_event e w)
unfolding append_event
append_event_cases P id n e w g own up refused taken = elim (Bool-cases (truthy e.session_id)) [
  | inl named ↦ rw named (
      taken (record w { store = with_event (default e.session_id "") e w.store })
        (subst (λ k. IsLogged id e.sequence (with_event k e w.store))
          (sym (ap (λ o. default o "") own)) (IsLogged-event g e up))
        refl refl)
  | inr blank ↦ rw blank (elim (Bool-cases (truthy e.worker_id)) [
    | inl worker ↦ rw worker (
        taken _
          (record {
            keyed = g.keyed;
            others = g.others;
            own = IsRising-weaken 0 n _ _ g.own (omega arith);
          })
          refl refl)
    | inr unnamed ↦ rw unnamed (refused (rw blank (rw unnamed refl)))
  ])
]

-- A result in a world that keeps the invariant.
pub Kept {ℓ} : {A : Type ℓ} → Result A × World → Type 0
Kept r = SessionsOk r.1.store

pub kept {ℓ} : {A : Type ℓ} (r : Result A × World) → SessionsOk r.1.store → Kept r
unfolding Kept
kept r v = v

pub store-Kept {ℓ} : {A : Type ℓ} (r : Result A × World) → Kept r → SessionsOk r.1.store
unfolding Kept
store-Kept r v = v

-- What follows an event with a number above the cursor keeps the invariant, if it first writes a
-- record that has the number; if the event is refused, nothing has changed.
pub append_event_keeps {ℓ} :
    {A : Type ℓ} (id : String) (s : SessionRecord) (e : RuntimeEvent) (f : RuntimeEvent → M A)
    (w : World)
    → SessionsOk w.store
    → get id w.store.sessions ≡ some s
    → e.session_id ≡ some id
    → s.event_cursor < e.sequence
    → ((event : RuntimeEvent) (u : World) → IsLogged id event.sequence u.store → Kept (f event u))
    → Kept (continue f (append_event e w).0 (append_event e w).1)
append_event_keeps id s e f w v found own up rest =
    append_event_cases (λ r. Kept (continue f r.0 r.1)) id s.event_cursor e w
      (IsLogged-stored id s w.store v found) own up (λ none_named. kept _ v) (λ u g _ _. rest e u g)

pub get-with_session :
    (id : String) (next : SessionRecord) (st : Store)
    → next.session_id ≡ id
    → get id (with_session next st).sessions ≡ some next
get-with_session id next st same =
    subst (λ k. get k (with_session next st).sessions ≡ some next) same
      (get-put_self next.session_id next st.sessions)

-- A later version of a stored session, whose cursor is not lower.
pub update_session-SessionsOk :
    (id : String) (s next : SessionRecord) (st : Store)
    → SessionsOk st
    → get id st.sessions ≡ some s
    → next.session_id ≡ s.session_id
    → s.event_cursor ≤ next.event_cursor
    → SessionsOk (with_session next st)
update_session-SessionsOk id s next st v found same up =
    IsLogged-close (IsLogged-stored id s st v found) next (same ∙ v.keyed id s found) up
