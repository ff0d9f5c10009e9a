-- ===== src/Worker/Termination.antt =====
-- `terminate` and `failLeasedSessions` of
-- src/central/managers/worker/worker-manager.ts.
use newconduit.Session.Log.{SessionsOk}
use newconduit.Worker.Lost.{Delivers, IsLost, ReturnsOrRefused, fail_leased_session-IsLost}
use newconduit.Base.{
  All, All-both, All-keep, Among, Among-cons, Among-values, Bool, Bool-cases, HasDistinct,
  HasDistinct-keep, HasUniqueKeys, List, String, [], ap, arith, false, get, get-put_ne, get-values,
  inl, inr, keep, keep-Among, list_eq, nat_eq, none, option_eq, pair_eq, put_cases, refl, some,
  string_eq, subst, sym, true, truthy, values, ◌&&◌, ◌∙◌, ◌∷◌, ◌≡◌,
}
use newconduit.Model.{
  EventType, SessionRecord, WorkerLifecycleState, WorkerRecord, condition_eq, event_type_eq,
  lifecycle_eq, status_eq,
}
use newconduit.Worker.Manager.Loss.{fail_session_for_worker_loss, has_active_lease}
use newconduit.World.{
  Host, Result, Store, World, continue, err, for_each, ok, pure, transport_unavailable, ◌>>=◌,
}
use newconduit.Storage.Records.{append_event, read_sessions, write_worker}
use newconduit.Worker.Manager.{fail_leased_sessions, state_name, terminate, terminated}
use newconduit.Worker.Manager.Events.{append_worker_event, new_worker_event}

-- The session is placed on the worker and holds a lease.
abbrev pub holds_lease : String → SessionRecord → Bool
holds_lease worker_id s =
    has_active_lease worker_id s && (truthy s.current_worker_id && truthy s.session_lease_id)

-- Sessions that have yet to be failed, and no other holds a lease of the worker.
record Pending (worker_id : String) (xs : List SessionRecord) (st : Store) : Type 0 where
  sessions_ok : SessionsOk st
  found : All (λ s. get s.session_id st.sessions ≡ some s) xs
  distinct : HasDistinct (λ s. s.session_id) xs
  left :
      (id : String) (s : SessionRecord)
      → get id st.sessions ≡ some s
      → holds_lease worker_id s ≡ true
      → Among s xs

Pending-lost :
    (worker_id : String) (s : SessionRecord) (xs : List SessionRecord) (w : World)
    (r : Result SessionRecord × World)
    → Pending worker_id (s ∷ xs) w.store
    → IsLost s w r
    → Pending worker_id xs r.1.store
unfolding has_active_lease
Pending-lost worker_id s xs w r p l = record {
  sessions_ok = l.sessions_ok;
  found =
      All-both xs
        (λ y h ne.
          subst (λ t. get y.session_id t ≡ some y) (sym l.written)
            (get-put_ne s.session_id y.session_id l.next w.store.sessions ne ∙ h))
        p.found.1 p.distinct.0;
  distinct = p.distinct.1;
  left = λ id x h holds.
      elim (put_cases s.session_id id l.next x w.store.sessions
        (subst (λ t. get id t ≡ some x) l.written h)) [
          | inl (k, e) ↦ absurd (lost_holds x e holds)
          | inr (k, old) ↦ elim (Among-cons (p.left id x old holds)) [
            | inl same ↦
                absurd (k (ap (λ y. y.session_id) (sym same) ∙ p.sessions_ok.keyed id x old))
            | inr rest ↦ rest
          ]
        ];
}
  where
    lost_holds : (x : SessionRecord) → l.next ≡ x → holds_lease worker_id x ≡ true → ⊥
    lost_holds x e holds =
        let none_left : x.session_lease_id ≡ none =
          ap (λ y. y.session_lease_id) (sym e) ∙ l.no_lease in
        ground (arith, none_left, holds)

-- The sessions of a worker after its end: none is left, or the transport refused an event.
data IsOver (h : Host) (worker_id : String) : Result (Unit {0}) × World → Type 0 where
  all_failed : (u : World) → Pending worker_id [] u.store → IsOver h worker_id (ok tt, u)
  stopped :
      (u : World)
      → SessionsOk u.store
      → ¬ Delivers h
      → IsOver h worker_id (err transport_unavailable, u)

-- Failing them one after another leaves none, or stops at an event that the transport refuses.
fail_all :
    (h : Host) (worker_id state : String) (xs : List SessionRecord) (w : World)
    → w.host ≡ h
    → Pending worker_id xs w.store
    → IsOver h worker_id
        (for_each xs (λ s. fail_session_for_worker_loss s state >>= λ _. pure tt) w)
unfolding for_each fail_session_for_worker_loss
fail_all h worker_id state [] w same p = all_failed w p
fail_all h worker_id state (s ∷ xs) w same p =
    elim (Bool-cases (truthy s.current_worker_id && truthy s.session_lease_id)) [
      | inl bound ↦
          let l = fail_leased_session-IsLost s (ground arith) state w p.sessions_ok p.found.0 in
          rw bound (elim l.returned [
            | inl e ↦ rw e (
                fail_all h worker_id state xs _ (l.same_host ∙ same)
                  (Pending-lost worker_id s xs w _ p l))
            | inr (e, refusal) ↦
                rw e (stopped _ l.sessions_ok (λ d. refusal (subst Delivers (sym same) d)))
          ])
      | inr free ↦ rw free (
          fail_all h worker_id state xs w same (record {
            sessions_ok = p.sessions_ok;
            found = p.found.1;
            distinct = p.distinct.1;
            left = λ id x found holds. elim (Among-cons (p.left id x found holds)) [
              | inl e ↦ absurd (not_held x e holds free)
              | inr rest ↦ rest
            ];
          }))
    ]
  where
    not_held :
        (x : SessionRecord)
        → x ≡ s
        → holds_lease worker_id x ≡ true
        → (truthy s.current_worker_id && truthy s.session_lease_id) ≡ false
        → ⊥
    not_held x same holds free =
        let held : holds_lease worker_id s ≡ true =
          subst (λ y. holds_lease worker_id y ≡ true) same holds in
        ground (arith, held, free)

fail_leased_sessions-IsOver :
    (x : WorkerRecord) (w : World)
    → SessionsOk w.store
    → HasUniqueKeys w.store.sessions
    → IsOver w.host x.worker_id (fail_leased_sessions x w)
unfolding fail_leased_sessions read_sessions
fail_leased_sessions-IsOver x w v unique =
    let t = w.store.sessions in
    let p = has_active_lease x.worker_id in
    let (found, distinct) = get-values (λ s. s.session_id) t unique v.keyed in
    fail_all w.host x.worker_id (state_name x.lifecycle_state) (keep p (values t)) w refl (record {
      sessions_ok = v;
      found = All-keep _ p (values t) found;
      distinct = HasDistinct-keep _ p (values t) distinct;
      left = λ id s h holds. keep-Among p s (values t) (Among-values id s t h) (ground arith);
    })

none_left :
    {worker_id : String} {st : Store}
    → Pending worker_id [] st
    → (id : String) (s : SessionRecord) → get id st.sessions ≡ some s
    → holds_lease worker_id s ≡ false
none_left {worker_id} p id s h = elim (Bool-cases (holds_lease worker_id s)) [
  | inl holds ↦ absurd (elim (p.left id s h holds) [ ])
  | inr free ↦ free
]

-- The worker's final record once its sessions are failed.
data IsEnded (h : Host) (worker_id : String) (y : WorkerRecord)
    : Result WorkerRecord × World → Type 0 where
  freed : (u : World) → Pending worker_id [] u.store → IsEnded h worker_id y (ok y, u)
  refused :
      (u : World)
      → SessionsOk u.store
      → ¬ Delivers h
      → IsEnded h worker_id y (err transport_unavailable, u)

then_return :
    (h : Host) (id : String) (y : WorkerRecord) (r : Result (Unit {0}) × World)
    → IsOver h id r
    → IsEnded h id y (continue (λ _. pure y) r.0 r.1)
then_return h id y _ (all_failed u p) = freed u p
then_return h id y _ (stopped u v d) = refused u v d

ended_returns :
    {h : Host} {id : String} {y : WorkerRecord} {r : Result WorkerRecord × World}
    → IsEnded h id y r
    → ReturnsOrRefused h y r.0 × SessionsOk r.1.store
ended_returns (freed u p) = (inl refl, p.sessions_ok)
ended_returns (refused u v d) = (inr (refl, d), v)

ended_Pending :
    {h : Host} {id : String} {y : WorkerRecord} {r : Result WorkerRecord × World} (z : WorkerRecord)
    → IsEnded h id y r
    → r.0 ≡ ok z
    → Pending id [] r.1.store
ended_Pending z (freed u p) e = p
ended_Pending z (refused u v d) e = ground arith

module _ (x : WorkerRecord) (state : WorkerLifecycleState) (reason : String) (type : EventType)
    (w : World) (named : truthy (some x.worker_id) ≡ true) (v : SessionsOk w.store)
    (unique : HasUniqueKeys w.store.sessions) where
  terminate-IsEnded :
      IsEnded w.host x.worker_id
        (terminated x state reason (w.host.clock w.readings))
        (terminate x state reason type w)
  unfolding terminate terminated append_worker_event new_worker_event append_event write_worker
  terminate-IsEnded = rw named (
      then_return w.host x.worker_id (terminated x state reason (w.host.clock w.readings)) _ (
        fail_leased_sessions-IsOver (terminated x state reason (w.host.clock w.readings)) _
          (record { keyed = v.keyed; logged = v.logged }) unique))

  -- Where sessions are stored under their identifiers, one record each and none behind its log, and
  -- the worker has an identifier, `terminate` returns the worker's final record or throws that the
  -- transport refused an event, for any state, reason and event type; with a transport that takes
  -- every event it returns the record. Either way no session is behind its log afterwards.
  pub terminate_returns :
      ReturnsOrRefused w.host
        (terminated x state reason (w.host.clock w.readings))
        (terminate x state reason type w).0
      × SessionsOk (terminate x state reason type w).1.store
  terminate_returns = ended_returns terminate-IsEnded

  -- Where sessions are stored under their identifiers, one record each and none behind its log, and
  -- the worker has an identifier: if `terminate` returns, for any state, reason and event type, no
  -- session that is then stored is placed on the worker and holds a lease.
  pub terminate_frees :
      (y : WorkerRecord)
      → (terminate x state reason type w).0 ≡ ok y
      → (id : String) (s : SessionRecord)
      → get id (terminate x state reason type w).1.store.sessions ≡ some s
      → holds_lease x.worker_id s ≡ false
  terminate_frees y returned = none_left (ended_Pending y terminate-IsEnded returned)
