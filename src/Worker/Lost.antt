-- ===== src/Worker/Lost.antt =====
-- `failSessionForWorkerLoss` of src/central/managers/worker/worker-manager.ts.
use newconduit.Session.Log.{
  IsLogged, IsLogged-close, IsLogged-stored, IsLogged-weaken, SessionsOk, append_event_cases,
  log_of, with_session,
}
use newconduit.Base.{
  Bool-cases, List, Option, String, [], ap, arith, false, get, inl, inr, keep, le_refl, length,
  list_eq, lt_next, ltb, max, nat_eq, none, option_eq, pair_eq, put, refl, some, string_eq, subst,
  sym, true, truthy, ℕ, ◌++◌, ◌+◌, ◌==◌, ◌∙◌, ◌∷◌, ◌≡◌, ◌≤◌, ◌⊎◌,
}
use newconduit.Model.{
  RuntimeChannel, RuntimeEvent, SessionRecord, client_inbox, condition_eq, event_type_eq, failed,
  lifecycle_eq, session_events, session_lease_lost, status_eq,
}
use newconduit.Worker.Manager.Loss.{
  after_failures, fail_leased_session, fail_turn, lease_lost_of, leave_session, lose_lease,
  loss_event, max_sequence, publish_session_event, status_notice, unfailed_turn,
}
use newconduit.World.{
  Host, Result, World, continue, err, for_each, ok, publish, pure, transport_unavailable,
}
use newconduit.Storage.Records.{read_events, write_session}

-- The transport takes every event.
abbrev pub Delivers : Host → Type 0
Delivers h =
    (sent : List (RuntimeChannel × RuntimeEvent)) (channel : RuntimeChannel) (event : RuntimeEvent)
    → h.takes sent channel event ≡ true

-- An action returns `a`, or throws for a transport that does not take every event.
abbrev pub ReturnsOrRefused {ℓ} : {A : Type ℓ} → Host → A → Result A → Type ℓ
ReturnsOrRefused h a r = (r ≡ ok a) ⊎ ((r ≡ err transport_unavailable) × ¬ Delivers h)

-- An action that publishes, and returns `a` if the transport took all.
record Published {A : Type 0} (a : A) (w : World) (r : Result A × World) : Type 0 where
  ends : ReturnsOrRefused w.host a r.0
  same_store : r.1.store ≡ w.store
  same_host : r.1.host ≡ w.host

module _ (w : World) where
  -- After a publication that was refused nothing more runs.
  refused :
      (u v : World) (channel : RuntimeChannel) (event : RuntimeEvent)
      → u.store ≡ w.store
      → u.host ≡ w.host
      → v.store ≡ w.store
      → v.host ≡ w.host
      → u.host.takes u.published channel event ≡ false
      → Published tt w (err transport_unavailable, v)
  refused u v channel event s h s' h' e =
      let takes_not : w.host.takes u.published channel event ≡ false =
        subst (λ x. x.takes u.published channel event ≡ false) h e in
      record {
        ends = inr (refl, λ d. ground (arith, d u.published channel event, takes_not));
        same_store = s';
        same_host = h';
      }

  publish_all :
      (id : String) (es : List RuntimeEvent) (u : World)
      → u.store ≡ w.store
      → u.host ≡ w.host
      → Published tt w (for_each es (publish_session_event id) u)
  unfolding publish_session_event for_each
  publish_all id [] u s h = record { ends = inl refl; same_store = s; same_host = h }
  publish_all id (e ∷ es) u s h =
      elim (Bool-cases (u.host.takes u.published (session_events id) e)) [
        | inr untaken ↦ rw untaken (refused u _ (session_events id) e s h s h untaken)
        | inl taken ↦ rw taken (elim (Bool-cases (e.type == session_lease_lost)) [
          | inr other ↦ rw other (publish_all id es _ s h)
          | inl lost ↦ rw lost (
              let u' = (publish (session_events id) e u).1 in
              let notice = status_notice id e in
              elim (Bool-cases (u.host.takes u'.published client_inbox notice)) [
                | inl taken' ↦ rw taken' (publish_all id es _ s h)
                | inr untaken' ↦ rw untaken' (refused u' _ client_inbox notice s h s h untaken')
              ])
        ])
      ]

-- A constant result after publications.
then_return :
    {A : Type 0} (a : A) (w : World) (r : Result (Unit {0}) × World)
    → Published tt w r
    → Published a w (continue (λ x. pure a) r.0 r.1)
then_return a w r p = elim p.ends [
  | inl e ↦ rw e (record { ends = inl refl; same_store = p.same_store; same_host = p.same_host })
  | inr (e, untaken) ↦
      rw e
        (record { ends = inr (refl, untaken); same_store = p.same_store; same_host = p.same_host })
]

-- The record that is left of a session, and the world around it.
pub record IsLost (s : SessionRecord) (w : World) (r : Result SessionRecord × World) : Type 0 where
  pub next : SessionRecord
  pub returned : ReturnsOrRefused w.host next r.0
  same_id : next.session_id ≡ s.session_id
  pub fails : next.status ≡ failed
  no_worker : next.current_worker_id ≡ none
  pub no_lease : next.session_lease_id ≡ none
  not_behind : s.event_cursor ≤ next.event_cursor
  pub written : r.1.store.sessions ≡ put s.session_id next w.store.sessions
  pub sessions_ok : SessionsOk r.1.store
  pub same_host : r.1.host ≡ w.host

le-max_sequence : (n : ℕ) (es : List RuntimeEvent) → n ≤ max_sequence n es
unfolding max_sequence
le-max_sequence n [] = omega arith
le-max_sequence n (e ∷ es) = omega (arith, le-max_sequence (max n e.sequence) es)

leave_session-IsLost :
    (s : SessionRecord) (w : World) (n : ℕ) (failures : List RuntimeEvent) (lost : RuntimeEvent)
    (u : World)
    → IsLogged s.session_id (max n lost.sequence) u.store
    → u.store.sessions ≡ w.store.sessions
    → u.host ≡ w.host
    → s.event_cursor ≤ n
    → IsLost s w (leave_session s n failures lost u)
unfolding leave_session write_session
leave_session-IsLost s w n failures lost u g same host up =
    let next = record s {
      status = failed;
      current_worker_id = none;
      session_lease_id = none;
      lifecycle_reason = some "worker_lost";
      event_cursor = max n lost.sequence;
      updated_at = u.host.clock u.readings;
    } in
    let after : World = record u { store = with_session next u.store; readings = u.readings + 1 } in
    let p =
      then_return next after _
        (publish_all after s.session_id (failures ++ lost ∷ []) after refl refl) in
    record {
      next = next;
      returned =
          subst (λ h. ReturnsOrRefused h next (leave_session s n failures lost u).0) host p.ends;
      same_id = refl;
      fails = refl;
      no_worker = refl;
      no_lease = refl;
      not_behind = omega (arith, up);
      written = ap (λ st. st.sessions) p.same_store ∙ ap (put s.session_id next) same;
      sessions_ok = subst SessionsOk (sym p.same_store) (IsLogged-close g next refl (le_refl _));
      same_host = p.same_host ∙ host;
    }

module _ (s : SessionRecord) (bound : truthy s.current_worker_id ≡ true) where
  fail_turn_cases {ℓ} :
      (P : Result (List RuntimeEvent) × World → Type ℓ) (state : String) (n : ℕ) (turn : Option ℕ)
      (w : World)
      → IsLogged s.session_id n w.store
      → ((es : List RuntimeEvent) (u : World)
          → IsLogged s.session_id (n + length es) u.store
          → u.store.sessions ≡ w.store.sessions
          → u.host ≡ w.host
          → P (ok es, u))
      → P (fail_turn s state n turn w)
  unfolding fail_turn loss_event
  fail_turn_cases P state n none w g rest =
      rest [] w (subst (λ k. IsLogged s.session_id k w.store) (omega arith) g) refl refl
  fail_turn_cases P state n (some turn) w g rest =
      append_event_cases (λ r. P (continue (λ event. pure (event ∷ [])) r.0 r.1)) s.session_id n _ _
        g refl (lt_next n) (λ unnamed. absurd (ground (arith, bound)))
        (λ u g' same host. rest _ u g' same host)

  lose_lease_cases {ℓ} :
      (P : Result RuntimeEvent × World → Type ℓ) (state : String) (n : ℕ)
      (old : Option RuntimeEvent) (w : World)
      → IsLogged s.session_id n w.store
      → ((e : RuntimeEvent) (u : World)
          → IsLogged s.session_id (max n e.sequence) u.store
          → u.store.sessions ≡ w.store.sessions
          → u.host ≡ w.host
          → P (ok e, u))
      → P (lose_lease s state n old w)
  unfolding lose_lease loss_event
  lose_lease_cases P state n (some old) w g rest =
      rest old w (IsLogged-weaken g (omega arith)) refl refl
  lose_lease_cases P state n none w g rest =
      append_event_cases P s.session_id n _ _ g refl (lt_next n)
        (λ unnamed. absurd (ground (arith, bound)))
        (λ u g' same host. rest _ u (IsLogged-weaken g' (omega arith)) same host)

  after_failures-IsLost :
      (state : String) (existing : List RuntimeEvent) (start : ℕ) (failures : List RuntimeEvent)
      (w u : World)
      → IsLogged s.session_id (start + length failures) u.store
      → u.store.sessions ≡ w.store.sessions
      → u.host ≡ w.host
      → s.event_cursor ≤ start
      → IsLost s w (after_failures s state existing start failures u)
  unfolding after_failures
  after_failures-IsLost state existing start failures w u g same host up =
      lose_lease_cases
        (λ r. IsLost s w (continue (leave_session s (start + length failures) failures) r.0 r.1))
        state (start + length failures) (lease_lost_of s existing) u g
        (λ lost u' g' same' host'.
          leave_session-IsLost s w (start + length failures) failures lost u' g' (same' ∙ same)
            (host' ∙ host) (omega (arith, up)))

  -- Where sessions are stored under their identifiers and none is behind its log, a stored session
  -- with a worker that is failed for its worker's loss is stored under its identifier, failed, without
  -- worker and lease and with its cursor not lower; no other session's record changes, and none is
  -- behind its log. The stored record is returned, or the transport refused an event and this is
  -- thrown; with a transport that takes every event it is returned.
  pub fail_leased_session-IsLost :
      (state : String) (w : World)
      → SessionsOk w.store
      → get s.session_id w.store.sessions ≡ some s
      → IsLost s w (fail_leased_session s state w)
  unfolding fail_leased_session read_events
  fail_leased_session-IsLost state w v found =
      let existing = keep (λ e. ltb 0 e.sequence) (log_of s.session_id w.store) in
      let start = max_sequence s.event_cursor existing in
      let up = le-max_sequence s.event_cursor existing in
      fail_turn_cases (λ r. IsLost s w (continue (after_failures s state existing start) r.0 r.1))
        state start (unfailed_turn s existing) w
        (IsLogged-weaken (IsLogged-stored s.session_id s w.store v found) up)
        (λ failures u g same host.
          after_failures-IsLost state existing start failures w u g same host up)
