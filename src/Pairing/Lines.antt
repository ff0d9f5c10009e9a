-- ===== src/Pairing/Lines.antt =====
-- What a roster of `listCaseDevices` of src/central/managers/case/case-pairing-manager.ts shows.
use newconduit.Base.{
  Among, Among-cons, Among-keep, Bool-cases, HasUniqueKeys, List, Option, String, Table, [], ap,
  arith, beq_refl, false, further, get, here, inl, inr, keep, list_eq, ltb, nat_eq, none, not,
  option_eq, pair_eq, refl, some, string_eq, subst, sym, true, values, ℕ, ◌<◌, ◌==◌, ◌∷◌, ◌≡◌, ◌≢◌,
  ◌⊎◌, ◌↔◌, All, Among-All, any, keep-Among, le_refl, includes, ◌≤◌, ◌||◌,
}
use newconduit.Model.{
  CaseDeviceBindingRecord, CaseDeviceBindingStatus, CaseDeviceView, WorkerRecord, active,
  active_binding, closed, condition_eq, event_type_eq, expired, lifecycle_eq, status_eq, ready,
  WorkerCondition, WorkerLifecycleState,
}
use newconduit.Pairing.Manager.{PairingOptions, is_active}
use newconduit.Pairing.Revocation.{is_revocable}
use newconduit.Pairing.Roster.{case_device_view, newest, newest_live_worker, newest_of, serves}
use newconduit.Storage.Records.{of_case}
use newconduit.Worker.Selector.{freshness}
use newconduit.Worker.Selector.Fitness.{includes-Among}
use newconduit.World.{World}

-- A worker of the tenant that runs the device of a binding.
pub record Runs (tenant_id case_id ref : String) (w : World) (x : WorkerRecord) : Type 0 where
  stored : Among x (values w.store.workers)
  same_tenant : x.tenant_id ≡ tenant_id
  not_closed : x.lifecycle_state ≢ closed
  not_expired : x.lifecycle_state ≢ expired
  of_the_case : get "case" x.labels ≡ some case_id
  of_the_device : get "deviceRef" x.labels ≡ some ref

-- The worker that a line of a roster names, if any, and what the line says of it.
pub record Describes (v : CaseDeviceView) (t : ℕ) (x : WorkerRecord) : Type 0 where
  named : v.worker_id ≡ some x.worker_id
  beats : v.last_heartbeat_at ≡ some x.heartbeat_at
  online : (v.is_online ≡ true) ↔ ((x.lifecycle_state ≡ active) × (t < x.expires_at))
  takes_work :
      (v.is_ready ≡ true) ↔ ((v.is_online ≡ true) × Among ready x.conditions × (0 < x.allocatable))

-- A line of a roster: an active binding of the case and tenant, with a worker of its device where
-- there is one, and offline where there is none.
pub record Shows (o : PairingOptions) (case_id : String) (w : World) (v : CaseDeviceView)
    : Type 0 where
  binding : CaseDeviceBindingRecord
  bound : get (case_id, v.device_ref) w.store.bindings ≡ some binding
  same_tenant : binding.tenant_id ≡ o.tenant_id
  still_active : binding.status ≡ active_binding
  label : v.device_label ≡ binding.device_label
  redeemed : v.last_redeemed_at ≡ binding.last_redeemed_at
  run_by :
      ((x : WorkerRecord) × Runs o.tenant_id case_id v.device_ref w x
        × Describes v (w.host.clock w.readings) x
        × ((y : WorkerRecord)
            → Runs o.tenant_id case_id v.device_ref w y
            → freshness y ≤ freshness x))
      ⊎ ((v.worker_id ≡ none)
          × (v.is_online ≢ true)
          × ((y : WorkerRecord) → ¬ Runs o.tenant_id case_id v.device_ref w y))
  free_or_busy : v.is_online ≡ true → v.is_busy ≡ not v.is_ready
  idle_offline : v.is_online ≢ true → (v.is_ready ≢ true) × (v.is_busy ≢ true)

newest-Among : (best : WorkerRecord) (xs : List WorkerRecord) → Among (newest best xs) (best ∷ xs)
unfolding newest
newest-Among best [] = here refl
newest-Among best (x ∷ xs) = elim (Bool-cases (ltb (freshness best) (freshness x))) [
  | inl e ↦ rw e (further (newest-Among x xs))
  | inr e ↦ rw e (elim (Among-cons (newest-Among best xs)) [
    | inl same ↦ here same
    | inr rest ↦ further (further rest)
  ])
]

newest-latest :
    (best : WorkerRecord) (xs : List WorkerRecord)
    → All (λ y. freshness y ≤ freshness (newest best xs)) (best ∷ xs)
unfolding newest
newest-latest best [] = (le_refl _, tt)
newest-latest best (x ∷ xs) =
    let goes : WorkerRecord → Type 0 = λ n. All (λ y. freshness y ≤ freshness n) (best ∷ x ∷ xs) in
    elim (Bool-cases (ltb (freshness best) (freshness x))) [
      | inl e ↦
          let same : newest best (x ∷ xs) ≡ newest x xs = rw e refl in
          let r = newest-latest x xs in subst goes (sym same) (ground (arith, r.0, e), r)
      | inr e ↦
          let same : newest best (x ∷ xs) ≡ newest best xs = rw e refl in
          let r = newest-latest best xs in
          subst goes (sym same) (r.0, (ground (arith, r.0, e), r.1))
    ]

newest_of_cases :
    (xs : List WorkerRecord)
    → ((xs ≡ []) × (newest_of xs ≡ none))
      ⊎ ((x : WorkerRecord) × Among x xs
          × All (λ y. freshness y ≤ freshness x) xs
          × (newest_of xs ≡ some x))
unfolding newest_of
newest_of_cases [] = inl (refl, refl)
newest_of_cases (x ∷ xs) = inr (newest x xs, newest-Among x xs, newest-latest x xs, refl)

any-ready : (cs : List WorkerCondition) → any (λ c. c == ready) cs ≡ includes cs ready
any-ready [] = refl
any-ready (c ∷ cs) = ap (λ b. (c == ready) || b) (any-ready cs)

same_text : (a c : Option String) → ((a == c) ≡ true) ↔ (a ≡ c)
same_text = (option_eq {A = String} ⦃e = string_eq⦄).equal_iff

lifecycle-ne : (a c : WorkerLifecycleState) → a ≢ c → (a == c) ≡ false
lifecycle-ne a c ne = elim (Bool-cases (a == c)) [
  | inl e ↦ absurd (ne ((lifecycle_eq.equal_iff a c).0 e))
  | inr e ↦ e
]

Runs-serves :
    (o : PairingOptions) (b : CaseDeviceBindingRecord) (w : World) (x : WorkerRecord)
    → Runs o.tenant_id b.case_id b.device_ref w x
    → Among x (keep (serves b) (keep (λ y. y.tenant_id == o.tenant_id) (values w.store.workers)))
unfolding serves
Runs-serves o b w x r =
    keep-Among (serves b) x _
      (keep-Among (λ y. y.tenant_id == o.tenant_id) x _ r.stored
        ((string_eq.equal_iff x.tenant_id o.tenant_id).1 r.same_tenant))
      (ground (
        arith,
        lifecycle-ne x.lifecycle_state closed r.not_closed,
        lifecycle-ne x.lifecycle_state expired r.not_expired,
        (same_text (get "case" x.labels) (some b.case_id)).1 r.of_the_case,
        (same_text (get "deviceRef" x.labels) (some b.device_ref)).1 r.of_the_device,
      ))

serves-Runs :
    (o : PairingOptions) (b : CaseDeviceBindingRecord) (w : World) (x : WorkerRecord)
    → Among x (keep (serves b) (keep (λ y. y.tenant_id == o.tenant_id) (values w.store.workers)))
    → Runs o.tenant_id b.case_id b.device_ref w x
unfolding serves
serves-Runs o b w x m =
    let (fits, n) = Among-keep (serves b) x _ m in
    let (own, stored) = Among-keep (λ y. y.tenant_id == o.tenant_id) x _ n in
    record {
      stored = stored;
      same_tenant = (string_eq.equal_iff x.tenant_id o.tenant_id).0 own;
      not_closed = λ e. ground (arith, fits, (lifecycle_eq.equal_iff x.lifecycle_state closed).1 e);
      not_expired =
          λ e. ground (arith, fits, (lifecycle_eq.equal_iff x.lifecycle_state expired).1 e);
      of_the_case = (same_text (get "case" x.labels) (some b.case_id)).0 (ground arith);
      of_the_device = (same_text (get "deviceRef" x.labels) (some b.device_ref)).0 (ground arith);
    }

is_active-active : (s : CaseDeviceBindingStatus) → is_active s ≡ true → s ≡ active_binding
is_active-active s h = ground arith

pub case_device_view-Shows :
    (o : PairingOptions) (b : CaseDeviceBindingRecord) (w : World)
    → get (b.case_id, b.device_ref) w.store.bindings ≡ some b
    → is_revocable o b ≡ true
    → Shows o b.case_id w (
        case_device_view
          (keep (λ y. y.tenant_id == o.tenant_id) (values w.store.workers))
          (w.host.clock w.readings)
          b)
unfolding case_device_view newest_live_worker
case_device_view-Shows o b w found live =
    let workers = keep (λ y. y.tenant_id == o.tenant_id) (values w.store.workers) in
    let own : b.tenant_id ≡ o.tenant_id =
      (string_eq.equal_iff b.tenant_id o.tenant_id).0 (ground (arith, live)) in
    let alive : b.status ≡ active_binding = is_active-active b.status (ground (arith, live)) in
    elim (newest_of_cases (keep (serves b) workers)) [
      | inl (empty, e) ↦ rw e (record {
        binding = b;
        bound = found;
        same_tenant = own;
        still_active = alive;
        label = refl;
        redeemed = refl;
        run_by = inr (
          refl,
          λ x. ground arith,
          λ y r. absurd (elim (subst (Among y) empty (Runs-serves o b w y r)) [ ]),
        );
        free_or_busy = λ x. ground arith;
        idle_offline = λ x. (λ y. ground arith, λ y. ground arith);
      })
      | inr (x, m, latest, e) ↦ rw e (record {
        binding = b;
        bound = found;
        same_tenant = own;
        still_active = alive;
        label = refl;
        redeemed = refl;
        run_by = inl (
          x,
          serves-Runs o b w x m,
          record {
            named = refl;
            beats = refl;
            online = (
              λ h. (
                (lifecycle_eq.equal_iff x.lifecycle_state active).0 (ground arith),
                ground arith,
              ),
              λ h. ground (arith, (lifecycle_eq.equal_iff x.lifecycle_state active).1 h.0, h.1),
            );
            takes_work = (
              λ h. (
                ground (arith, h),
                (includes-Among x.conditions).0 (ground (arith, h, any-ready x.conditions)),
                ground (arith, h),
              ),
              λ h.
                  ground
                    (arith, h.0, (includes-Among x.conditions).1 h.1, any-ready x.conditions, h.2),
            );
          },
          λ y r. Among-All (λ z. freshness z ≤ freshness x) latest (Runs-serves o b w y r),
        );
        free_or_busy = λ h. rw h refl;
        idle_offline = λ h. (λ y. ground (arith, h, y), λ y. ground (arith, h, y));
      })
    ]

-- The bindings of a case are those that name it.
pub of_case-keep :
    (case_id : String) (t : Table (String × String) CaseDeviceBindingRecord)
    → HasUniqueKeys t
    → ((k : String × String) (b : CaseDeviceBindingRecord) → get k t ≡ some b → b.case_id ≡ k.0)
    → of_case case_id t ≡ keep (λ b. b.case_id == case_id) (values t)
unfolding get
of_case-keep case_id [] u keyed = refl
of_case-keep case_id ((k, b) ∷ t) u keyed =
    let own : b.case_id ≡ k.0 = keyed k b (rw (beq_refl k) refl) in
    let rest = of_case-keep case_id t u.1 (λ j x f. keyed j x (
      ground (
        arith,
        (pair_eq {A = String} {B = String} ⦃e = string_eq⦄ ⦃f = string_eq⦄).equal_iff k j,
        u.0,
      ))) in
    elim (Bool-cases (k.0 == case_id)) [
      | inl e ↦
          let e' : (b.case_id == case_id) ≡ true = subst (λ z. (z == case_id) ≡ true) (sym own) e in
          rw (e, e') (ap (λ bs. b ∷ bs) rest)
      | inr e ↦
          let e' : (b.case_id == case_id) ≡ false =
            subst (λ z. (z == case_id) ≡ false) (sym own) e in
          rw (e, e') rest
    ]
