-- ===== src/Worker/Selector/Fitness.antt =====
-- Which workers `isEligible` of src/central/managers/worker/worker-selector.ts lets through.
use newconduit.Base.{
  All, ap, default, subst, Among, Bool, Bool-cases, List, Option, String, [], arith, false, further,
  here, includes, inl, inr, list_eq, nat_eq, none, not, option_eq, pair_eq, refl, some, string_eq,
  sym, true, truthy, ℕ, ◌<◌, ◌==◌, ◌||◌, ◌↔◌, ◌∷◌, ◌≡◌,
}
use newconduit.Model.{
  Labels, SessionRecord, WorkerCondition, WorkerRecord, active, condition_eq, event_type_eq, label,
  lifecycle_eq, matches_labels, ready, status_eq,
}
use newconduit.Worker.Selector.{is_eligible, matches_required, reuse_allows, reuses}

-- Every required label has the required value.
abbrev HasLabels : Labels → Labels → Type 0
HasLabels labels = All (λ e. label labels e.0 ≡ some e.1)

-- A worker that may serve a session: active, unexpired, with room, ready, with the labels that the
-- agent spec and the session ask for, and, where it is not reused, bound to no other session.
pub record CanServe (time : ℕ) (s : SessionRecord) (x : WorkerRecord) : Type 0 where
  lives : x.lifecycle_state ≡ active
  lasts : time < x.expires_at
  has_room : 0 < x.allocatable
  is_free : Among ready x.conditions
  fits_spec : HasLabels x.labels s.resolved_agent_spec.worker_selector.match_labels
  fits_session :
      (required : Labels) → s.required_worker_labels ≡ some required → HasLabels x.labels required
  not_taken :
      x.reuse ≡ some false
      → truthy x.bound_session_id ≡ true
      → x.bound_session_id ≡ some s.session_id

same_text : (a b : Option String) → ((a == b) ≡ true) ↔ (a ≡ b)
same_text = (option_eq {A = String} ⦃e = string_eq⦄).equal_iff

pub includes-Among : (cs : List WorkerCondition) → (includes cs ready ≡ true) ↔ Among ready cs
includes-Among cs = (to cs, from cs)
  where
    to : (cs : List WorkerCondition) → includes cs ready ≡ true → Among ready cs
    to [] h = ground arith
    to (c ∷ cs) h = elim (Bool-cases (c == ready)) [
      | inl e ↦ here (sym ((condition_eq.equal_iff c ready).0 e))
      | inr e ↦ further (to cs (ground arith))
    ]

    from : (cs : List WorkerCondition) → Among ready cs → includes cs ready ≡ true
    from [] m = elim m [ ]
    from (c ∷ cs) (here e) = ground (arith, (condition_eq.equal_iff c ready).1 (sym e))
    from (c ∷ cs) (further m) = ground (arith, from cs m)

matches_labels-HasLabels :
    (labels required : Labels) → (matches_labels labels required ≡ true) ↔ HasLabels labels required
unfolding matches_labels
matches_labels-HasLabels labels required = (to required, from required)
  where
    to : (required : Labels) → matches_labels labels required ≡ true → HasLabels labels required
    to [] h = tt
    to (e ∷ rest) h =
        (ground (arith, same_text (label labels e.0) (some e.1)), to rest (ground arith))

    from : (required : Labels) → HasLabels labels required → matches_labels labels required ≡ true
    from [] h = refl
    from (e ∷ rest) h = ground (arith, same_text (label labels e.0) (some e.1), from rest h.1)

matches_required-HasLabels :
    (labels : Labels) (r : Option Labels)
    → (matches_required labels r ≡ true)
      ↔ ((required : Labels) → r ≡ some required → HasLabels labels required)
unfolding matches_required
matches_required-HasLabels labels none = (λ h required e. ground arith, λ h. refl)
matches_required-HasLabels labels (some asked) =
    let (to, from) = matches_labels-HasLabels labels asked in
    (
      λ h required e. subst (HasLabels labels) (ap (λ o. default o required) e) (to h),
      λ h. from (h asked refl),
    )

reuse_iff :
    (reuse : Option Bool) (bound : Option String) (id : String)
    → ((reuses reuse || (not (truthy bound) || bound == some id)) ≡ true)
      ↔ (reuse ≡ some false → truthy bound ≡ true → bound ≡ some id)
reuse_iff none bound id = (λ h e. ground arith, λ h. refl)
reuse_iff (some true) bound id = (λ h e. ground arith, λ h. refl)
reuse_iff (some false) bound id = (
  λ h e t. (same_text bound (some id)).0 (ground arith),
  λ h. elim (Bool-cases (truthy bound)) [
    | inr free ↦ ground arith
    | inl taken ↦ ground (arith, (same_text bound (some id)).1 (h refl taken))
  ],
)

pub is_eligible-CanServe :
    (time : ℕ) (s : SessionRecord) (x : WorkerRecord)
    → (is_eligible time s x ≡ true) ↔ CanServe time s x
unfolding is_eligible reuse_allows
is_eligible-CanServe time s x =
    let free = includes-Among x.conditions in
    let spec =
      matches_labels-HasLabels x.labels s.resolved_agent_spec.worker_selector.match_labels in
    let asked = matches_required-HasLabels x.labels s.required_worker_labels in
    let reuse = reuse_iff x.reuse x.bound_session_id s.session_id in
    (
      λ h. record {
        lives = (lifecycle_eq.equal_iff x.lifecycle_state active).0 (ground arith);
        lasts = ground arith;
        has_room = ground arith;
        is_free = free.0 (ground arith);
        fits_spec = spec.0 (ground arith);
        fits_session = asked.0 (ground arith);
        not_taken = reuse.0 (ground arith);
      },
      λ c. ground (
        arith,
        (lifecycle_eq.equal_iff x.lifecycle_state active).1 c.lives,
        c.lasts,
        c.has_room,
        free.1 c.is_free,
        spec.1 c.fits_spec,
        asked.1 c.fits_session,
        reuse.1 c.not_taken,
      ),
    )
