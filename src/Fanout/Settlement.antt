-- ===== src/Fanout/Settlement.antt =====
-- `recordOutcomeInGroup` of src/central/managers/delegation/fanout-manager.ts, when the group settles.
use newconduit.Fanout.Preservation.{FanoutInv, cas_cases}
use newconduit.Base.{
  Bool, Option, String, ap, arith, false, get, get-put_self, if◌then◌else◌, inl, inr, list_eq, map,
  nat_eq, none, option_eq, pair_eq, refl, some, string_eq, subst, suc, true, ℕ, ◌==◌, ◌∙◌, ◌≡◌,
}
use newconduit.Fanout.Rounds.{
  FanoutMemberOutcome, RecordFanoutOutcomeResult, all_done, answer, commit, record_one,
  record_outcome_in_group, record_round, recorded, written,
}
use newconduit.Model.{
  Aggregate, FanoutGroupMember, FanoutGroupRecord, JsonValue, condition_eq, event_type_eq,
  lifecycle_eq, open_group, settled, status_eq,
}
use newconduit.Storage.Claims.{compare_and_set_fanout_group, write_if-true}
use newconduit.World.{
  Result, World, continue, continue-pure, err, host-let_others, let_others, ok, pure,
}
use newconduit.Fanout.{is_settled, require_group}
use newconduit.Fanout.Aggregate.{aggregate}
use newconduit.Fanout.Operations.{later, record_round_cases}
use newconduit.Storage.Records.{read_fanout_group}
use newconduit.Fanout.Kept.{record_round-FanoutInv}
use newconduit.World.Retry.{retry_first, retry_rule}

continue-some {ℓ} :
    {A : Type ℓ} (a b : A) (r : Result Bool) (v : World)
    → (continue (λ done. pure (written a done)) r v).0 ≡ ok (some b)
    → (r ≡ ok true) × (a ≡ b)
continue-some a b (ok true) v h = (refl, ground arith)
continue-some a b (ok false) v h = absurd (ground arith)
continue-some a b (err x) v h = absurd (ground arith)

-- A commit that returns a value returns its own and has stored the group.
commit_stored {ℓ} :
    {A : Type ℓ} (g next : FanoutGroupRecord) (a b : A) (w : World)
    → (commit g next a w).0 ≡ ok (some b)
    → (a ≡ b) × (get next.group_id (commit g next a w).1.store.groups ≡ some next)
unfolding commit compare_and_set_fanout_group
commit_stored g next a b w h =
    let u = let_others w.rivals w in
    let (done, same) = continue-some a b _ _ h in
    (
      same,
      rw (continue-pure (written a))
          (rw (write_if-true _ _ _ _ u done) (get-put_self next.group_id next u.store.groups)),
    )

-- The group is stored as settled, and `a` is the aggregate of its members.
pub record HasSettled (parse : String → Option JsonValue) (tenant_id id : String) (a : Aggregate)
    (g : FanoutGroupRecord) (w : World) : Type 0 where
  pub found : get id w.store.groups ≡ some g
  pub owned : (g.tenant_id == tenant_id) ≡ true
  pub settles : is_settled g.status ≡ true
  pub honest : a ≡ aggregate parse g.members

settled_answer :
    (b : Bool) (x : Aggregate) (y : Option Aggregate) (a : Aggregate)
    → (if is_settled (if b then settled else open_group) then (if b then some x else y) else none)
      ≡ some a
    → (is_settled (if b then settled else open_group) ≡ true) × (a ≡ x)
settled_answer true x y a h = (refl, ground arith)
settled_answer false x y a h = absurd (ground arith)

recorded-answer :
    (parse : String → Option JsonValue) (matches : FanoutGroupMember → Bool)
    (outcome : FanoutMemberOutcome) (t : ℕ) (g : FanoutGroupRecord) (a : Aggregate)
    → (answer (recorded parse matches outcome t g)).settled_aggregate ≡ some a
    → let next = recorded parse matches outcome t g in
      (is_settled next.status ≡ true) × (a ≡ aggregate parse next.members)
unfolding answer recorded
recorded-answer parse matches outcome t g a h =
    settled_answer (all_done (map (record_one matches outcome t) g.members)) _ _ a h

record_round-HasSettled :
    (tenant_id id : String) (matches : FanoutGroupMember → Bool) (outcome : FanoutMemberOutcome)
    (w : World) (r : RecordFanoutOutcomeResult) (a : Aggregate)
    → FanoutInv w
    → (record_round tenant_id id matches outcome w).0 ≡ ok (some r)
    → r.settled_aggregate ≡ some a
    → HasSettled w.host.parse_json tenant_id id a r.group
        (record_round tenant_id id matches outcome w).1
unfolding recorded answer
record_round-HasSettled tenant_id id matches outcome w r a v =
    record_round_cases tenant_id id w matches outcome
      (λ x.
        x.0 ≡ ok (some r)
        → r.settled_aggregate ≡ some a
        → HasSettled w.host.parse_json tenant_id id a r.group x.1)
      (λ e own h k. absurd (ground arith)) (λ g u same h k. absurd (ground arith))
      (λ g m t e own still_open f fresh h k.
        let next = recorded w.host.parse_json matches outcome t g in
        let (same, found) = commit_stored g next (answer next) r (later w) h in
        let (settles, honest) =
          recorded-answer w.host.parse_json matches outcome t g a
            (ap (λ x. x.settled_aggregate) same ∙ k) in
        subst
          (λ q.
            HasSettled w.host.parse_json tenant_id id a q (commit g next (answer next) (later w)).1)
          (ap (λ x. x.group) same)
          (record {
            found =
                subst
                  (λ j. get j (commit g next (answer next) (later w)).1.store.groups ≡ some next)
                  (v.groups_ok.keyed id g e) found;
            owned = own;
            settles = settles;
            honest = honest;
          }))

commit-host {ℓ} :
    {A : Type ℓ} (g next : FanoutGroupRecord) (a : A) (w : World)
    → (commit g next a w).1.host ≡ w.host
unfolding commit
commit-host g next a w = rw (continue-pure (written a)) (
    cas_cases (λ u. u.host ≡ w.host) g.revision next (let_others w.rivals w)
      (host-let_others w.rivals w) (host-let_others w.rivals w))

pub record_round-host :
    (tenant_id id : String) (matches : FanoutGroupMember → Bool) (outcome : FanoutMemberOutcome)
    (w : World)
    → (record_round tenant_id id matches outcome w).1.host ≡ w.host
record_round-host tenant_id id matches outcome w =
    record_round_cases tenant_id id w matches outcome (λ x. x.1.host ≡ w.host) (λ e own. refl)
      (λ g u same. elim same [ inl e ↦ ap (λ u. u.host) e | inr e ↦ ap (λ u. u.host) e ])
      (λ g m t e own still_open f fresh. commit-host g _ _ (later w))

-- A group that is settled takes no further outcome.
late_round :
    (tenant_id id : String) (matches : FanoutGroupMember → Bool) (outcome : FanoutMemberOutcome)
    (g : FanoutGroupRecord) (w : World)
    → get id w.store.groups ≡ some g
    → (g.tenant_id == tenant_id) ≡ true
    → is_settled g.status ≡ true
    → record_round tenant_id id matches outcome w
      ≡ (ok (some (record { group = g; settled_aggregate = none })), w)
unfolding record_round require_group read_fanout_group
late_round tenant_id id matches outcome g w found own over = rw found (rw own (rw over refl))

pub late_call :
    (tenant_id id : String) (matches : FanoutGroupMember → Bool) (outcome : FanoutMemberOutcome)
    (g : FanoutGroupRecord) (w : World) (n : ℕ)
    → get id w.store.groups ≡ some g
    → (g.tenant_id == tenant_id) ≡ true
    → is_settled g.status ≡ true
    → record_outcome_in_group (suc n) tenant_id id matches outcome w
      ≡ (ok (record { group = g; settled_aggregate = none }), w)
unfolding record_outcome_in_group
late_call tenant_id id matches outcome g w n found own over =
    retry_first _ n w w _ (late_round tenant_id id matches outcome g w found own over)

module _ (tenant_id id : String) (matches : FanoutGroupMember → Bool)
    (outcome : FanoutMemberOutcome) (fuel : ℕ) (w : World) (r : RecordFanoutOutcomeResult)
    (a : Aggregate) (v : FanoutInv w)
    (returned : (record_outcome_in_group fuel tenant_id id matches outcome w).0 ≡ ok r)
    (answered : r.settled_aggregate ≡ some a) where
  -- Where every group is stored under its identifier and well-formed, and other tasks' writes keep
  -- this, an outcome that is answered with an aggregate has left the group stored as settled, under
  -- its identifier and its tenant, and the aggregate is that of the stored members.
  pub settled_HasSettled :
      HasSettled w.host.parse_json tenant_id id a r.group
        (record_outcome_in_group fuel tenant_id id matches outcome w).1
  unfolding record_outcome_in_group
  settled_HasSettled =
      retry_rule (record_round tenant_id id matches outcome) (λ u. FanoutInv u × (u.host ≡ w.host))
        (λ x u.
          x.settled_aggregate ≡ some a → HasSettled w.host.parse_json tenant_id id a x.group u)
        (λ u p e. (
          record_round-FanoutInv tenant_id id u p.0 matches outcome,
          record_round-host tenant_id id matches outcome u ∙ p.1,
        ))
        (λ u x p e k.
          subst
            (λ h.
              HasSettled h.parse_json tenant_id id a x.group
                (record_round tenant_id id matches outcome u).1)
            p.1 (record_round-HasSettled tenant_id id matches outcome u x a p.0 e k))
        fuel w r (v, refl) returned answered
