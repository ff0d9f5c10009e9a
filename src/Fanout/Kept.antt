-- ===== src/Fanout/Kept.antt =====
-- The calls of src/central/managers/delegation/fanout-manager.ts that change a group.
use newconduit.Base.{
  Bool, Option, Option-cases, String, any, arith, find, get, inl, inr, length, list_eq, nat_eq,
  none, option_eq, pair_eq, refl, some, string_eq, subst, sym, values, ℕ, ◌<◌, ◌∙◌, ◌≡◌, ◌≢◌,
}
use newconduit.Fanout.{has_call, read_group_by_member}
use newconduit.Fanout.Invariant.{
  attached-IsWellFormed, delivered_group-IsWellFormed, recorded-IsWellFormed,
}
use newconduit.Fanout.Operations.{
  attach_round_cases, deliver_round_cases, later, record_round_cases,
}
use newconduit.Fanout.Preservation.{FanoutInv, commit-FanoutInv}
use newconduit.Fanout.Progress.{commit_fed, commit_loses}
use newconduit.Fanout.Rounds.{
  FanoutMemberOutcome, RecordFanoutOutcomeResult, attach_member_call, attach_round, attached,
  commit, deliver_round, delivered_group, failed_with, has_ref, mark_delivered, record_outcome,
  record_outcome_in_group, record_round, record_startup_failure, recorded,
}
use newconduit.Model.{
  FanoutGroupMember, FanoutGroupRecord, condition_eq, event_type_eq, lifecycle_eq, status_eq,
}
use newconduit.Storage.Records.{read_fanout_groups}
use newconduit.World.{Result, World, continue, continue-pure, err, ok, out_of_fuel, pure}
use newconduit.World.Retry.{retry, retry_ends, retry_keeps}

abbrev Kept {ℓ} : {A : Type ℓ} → Result A × World → Type 0
Kept r = FanoutInv r.1

module _ (tenant_id id : String) (w : World) (v : FanoutInv w) where
  later-FanoutInv : FanoutInv (later w)
  later-FanoutInv = record { groups_ok = v.groups_ok; rivals_ok = v.rivals_ok }

  pub attach_round-FanoutInv :
      (ref call_id : String) → FanoutInv (attach_round tenant_id id ref call_id w).1
  attach_round-FanoutInv ref call_id =
      attach_round_cases tenant_id id w ref call_id Kept (λ e _. v) (λ g. v)
        (λ g m t e f early.
          commit-FanoutInv g _ _ (later w) later-FanoutInv
            (attached-IsWellFormed (v.groups_ok.at id g e) ref call_id t m f early))

  pub deliver_round-FanoutInv : FanoutInv (deliver_round tenant_id id w).1
  deliver_round-FanoutInv =
      deliver_round_cases tenant_id id w Kept (λ e _. v) (λ g. v)
        (λ g t e done.
          commit-FanoutInv g _ _ (later w) later-FanoutInv
            (delivered_group-IsWellFormed (v.groups_ok.at id g e) t done))

  pub record_round-FanoutInv :
      (matches : FanoutGroupMember → Bool) (outcome : FanoutMemberOutcome)
      → FanoutInv (record_round tenant_id id matches outcome w).1
  record_round-FanoutInv matches outcome =
      record_round_cases tenant_id id w matches outcome Kept (λ e _. v)
        (λ g u same. elim same [ inl e ↦ rw e v | inr e ↦ rw e later-FanoutInv ])
        (λ g m t e own still_open f fresh.
          commit-FanoutInv g _ _ (later w) later-FanoutInv
            (recorded-IsWellFormed (v.groups_ok.at id g e) matches outcome t still_open))

-- A round that is made again has lost against another task, and no round runs out of fuel.
abbrev Moves {ℓ} : {A : Type ℓ} → World → Result (Option A) × World → Type ℓ
Moves w r = (r.0 ≡ ok none → length r.1.rivals < length w.rivals) × (r.0 ≢ err out_of_fuel)

commit-Moves {ℓ} :
    {A : Type ℓ} (g next : FanoutGroupRecord) (a : A) (id : String) (w : World)
    → FanoutInv w
    → next.group_id ≡ g.group_id
    → get id w.store.groups ≡ some g
    → Moves w (commit g next a (later w))
commit-Moves g next a id w v same found = (
  commit_loses g next a (later w) (
      subst (λ k. get k w.store.groups ≡ some g) (sym (same ∙ v.groups_ok.keyed id g found)) found),
  commit_fed g next a (later w),
)

module _ (tenant_id id : String) (w : World) (v : FanoutInv w) where
  attach_round-Moves : (ref call_id : String) → Moves w (attach_round tenant_id id ref call_id w)
  unfolding attached
  attach_round-Moves ref call_id =
      attach_round_cases tenant_id id w ref call_id (Moves w)
        (λ e own. ((λ x. cc), (λ x. own (ground arith)))) (λ g. ((λ x. cc), (λ x. cc)))
        (λ g m t e f early. commit-Moves g _ _ id w v refl e)

  deliver_round-Moves : Moves w (deliver_round tenant_id id w)
  unfolding delivered_group
  deliver_round-Moves =
      deliver_round_cases tenant_id id w (Moves w) (λ e own. ((λ x. cc), (λ x. own (ground arith))))
        (λ g. ((λ x. cc), (λ x. cc))) (λ g t e done. commit-Moves g _ _ id w v refl e)

  record_round-Moves :
      (matches : FanoutGroupMember → Bool) (outcome : FanoutMemberOutcome)
      → Moves w (record_round tenant_id id matches outcome w)
  unfolding recorded
  record_round-Moves matches outcome =
      record_round_cases tenant_id id w matches outcome (Moves w)
        (λ e own. ((λ x. cc), (λ x. own (ground arith)))) (λ g u same. ((λ x. cc), (λ x. cc)))
        (λ g m t e own still_open f fresh. commit-Moves g _ _ id w v refl e)

-- What follows a read of the groups that finds no group, or one.
pub record_outcome_cases {ℓ} :
    (fuel : ℕ) (tenant_id call_id : String) (outcome : FanoutMemberOutcome) (w : World)
    (P : Result (Option RecordFanoutOutcomeResult) × World → Type ℓ)
    → P (ok none, w)
    → ((g : FanoutGroupRecord)
        → let (r, u) =
            retry fuel (record_round tenant_id g.group_id (has_call call_id) outcome) w in
          P (continue (λ x. pure (some x)) r u))
    → P (record_outcome fuel tenant_id call_id outcome w)
unfolding record_outcome record_outcome_in_group read_group_by_member read_fanout_groups
record_outcome_cases fuel tenant_id call_id outcome w P absent present =
    elim (Option-cases (find (λ g. any (has_call call_id) g.members) (values w.store.groups))) [
      | inl e ↦ rw e absent
      | inr (g, e) ↦ rw e (present g)
    ]

-- The text of an optional result runs out of rounds only if the result does.
some-fed {ℓ} :
    {A : Type ℓ} (r : Result A) (w : World)
    → r ≢ err out_of_fuel
    → (continue (λ a. pure (some a)) r w).0 ≢ err out_of_fuel
some-fed (ok a) w h e = ground arith
some-fed (err x) w h e = ground arith

recording_ends :
    (tenant_id id : String) (matches : FanoutGroupMember → Bool) (outcome : FanoutMemberOutcome)
    (fuel : ℕ) (w : World)
    → FanoutInv w
    → length w.rivals < fuel
    → (retry fuel (record_round tenant_id id matches outcome) w).0 ≢ err out_of_fuel
recording_ends tenant_id id matches outcome fuel w v few =
    retry_ends _ FanoutInv (λ u k. record_round-FanoutInv tenant_id id u k matches outcome)
      (λ u k. (record_round-Moves tenant_id id u k matches outcome).0)
      (λ u k. (record_round-Moves tenant_id id u k matches outcome).1) fuel w v few

abbrev Ends {ℓ} : {A : Type ℓ} → Result A × World → Type ℓ
Ends r = r.0 ≢ err out_of_fuel

module _ (fuel : ℕ) (tenant_id id ref call_id code message : String) (outcome : FanoutMemberOutcome)
    (w : World) (v : FanoutInv w) where
  -- Where every group is stored under its identifier and is well-formed (settled exactly when no
  -- member is left, with its aggregate exactly then, and delivered only then), and the writes of other
  -- tasks keep this, it holds again after attaching a call, recording a startup failure or an outcome,
  -- and marking a delivery, whatever they return or throw.
  pub calls-FanoutInv :
      FanoutInv (attach_member_call fuel tenant_id id ref call_id w).1
      × FanoutInv (record_startup_failure fuel tenant_id id ref code message w).1
      × FanoutInv (record_outcome fuel tenant_id call_id outcome w).1
      × FanoutInv (mark_delivered fuel tenant_id id w).1
  unfolding attach_member_call record_startup_failure record_outcome_in_group mark_delivered
  calls-FanoutInv = (
    retry_keeps _ FanoutInv (λ u k. attach_round-FanoutInv tenant_id id u k ref call_id) fuel w v,
    retry_keeps _ FanoutInv
        (λ u k. record_round-FanoutInv tenant_id id u k (has_ref ref) (failed_with code message))
        fuel w v,
    record_outcome_cases fuel tenant_id call_id outcome w Kept v (λ g. rw (continue-pure some) (
        retry_keeps _ FanoutInv
          (λ u k. record_round-FanoutInv tenant_id g.group_id u k (has_call call_id) outcome) fuel w
          v)),
    retry_keeps _ FanoutInv (λ u k. deliver_round-FanoutInv tenant_id id u k) fuel w v,
  )

  -- Where every group is stored under its identifier and is well-formed, and the writes of other tasks
  -- keep this, attaching a call, recording a startup failure or an outcome, and marking a delivery do
  -- not run out of rounds, with more rounds than other tasks have writes.
  pub calls_end :
      length w.rivals < fuel
      → ((attach_member_call fuel tenant_id id ref call_id w).0 ≢ err out_of_fuel)
        × ((record_startup_failure fuel tenant_id id ref code message w).0 ≢ err out_of_fuel)
        × ((record_outcome fuel tenant_id call_id outcome w).0 ≢ err out_of_fuel)
        × ((mark_delivered fuel tenant_id id w).0 ≢ err out_of_fuel)
  unfolding attach_member_call record_startup_failure record_outcome_in_group mark_delivered
  calls_end few = (
    retry_ends _ FanoutInv (λ u k. attach_round-FanoutInv tenant_id id u k ref call_id)
        (λ u k. (attach_round-Moves tenant_id id u k ref call_id).0)
        (λ u k. (attach_round-Moves tenant_id id u k ref call_id).1) fuel w v few,
    recording_ends tenant_id id (has_ref ref) (failed_with code message) fuel w v few,
    record_outcome_cases fuel tenant_id call_id outcome w Ends (λ e. ground arith)
        (λ g.
          some-fed _ _
            (recording_ends tenant_id g.group_id (has_call call_id) outcome fuel w v few)),
    retry_ends _ FanoutInv (λ u k. deliver_round-FanoutInv tenant_id id u k)
        (λ u k. (deliver_round-Moves tenant_id id u k).0)
        (λ u k. (deliver_round-Moves tenant_id id u k).1) fuel w v few,
  )
