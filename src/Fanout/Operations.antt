-- ===== src/Fanout/Operations.antt =====
-- The branches of a round of src/central/managers/delegation/fanout-manager.ts.
use newconduit.Base.{
  Bool, Bool-cases, Option, Option-cases, String, arith, false, find, get, inl, inr, is_some,
  list_eq, nat_eq, none, not, option_eq, pair_eq, refl, some, string_eq, true, ℕ, ◌&&◌, ◌+◌, ◌==◌,
  ◌≡◌, ◌≢◌, ◌⊎◌,
}
use newconduit.Fanout.{is_delivered, is_done, is_settled, is_starting}
use newconduit.Fanout.Preservation.{require_group_cases}
use newconduit.Fanout.Rounds.{
  FanoutMemberOutcome, RecordFanoutOutcomeResult, answer, attach_round, attached, commit,
  deliver_round, delivered_group, has_ref, record_round, recorded,
}
use newconduit.Model.{
  FanoutGroupMember, FanoutGroupRecord, condition_eq, event_type_eq, lifecycle_eq, status_eq,
}
use newconduit.World.{Fault, Result, World, err, ok, out_of_fuel}

abbrev pub later : World → World
later w = record w { readings = w.readings + 1 }

module _ {ℓ} (tenant_id id : String) (w : World) where
  pub attach_round_cases :
      (ref call_id : String) (P : Result (Option FanoutGroupRecord) × World → Type ℓ)
      → ((e : Fault) → e ≢ out_of_fuel → P (err e, w))
      → ((g : FanoutGroupRecord) → P (ok (some g), w))
      → ((g : FanoutGroupRecord) (m : FanoutGroupMember) (t : ℕ)
          → get id w.store.groups ≡ some g
          → find (has_ref ref) g.members ≡ some m
          → is_starting m.status ≡ true
          → P (commit g (attached g ref call_id t) (attached g ref call_id t) (later w)))
      → P (attach_round tenant_id id ref call_id w)
  unfolding attach_round
  attach_round_cases ref call_id P fails stays writes = elim (require_group_cases tenant_id id w) [
    | inl e ↦ rw e (fails _ (λ x. cc))
    | inr (g, e, own, r) ↦ rw r (elim (Option-cases (find (has_ref ref) g.members)) [
      | inl missing ↦ rw missing (fails _ (λ x. cc))
      | inr (m, f) ↦
          rw f
            (elim (Bool-cases
              (m.delegation_call_id == some call_id && not (is_starting m.status))) [
                | inl again ↦ rw again (stays g)
                | inr fresh ↦ rw fresh (elim (Bool-cases (is_starting m.status)) [
                  | inr late ↦ rw late (fails _ (λ x. cc))
                  | inl early ↦ rw early (writes g m _ e f early)
                ])
              ])
    ])
  ]

  pub deliver_round_cases :
      (P : Result (Option FanoutGroupRecord) × World → Type ℓ)
      → ((e : Fault) → e ≢ out_of_fuel → P (err e, w))
      → ((g : FanoutGroupRecord) → P (ok (some g), w))
      → ((g : FanoutGroupRecord) (t : ℕ)
          → get id w.store.groups ≡ some g
          → is_settled g.status ≡ true
          → P (commit g (delivered_group g t) (delivered_group g t) (later w)))
      → P (deliver_round tenant_id id w)
  unfolding deliver_round
  deliver_round_cases P fails stays writes = elim (require_group_cases tenant_id id w) [
    | inl e ↦ rw e (fails _ (λ x. cc))
    | inr (g, e, own, r) ↦ rw r (elim (Bool-cases (is_delivered g.delivery_status)) [
      | inl again ↦ rw again (stays g)
      | inr fresh ↦ rw fresh (elim (Bool-cases (is_settled g.status && is_some g.aggregate)) [
        | inr early ↦ rw early (fails _ (λ x. cc))
        | inl done ↦ rw done (writes g _ e (ground arith))
      ])
    ])
  ]

  pub record_round_cases :
      (matches : FanoutGroupMember → Bool) (outcome : FanoutMemberOutcome)
      (P : Result (Option RecordFanoutOutcomeResult) × World → Type ℓ)
      → ((e : Fault) → e ≢ out_of_fuel → P (err e, w))
      → ((g : FanoutGroupRecord) (u : World)
          → (u ≡ w) ⊎ (u ≡ later w)
          → P (ok (some (record { group = g; settled_aggregate = none })), u))
      → ((g : FanoutGroupRecord) (m : FanoutGroupMember) (t : ℕ)
          → get id w.store.groups ≡ some g
          → (g.tenant_id == tenant_id) ≡ true
          → is_settled g.status ≡ false
          → find matches g.members ≡ some m
          → is_done m.status ≡ false
          → let next = recorded w.host.parse_json matches outcome t g in
            P (commit g next (answer next) (later w)))
      → P (record_round tenant_id id matches outcome w)
  unfolding record_round
  record_round_cases matches outcome P fails stays writes =
      elim (require_group_cases tenant_id id w) [
        | inl e ↦ rw e (fails _ (λ x. cc))
        | inr (g, e, own, r) ↦ rw r (elim (Bool-cases (is_settled g.status)) [
          | inl over ↦ rw over (stays g w (inl refl))
          | inr still_open ↦ rw still_open (elim (Option-cases (find matches g.members)) [
            | inl missing ↦ rw missing (fails _ (λ x. cc))
            | inr (m, f) ↦ rw f (elim (Bool-cases (is_done m.status)) [
              | inl done ↦ rw done (stays g (later w) (inr refl))
              | inr fresh ↦ rw fresh (writes g m _ e own still_open f fresh)
            ])
          ])
        ])
      ]
