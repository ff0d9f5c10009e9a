-- ===== src/Fanout/Finality.antt =====
-- A settled group of src/central/managers/delegation/fanout-manager.ts, whatever calls follow.
use newconduit.Base.{
  All, Bool, Bool-cases, List, String, [], ap, arith, default, get, get-put_ne, get-put_self, inl,
  inr, list_eq, nat_eq, option_eq, pair_eq, refl, some, string_eq, subst, sym, true, ℕ, ◌==◌, ◌∙◌,
  ◌∷◌, ◌≡◌, ◌≢◌,
}
use newconduit.Fanout.{is_settled, has_call}
use newconduit.Fanout.Invariant.{find-not_done}
use newconduit.Fanout.Kept.{
  record_round-FanoutInv, attach_round-FanoutInv, deliver_round-FanoutInv, record_outcome_cases,
}
use newconduit.Fanout.Operations.{
  attach_round_cases, deliver_round_cases, later, record_round_cases,
}
use newconduit.Fanout.Preservation.{FanoutInv, cas_cases, stored}
use newconduit.Fanout.Rounds.{
  FanoutMemberOutcome, attach_member_call, attach_round, attached, commit, deliver_round,
  delivered_group, failed_with, has_ref, mark_delivered, record_outcome, record_outcome_in_group,
  record_round, record_startup_failure, recorded, written,
}
use newconduit.Model.{
  Aggregate, FanoutGroupMember, FanoutGroupRecord, condition_eq, event_type_eq, lifecycle_eq,
  status_eq,
}
use newconduit.World.{Store, World, continue-pure, let_others}
use newconduit.World.Retry.{retry_keeps}

-- The calls of the manager on a group, each with its rounds.
pub data FanoutCall : Type 0 where
  to_attach : ℕ → String → String → String → String → FanoutCall
  to_fail_start : ℕ → String → String → String → String → String → FanoutCall
  to_record : ℕ → String → String → FanoutMemberOutcome → FanoutCall
  to_deliver : ℕ → String → String → FanoutCall

-- The world after a call, whether it returns or throws.
perform_call : FanoutCall → World → World
perform_call (to_attach n tenant id ref call) w = (attach_member_call n tenant id ref call w).1
perform_call (to_fail_start n tenant id ref code message) w =
    (record_startup_failure n tenant id ref code message w).1
perform_call (to_record n tenant call outcome) w = (record_outcome n tenant call outcome w).1
perform_call (to_deliver n tenant id) w = (mark_delivered n tenant id w).1

pub perform_calls : List FanoutCall → World → World
unfolding perform_call
perform_calls [] w = w
perform_calls (c ∷ cs) w = perform_calls cs (perform_call c w)

module _ (tenant_id id : String) (ms : List FanoutGroupMember) (a : Aggregate) where
  -- The tenant's group is settled with these members and this aggregate.
  pub record IsClosed (g : FanoutGroupRecord) : Type 0 where
    pub owned : (g.tenant_id == tenant_id) ≡ true
    pub settles : is_settled g.status ≡ true
    pub same_members : g.members ≡ ms
    pub same_aggregate : g.aggregate ≡ some a

  -- Such a group is stored.
  pub record IsFinal (st : Store) : Type 0 where
    pub group : FanoutGroupRecord
    pub found : get id st.groups ≡ some group
    pub closed : IsClosed group

  -- Another task's write leaves the group so.
  abbrev pub KeepsFinal : (Store → Store) → Type 0
  KeepsFinal r = (st : Store) → IsFinal st → IsFinal (r st)

  -- It is stored, and stays so between the calls.
  pub record Stands (w : World) : Type 0 where
    pub final : IsFinal w.store
    pub rivals_ok : All KeepsFinal w.rivals

  pub record Rest (w : World) : Type 0 where
    pub inv : FanoutInv w
    pub stands : Stands w

  others-Stands :
      (rs : List (Store → Store)) (w : World) → w.rivals ≡ rs → Stands w → Stands (let_others rs w)
  others-Stands [] w e s = s
  others-Stands (r ∷ rs) w e s =
      let kept = subst (All KeepsFinal) e s.rivals_ok in
      record { final = kept.0 w.store s.final; rivals_ok = kept.1 }

  stored-Stands :
      (next : FanoutGroupRecord) (w : World)
      → (next.group_id ≡ id → IsClosed next)
      → Stands w
      → Stands (stored next w)
  stored-Stands next w closed s = elim (Bool-cases (next.group_id == id)) [
    | inl e ↦
        let same = (string_eq.equal_iff next.group_id id).0 e in
        record {
          final = record {
            group = next;
            found =
                subst (λ k. get k (stored next w).store.groups ≡ some next) same
                  (get-put_self next.group_id next w.store.groups);
            closed = closed same;
          };
          rivals_ok = s.rivals_ok;
        }
    | inr e ↦
        let other : next.group_id ≢ id =
          λ same. ground (arith, (string_eq.equal_iff next.group_id id).1 same, e) in
        record {
          final = record {
            group = s.final.group;
            found = get-put_ne next.group_id id next w.store.groups other ∙ s.final.found;
            closed = s.final.closed;
          };
          rivals_ok = s.rivals_ok;
        }
  ]

  commit-Stands {ℓ} :
      {A : Type ℓ} (g next : FanoutGroupRecord) (x : A) (w : World)
      → (next.group_id ≡ id → IsClosed next)
      → Stands w
      → Stands (commit g next x w).1
  unfolding commit
  commit-Stands g next x w closed s =
      let s' = others-Stands w.rivals w refl s in
      rw (continue-pure (written x)) (
        cas_cases Stands g.revision next (let_others w.rivals w) s'
          (stored-Stands next (let_others w.rivals w) closed s'))

  -- A group that is read under the identifier is the final one.
  read-IsClosed :
      (k : String) (g : FanoutGroupRecord) (w : World)
      → Rest w
      → get k w.store.groups ≡ some g
      → g.group_id ≡ id
      → IsClosed g
  read-IsClosed k g w r e same =
      let at : get id w.store.groups ≡ some g =
        subst (λ j. get j w.store.groups ≡ some g) (sym (r.inv.groups_ok.keyed k g e) ∙ same) e in
      subst IsClosed (ap (λ o. default o g) (sym r.stands.final.found ∙ at)) r.stands.final.closed

  attach_round-Rest :
      (tenant k ref call : String) (w : World) → Rest w → Rest (attach_round tenant k ref call w).1
  unfolding attached
  attach_round-Rest tenant k ref call w r = record {
    inv = attach_round-FanoutInv tenant k w r.inv ref call;
    stands =
        attach_round_cases tenant k w ref call (λ x. Stands x.1) (λ e _. r.stands) (λ g. r.stands)
          (λ g m t e f early.
            commit-Stands g (attached g ref call t) _ (later w)
              (λ same.
                let c = read-IsClosed k g w r e same in
                let v = r.inv.groups_ok.at k g e in
                absurd (
                  ground (
                    arith,
                    find-not_done (has_ref ref) g.members m f,
                    c.settles,
                    v.settled_when_done,
                    early,
                  )))
              (record { final = r.stands.final; rivals_ok = r.stands.rivals_ok }));
  }

  deliver_round-Rest : (tenant k : String) (w : World) → Rest w → Rest (deliver_round tenant k w).1
  unfolding delivered_group
  deliver_round-Rest tenant k w r = record {
    inv = deliver_round-FanoutInv tenant k w r.inv;
    stands =
        deliver_round_cases tenant k w (λ x. Stands x.1) (λ e _. r.stands) (λ g. r.stands)
          (λ g t e done.
            commit-Stands g (delivered_group g t) _ (later w)
              (λ same.
                let c = read-IsClosed k g w r e same in
                record {
                  owned = c.owned;
                  settles = c.settles;
                  same_members = c.same_members;
                  same_aggregate = c.same_aggregate;
                })
              (record { final = r.stands.final; rivals_ok = r.stands.rivals_ok }));
  }

  record_round-Rest :
      (tenant k : String) (matches : FanoutGroupMember → Bool) (outcome : FanoutMemberOutcome)
      (w : World)
      → Rest w
      → Rest (record_round tenant k matches outcome w).1
  unfolding recorded
  record_round-Rest tenant k matches outcome w r = record {
    inv = record_round-FanoutInv tenant k w r.inv matches outcome;
    stands =
        record_round_cases tenant k w matches outcome (λ x. Stands x.1) (λ e _. r.stands)
          (λ g u same. elim same [
            | inl e ↦ rw e r.stands
            | inr e ↦ rw e (record { final = r.stands.final; rivals_ok = r.stands.rivals_ok })
          ])
          (λ g m t e own still_open f fresh.
            commit-Stands g (recorded w.host.parse_json matches outcome t g) _ (later w)
              (λ same. absurd (ground (arith, (read-IsClosed k g w r e same).settles, still_open)))
              (record { final = r.stands.final; rivals_ok = r.stands.rivals_ok }));
  }

  perform_call-Rest : (c : FanoutCall) (w : World) → Rest w → Rest (perform_call c w)
  unfolding perform_call attach_member_call record_startup_failure record_outcome_in_group
      mark_delivered
  perform_call-Rest (to_attach n tenant k ref call) w r =
      retry_keeps _ Rest (attach_round-Rest tenant k ref call) n w r
  perform_call-Rest (to_fail_start n tenant k ref code message) w r =
      retry_keeps _ Rest (record_round-Rest tenant k (has_ref ref) (failed_with code message)) n w r
  perform_call-Rest (to_record n tenant call outcome) w r =
      record_outcome_cases n tenant call outcome w (λ x. Rest x.1) r
        (λ g.
          rw (continue-pure some) (
            retry_keeps _ Rest (record_round-Rest tenant g.group_id (has_call call) outcome) n w r))
  perform_call-Rest (to_deliver n tenant k) w r =
      retry_keeps _ Rest (deliver_round-Rest tenant k) n w r

  pub perform_calls-Rest : (cs : List FanoutCall) (w : World) → Rest w → Rest (perform_calls cs w)
  unfolding perform_calls
  perform_calls-Rest [] w r = r
  perform_calls-Rest (c ∷ cs) w r = perform_calls-Rest cs _ (perform_call-Rest c w r)
