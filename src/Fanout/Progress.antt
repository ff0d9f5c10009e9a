-- ===== src/Fanout/Progress.antt =====
-- When a round of src/central/managers/delegation/fanout-manager.ts is made again.
use newconduit.Base.{
  Bool, List, [], arith, beq_refl, false, get, length, list_eq, nat_eq, none, option_eq, pair_eq,
  refl, some, string_eq, true, ℕ, ◌<◌, ◌∷◌, ◌≡◌, ◌≢◌,
}
use newconduit.Fanout.Preservation.{cas_cases}
use newconduit.Fanout.Rounds.{commit, written}
use newconduit.Model.{FanoutGroupRecord, condition_eq, event_type_eq, lifecycle_eq, status_eq}
use newconduit.Storage.Claims.{compare_and_set_fanout_group, write_if_fed, write_if_found}
use newconduit.World.{
  Result, Store, World, continue, continue-pure, err, let_others, ok, out_of_fuel, pure,
}

continue-none {ℓ} :
    {A : Type ℓ} (a : A) (r : Result Bool) (w : World)
    → (continue (λ done. pure (written a done)) r w).0 ≡ ok none
    → r ≡ ok false
continue-none a (ok true) w e = ground arith
continue-none a (ok false) w e = refl
continue-none a (err x) w e = ground arith

continue-fed {ℓ} :
    {A : Type ℓ} (a : A) (r : Result Bool) (w : World)
    → r ≢ err out_of_fuel
    → (continue (λ done. pure (written a done)) r w).0 ≢ err out_of_fuel
continue-fed a (ok b) w h e = ground arith
continue-fed a (err x) w h e = ground arith

cas_fed :
    (n : ℕ) (g : FanoutGroupRecord) (w : World)
    → (compare_and_set_fanout_group n g w).0 ≢ err out_of_fuel
unfolding compare_and_set_fanout_group
cas_fed n g w = write_if_fed _ _ _ _ w

-- Where nobody else wrote, the condition holds.
cas_found :
    (g next : FanoutGroupRecord) (w : World)
    → get next.group_id w.store.groups ≡ some g
    → (compare_and_set_fanout_group g.revision next w).0 ≢ ok false
unfolding compare_and_set_fanout_group
cas_found g next w e =
    rw (e, compare_and_set_fanout_group) (rw (beq_refl g.revision) (write_if_found g _ _ _ w))

pub commit_fed {ℓ} :
    {A : Type ℓ} (g next : FanoutGroupRecord) (a : A) (w : World)
    → (commit g next a w).0 ≢ err out_of_fuel
unfolding commit
commit_fed g next a w = continue-fed a _ _ (cas_fed g.revision next (let_others w.rivals w))

commit_loses_at {ℓ} :
    {A : Type ℓ} (g next : FanoutGroupRecord) (a : A) (w : World) (rs : List (Store → Store))
    → w.rivals ≡ rs
    → get next.group_id w.store.groups ≡ some g
    → (continue
        (λ done. pure (written a done))
        (compare_and_set_fanout_group g.revision next (let_others rs w)).0
        (compare_and_set_fanout_group g.revision next (let_others rs w)).1).0
      ≡ ok none
    → length (compare_and_set_fanout_group g.revision next (let_others rs w)).1.rivals
      < length w.rivals
commit_loses_at g next a w [] e found lost =
    absurd (cas_found g next w found (continue-none a _ _ lost))
commit_loses_at g next a w (r ∷ rs) e found lost =
    cas_cases (λ u. length u.rivals < length w.rivals) g.revision next (let_others (r ∷ rs) w)
      (rw e (omega arith)) (rw e (omega arith))

pub commit_loses {ℓ} :
    {A : Type ℓ} (g next : FanoutGroupRecord) (a : A) (w : World)
    → get next.group_id w.store.groups ≡ some g
    → (commit g next a w).0 ≡ ok none
    → length (commit g next a w).1.rivals < length w.rivals
unfolding commit
commit_loses g next a w found lost =
    rw (continue-pure (written a)) (commit_loses_at g next a w w.rivals refl found lost)
