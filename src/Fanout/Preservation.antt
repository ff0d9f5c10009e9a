-- ===== src/Fanout/Preservation.antt =====
-- The stored groups of src/central/managers/delegation/fanout-manager.ts and the writes of other
-- tasks.
use text.Mathlib.TextEquality.{eq_iff}
use newconduit.Base.{
  All, Bool-cases, List, Option, Option-cases, String, [], arith, get, get-put, inl, inr, list_eq,
  nat_eq, option_eq, pair_eq, put, refl, some, string_eq, subst, sym, true, ℕ, ◌==◌, ◌∷◌, ◌≡◌, ◌⊎◌,
}
use newconduit.Fanout.Invariant.{IsWellFormed}
use newconduit.Model.{
  FanoutGroupRecord, JsonValue, condition_eq, event_type_eq, lifecycle_eq, status_eq,
}
use newconduit.Storage.Claims.{compare_and_set_fanout_group, write_if_cases}
use newconduit.World.{
  Store, World, continue-pure, err, group_not_found, host-let_others, let_others, ok,
}
use newconduit.Fanout.Rounds.{commit, written}
use newconduit.Fanout.{require_group}
use newconduit.Storage.Records.{read_fanout_group}

pub record GroupsOk (parse : String → Option JsonValue) (st : Store) : Type 0 where
  pub at : (id : String) (g : FanoutGroupRecord) → get id st.groups ≡ some g → IsWellFormed parse g
  pub keyed : (id : String) (g : FanoutGroupRecord) → get id st.groups ≡ some g → g.group_id ≡ id

abbrev KeepsGroups : (String → Option JsonValue) → (Store → Store) → Type 0
KeepsGroups parse r = (st : Store) → GroupsOk parse st → GroupsOk parse (r st)

pub record FanoutInv (w : World) : Type 0 where
  pub groups_ok : GroupsOk w.host.parse_json w.store
  pub rivals_ok : All (KeepsGroups w.host.parse_json) w.rivals

abbrev pub stored : FanoutGroupRecord → World → World
stored g w = record w { store = record w.store { groups = put g.group_id g w.store.groups } }

-- A conditional write writes the new group or nothing.
pub cas_cases {ℓ} :
    (P : World → Type ℓ) (n : ℕ) (g : FanoutGroupRecord) (w : World)
    → P w
    → P (stored g w)
    → P (compare_and_set_fanout_group n g w).1
unfolding compare_and_set_fanout_group
cas_cases P n g w p q = write_if_cases P _ _ _ _ w p q

pub put-GroupsOk :
    (parse : String → Option JsonValue) (g : FanoutGroupRecord) (st : Store)
    → GroupsOk parse st
    → IsWellFormed parse g
    → GroupsOk parse (record st { groups = put g.group_id g st.groups })
put-GroupsOk parse g st ok_st v = record {
  at = λ id h e. ground (arith, get-put g.group_id id g st.groups, ok_st.at id h);
  keyed = λ id h e.
      ground (arith, get-put g.group_id id g st.groups, ok_st.keyed id h, eq_iff g.group_id id);
}

others-FanoutInv :
    (rs : List (Store → Store)) (w : World)
    → w.rivals ≡ rs
    → FanoutInv w
    → FanoutInv (let_others rs w)
others-FanoutInv [] w e v = v
others-FanoutInv (r ∷ rs) w e v =
    let kept = subst (All (KeepsGroups w.host.parse_json)) e v.rivals_ok in
    record { groups_ok = kept.0 w.store v.groups_ok; rivals_ok = kept.1 }

-- A commit of a well-formed group keeps the invariant.
pub commit-FanoutInv {ℓ} :
    {A : Type ℓ} (g next : FanoutGroupRecord) (a : A) (w : World)
    → FanoutInv w
    → IsWellFormed w.host.parse_json next
    → FanoutInv (commit g next a w).1
unfolding commit
commit-FanoutInv g next a w v ok_next =
    let w' = let_others w.rivals w in
    let v' = others-FanoutInv w.rivals w refl v in
    let ok_next' =
      subst (λ h. IsWellFormed h.parse_json next) (sym (host-let_others w.rivals w)) ok_next in
    rw (continue-pure (written a)) (
      cas_cases FanoutInv g.revision next w' v' (record {
        groups_ok = put-GroupsOk _ next w'.store v'.groups_ok ok_next';
        rivals_ok = v'.rivals_ok;
      }))

-- `requireGroup` finds a stored group of the tenant, or throws, and changes nothing.
pub require_group_cases :
    (tenant_id id : String) (w : World)
    → (require_group tenant_id id w ≡ (err group_not_found, w))
      ⊎ ((g : FanoutGroupRecord) × (get id w.store.groups ≡ some g)
          × ((g.tenant_id == tenant_id) ≡ true)
          × (require_group tenant_id id w ≡ (ok g, w)))
unfolding require_group read_fanout_group
require_group_cases tenant_id id w = elim (Option-cases (get id w.store.groups)) [
  | inl e ↦ inl (rw (e, require_group))
  | inr (g, e) ↦ elim (Bool-cases (g.tenant_id == tenant_id)) [
    | inl own ↦ inr (g, e, own, rw (e, require_group) (rw own))
    | inr foreign ↦ inl (rw (e, require_group) (rw foreign))
  ]
]
