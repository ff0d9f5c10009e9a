-- ===== src/Storage/Families.antt =====
-- The records with a revision in src/central/storage/local-file-storage.ts: delegations and interactions.
use newconduit.Base.{
  Bool, Bool-cases, Option, String, Table, arith, beq_refl, false, get, inl, inr, list_eq, nat_eq,
  none, option_eq, pair_eq, put, refl, some, string_eq, ℕ, ◌==◌, ◌≡◌, ◌≢◌,
}
use newconduit.Model.{
  DelegationRecord, InteractionRecord, condition_eq, event_type_eq, lifecycle_eq, status_eq,
}
use newconduit.Storage.Claims.{
  compare_and_set_delegation, compare_and_set_interaction, current_at, write_if, write_if_cases,
  write_if_fed, write_if_found, write_if_outcomes,
}
use newconduit.Storage.Records.{read_delegation, read_interaction}
use newconduit.Storage.Versioned.{Versioned, Wrote, replaced, unchanged}
use newconduit.World.{Store, World, err, ok, out_of_fuel}

conditional_write :
    {R : Type 0} (key : R → String) (revision : R → ℕ) (table : Store → Table String R) (n : ℕ)
    (d : R) (found : Option R) (advances : Bool) (same : R → Bool) (write : Store → Store)
    (w : World)
    → get (key d) (table w.store) ≡ found
    → table (write w.store) ≡ put (key d) d (table w.store)
    → let r = write_if (current_at revision n found) advances same write w in
      Wrote key revision n d (table w.store) (table r.1.store) r.0
unfolding write_if
conditional_write key revision table n d none advances same write w at e =
    unchanged (λ x. ground (arith, x)) refl
conditional_write key revision table n d (some c) advances same write w at e =
    elim (Bool-cases (revision c == n)) [
      | inr ne ↦ rw ne (unchanged (λ x. ground (arith, x)) refl)
      | inl eq ↦ rw eq (
          write_if_outcomes (λ r. Wrote key revision n d (table w.store) (table r.1.store) r.0)
            (some c) advances same write w (unchanged (λ x. ground (arith, x)) refl)
            (λ x. unchanged (λ y. ground (arith, y)) refl) (replaced c at (ground (arith, eq)) e))
    ]

-- The current record with the revision that is expected.
current_found :
    {R : Type 0} (revision : R → ℕ) (n : ℕ) (o : Option R) (c : R)
    → o ≡ some c
    → revision c ≡ n
    → current_at revision n o ≡ some c
current_found revision n o c e same = rw e (rw same (rw (beq_refl n) refl))

module _ (n : ℕ) (d : InteractionRecord) (w : World) where
  pub interaction_cas :
      Wrote
        (λ x. x.interaction_id)
        (λ x. x.revision)
        n
        d
        w.store.interactions
        (compare_and_set_interaction n d w).1.store.interactions
        (compare_and_set_interaction n d w).0
  unfolding compare_and_set_interaction read_interaction
  interaction_cas =
      conditional_write (λ x. x.interaction_id) (λ x. x.revision) (λ st. st.interactions) n d
        (get d.interaction_id w.store.interactions) _ _ _ w refl refl

  pub interaction_rivals : (compare_and_set_interaction n d w).1.rivals ≡ w.rivals
  unfolding compare_and_set_interaction
  interaction_rivals = write_if_cases (λ u. u.rivals ≡ w.rivals) _ _ _ _ w refl refl

  pub interaction_host : (compare_and_set_interaction n d w).1.host ≡ w.host
  unfolding compare_and_set_interaction
  interaction_host = write_if_cases (λ u. u.host ≡ w.host) _ _ _ _ w refl refl

  pub interaction_fed : (compare_and_set_interaction n d w).0 ≢ err out_of_fuel
  unfolding compare_and_set_interaction
  interaction_fed = write_if_fed _ _ _ _ w

  pub interaction_found :
      (c : InteractionRecord)
      → get d.interaction_id w.store.interactions ≡ some c
      → c.revision ≡ n
      → (compare_and_set_interaction n d w).0 ≢ ok false
  unfolding compare_and_set_interaction read_interaction
  interaction_found c at same =
      rw (current_found (λ x. x.revision) n _ c at same) (write_if_found c _ _ _ w)

abbrev pub interaction_records : Versioned InteractionRecord
interaction_records = record {
  table = λ st. st.interactions;
  key = λ x. x.interaction_id;
  revision = λ x. x.revision;
  cas = compare_and_set_interaction;
  cas_wrote = interaction_cas;
  cas_rivals = interaction_rivals;
  cas_host = interaction_host;
  cas_fed = interaction_fed;
  cas_found = λ n d c w. interaction_found n d w c;
}

module _ (n : ℕ) (d : DelegationRecord) (w : World) where
  pub delegation_cas :
      Wrote
        (λ x. x.delegation_id)
        (λ x. x.revision)
        n
        d
        w.store.delegations
        (compare_and_set_delegation n d w).1.store.delegations
        (compare_and_set_delegation n d w).0
  unfolding compare_and_set_delegation read_delegation
  delegation_cas =
      conditional_write (λ x. x.delegation_id) (λ x. x.revision) (λ st. st.delegations) n d
        (get d.delegation_id w.store.delegations) _ _ _ w refl refl

  pub delegation_rivals : (compare_and_set_delegation n d w).1.rivals ≡ w.rivals
  unfolding compare_and_set_delegation
  delegation_rivals = write_if_cases (λ u. u.rivals ≡ w.rivals) _ _ _ _ w refl refl

  pub delegation_host : (compare_and_set_delegation n d w).1.host ≡ w.host
  unfolding compare_and_set_delegation
  delegation_host = write_if_cases (λ u. u.host ≡ w.host) _ _ _ _ w refl refl

  pub delegation_fed : (compare_and_set_delegation n d w).0 ≢ err out_of_fuel
  unfolding compare_and_set_delegation
  delegation_fed = write_if_fed _ _ _ _ w

  pub delegation_found :
      (c : DelegationRecord)
      → get d.delegation_id w.store.delegations ≡ some c
      → c.revision ≡ n
      → (compare_and_set_delegation n d w).0 ≢ ok false
  unfolding compare_and_set_delegation read_delegation
  delegation_found c at same =
      rw (current_found (λ x. x.revision) n _ c at same) (write_if_found c _ _ _ w)

abbrev pub delegation_records : Versioned DelegationRecord
delegation_records = record {
  table = λ st. st.delegations;
  key = λ x. x.delegation_id;
  revision = λ x. x.revision;
  cas = compare_and_set_delegation;
  cas_wrote = delegation_cas;
  cas_rivals = delegation_rivals;
  cas_host = delegation_host;
  cas_fed = delegation_fed;
  cas_found = λ n d c w. delegation_found n d w c;
}
