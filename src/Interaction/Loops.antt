-- ===== src/Interaction/Loops.antt =====
-- The loops of src/central/managers/interaction/interaction-manager.ts on stored interactions: what they
-- keep, and that they end.
use newconduit.Base.{
  All, Option, Option-cases, String, Table, ap, arith, get, inl, inr, length, list_eq, nat_eq, none,
  option_eq, pair_eq, put, refl, some, string_eq, subst, sym, values, ℕ, ◌<◌, ◌≡◌, ◌≢◌,
}
use newconduit.Interaction.Transitions.{IsConsistent, Transition, Transition-same}
use newconduit.Interaction.Turns.{Mutates, Random, Same, leaves_it, makes}
use newconduit.Interaction.Update.{update_interaction, update_interaction_round}
use newconduit.Model.{InteractionRecord, condition_eq, event_type_eq, lifecycle_eq, status_eq}
use newconduit.Storage.Families.{interaction_records}
use newconduit.Storage.Records.{read_interaction}
use newconduit.Storage.Versioned.{commit, loop_ends, loop_keeps, rests, writes, Holds, Turn}
use newconduit.World.{Fault, M, Result, World, err, interaction_not_found, ok, out_of_fuel}

-- A property of the stored interactions that an admission and each change of a stored one keep.
pub record IsPreserved (P : Table String InteractionRecord → Type 0) : Type 0 where
  pub located :
      (t : Table String InteractionRecord)
      → P t
      → All (λ x. get x.interaction_id t ≡ some x) (values t)
  pub keyed :
      (t : Table String InteractionRecord) (id : String) (x : InteractionRecord)
      → P t
      → get id t ≡ some x
      → x.interaction_id ≡ id
  pub consistent :
      (t : Table String InteractionRecord) (id : String) (x : InteractionRecord)
      → P t
      → get id t ≡ some x
      → IsConsistent x
  pub changed :
      (t : Table String InteractionRecord) (x x' : InteractionRecord)
      → P t
      → get x.interaction_id t ≡ some x
      → Transition x x'
      → P (put x'.interaction_id x' t)
  pub fresh :
      (t : Table String InteractionRecord) (x : InteractionRecord)
      → P t
      → get x.interaction_id t ≡ none
      → IsConsistent x
      → P (put x.interaction_id x t)

abbrev pub Stored : (Table String InteractionRecord → Type 0) → World → Type 0
Stored P w = Holds interaction_records P w

abbrev pub InTurn : {A : Type 0} → World → Result (Option A) × World → Type 0
InTurn w r = Turn interaction_records Transition w r

fault_in {ℓ} : {A : Type ℓ} → Fault → Result A → Fault
fault_in d (ok a) = d
fault_in d (err e) = e

pub halts :
    {A : Type 0} (w u : World) (e : Fault)
    → e ≢ out_of_fuel
    → Same w u
    → InTurn {A = A} w (err e, u)
unfolding fault_in
halts w u e fed (st, rs, h) =
    rests u (λ x. ground (arith, x)) (λ x. fed (ap (fault_in interaction_not_found) x)) refl st rs h

pub gives : {A : Type 0} (w : World) (a : A) → InTurn w (ok (some a), w)
gives w a = rests w (λ x. ground (arith, x)) (λ x. ground (arith, x)) refl refl refl refl

update_round-Turn :
    (id : String) (mutate : InteractionRecord → M (Option InteractionRecord)) (w : World)
    → Mutates mutate
    → Random w
    → ((x : InteractionRecord)
        → get id w.store.interactions ≡ some x
        → IsConsistent x × (x.interaction_id ≡ id))
    → InTurn w (update_interaction_round id mutate w)
unfolding update_interaction_round read_interaction commit
update_round-Turn id mutate w good random sound =
    elim (Option-cases (get id w.store.interactions)) [
      | inl e ↦ rw e (halts w w interaction_not_found (λ x. cc) (refl, refl, refl))
      | inr (x, e) ↦ rw e (elim (good x w random (sound x e).0) [
        | leaves_it f ↦ rw f (gives w x)
        | makes next u f change (st, rs, h) ↦ rw f (
            writes x next next u
              (subst (λ k. get k w.store.interactions ≡ some x) (sym (sound x e).1) e) change st rs
              h refl)
      ])
    ]

module _ {P : Table String InteractionRecord → Type 0} (k : IsPreserved P) (fuel : ℕ) where
  pub sound_in :
      (id : String) (w : World)
      → Stored P w
      → (x : InteractionRecord) → get id w.store.interactions ≡ some x
      → IsConsistent x × (x.interaction_id ≡ id)
  sound_in id w v x e =
      (k.consistent w.store.interactions id x v.0 e, k.keyed w.store.interactions id x v.0 e)

  pub update-keeps :
      (id : String) (mutate : InteractionRecord → M (Option InteractionRecord)) (w : World)
      → Mutates mutate
      → Stored P w
      → Stored P (update_interaction fuel id mutate w).1
  unfolding update_interaction
  update-keeps id mutate w good v =
      loop_keeps interaction_records Transition Transition-same k.changed
        (update_interaction_round id mutate) fuel
        (λ u i. update_round-Turn id mutate u good i.2 (sound_in id u i)) w v

  pub update-ends :
      (id : String) (mutate : InteractionRecord → M (Option InteractionRecord)) (w : World)
      → Mutates mutate
      → Stored P w
      → length w.rivals < fuel
      → (update_interaction fuel id mutate w).0 ≢ err out_of_fuel
  unfolding update_interaction
  update-ends id mutate w good v few =
      loop_ends interaction_records Transition Transition-same k.changed
        (update_interaction_round id mutate) fuel
        (λ u i. update_round-Turn id mutate u good i.2 (sound_in id u i)) w v few
