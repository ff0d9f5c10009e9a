-- ===== src/Delegation/Tails.antt =====
-- The promises that `dispatchNext` of src/central/managers/delegation/delegation-dispatcher.ts chains for
-- each relation.
use newconduit.Base.{
  Bool, Bool-cases, List, Option, String, [], arith, default, get, get-put_ne, get-put_self, inl,
  inr, list_eq, nat_eq, none, option_eq, pair_eq, put, refl, string_eq, subst, sym, ℕ, ◌==◌, ◌∙◌,
  ◌∷◌, ◌≡◌, ◌≢◌,
}
use newconduit.Delegation.Dispatch.{
  DispatchDelegationCallResult, ReconcileTails, dispatch_next, previous_of,
}
use newconduit.Delegation.Operations.{Result-cases}
use newconduit.Fanout.Operations.{later}
use newconduit.Model.{condition_eq, event_type_eq, lifecycle_eq, status_eq}
use newconduit.World.{Fault, Result, World, err, ok}

module _ (before : String → String → Bool) (fuel : ℕ) where
  -- Dispatches of relations one after another, each in the world that it meets.
  pub dispatch_each : List (String × World) → ReconcileTails → ReconcileTails
  unfolding dispatch_next
  dispatch_each [] tails = tails
  dispatch_each ((id, w) ∷ rest) tails = dispatch_each rest (dispatch_next before fuel id tails w).1

  rejected_stays :
      (e : Fault) (id : String) (tails : ReconcileTails) (w : World)
      → previous_of id tails ≡ err e
      → dispatch_next before fuel id tails w ≡ (err e, put id (err e) tails, w)
  unfolding dispatch_next
  rejected_stays e id tails w h = rw h refl

  dispatch_leaves :
      (id other : String) (tails : ReconcileTails) (w : World)
      → other ≢ id
      → previous_of id (dispatch_next before fuel other tails w).1 ≡ previous_of id tails
  unfolding dispatch_next previous_of
  dispatch_leaves id other tails w ne = elim (Result-cases (default (get other tails) (ok none))) [
    | inl (r, h) ↦ rw h (rw (get-put_ne other id _ tails ne) refl)
    | inr (e, h) ↦ rw h (rw (get-put_ne other id _ tails ne) refl)
  ]

  previous-put :
      (id : String) (r : Result (Option DispatchDelegationCallResult)) (tails : ReconcileTails)
      → previous_of id (put id r tails) ≡ r
  unfolding previous_of
  previous-put id r tails = rw (get-put_self id r tails) refl

  stays_rejected :
      (e : Fault) (id : String) (xs : List (String × World)) (tails : ReconcileTails)
      → previous_of id tails ≡ err e
      → previous_of id (dispatch_each xs tails) ≡ err e
  unfolding dispatch_each
  stays_rejected e id [] tails h = h
  stays_rejected e id ((other, w) ∷ rest) tails h =
      stays_rejected e id rest _ (elim (Bool-cases (other == id)) [
        | inl q ↦
            subst (λ k. previous_of id (dispatch_next before fuel k tails w).1 ≡ err e)
              (sym ((string_eq.equal_iff other id).0 q))
              (rw (rejected_stays e id tails w h) (previous-put id (err e) tails))
        | inr q ↦
            dispatch_leaves id other tails w
              (λ same. ground (arith, q, (string_eq.equal_iff other id).1 same))
            ∙ h
      ])

  tail_of :
      (id : String) (tails : ReconcileTails) (w : World)
      → previous_of id (dispatch_next before fuel id tails w).1
        ≡ (dispatch_next before fuel id tails w).0
  unfolding dispatch_next
  tail_of id tails w = elim (Result-cases (previous_of id tails)) [
    | inl (r, h) ↦ rw h (previous-put id _ tails)
    | inr (e, h) ↦ rw h (previous-put id _ tails)
  ]

  -- After a dispatch of a relation threw, each later dispatch of it throws the same error and does
  -- nothing, in whatever world it runs and whatever was dispatched between.
  pub dispatch_next_rejected :
      (id : String) (e : Fault) (tails : ReconcileTails) (w later : World)
      (between : List (String × World))
      → (dispatch_next before fuel id tails w).0 ≡ err e
      → let tails' = dispatch_each between (dispatch_next before fuel id tails w).1 in
        dispatch_next before fuel id tails' later ≡ (err e, put id (err e) tails', later)
  dispatch_next_rejected id e tails w later between h =
      rejected_stays e id _ later (stays_rejected e id between _ (tail_of id tails w ∙ h))
