-- ===== src/Storage/Versioned.antt =====
-- Records with a revision in src/central/storage/local-file-storage.ts that several tasks replace by
-- compare-and-set: what each task's changes keep, whatever other tasks write between its read and its
-- write.
use newconduit.Base.{
  All, Bool, List, Option, String, Table, [], ap, arith, default, false, get, inl, inr, length,
  list_eq, nat_eq, none, option_eq, pair_eq, put, refl, some, string_eq, subst, sym, true, ℕ, ◌<◌,
  ◌==◌, ◌∙◌, ◌∷◌, ◌≡◌, ◌≢◌, ◌⊎◌,
}
use newconduit.Model.{condition_eq, event_type_eq, lifecycle_eq, status_eq}
use newconduit.World.{M, Result, Store, World, err, let_others, ok, out_of_fuel}
use newconduit.World.Contend.{contend, contend_fed, contend_keeps, contend_loses}
use newconduit.World.Retry.{retry, retry_ends, retry_keeps}

-- What a conditional write comes to: nothing is written, or the record replaces one with the revision
-- that was expected.
pub data Wrote {R : Type 0} (key : R → String) (revision : R → ℕ) (n : ℕ) (d : R)
    (before after : Table String R) (r : Result Bool) : Type 0 where
  unchanged : r ≢ ok true → after ≡ before → Wrote key revision n d before after r
  replaced :
      (c : R)
      → get (key d) before ≡ some c
      → revision c ≡ n
      → after ≡ put (key d) d before
      → Wrote key revision n d before after r

-- One kind of record, with the operations of the storage on it.
pub record Versioned (R : Type 0) : Type 0 where
  pub table : Store → Table String R
  pub key : R → String
  pub revision : R → ℕ
  pub cas : ℕ → R → M Bool
  pub cas_wrote :
      (n : ℕ) (d : R) (w : World)
      → Wrote key revision n d (table w.store) (table (cas n d w).1.store) (cas n d w).0
  pub cas_rivals : (n : ℕ) (d : R) (w : World) → (cas n d w).1.rivals ≡ w.rivals
  pub cas_host : (n : ℕ) (d : R) (w : World) → (cas n d w).1.host ≡ w.host
  pub cas_fed : (n : ℕ) (d : R) (w : World) → (cas n d w).0 ≢ err out_of_fuel
  pub cas_found :
      (n : ℕ) (d c : R) (w : World)
      → get (key d) (table w.store) ≡ some c
      → revision c ≡ n
      → (cas n d w).0 ≢ ok false

module _ {R : Type 0} (s : Versioned R) where
  -- Where another task replaced a record, its revision is higher.
  abbrev Advances : (Store → Store) → Type 0
  Advances r =
      (st : Store) (id : String) (d : R)
      → get id (s.table st) ≡ some d
      → (d' : R) × (get id (s.table (r st)) ≡ some d') × ((d' ≡ d) ⊎ (s.revision d < s.revision d'))

  abbrev pub Keeps : (Table String R → Type 0) → (Store → Store) → Type 0
  Keeps P r = ((st : Store) → P (s.table st) → P (s.table (r st))) × Advances r

  -- `P` holds, other tasks keep it, and random identifiers are not empty.
  abbrev pub Holds : (Table String R → Type 0) → World → Type 0
  Holds P w =
      P (s.table w.store) × All (Keeps P) w.rivals × ((i : ℕ) → (w.host.uuid i == "") ≡ false)

  unfoldable pub commit {ℓ} : {A : Type ℓ} → R → R → A → M (Option A)
  unfolding contend
  commit d next a = contend (s.cas (s.revision d) next) a

-- What a round of a loop comes to: it changes nothing, or makes one conditional write of a change.
pub data Turn {R : Type 0} (s : Versioned R) (Moves : R → R → Type 0) {A : Type 0} (w : World)
    (r : Result (Option A) × World) : Type 0 where
  rests :
      (u : World)
      → r.0 ≢ ok none
      → r.0 ≢ err out_of_fuel
      → r.1 ≡ u
      → u.store ≡ w.store
      → u.rivals ≡ w.rivals
      → u.host ≡ w.host
      → Turn s Moves w r
  writes :
      (d next : R) (a : A) (u : World)
      → get (s.key d) (s.table w.store) ≡ some d
      → Moves d next
      → u.store ≡ w.store
      → u.rivals ≡ w.rivals
      → u.host ≡ w.host
      → r ≡ commit s d next a u
      → Turn s Moves w r

same_record : {R : Type 0} (x y : R) → some x ≡ some y → x ≡ y
same_record x y h = ap (λ o. default o x) h

-- Another task's turn keeps what the others keep.
pub others-Holds :
    {R : Type 0} (s : Versioned R) (P : Table String R → Type 0) (rs : List (Store → Store))
    (w : World)
    → w.rivals ≡ rs
    → Holds s P w
    → Holds s P (let_others rs w)
others-Holds s P [] w e v = v
others-Holds s P (r ∷ rs) w e v =
    let kept = subst (All (Keeps s P)) e v.1 in (kept.0.0 w.store v.0, kept.1, v.2)

-- A kind of record with the changes that tasks make of it: none gives it another key.
module _ {R : Type 0} (s : Versioned R) (Moves : R → R → Type 0)
    (same_key : (d d' : R) → Moves d d' → s.key d' ≡ s.key d) where
  -- The record that is found with the revision that was read is the one that was read.
  unmoved :
      (r : Store → Store) (st : Store) (d c : R)
      → Advances s r
      → get (s.key d) (s.table st) ≡ some d
      → get (s.key d) (s.table (r st)) ≡ some c
      → s.revision c ≡ s.revision d
      → c ≡ d
  unmoved r st d c adv found found_then same =
      let (d', at, how) = adv st (s.key d) d found in
      let e : d' ≡ c = same_record _ _ (sym at ∙ found_then) in
      elim how [
        | inl still ↦ sym e ∙ still
        | inr more ↦ absurd (omega (arith, subst (λ x. s.revision d < s.revision x) e more, same))
      ]

  module _ {P : Table String R → Type 0}
      (changed : (t : Table String R) (d d' : R)
        → P t
        → get (s.key d) t ≡ some d
        → Moves d d'
        → P (put (s.key d') d' t)) where
    cas_keeps :
        (d next : R) (w : World)
        → P (s.table w.store)
        → Moves d next
        → ((c : R) → get (s.key d) (s.table w.store) ≡ some c → s.revision c ≡ s.revision d → c ≡ d)
        → P (s.table (s.cas (s.revision d) next w).1.store)
    cas_keeps d next w p change same = elim (s.cas_wrote (s.revision d) next w) [
      | unchanged refused e ↦ subst P (sym e) p
      | replaced c at rev e ↦
          let found : get (s.key d) (s.table w.store) ≡ some c =
            subst (λ k. get k (s.table w.store) ≡ some c) (same_key d next change) at in
          subst P (sym e)
            (changed (s.table w.store) d next p (found ∙ ap some (same c found rev)) change)
    ]

    others_keep :
        (d next : R) (w : World) (rs : List (Store → Store))
        → w.rivals ≡ rs
        → Holds s P w
        → get (s.key d) (s.table w.store) ≡ some d
        → Moves d next
        → Holds s P (s.cas (s.revision d) next (let_others rs w)).1
    others_keep d next w [] e v found change = (
      cas_keeps d next w v.0 change (λ c at same. same_record _ _ (sym at ∙ found)),
      rw (s.cas_rivals (s.revision d) next w) v.1,
      rw (s.cas_host (s.revision d) next w) v.2,
    )
    others_keep d next w (r ∷ rs) e v found change =
        let u : World = record w { store = r w.store; rivals = rs } in
        let still = subst (All (Keeps s P)) e v.1 in
        (
          cas_keeps d next u (still.0.0 w.store v.0) change
              (λ c at same. unmoved r w.store d c still.0.1 found at same),
          rw (s.cas_rivals (s.revision d) next u) still.1,
          rw (s.cas_host (s.revision d) next u) v.2,
        )

    pub commit_keeps :
        {A : Type 0} (d next : R) (a : A) (w : World)
        → Holds s P w
        → get (s.key d) (s.table w.store) ≡ some d
        → Moves d next
        → Holds s P (commit s d next a w).1
    unfolding commit
    commit_keeps d next a w v found change =
        contend_keeps (Holds s P) (s.cas (s.revision d) next) a w
          (others_keep d next w w.rivals refl v found change)

    -- A turn keeps what holds of the stored records.
    Turn-Holds :
        {A : Type 0} (w : World) (r : Result (Option A) × World)
        → Turn s Moves w r
        → Holds s P w
        → Holds s P r.1
    Turn-Holds w r (rests u live fed e st rs h) v = rw e (rw st (rw rs (rw h v)))
    Turn-Holds w r (writes d next a u found change st rs h e) v =
        rw e (commit_keeps d next a u (rw st (rw rs (rw h v))) (rw st found) change)

    -- No turn runs out of rounds, and one that has to be made again lost to another task's write.
    starves_never :
        {A : Type 0} (w : World) (r : Result (Option A) × World)
        → Turn s Moves w r
        → r.0 ≢ err out_of_fuel
    unfolding commit
    starves_never w r (rests u live fed e st rs h) x = fed x
    starves_never w r (writes d next a u found change st rs h e) x =
        contend_fed (s.cas (s.revision d) next) a u (s.cas_fed (s.revision d) next)
          (sym (ap (λ q. q.0) e) ∙ x)

    loses_only :
        {A : Type 0} (w : World) (r : Result (Option A) × World)
        → Turn s Moves w r
        → r.0 ≡ ok none
        → length r.1.rivals < length w.rivals
    unfolding commit
    loses_only w r (rests u live fed e st rs h) x = absurd (live x)
    loses_only w r (writes d next a u found change st rs h e) x = rw e (
        rw (← rs) (
          contend_loses (s.cas (s.revision d) next) a u
            (s.cas_found (s.revision d) next d u (rw (same_key d next change) (rw st found)) refl)
            (s.cas_rivals (s.revision d) next) (sym (ap (λ q. q.0) e) ∙ x)))

    -- A loop of turns keeps what holds of the stored records, and ends where it has more rounds than
    -- other tasks have writes.
    module _ {A : Type 0} (round : M (Option A)) (fuel : ℕ)
        (each : (u : World) → Holds s P u → Turn s Moves u (round u)) where
      pub loop_keeps : (w : World) → Holds s P w → Holds s P (retry fuel round w).1
      loop_keeps w v =
          retry_keeps round (Holds s P) (λ u i. Turn-Holds u (round u) (each u i) i) fuel w v

      pub loop_ends :
          (w : World)
          → Holds s P w
          → length w.rivals < fuel
          → (retry fuel round w).0 ≢ err out_of_fuel
      loop_ends w v few =
          retry_ends round (Holds s P) (λ u i. Turn-Holds u (round u) (each u i) i)
            (λ u i. loses_only u (round u) (each u i)) (λ u i. starves_never u (round u) (each u i))
            fuel w v few
