-- ===== src/Worker/Selector/Choice.antt =====
-- `select` of src/central/managers/worker/worker-selector.ts, and the order that it sorts by.
use newconduit.Worker.Selector.{choose, fresher, freshest, is_eligible, is_pinned, select}
use newconduit.Base.{
  All, All-map, Among, Among-keep, Bool, Bool-cases, List, String, [], arith, false, further, here,
  if◌then◌else◌, inl, inr, keep, keep-none, none, refl, some, subst, sym, true, ℕ, ◌↔◌, ◌∷◌, ◌≡◌,
  ◌⊎◌,
}
use newconduit.Worker.Selector.Fitness.{CanServe, is_eligible-CanServe}
use newconduit.Model.{SessionRecord, WorkerRecord}

-- `localeCompare` orders texts strictly.
pub record IsStrict (before : String → String → Bool) : Type 0 where
  pub irreflexive : (a : String) → before a a ≡ false
  pub transitive : (a b c : String) → before a b ≡ true → before b c ≡ true → before a c ≡ true

module _ (before : String → String → Bool) where
  freshest_step {ℓ} :
      (P : WorkerRecord → Type ℓ) (best x : WorkerRecord) (xs : List WorkerRecord)
      → (fresher before x best ≡ true → P (freshest before x xs))
      → (fresher before x best ≡ false → P (freshest before best xs))
      → P (freshest before best (x ∷ xs))
  unfolding freshest
  freshest_step P best x xs p q =
      elim (Bool-cases (fresher before x best))
        as (λ _. P (freshest before (if fresher before x best then x else best) xs)) [
          | inl e ↦ subst (λ b. P (freshest before (if b then x else best) xs)) (sym e) (p e)
          | inr e ↦ subst (λ b. P (freshest before (if b then x else best) xs)) (sym e) (q e)
        ]

  freshest-Among :
      (best : WorkerRecord) (xs : List WorkerRecord)
      → (freshest before best xs ≡ best) ⊎ Among (freshest before best xs) xs
  unfolding freshest
  freshest-Among best [] = inl (refl)
  freshest-Among best (x ∷ xs) =
      freshest_step (λ r. (r ≡ best) ⊎ Among r (x ∷ xs)) best x xs
        (λ e. inr (elim (freshest-Among x xs) [ inl same ↦ here same | inr rest ↦ further rest ]))
        (λ e. elim (freshest-Among best xs) [ inl same ↦ inl same | inr rest ↦ inr (further rest) ])

  module _ (strict : IsStrict before) where
    fresher_irrefl : (x : WorkerRecord) → fresher before x x ≡ false
    unfolding fresher
    fresher_irrefl x = ground (arith, strict.irreflexive x.worker_id)

    fresher_trans :
        (x y z : WorkerRecord)
        → fresher before x y ≡ true
        → fresher before y z ≡ true
        → fresher before x z ≡ true
    unfolding fresher
    fresher_trans x y z h k = ground (arith, strict.transitive z.worker_id y.worker_id x.worker_id)

    -- Who does not precede the first does not precede the last.
    freshest-best :
        (y best : WorkerRecord) (xs : List WorkerRecord)
        → fresher before y best ≡ false
        → fresher before y (freshest before best xs) ≡ false
    unfolding freshest
    freshest-best y best [] h = h
    freshest-best y best (x ∷ xs) h =
        freshest_step (λ r. fresher before y r ≡ false) best x xs
          (λ e. freshest-best y x xs (ground (arith, fresher_trans y x best)))
          (λ e. freshest-best y best xs h)

    freshest-All :
        (best : WorkerRecord) (xs : List WorkerRecord)
        → All (λ y. fresher before y (freshest before best xs) ≡ false) xs
    freshest-All best [] = tt
    freshest-All best (x ∷ xs) =
        freshest_step (λ r. All (λ y. fresher before y r ≡ false) (x ∷ xs)) best x xs
          (λ e. (freshest-best x x xs (fresher_irrefl x), freshest-All x xs))
          (λ e. (freshest-best x best xs e, freshest-All best xs))

  chosen-Among :
      (pinned : Bool) (x : WorkerRecord) (xs : List WorkerRecord)
      → choose before pinned xs ≡ some x
      → Among x xs
  unfolding choose
  chosen-Among pinned x [] h = ground arith
  chosen-Among true x (y ∷ ys) h = elim (freshest-Among y ys) [
    | inl same ↦ here (ground arith)
    | inr rest ↦ further (subst (λ r. Among r ys) (ground arith) rest)
  ]
  chosen-Among false x (y ∷ ys) h = here (ground arith)

  -- The worker that `select` returns is one of those given, and can serve the session: it is active,
  -- expires later than the time, has room and is ready, has every label that the agent spec and the
  -- session ask for with its value, and, where it is not reused, is bound to no other session.
  pub select-Among :
      (time : ℕ) (s : SessionRecord) (ws : List WorkerRecord) (x : WorkerRecord)
      → select before time s ws ≡ some x
      → CanServe time s x × Among x ws
  unfolding select
  select-Among time s ws x e =
      let (fits, found) = Among-keep (is_eligible time s) x ws (
        chosen-Among (is_pinned before s.required_worker_labels) x (keep (is_eligible time s) ws)
          e) in
      ((is_eligible-CanServe time s x).0 fits, found)

  chosen-freshest :
      IsStrict before
      → (x : WorkerRecord) (xs : List WorkerRecord) → choose before true xs ≡ some x
      → All (λ y. fresher before y x ≡ false) xs
  unfolding choose
  chosen-freshest strict x [] h = tt
  chosen-freshest strict x (y ∷ ys) h =
      let same : freshest before y ys ≡ x = ground arith in
      subst (λ r. All (λ z. fresher before z r ≡ false) (y ∷ ys)) same
        (freshest-best strict y y ys (fresher_irrefl strict y), freshest-All strict y ys)

  choose-none :
      (pinned : Bool) (xs : List WorkerRecord) → (choose before pinned xs ≡ none) ↔ (xs ≡ [])
  unfolding choose
  choose-none pinned [] = (λ h. refl, λ h. refl)
  choose-none true (x ∷ xs) = (λ h. ground arith, λ h. ground arith)
  choose-none false (x ∷ xs) = (λ h. ground arith, λ h. ground arith)

  not_eligible :
      (time : ℕ) (s : SessionRecord) (x : WorkerRecord)
      → ¬ CanServe time s x
      → is_eligible time s x ≡ false
  not_eligible time s x refusal = elim (Bool-cases (is_eligible time s x)) [
    | inl fits ↦ absurd (refusal ((is_eligible-CanServe time s x).0 fits))
    | inr e ↦ e
  ]

  -- `select` returns no worker exactly when none of those given can serve the session: each one is
  -- not active, has expired, has no room, is not ready, lacks a label that is asked for, or is not
  -- reused and bound to another session.
  pub select-none :
      (time : ℕ) (s : SessionRecord) (ws : List WorkerRecord)
      → (select before time s ws ≡ none) ↔ All (λ x. ¬ CanServe time s x) ws
  unfolding select
  select-none time s ws = (
    λ h.
        All-map ws (λ x e c. ground (arith, (is_eligible-CanServe time s x).1 c, e))
          ((keep-none (is_eligible time s) ws).1 ((choose-none _ _).0 h)),
    λ h. (choose-none _ _).1 (
        (keep-none (is_eligible time s) ws).0
          (All-map ws (λ x refusal. not_eligible time s x refusal) h)),
  )

  -- Where the order of texts is strict, and the session requires labels of its worker, no eligible
  -- worker registered more recently than the one that `select` returns, or at the same time with an
  -- identifier that goes after in the order.
  pub select-freshest :
      IsStrict before
      → (time : ℕ) (s : SessionRecord) (ws : List WorkerRecord) (x : WorkerRecord)
      → is_pinned before s.required_worker_labels ≡ true
      → select before time s ws ≡ some x
      → All (λ y. fresher before y x ≡ false) (keep (is_eligible time s) ws)
  unfolding select
  select-freshest strict time s ws x pinned e =
      chosen-freshest strict x (keep (is_eligible time s) ws)
        (subst (λ b. choose before b (keep (is_eligible time s) ws) ≡ some x) pinned e)
