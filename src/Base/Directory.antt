-- ===== src/Base/Directory.antt =====
-- A directory of records: one file for each key, listed in the order of creation.
use mathlib.Core.Path.{◌≡◌, refl, subst, sym, ◌∙◌}
use mathlib.Core.Logic.{◌≢◌, ◌⊎◌, inl, inr}
use mathlib.Core.Option.{Option, none, some}
use mathlib.Core.List.{List, [], ◌∷◌}
use native.Mathlib.Omega.{arith}
use newconduit.Base.Lists.{All, All-map, Among, HasDistinct, here, further}
use newconduit.Base.Tests.{Bool-cases, if◌then◌else◌, Comparable, ◌==◌, beq_refl}

abbrev pub Table {ℓ κ} : Type ℓ → Type κ → Type (ℓ ⊔ κ)
Table K V = List (K × V)

abbrev pub values {ℓ κ} : {K : Type ℓ} {V : Type κ} → Table K V → List V
values [] = []
values ((k, v) ∷ t) = v ∷ values t

module _ {ℓ κ} {K : Type ℓ} {V : Type κ} ⦃e : Comparable K⦄ where
  unfoldable pub get : K → Table K V → Option V
  get k [] = none
  get k ((j, v) ∷ t) = if j == k then some v else get k t

  unfoldable pub put : K → V → Table K V → Table K V
  put k v [] = (k, v) ∷ []
  put k v ((j, w) ∷ t) = if j == k then (k, v) ∷ t else (j, w) ∷ put k v t

  pub get-put :
      (k j : K) (v : V) (t : Table K V) → get j (put k v t) ≡ (if k == j then some v else get j t)
  unfolding get put
  get-put k j v [] = refl
  get-put k j v ((i, w) ∷ t) =
      ground (arith, e.equal_iff k j, e.equal_iff i k, e.equal_iff i j, get-put k j v t)

  pub get-put_self : (k : K) (v : V) (t : Table K V) → get k (put k v t) ≡ some v
  get-put_self k v t = ground (arith, get-put k k v t, beq_refl k)

  pub get-put_ne : (k j : K) (v : V) (t : Table K V) → k ≢ j → get j (put k v t) ≡ get j t
  get-put_ne k j v t h = ground (arith, get-put k j v t, e.equal_iff k j)

  -- What is found after a `put`: the new value at its key, or an old one at another key.
  pub put_cases :
      (k j : K) (v x : V) (t : Table K V)
      → get j (put k v t) ≡ some x
      → ((k ≡ j) × (v ≡ x)) ⊎ ((k ≢ j) × (get j t ≡ some x))
  put_cases k j v x t h = elim (Bool-cases (k == j)) [
    | inl y ↦ inl ((e.equal_iff k j).0 y, ground (arith, get-put k j v t))
    | inr y ↦ inr (λ same. ground (arith, e.equal_iff k j), ground (arith, get-put k j v t))
  ]

  -- Each key is listed once.
  abbrev pub HasUniqueKeys : Table K V → Type (ℓ ⊔ κ)
  HasUniqueKeys [] = Unit
  HasUniqueKeys ((k, v) ∷ t) = (get k t ≡ none) × HasUniqueKeys t

  pub put-HasUniqueKeys :
      (k : K) (v : V) (t : Table K V) → HasUniqueKeys t → HasUniqueKeys (put k v t)
  unfolding put get
  put-HasUniqueKeys k v [] u = (refl, tt)
  put-HasUniqueKeys k v ((j, x) ∷ t) u = elim (Bool-cases (j == k)) [
    | inl y ↦ rw y (rw (← (e.equal_iff j k).0 y) (u.0, u.1))
    | inr y ↦
        rw y
          (ground (arith, get-put_ne k j v t, e.equal_iff j k, u.0, y), put-HasUniqueKeys k v t u.1)
  ]

  -- What is listed is what is found, and values that know their keys have different ones.
  pub get-values :
      (key : V → K) (t : Table K V)
      → HasUniqueKeys t
      → ((k : K) (v : V) → get k t ≡ some v → key v ≡ k)
      → All (λ v. get (key v) t ≡ some v) (values t) × HasDistinct key (values t)
  unfolding get
  get-values key [] u h = (tt, tt)
  get-values key ((k, v) ∷ t) u h =
      let own : key v ≡ k = h k v (rw (beq_refl k) refl) in
      let (found, distinct) =
        get-values key t u.1 (λ j x f. h j x (ground (arith, e.equal_iff k j, u.0))) in
      (
        (
          rw own (rw (beq_refl k) refl),
          All-map (values t) (λ x f. ground (arith, e.equal_iff k (key x), u.0)) found,
        ),
        (
          All-map (values t)
              (λ x f same.
                let g : get k t ≡ some x = subst (λ j. get j t ≡ some x) (sym same ∙ own) f in
                ground (arith, u.0, g))
              found,
          distinct,
        ),
      )

  pub Among-values : (k : K) (v : V) (t : Table K V) → get k t ≡ some v → Among v (values t)
  unfolding get
  Among-values k v [] h = absurd (ground arith)
  Among-values k v ((j, x) ∷ t) h = elim (Bool-cases (j == k)) [
    | inl eq ↦ here (ground arith)
    | inr ne ↦ further (Among-values k v t (ground arith))
  ]
