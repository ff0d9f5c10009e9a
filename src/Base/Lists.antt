-- ===== src/Base/Lists.antt =====
-- Array methods of the source, on lists: `filter`, `find`, `some`, `every`, `length`.
use Prim.Native.Nat.{ℕ, suc, ◌+◌, ◌≤◌, ◌<◌}
use mathlib.Core.Path.{◌≡◌, refl, ap, subst, sym}
use mathlib.Core.Logic.{◌⊎◌, inl, inr, ◌↔◌, ◌≢◌}
use mathlib.Core.Bool.{Bool, true, false, ◌&&◌, ◌||◌}
use mathlib.Core.Option.{Option, none, some}
use mathlib.Core.List.{List, [], ◌∷◌, ◌++◌, map}
use native.Mathlib.Omega.{arith}
use newconduit.Base.Tests.{Bool-cases, if◌then◌else◌, Comparable, ◌==◌}

module _ {ℓ} {A : Type ℓ} where
  abbrev pub length : List A → ℕ
  length [] = 0
  length (x ∷ xs) = suc (length xs)

  abbrev pub keep : (A → Bool) → List A → List A
  keep p [] = []
  keep p (x ∷ xs) = let rest = keep p xs in if p x then x ∷ rest else rest

  abbrev pub find : (A → Bool) → List A → Option A
  find p [] = none
  find p (x ∷ xs) = if p x then some x else find p xs

  abbrev pub any : (A → Bool) → List A → Bool
  any p [] = false
  any p (x ∷ xs) = p x || any p xs

  abbrev pub every : (A → Bool) → List A → Bool
  every p [] = true
  every p (x ∷ xs) = p x && every p xs

  abbrev head : List A → Option A
  head [] = none
  head (x ∷ xs) = some x

  -- A predicate on every element, and on one of them.
  abbrev pub All {κ} : (A → Type κ) → List A → Type κ
  All P [] = Unit
  All P (x ∷ xs) = P x × All P xs

  -- One of the elements.
  pub data Among (a : A) : List A → Type ℓ where
    here : {x : A} {xs : List A} → a ≡ x → Among a (x ∷ xs)
    further : {x : A} {xs : List A} → Among a xs → Among a (x ∷ xs)

  pub Among-cons : {a x : A} {xs : List A} → Among a (x ∷ xs) → (a ≡ x) ⊎ Among a xs
  Among-cons (here e) = inl e
  Among-cons (further m) = inr m

  pub All-map {κ μ} :
      {P : A → Type κ} {Q : A → Type μ} (xs : List A) → ((x : A) → P x → Q x) → All P xs → All Q xs
  All-map [] f h = tt
  All-map (x ∷ xs) f h = (f x h.0, All-map xs f h.1)

  pub All-both {κ μ ν} :
      {P : A → Type κ} {Q : A → Type μ} {R : A → Type ν} (xs : List A)
      → ((x : A) → P x → Q x → R x)
      → All P xs
      → All Q xs
      → All R xs
  All-both [] f h k = tt
  All-both (x ∷ xs) f h k = (f x h.0 k.0, All-both xs f h.1 k.1)

  pub All-keep {κ} : (P : A → Type κ) (p : A → Bool) (xs : List A) → All P xs → All P (keep p xs)
  All-keep P p [] h = tt
  All-keep P p (x ∷ xs) h = elim (Bool-cases (p x)) [
    | inl e ↦ rw e (h.0, All-keep P p xs h.1)
    | inr e ↦ rw e (All-keep P p xs h.1)
  ]

  -- No two elements have the same key.
  abbrev pub HasDistinct {κ} : {K : Type κ} → (A → K) → List A → Type (ℓ ⊔ κ)
  HasDistinct key [] = Unit
  HasDistinct key (x ∷ xs) = All (λ y. key x ≢ key y) xs × HasDistinct key xs

  pub HasDistinct-keep {κ} :
      {K : Type κ} (key : A → K) (p : A → Bool) (xs : List A)
      → HasDistinct key xs
      → HasDistinct key (keep p xs)
  HasDistinct-keep key p [] h = tt
  HasDistinct-keep key p (x ∷ xs) h = elim (Bool-cases (p x)) [
    | inl e ↦ rw e (All-keep _ p xs h.0, HasDistinct-keep key p xs h.1)
    | inr e ↦ rw e (HasDistinct-keep key p xs h.1)
  ]

  pub keep-Among :
      (p : A → Bool) (x : A) (xs : List A) → Among x xs → p x ≡ true → Among x (keep p xs)
  keep-Among p x [] h e = absurd (elim h [ ])
  keep-Among p x (y ∷ xs) h e = elim (Bool-cases (p y)) [
    | inl t ↦ rw t (elim (Among-cons h) [
      | inl same ↦ here same
      | inr rest ↦ further (keep-Among p x xs rest e)
    ])
    | inr f ↦ rw f (elim (Among-cons h) [
      | inl same ↦ absurd (no_test same f)
      | inr rest ↦ keep-Among p x xs rest e
    ])
  ]
    where
      no_test : x ≡ y → p y ≡ false → ⊥
      no_test same f = ground (arith, ap p same)

  pub Among-All {κ} : (P : A → Type κ) {a : A} {xs : List A} → All P xs → Among a xs → P a
  Among-All P all (here e) = subst P (sym e) all.0
  Among-All P all (further m) = Among-All P all.1 m

  pub Among-keep :
      (p : A → Bool) (x : A) (xs : List A) → Among x (keep p xs) → (p x ≡ true) × Among x xs
  Among-keep p x [] h = absurd (elim h [ ])
  Among-keep p x (y ∷ xs) h = elim (Bool-cases (p y)) [
    | inl e ↦ elim (Among-cons (subst (Among x) (rw e refl) h)) [
      | inl same ↦ (rw same e, here same)
      | inr rest ↦ let (q, m) = Among-keep p x xs rest in (q, further m)
    ]
    | inr e ↦ let (q, m) = Among-keep p x xs (subst (Among x) (rw e refl) h) in (q, further m)
  ]

  pub keep-none : (p : A → Bool) (xs : List A) → All (λ x. p x ≡ false) xs ↔ (keep p xs ≡ [])
  keep-none p [] = (λ h. refl, λ h. tt)
  keep-none p (x ∷ xs) =
      let (to, from) = keep-none p xs in
      (λ h. ground (arith, to h.1), λ h. (ground arith, from (ground arith)))

  length-append : (xs ys : List A) → length (xs ++ ys) ≡ length xs + length ys
  length-append [] ys = omega arith
  length-append (x ∷ xs) ys = omega (arith, length-append xs ys)

  pub length-keep-le : (p : A → Bool) (xs : List A) → length (keep p xs) ≤ length xs
  length-keep-le p [] = omega arith
  length-keep-le p (x ∷ xs) = ground (arith, length-keep-le p xs)

  -- What `find` returns passes the test.
  pub find-test : (p : A → Bool) (xs : List A) {x : A} → find p xs ≡ some x → p x ≡ true
  find-test p [] h = ground arith
  find-test p (y ∷ xs) {x} h = ground (arith, find-test p xs {x = x})

  pub All-find {κ} :
      (P : A → Type κ) (p : A → Bool) (xs : List A) {x : A} → All P xs → find p xs ≡ some x → P x
  All-find P p [] all h = ground arith
  All-find P p (y ∷ xs) {x} all h = ground (arith, All-find P p xs {x = x} all.1)

  All-append {κ} : (P : A → Type κ) (xs ys : List A) → All P xs → All P ys → All P (xs ++ ys)
  All-append P [] ys h k = k
  All-append P (x ∷ xs) ys h k = (h.0, All-append P xs ys h.1 k)

  every-All : (p : A → Bool) (xs : List A) → every p xs ≡ true → All (λ x. p x ≡ true) xs
  every-All p [] h = tt
  every-All p (x ∷ xs) h = (ground arith, every-All p xs (ground arith))

pub length-map {ℓ κ} :
    {A : Type ℓ} {B : Type κ} (f : A → B) (xs : List A) → length (map f xs) ≡ length xs
length-map f [] = refl
length-map f (x ∷ xs) = ap suc (length-map f xs)

module _ {ℓ} {A : Type ℓ} ⦃e : Comparable A⦄ where
  abbrev pub includes : List A → A → Bool
  includes [] a = false
  includes (x ∷ xs) a = x == a || includes xs a

pub le_refl : (n : ℕ) → n ≤ n
le_refl n = omega arith

pub lt_next : (n : ℕ) → n < n + 1
lt_next n = omega arith
