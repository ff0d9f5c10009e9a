-- ===== src/World/Retry.antt =====
-- `for (;;) { … }` around a conditional write: a round that lost against another task's write
-- returns none and is made again. Rounds are counted by fuel.
use newconduit.Base.{Option, ap, arith, length, none, some, suc, zero, ℕ, ◌<◌, ◌≡◌, ◌≢◌}
use newconduit.World.Action.{M, err, ok, out_of_fuel}
use newconduit.World.State.{World}

unfoldable pub retry {ℓ} : {A : Type ℓ} → ℕ → M (Option A) → M A
retry zero round w = (err out_of_fuel, w)
retry (suc n) round w =
    let (r, w') = round w in
    elim r [ err e ↦ (err e, w') | ok none ↦ retry n round w' | ok (some a) ↦ (ok a, w') ]

-- What a round that is made again has used up, where `P` holds: another task's turn.
abbrev LosesToRivals {ℓ κ} : {A : Type ℓ} → (World → Type κ) → M (Option A) → Type (ℓ ⊔ κ)
LosesToRivals P round =
    (w : World) → P w → (round w).0 ≡ ok none → length (round w).1.rivals < length w.rivals

abbrev NeverStarves {ℓ κ} : {A : Type ℓ} → (World → Type κ) → M A → Type (ℓ ⊔ κ)
NeverStarves P m = (w : World) → P w → (m w).0 ≢ err out_of_fuel

-- With more rounds than other tasks have turns, the loop ends.
pub retry_ends {ℓ κ} :
    {A : Type ℓ} (round : M (Option A)) (P : World → Type κ)
    → ((w : World) → P w → P (round w).1)
    → LosesToRivals P round
    → NeverStarves P round
    → (n : ℕ) (w : World) → P w
    → length w.rivals < n
    → (retry n round w).0 ≢ err out_of_fuel
unfolding retry
retry_ends round P keeps loses fed zero w p h = absurd (omega arith)
retry_ends round P keeps loses fed (suc n) w p h =
    ground (arith, loses w p, fed w p, retry_ends round P keeps loses fed n (round w).1 (keeps w p))

-- What holds of each conclusive round holds of the loop, if a round that is made again keeps the
-- invariant.
pub retry_rule {ℓ κ} :
    {A : Type ℓ} (round : M (Option A)) (P : World → Type κ) (Q : A → World → Type κ)
    → ((w : World) → P w → (round w).0 ≡ ok none → P (round w).1)
    → ((w : World) (a : A) → P w → (round w).0 ≡ ok (some a) → Q a (round w).1)
    → (n : ℕ) (w : World) (a : A) → P w
    → (retry n round w).0 ≡ ok a
    → Q a (retry n round w).1
unfolding retry
retry_rule round P Q again done zero w a p e = ground arith
retry_rule round P Q again done (suc n) w a p e =
    ground (arith, again w p, done w a p, retry_rule round P Q again done n (round w).1 a)

-- An invariant of the rounds is one of the loop, whatever it ends with.
pub retry_keeps {ℓ κ} :
    {A : Type ℓ} (round : M (Option A)) (P : World → Type κ)
    → ((w : World) → P w → P (round w).1)
    → (n : ℕ) (w : World) → P w
    → P (retry n round w).1
unfolding retry
retry_keeps round P each zero w p = p
retry_keeps round P each (suc n) w p =
    ground (arith, each w p, retry_keeps round P each n (round w).1)

-- A first round that ends is the last.
pub retry_first {ℓ} :
    {A : Type ℓ} (round : M (Option A)) (n : ℕ) (w w' : World) (a : A)
    → round w ≡ (ok (some a), w')
    → retry (suc n) round w ≡ (ok a, w')
unfolding retry
retry_first round n w w' a e = rw (retry, e) (ap (λ u. (ok a, u)) (ap (λ x. x.1) e))
