-- ===== src/World/Contend.antt =====
-- One conditional write of a round, after the other tasks had their turn.
use newconduit.Base.{
  Bool, List, Option, [], ap, arith, default, false, length, none, refl, some, sym, true, ◌<◌, ◌∷◌,
  ◌≡◌, ◌≢◌,
}
use newconduit.World.Action.{
  M, Result, continue, continue-pure, err, let_others, ok, others_run, out_of_fuel, pure, ◌>>=◌,
  ◌>>◌,
}
use newconduit.World.State.{Store, World}

abbrev pub written {ℓ} : {A : Type ℓ} → A → Bool → Option A
written a true = some a
written a false = none

unfoldable pub contend {ℓ} : {A : Type ℓ} → M Bool → A → M (Option A)
contend write a = do others_run; done ← write; pure (written a done)

-- What the others and the write keep.
pub contend_keeps {ℓ κ} :
    {A : Type ℓ} (P : World → Type κ) (write : M Bool) (a : A) (w : World)
    → P (write (let_others w.rivals w)).1
    → P (contend write a w).1
unfolding contend
contend_keeps P write a w p = rw (continue-pure (written a)) p

continue-none {ℓ} :
    {A : Type ℓ} (a : A) (r : Result Bool) (w : World)
    → (continue (λ done. pure (written a done)) r w).0 ≡ ok none
    → r ≡ ok false
continue-none a (ok true) w e = ground arith
continue-none a (ok false) w e = refl
continue-none a (err x) w e = ground arith

continue-fed {ℓ} :
    {A : Type ℓ} (a : A) (r : Result Bool) (w : World)
    → r ≢ err out_of_fuel
    → (continue (λ done. pure (written a done)) r w).0 ≢ err out_of_fuel
continue-fed a (ok b) w h e = ground arith
continue-fed a (err x) w h e = ground arith

-- A write that does not run out of fuel makes no such round.
pub contend_fed {ℓ} :
    {A : Type ℓ} (write : M Bool) (a : A) (w : World)
    → ((u : World) → (write u).0 ≢ err out_of_fuel)
    → (contend write a w).0 ≢ err out_of_fuel
unfolding contend
contend_fed write a w fed = continue-fed a _ _ (fed (let_others w.rivals w))

-- A round that has to be made again lost against a write of another task.
contend_loses_to {ℓ} :
    {A : Type ℓ} (write : M Bool) (a : A) (w : World) (rs : List (Store → Store))
    → w.rivals ≡ rs
    → (write w).0 ≢ ok false
    → ((u : World) → (write u).1.rivals ≡ u.rivals)
    → (continue
        (λ done. pure (written a done))
        (write (let_others rs w)).0
        (write (let_others rs w)).1).0
      ≡ ok none
    → length (write (let_others rs w)).1.rivals < length w.rivals
contend_loses_to write a w [] e found same lost = absurd (found (continue-none a _ _ lost))
contend_loses_to write a w (r ∷ rs) e found same lost =
    rw (same (let_others (r ∷ rs) w)) (rw e (omega arith))

pub contend_loses {ℓ} :
    {A : Type ℓ} (write : M Bool) (a : A) (w : World)
    → (write w).0 ≢ ok false
    → ((u : World) → (write u).1.rivals ≡ u.rivals)
    → (contend write a w).0 ≡ ok none
    → length (contend write a w).1.rivals < length w.rivals
unfolding contend
contend_loses write a w found same lost =
    rw (continue-pure (written a)) (contend_loses_to write a w w.rivals refl found same lost)

won {ℓ} :
    {A : Type ℓ} (a b : A) (r : Result Bool) (w : World)
    → (continue (λ done. pure (written a done)) r w).0 ≡ ok (some b)
    → r ≡ ok true
won a b (ok true) w e = refl
won a b (ok false) w e = absurd (ground (arith, e))
won a b (err x) w e = absurd (ground (arith, e))

-- A round that returned its value has made its write.
pub contend_won {ℓ κ} :
    {A : Type ℓ} (P : World → Type κ) (write : M Bool) (a b : A) (w : World)
    → (contend write a w).0 ≡ ok (some b)
    → ((u : World) → (write u).0 ≡ ok true → P (write u).1)
    → P (contend write a w).1
unfolding contend
contend_won P write a b w e h =
    rw (continue-pure (written a)) (h (let_others w.rivals w) (won a b _ _ e))

abbrev in_result {ℓ} : {A : Type ℓ} → Result (Option A) → Option A
in_result (ok o) = o
in_result (err e) = none

value_written {ℓ} :
    {A : Type ℓ} (a b : A) (r : Result Bool) (w : World)
    → (continue (λ done. pure (written a done)) r w).0 ≡ ok (some b)
    → b ≡ a
value_written a b (ok true) w e = sym (ap (λ r. default (in_result r) b) e)
value_written a b (ok false) w e = absurd (ground (arith, e))
value_written a b (err x) w e = absurd (ground (arith, e))

-- What it returns is the value that it was given.
pub contend_value {ℓ} :
    {A : Type ℓ} (write : M Bool) (a b : A) (w : World)
    → (contend write a w).0 ≡ ok (some b)
    → b ≡ a
unfolding contend
contend_value write a b w e = value_written a b _ _ e
