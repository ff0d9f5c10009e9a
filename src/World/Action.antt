-- ===== src/World/Action.antt =====
-- Actions: state passing with exceptions.
use newconduit.Base.{
  Bool, List, Option, String, [], false, none, refl, some, true, ℕ, ◌++◌, ◌+◌, ◌∷◌, ◌≡◌,
}
use newconduit.Model.{RuntimeChannel, RuntimeEvent}
use newconduit.World.State.{Store, World}

-- `throw new CasePairingError(code, …)`, and one case for each other `throw` of the modelled code.
-- `out_of_fuel` is the model's own: it ends a `for (;;)` loop whose rounds are counted.
pub data Fault : Type 0 where
  case_not_found case_closed invite_not_found invite_expired invite_already_redeemed
        invite_secret_invalid binding_not_found binding_credential_invalid invalid_input :
      Fault
  revision_must_advance immutable_key_changed event_owner_required : Fault
  worker_missing worker_not_active stale_lease : Fault
  create_intent_differs unexpected_turn no_worker_lease cannot_start : Fault
  session_not_found not_running not_paused delegated_session_not_found cannot_pause cannot_resume :
      Fault
  no_storage_class unknown_storage_class : Fault
  group_not_found member_not_found member_attached_elsewhere delivered_before_settlement : Fault
  agent_spec_not_found : Fault
  empty_field not_positive unknown_policy duplicate_delegate tool_name_taken unknown_delegate :
      Fault
  duplicate_refs many_callees no_callee : Fault
  empty_message message_too_long : Fault
  foreign_parent delegated_parent not_a_caller target_required key_reused : Fault
  relation_over queue_full relation_gone relation_not_opened : Fault
  target_not_paired target_revoked : Fault
  no_relation unmatched_command no_active_call unmatched_turn call_not_found : Fault
  child_missing child_not_running no_dispatch : Fault
  interaction_not_found interaction_interrupted_already not_visible decision_required : Fault
  adapter_request_reused event_without_session event_without_lease event_without_turn : Fault
  projection_missing no_call_for_turn parent_of_other_owner : Fault
  transport_unavailable : Fault
  out_of_fuel : Fault

pub data Result {ℓ} (A : Type ℓ) : Type ℓ where
  ok : A → Result A
  err : Fault → Result A

abbrev pub M {ℓ} : Type ℓ → Type ℓ
M A = World → Result A × World

module _ {ℓ κ} {A : Type ℓ} {B : Type κ} where
  abbrev pub continue : (A → M B) → Result A → World → Result B × World
  continue f (ok a) w = f a w
  continue f (err e) w = (err e, w)

  infixl 10 ◌>>=◌
  abbrev pub ◌>>=◌ : M A → (A → M B) → M B
  ◌>>=◌ m f w = let (r, w') = m w in continue f r w'

module _ {κ} {B : Type κ} where
  infixl 10 ◌>>◌
  abbrev pub ◌>>◌ : M (Unit {0}) → M B → M B
  m >> n = m >>= λ _. n

module _ {ℓ} {A : Type ℓ} where
  abbrev pub pure : A → M A
  pure a w = (ok a, w)

  abbrev pub throw : Fault → M A
  throw e w = (err e, w)

  abbrev pub gets : (World → A) → M A
  gets f w = (ok (f w), w)

  -- `if (!value) throw …`.
  abbrev pub require : Option A → Fault → M A
  require none e w = (err e, w)
  require (some a) e w = (ok a, w)

  -- `if (test) { … } else { … }`.
  abbrev pub branch : Bool → M A → M A → M A
  branch true m n w = m w
  branch false m n w = n w

  -- `if (value) { … } else { … }` on an optional value.
  abbrev pub on_option {κ} : {B : Type κ} → Option B → M A → (B → M A) → M A
  on_option none m f w = m w
  on_option (some b) m f w = f b w

abbrev pub ensure : Bool → Fault → M (Unit {0})
ensure true e w = (ok tt, w)
ensure false e w = (err e, w)

abbrev pub modify : (Store → Store) → M (Unit {0})
modify f w = (ok tt, record w { store = f w.store })

-- `this.clock.now()`.
abbrev pub now : M ℕ
now w = (ok (w.host.clock w.readings), record w { readings = w.readings + 1 })

-- `crypto.randomUUID()`, and `randomToken(n)`.
abbrev pub random_uuid : M String
random_uuid w = (ok (w.host.uuid w.drawn), record w { drawn = w.drawn + 1 })

abbrev pub random_token : ℕ → M String
random_token n w = (ok (w.host.token w.drawn n), record w { drawn = w.drawn + 1 })

abbrev pub told : Bool → Result (Unit {0})
told true = ok tt
told false = err transport_unavailable

-- `this.eventTransport.publish(…)`, which rejects where the transport does not take the event.
abbrev pub publish : RuntimeChannel → RuntimeEvent → M (Unit {0})
publish channel event w = (
  told (w.host.takes w.published channel event),
  record w { published = w.published ++ (channel, event) ∷ [] },
)

-- Other tasks run here.
abbrev pub let_others : List (Store → Store) → World → World
let_others [] w = w
let_others (r ∷ rest) w = record w { store = r w.store; rivals = rest }

abbrev pub others_run : M (Unit {0})
others_run w = (ok tt, let_others w.rivals w)

module _ {ℓ} {A : Type ℓ} where
  -- `for (const x of xs) { await body(x); }`.
  unfoldable pub for_each : List A → (A → M (Unit {0})) → M (Unit {0})
  for_each [] body = pure tt
  for_each (x ∷ xs) body = body x >>= λ _. for_each xs body

  -- The same, with the results in a list.
  unfoldable pub collect {κ} : {B : Type κ} → List A → (A → M B) → M (List B)
  collect [] body = pure []
  collect (x ∷ xs) body = body x >>= λ y. collect xs body >>= λ ys. pure (y ∷ ys)

-- What follows a call without effects of its own leaves the world alone.
pub continue-pure {ℓ κ} :
    {A : Type ℓ} {B : Type κ} (f : A → B) (r : Result A) (w : World)
    → (continue (λ a. pure (f a)) r w).1 ≡ w
continue-pure f (ok a) w = refl
continue-pure f (err e) w = refl

pub host-let_others : (rs : List (Store → Store)) (w : World) → (let_others rs w).host ≡ w.host
host-let_others [] w = refl
host-let_others (r ∷ rs) w = refl

-- A property of the world that each part of a sequence keeps.
continue_keeps {ℓ κ μ} :
    {A : Type ℓ} {B : Type κ} (P : World → Type μ) (f : A → M B) (r : Result A) (w : World)
    → P w
    → ((a : A) → r ≡ ok a → P (f a w).1)
    → P (continue f r w).1
continue_keeps P f (ok a) w p h = h a refl
continue_keeps P f (err e) w p h = p

branch_keeps {ℓ κ} :
    {A : Type ℓ} (P : World → Type κ) (b : Bool) (m n : M A) (w : World)
    → (b ≡ true → P (m w).1)
    → (b ≡ false → P (n w).1)
    → P (branch b m n w).1
branch_keeps P true m n w p q = p refl
branch_keeps P false m n w p q = q refl
