-- ===== src/Storage/Claims.antt =====
-- src/central/storage/local-file-storage.ts. The idempotent creations and the conditional writes:
-- each runs alone in the write sequence of its kind of record, so that what it reads is what it then
-- replaces.
use newconduit.Storage.Records.{
  read_case_device_binding, read_delegation, read_fanout_group, read_interaction,
  read_pairing_invite,
}
use newconduit.Base.{
  Bool, Bool-cases, List, Option, String, arith, default, false, find, if◌then◌else◌, inl, inr,
  list_eq, map, nat_eq, none, not, option_eq, or_else, pair_eq, put, refl, some, string_eq, true,
  values, ℕ, ◌&&◌, ◌+◌, ◌==◌, ◌≡◌, ◌≢◌,
}
use newconduit.Model.{
  CaseDeviceBindingRecord, DelegationRecord, DelegationStatus, FanoutGroupMember, FanoutGroupRecord,
  InteractionRecord, PairingInviteRecord, closed_relation, condition_eq, event_type_eq,
  failed_relation, lifecycle_eq, status_eq,
}
use newconduit.World.{
  Fault, M, Result, Store, World, err, gets, immutable_key_changed, modify, ok, on_option,
  out_of_fuel, pure, revision_must_advance, ◌>>=◌,
}
use newconduit.Session.Pause.{request}

-- `readDelegationByKey`: a failed or closed relation no longer takes its key.
abbrev is_over : DelegationStatus → Bool
is_over failed_relation = true
is_over closed_relation = true
is_over _ = false

unfoldable pub delegation_by_key :
    String → String → Option String → List DelegationRecord → Option DelegationRecord
delegation_by_key parent delegate target = find λ d.
    d.parent_session_id == parent
    && (d.resolved_delegate.id == delegate
        && (default d.target_ref "" == default target "" && not (is_over d.status)))

unfoldable pub create_delegation : DelegationRecord → M (DelegationRecord × Bool)
unfolding read_delegation delegation_by_key
create_delegation d = do
  by_id ← read_delegation d.delegation_id
  all ← gets λ w. values w.store.delegations
  on_option
      (or_else by_id
        (delegation_by_key d.parent_session_id d.resolved_delegate.id d.target_ref all))
      (modify (λ st. record st { delegations = put d.delegation_id d st.delegations }) >>= λ _.
        pure (d, true))
      (λ old. pure (old, false))

-- The current record, if it still has the revision that the writer read.
abbrev pub current_at {ℓ} : {A : Type ℓ} → (A → ℕ) → ℕ → Option A → Option A
current_at revision expected none = none
current_at revision expected (some a) = if revision a == expected then some a else none

-- A conditional write: nothing is written unless the revision is the expected one; then the new
-- record has to have the next revision and the same identity.
unfoldable pub write_if {ℓ} : {A : Type ℓ} → Option A → Bool → (A → Bool) → (Store → Store) → M Bool
write_if none advances same write w = (ok false, w)
write_if (some current) true same write w =
    if same current
    then (ok true, record w { store = write w.store })
    else (err immutable_key_changed, w)
write_if (some current) false same write w = (err revision_must_advance, w)

-- It changes the store by the write, or not at all.
pub write_if_cases {ℓ κ} :
    {A : Type ℓ} (P : World → Type κ) (found : Option A) (advances : Bool) (same : A → Bool)
    (write : Store → Store) (w : World)
    → P w
    → P (record w { store = write w.store })
    → P (write_if found advances same write w).1
unfolding write_if
write_if_cases P none advances same write w p q = p
write_if_cases P (some c) false same write w p q = p
write_if_cases P (some c) true same write w p q = elim (Bool-cases (same c)) [
  | inl e ↦ rw e q
  | inr e ↦ rw e p
]

write_if_missing {ℓ κ} :
    {A : Type ℓ} (P : World → Type κ) (advances : Bool) (same : A → Bool) (write : Store → Store)
    (w : World)
    → P w
    → P (write_if none advances same write w).1
unfolding write_if
write_if_missing P advances same write w p = p

-- On a record with the expected revision it writes or throws, and a fault of it is its own.
pub write_if_found {ℓ} :
    {A : Type ℓ} (c : A) (advances : Bool) (same : A → Bool) (write : Store → Store) (w : World)
    → (write_if (some c) advances same write w).0 ≢ ok false
unfolding write_if
write_if_found c true same write w e = ground arith
write_if_found c false same write w e = ground arith

-- It refuses, throws or writes.
pub write_if_outcomes {ℓ κ} :
    {A : Type ℓ} (P : Result Bool × World → Type κ) (found : Option A) (advances : Bool)
    (same : A → Bool) (write : Store → Store) (w : World)
    → P (ok false, w)
    → ((e : Fault) → P (err e, w))
    → P (ok true, record w { store = write w.store })
    → P (write_if found advances same write w)
unfolding write_if
write_if_outcomes P none advances same write w p q r = p
write_if_outcomes P (some c) false same write w p q r = q revision_must_advance
write_if_outcomes P (some c) true same write w p q r = elim (Bool-cases (same c)) [
  | inl e ↦ rw e r
  | inr e ↦ rw e (q immutable_key_changed)
]

-- Where it returns true, it has written.
pub write_if-true {ℓ} :
    {A : Type ℓ} (found : Option A) (advances : Bool) (same : A → Bool) (write : Store → Store)
    (w : World)
    → (write_if found advances same write w).0 ≡ ok true
    → (write_if found advances same write w).1 ≡ record w { store = write w.store }
write_if-true found advances same write w =
    write_if_outcomes (λ r. r.0 ≡ ok true → r.1 ≡ record w { store = write w.store }) found advances
      same write w (λ h. absurd (ground arith)) (λ e h. absurd (ground arith)) (λ h. refl)

pub write_if_fed {ℓ} :
    {A : Type ℓ} (found : Option A) (advances : Bool) (same : A → Bool) (write : Store → Store)
    (w : World)
    → (write_if found advances same write w).0 ≢ err out_of_fuel
unfolding write_if
write_if_fed none advances same write w e = ground arith
write_if_fed (some c) true same write w e = ground arith
write_if_fed (some c) false same write w e = ground arith

unfoldable pub compare_and_set_delegation : ℕ → DelegationRecord → M Bool
unfolding read_delegation
compare_and_set_delegation expected d = do
  current ← read_delegation d.delegation_id
  write_if (current_at (λ c. c.revision) expected current) (d.revision == expected + 1)
      (λ c.
        c.parent_session_id == d.parent_session_id
        && (c.resolved_delegate.id == d.resolved_delegate.id
            && default c.target_ref "" == default d.target_ref ""))
      (λ st. record st { delegations = put d.delegation_id d st.delegations })

unfoldable pub interaction_by_adapter_request :
    String → String → String → List InteractionRecord → Option InteractionRecord
interaction_by_adapter_request session lease request = find λ x.
    x.owner_session_id == session
    && (x.request_lease_id == lease && x.adapter_request_id == request)

unfoldable pub create_interaction : InteractionRecord → M (InteractionRecord × Bool)
unfolding read_interaction interaction_by_adapter_request
create_interaction x = do
  by_id ← read_interaction x.interaction_id
  all ← gets λ w. values w.store.interactions
  on_option
      (or_else by_id (
        interaction_by_adapter_request x.owner_session_id x.request_lease_id x.adapter_request_id
          all))
      (modify (λ st. record st { interactions = put x.interaction_id x st.interactions }) >>= λ _.
        pure (x, true))
      (λ old. pure (old, false))

unfoldable pub compare_and_set_interaction : ℕ → InteractionRecord → M Bool
unfolding read_interaction
compare_and_set_interaction expected x = do
  current ← read_interaction x.interaction_id
  write_if (current_at (λ c. c.revision) expected current) (x.revision == expected + 1)
      (λ c.
        c.tenant_id == x.tenant_id
        && (c.owner_session_id == x.owner_session_id
            && (c.owner_turn_seq == x.owner_turn_seq
                && (c.adapter_request_id == x.adapter_request_id
                    && c.request_lease_id == x.request_lease_id))))
      (λ st. record st { interactions = put x.interaction_id x st.interactions })

pub create_pairing_invite : PairingInviteRecord → M (PairingInviteRecord × Bool)
unfolding read_pairing_invite
create_pairing_invite v = do
  existing ← read_pairing_invite v.invite_id
  elim existing [
    | some old ↦ pure (old, false)
    | none ↦
        modify (λ st. record st { invites = put v.invite_id v st.invites }) >>= λ _. pure (v, true)
  ]

unfoldable pub compare_and_set_pairing_invite : ℕ → PairingInviteRecord → M Bool
unfolding read_pairing_invite
compare_and_set_pairing_invite expected v = do
  current ← read_pairing_invite v.invite_id
  write_if (current_at (λ c. c.revision) expected current) (v.revision == expected + 1)
      (λ c. c.tenant_id == v.tenant_id && c.case_id == v.case_id)
      (λ st. record st { invites = put v.invite_id v st.invites })

unfoldable pub create_case_device_binding :
    CaseDeviceBindingRecord → M (CaseDeviceBindingRecord × Bool)
unfolding read_case_device_binding
create_case_device_binding b = do
  existing ← read_case_device_binding b.case_id b.device_ref
  elim existing [
    | some old ↦ pure (old, false)
    | none ↦
        modify (λ st. record st { bindings = put (b.case_id, b.device_ref) b st.bindings }) >>= λ _.
        pure (b, true)
  ]

unfoldable pub compare_and_set_case_device_binding : ℕ → CaseDeviceBindingRecord → M Bool
unfolding read_case_device_binding
compare_and_set_case_device_binding expected b = do
  current ← read_case_device_binding b.case_id b.device_ref
  write_if (current_at (λ c. c.revision) expected current) (b.revision == expected + 1)
      (λ c. c.tenant_id == b.tenant_id && c.device_id == b.device_id)
      (λ st. record st { bindings = put (b.case_id, b.device_ref) b st.bindings })

pub create_fanout_group : FanoutGroupRecord → M (FanoutGroupRecord × Bool)
unfolding read_fanout_group
create_fanout_group g = do
  by_id ← read_fanout_group g.group_id
  all ← gets λ w. values w.store.groups
  let by_request =
      find
        (λ c.
          c.parent_session_id == g.parent_session_id && c.parent_request_id == g.parent_request_id)
        all
  elim (or_else by_id by_request) [
    | some old ↦ pure (old, false)
    | none ↦
        modify (λ st. record st { groups = put g.group_id g st.groups }) >>= λ _. pure (g, true)
  ]

-- The devices are compared by the text of their list, which determines them.
abbrev pub device_refs : List FanoutGroupMember → List String
device_refs = map λ m. m.device_ref

unfoldable pub compare_and_set_fanout_group : ℕ → FanoutGroupRecord → M Bool
unfolding read_fanout_group
compare_and_set_fanout_group expected g = do
  current ← read_fanout_group g.group_id
  write_if (current_at (λ c. c.revision) expected current) (g.revision == expected + 1)
      (λ c.
        c.parent_session_id == g.parent_session_id
        && (c.parent_request_id == g.parent_request_id
            && (c.delegate_id == g.delegate_id
                && (c.input == g.input && device_refs c.members == device_refs g.members))))
      (λ st. record st { groups = put g.group_id g st.groups })
