-- ===== src/Pairing/Manager.antt =====
-- src/central/managers/case/case-pairing-manager.ts: minting and redeeming an invite, and the gate
-- that a device passes. The terminal statuses are those of the session's lifecycle. What runs under
-- `serializeCaseOperation` runs alone on its case, so that it is one step here; other tasks run between
-- the first read of an invite and its turn. The mint and the gate are one step each as well: what
-- other tasks write between their reads is not modelled.
use newconduit.World.{
  M, binding_credential_invalid, binding_not_found, case_closed, case_not_found, ensure, gets,
  invalid_input, invite_already_redeemed, invite_expired, invite_not_found, invite_secret_invalid,
  now, on_option, others_run, pure, random_token, require, ◌>>=◌, ◌>>◌,
}
use newconduit.Base.{
  Bool, String, [], false, is_some, leb, list_eq, ltb, nat_eq, none, not, option_eq, pair_eq, some,
  string_eq, text_length, true, ℕ, ◌&&◌, ◌+◌, ◌==◌, ◌||◌, ◌∷◌,
}
use newconduit.Model.{
  CaseDeviceBindingRecord, CaseDeviceBindingStatus, Labels, PairingInviteRecord,
  PairingInviteStatus, SessionRecord, active_binding, condition_eq, event_type_eq, lifecycle_eq,
  pending_invite, redeemed_invite, revoked_binding, status_eq,
}
use newconduit.Pairing.Crypto.{HashedSecret, derive_device_ref, issue, verify}
use newconduit.Session.Lifecycle.{is_terminal}
use newconduit.Storage.Claims.{
  compare_and_set_case_device_binding, compare_and_set_pairing_invite, create_case_device_binding,
  create_pairing_invite,
}
use newconduit.Storage.Records.{read_case_device_binding, read_pairing_invite, read_session}

pub record MintPairingInviteResult : Type 0 where
  pub invite_id : String
  pub invite_secret : String
  pub case_id : String
  pub expires_at : ℕ

pub record RedeemPairingInput : Type 0 where
  pub invite_id : String
  pub invite_secret : String
  pub device_id : String
  pub device_label : String

pub record RedeemPairingResult : Type 0 where
  pub case_id : String
  pub device_ref : String
  pub binding_credential : String

pub record ResolveEdgeBindingInput : Type 0 where
  pub case_id : String
  pub device_id : String
  pub device_ref : String
  pub binding_credential : String

pub record ResolvedEdgeBinding : Type 0 where
  pub case_id : String
  pub device_ref : String
  pub minted_labels : Labels

-- `this.tenantId`, `this.inviteTtlMs` and the pepper of `this.credentials`.
pub record PairingOptions : Type 0 where
  pub tenant_id : String
  pub invite_ttl_ms : ℕ
  pub pepper : String

abbrev pub is_non_empty : String → Bool
is_non_empty value = not (text_length value == 0)

abbrev pub is_bounded : String → ℕ → Bool
is_bounded value limit = is_non_empty value && leb (text_length value) limit

abbrev pub require_non_empty : String → M (Unit {0})
require_non_empty value = ensure (is_non_empty value) invalid_input

abbrev require_bounded : String → ℕ → M (Unit {0})
require_bounded value limit = ensure (is_bounded value limit) invalid_input

authorize_case_access : PairingOptions → String → String → M (Unit {0})
authorize_case_access o case_id principal = do
  require_non_empty case_id
  require_non_empty principal
  found ← read_session case_id
  s ← require found case_not_found
  ensure (s.tenant_id == o.tenant_id && s.owner == principal) case_not_found

-- A case of the tenant that is not closed.
unfoldable pub open_case : PairingOptions → String → M (Unit {0})
unfolding read_session
open_case o case_id = do
  found ← read_session case_id
  s ← require found case_not_found
  ensure (s.tenant_id == o.tenant_id) case_not_found
  ensure (not (is_terminal s.status)) case_closed

new_invite : PairingOptions → String → String → HashedSecret → ℕ → PairingInviteRecord
new_invite o case_id id hashed t = record {
  invite_id = id;
  tenant_id = o.tenant_id;
  case_id = case_id;
  invite_secret_hash = hashed.hash;
  invite_secret_salt = hashed.salt;
  status = pending_invite;
  expires_at = t + o.invite_ttl_ms;
  created_at = t;
  updated_at = t;
  redeemed_at = none;
  redeemed_device_ref = none;
  revision = 1;
}

mint_pairing_invite : PairingOptions → String → M MintPairingInviteResult
unfolding open_case new_invite issue
mint_pairing_invite o case_id = do
  require_non_empty case_id
  open_case o case_id
  t ← now
  id ← random_token 16
  (secret, hashed) ← issue o.pepper
  (invite, is_new) ← create_pairing_invite (new_invite o case_id id hashed t)
  ensure is_new invalid_input
  pure (record {
    invite_id = id;
    invite_secret = secret;
    case_id = case_id;
    expires_at = t + o.invite_ttl_ms;
  })

new_binding :
    PairingOptions
    → String
    → RedeemPairingInput
    → String
    → HashedSecret
    → ℕ
    → CaseDeviceBindingRecord
new_binding o case_id input ref hashed t = record {
  tenant_id = o.tenant_id;
  case_id = case_id;
  device_id = input.device_id;
  device_ref = ref;
  binding_credential_hash = hashed.hash;
  binding_credential_salt = hashed.salt;
  device_label = input.device_label;
  worker_id = none;
  status = active_binding;
  created_at = t;
  updated_at = t;
  last_redeemed_at = t;
  last_registered_at = none;
  revoked_at = none;
  revision = 1;
}

pub rotated_binding :
    RedeemPairingInput → HashedSecret → ℕ → CaseDeviceBindingRecord → CaseDeviceBindingRecord
rotated_binding input hashed t b = record b {
  device_label = input.device_label;
  binding_credential_hash = hashed.hash;
  binding_credential_salt = hashed.salt;
  status = active_binding;
  updated_at = t;
  last_redeemed_at = t;
  revoked_at = none;
  revision = b.revision + 1;
}

unfoldable pub upsert_binding :
    PairingOptions → String → RedeemPairingInput → String → HashedSecret → ℕ → M (Unit {0})
unfolding new_binding rotated_binding
upsert_binding o case_id input ref hashed t = do
  existing ← read_case_device_binding case_id ref
  on_option existing
      (create_case_device_binding (new_binding o case_id input ref hashed t) >>= λ r.
        ensure r.1 invalid_input)
      (λ b.
        compare_and_set_case_device_binding b.revision (rotated_binding input hashed t b)
        >>= λ done. ensure done invalid_input)

pub owned_invite : PairingOptions → PairingInviteRecord → Bool
owned_invite o v = v.tenant_id == o.tenant_id

abbrev pub is_pending : PairingInviteStatus → Bool
is_pending pending_invite = true
is_pending _ = false

unfoldable pub claimed_invite : PairingInviteRecord → String → ℕ → PairingInviteRecord
claimed_invite v ref t = record v {
  status = redeemed_invite;
  redeemed_at = some t;
  redeemed_device_ref = some ref;
  updated_at = t;
  revision = v.revision + 1;
}

-- After the claim: a fresh credential, and the device's binding with it.
unfoldable pub bind_device :
    PairingOptions → RedeemPairingInput → String → String → ℕ → M RedeemPairingResult
unfolding issue upsert_binding
bind_device o input case_id ref t = do
  (credential, hashed) ← issue o.pepper
  upsert_binding o case_id input ref hashed t
  pure (record { case_id = case_id; device_ref = ref; binding_credential = credential })

-- The claim of the invite that was read, and what follows it.
unfoldable pub claim_invite :
    PairingOptions → RedeemPairingInput → PairingInviteRecord → M RedeemPairingResult
unfolding claimed_invite bind_device derive_device_ref
claim_invite o input v = do
  host ← gets λ w. w.host
  let ref = derive_device_ref host o.tenant_id v.case_id input.device_id
  t ← now
  claimed ← compare_and_set_pairing_invite v.revision (claimed_invite v ref t)
  ensure claimed invite_already_redeemed
  bind_device o input v.case_id ref t

-- The part of `redeemPairingInvite` that runs alone on its case.
unfoldable pub redeem_in_case : PairingOptions → RedeemPairingInput → String → M RedeemPairingResult
unfolding open_case claim_invite verify owned_invite
redeem_in_case o input case_id = do
  found ← read_pairing_invite input.invite_id
  v ← require found invite_not_found
  ensure (owned_invite o v && v.case_id == case_id) invite_not_found
  ensure (is_pending v.status && not (is_some v.redeemed_at)) invite_already_redeemed
  t ← now
  ensure (ltb t v.expires_at) invite_expired
  host ← gets λ w. w.host
  ensure
      (verify host o.pepper input.invite_secret
        (record { salt = v.invite_secret_salt; hash = v.invite_secret_hash }))
      invite_secret_invalid
  open_case o v.case_id
  claim_invite o input v

unfoldable pub redeem_pairing_invite : PairingOptions → RedeemPairingInput → M RedeemPairingResult
unfolding redeem_in_case owned_invite
redeem_pairing_invite o input = do
  require_bounded input.device_id 128
  require_bounded input.device_label 200
  require_bounded input.invite_secret 256
  require_non_empty input.invite_id
  found ← read_pairing_invite input.invite_id
  v ← require found invite_not_found
  ensure (owned_invite o v) invite_not_found
  others_run
  redeem_in_case o input v.case_id

abbrev pub is_active : CaseDeviceBindingStatus → Bool
is_active active_binding = true
is_active revoked_binding = false

abbrev pub closed_to : PairingOptions → SessionRecord → Bool
closed_to o s = not (s.tenant_id == o.tenant_id) || is_terminal s.status

-- The checks on the binding that was read, and the labels that it gives.
unfoldable pub check_binding :
    PairingOptions → ResolveEdgeBindingInput → CaseDeviceBindingRecord → M ResolvedEdgeBinding
check_binding o input b = do
  ensure (b.tenant_id == o.tenant_id && is_active b.status) binding_not_found
  session ← read_session b.case_id
  s ← require session case_closed
  ensure (not (closed_to o s)) case_closed
  host ← gets λ w. w.host
  ensure
      (b.device_id == input.device_id
        && b.device_ref == derive_device_ref host o.tenant_id input.case_id input.device_id)
      binding_credential_invalid
  ensure
      (verify host o.pepper input.binding_credential
        (record { salt = b.binding_credential_salt; hash = b.binding_credential_hash }))
      binding_credential_invalid
  pure (record {
    case_id = b.case_id;
    device_ref = b.device_ref;
    minted_labels = ("case", b.case_id) ∷ ("deviceRef", b.device_ref) ∷ [];
  })

unfoldable pub resolve_edge_binding :
    PairingOptions → ResolveEdgeBindingInput → M ResolvedEdgeBinding
unfolding check_binding
resolve_edge_binding o input = do
  require_bounded input.device_id 128
  require_bounded input.binding_credential 256
  require_non_empty input.case_id
  require_non_empty input.device_ref
  found ← read_case_device_binding input.case_id input.device_ref
  b ← require found binding_not_found
  check_binding o input b
