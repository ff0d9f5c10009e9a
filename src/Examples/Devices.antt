-- ===== src/Examples/Devices.antt =====
-- Witnesses for src/central/managers/case/case-pairing-manager.ts.
use newconduit.Base.{
  All, Among, HasDistinct, List, String, [], ap, arith, false, get, inl, inr, list_eq, nat_eq, none,
  option_eq, pair_eq, put, put_cases, refl, some, string_eq, sym, text_length, ◌∙◌, ◌∷◌, ◌≡◌, ◌≢◌,
}
use newconduit.Examples.Data.{running_session, store_of, test_world}
use newconduit.Model.{
  CaseDeviceBindingRecord, CaseDeviceView, PairingInviteRecord, active_binding, condition_eq,
  event_type_eq, lifecycle_eq, pending_invite, status_eq,
}
use newconduit.Pairing.Expulsion.{BindingsKeyed, revoke_device-resolve}
use newconduit.Pairing.Gate.{IsAdmitted, resolve_edge_binding-IsAdmitted}
use newconduit.Pairing.Manager.{
  PairingOptions, RedeemPairingInput, RedeemPairingResult, ResolveEdgeBindingInput,
  ResolvedEdgeBinding, redeem_pairing_invite, resolve_edge_binding,
}
use newconduit.Pairing.Once.{InvitesKeyed, redeemed_once}
use newconduit.Pairing.Revocation.{mark_binding_revoked, revoke_device}
use newconduit.World.{Store, ok}
use newconduit.Pairing.Crypto.{derive_device_ref, verify}
use newconduit.Storage.Records.{read_case_device_binding, read_pairing_invite, read_session}
use newconduit.Storage.Claims.{
  compare_and_set_case_device_binding, compare_and_set_pairing_invite, write_if,
}
use newconduit.Pairing.Lines.{Shows}
use newconduit.Pairing.Listing.{list_case_devices-Shows}
use newconduit.Pairing.Roster.{list_case_devices}

abbrev test_options : PairingOptions
test_options = record { tenant_id = "t1"; invite_ttl_ms = 900; pepper = "pepper" }

abbrev test_binding : CaseDeviceBindingRecord
test_binding = record {
  tenant_id = "t1";
  case_id = "s1";
  device_id = "phone";
  device_ref = "dref_digest";
  binding_credential_hash = "mac";
  binding_credential_salt = "salt";
  device_label = "my phone";
  worker_id = none;
  status = active_binding;
  created_at = 0;
  updated_at = 0;
  last_redeemed_at = 0;
  last_registered_at = none;
  revoked_at = none;
  revision = 1;
}

abbrev test_invite : PairingInviteRecord
test_invite = record {
  invite_id = "i1";
  tenant_id = "t1";
  case_id = "s1";
  invite_secret_hash = "mac";
  invite_secret_salt = "salt";
  status = pending_invite;
  expires_at = 2000;
  created_at = 0;
  updated_at = 0;
  redeemed_at = none;
  redeemed_device_ref = none;
  revision = 1;
}

abbrev paired_store : Store
paired_store = record (store_of running_session) {
  invites = ("i1", test_invite) ∷ [];
  bindings = (("s1", "dref_digest"), test_binding) ∷ [];
}

abbrev test_gate_input : ResolveEdgeBindingInput
test_gate_input = record {
  case_id = "s1";
  device_id = "phone";
  device_ref = "dref_digest";
  binding_credential = "secret";
}

abbrev test_redeem_input : RedeemPairingInput
test_redeem_input = record {
  invite_id = "i1";
  invite_secret = "secret";
  device_id = "phone";
  device_label = "my phone";
}

abbrev test_resolved : ResolvedEdgeBinding
test_resolved = record {
  case_id = "s1";
  device_ref = "dref_digest";
  minted_labels = ("case", "s1") ∷ ("deviceRef", "dref_digest") ∷ [];
}

abbrev test_redeemed : RedeemPairingResult
test_redeemed = record { case_id = "s1"; device_ref = "dref_digest"; binding_credential = "token" }

resolve_edge_binding-IsAdmitted_example :
    IsAdmitted test_options test_gate_input (test_world paired_store) test_resolved
unfolding resolve_edge_binding text_length read_case_device_binding get read_session put
    derive_device_ref verify
resolve_edge_binding-IsAdmitted_example =
    resolve_edge_binding-IsAdmitted test_options test_gate_input (test_world paired_store)
      test_resolved refl

paired_store-BindingsKeyed : BindingsKeyed paired_store
unfolding get put
paired_store-BindingsKeyed case ref b h =
    let own : String × String = ("s1", "dref_digest") in
    let asked : String × String = (case, ref) in
    elim (put_cases own asked test_binding b [] h) [
      | inl (key, same) ↦ (
        sym (ap (λ x. x.case_id) same) ∙ ap (λ k. k.0) key,
        sym (ap (λ x. x.device_ref) same) ∙ ap (λ k. k.1) key,
      )
      | inr (other, listed) ↦ absurd (ground arith)
    ]

paired_store-InvitesKeyed : InvitesKeyed paired_store
unfolding get put
paired_store-InvitesKeyed id v h = elim (put_cases "i1" id test_invite v [] h) [
  | inl (key, same) ↦ sym (ap (λ x. x.invite_id) same) ∙ key
  | inr (other, listed) ↦ absurd (ground arith)
]

revoke_device-resolve_example :
    (resolve_edge_binding test_options test_gate_input
      (revoke_device test_options "s1" "dref_digest" (test_world paired_store)).1).0
    ≢ ok test_resolved
unfolding revoke_device text_length read_case_device_binding get put mark_binding_revoked
    compare_and_set_case_device_binding write_if
revoke_device-resolve_example =
    revoke_device-resolve test_options test_options test_gate_input (test_world paired_store)
      paired_store-BindingsKeyed refl test_resolved

redeemed_once_example :
    (redeem_pairing_invite test_options test_redeem_input
      (redeem_pairing_invite test_options test_redeem_input (test_world paired_store)).1).0
    ≢ ok test_redeemed
unfolding redeem_pairing_invite text_length read_case_device_binding read_pairing_invite get
    read_session put derive_device_ref verify compare_and_set_pairing_invite write_if
    compare_and_set_case_device_binding
redeemed_once_example =
    redeemed_once test_options test_options test_redeem_input test_redeem_input
      (test_world paired_store) test_redeemed paired_store-InvitesKeyed refl refl refl test_redeemed

list_case_devices-Shows_example :
    (views : List CaseDeviceView) × ((list_case_devices
        (λ x y. false)
        test_options
        "s1"
        (test_world paired_store)).0
      ≡ ok views)
    × All (Shows test_options "s1" (test_world paired_store)) views
    × ((ref : String) (b : CaseDeviceBindingRecord)
        → get ("s1", ref) paired_store.bindings ≡ some b
        → b.tenant_id ≡ "t1"
        → b.status ≡ active_binding
        → (v : CaseDeviceView) × Among v views × (v.device_ref ≡ ref))
    × HasDistinct (λ v. v.device_ref) views
unfolding get text_length
list_case_devices-Shows_example =
    list_case_devices-Shows test_options "s1" (test_world paired_store) (refl, tt)
      paired_store-BindingsKeyed (λ x y. false) refl
