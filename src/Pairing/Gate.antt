-- ===== src/Pairing/Gate.antt =====
-- Which devices `resolveEdgeBinding` of src/central/managers/case/case-pairing-manager.ts lets pass.
use newconduit.Base.{
  Bool-cases, Option-cases, [], ap, arith, false, get, inl, inr, list_eq, nat_eq, option_eq,
  pair_eq, some, string_eq, sym, true, ◌&&◌, ◌==◌, ◌∷◌, ◌≡◌, ◌≢◌,
}
use newconduit.Model.{
  CaseDeviceBindingRecord, Labels, SessionRecord, condition_eq, event_type_eq, lifecycle_eq,
  status_eq,
}
use newconduit.Pairing.Crypto.{derive_device_ref, verify}
use newconduit.Pairing.Manager.{
  PairingOptions, ResolveEdgeBindingInput, ResolvedEdgeBinding, check_binding, closed_to, is_active,
  is_bounded, is_non_empty, open_case, resolve_edge_binding,
}
use newconduit.Session.Lifecycle.{is_terminal}
use newconduit.Storage.Records.{read_case_device_binding, read_session}
use newconduit.World.{Fault, Result, World, err, ok}
use newconduit.Fanout.Preservation.{stored}

-- What a device that passes has: an active binding of the tenant, in a stored case of the tenant that
-- is not closed, for this device, with this credential.
pub record IsAdmitted (o : PairingOptions) (input : ResolveEdgeBindingInput) (w : World)
    (r : ResolvedEdgeBinding) : Type 0 where
  pub binding : CaseDeviceBindingRecord
  pub session : SessionRecord
  pub bound : get (input.case_id, input.device_ref) w.store.bindings ≡ some binding
  pub own : (binding.tenant_id == o.tenant_id) ≡ true
  pub still_active : is_active binding.status ≡ true
  case_stored : get binding.case_id w.store.sessions ≡ some session
  pub still_open : is_terminal session.status ≡ false
  same_device : binding.device_id ≡ input.device_id
  proved :
      verify w.host o.pepper input.binding_credential
        (record { salt = binding.binding_credential_salt; hash = binding.binding_credential_hash })
      ≡ true
  labelled : r.minted_labels ≡ ("case", binding.case_id) ∷ ("deviceRef", binding.device_ref) ∷ []

pub no_result {ℓ} : {A : Type ℓ} (e : Fault) (r : A) → err e ≢ ok r
no_result e r h = ground arith

abbrev minted_of : Result ResolvedEdgeBinding → Labels
minted_of (ok r) = r.minted_labels
minted_of (err e) = []

-- The checks on the binding that was read.
check_binding-IsAdmitted :
    (o : PairingOptions) (input : ResolveEdgeBindingInput) (w : World) (r : ResolvedEdgeBinding)
    (b : CaseDeviceBindingRecord)
    → get (input.case_id, input.device_ref) w.store.bindings ≡ some b
    → (check_binding o input b w).0 ≡ ok r
    → IsAdmitted o input w r
unfolding check_binding read_session
check_binding-IsAdmitted o input w r b found =
    elim (Bool-cases (b.tenant_id == o.tenant_id && is_active b.status)) [
      | inr e ↦ rw e (λ h. absurd (no_result _ r h))
      | inl live ↦ rw live (elim (Option-cases (get b.case_id w.store.sessions)) [
        | inl e ↦ rw e (λ h. absurd (no_result _ r h))
        | inr (s, stored) ↦ rw stored (elim (Bool-cases (closed_to o s)) [
          | inl e ↦ rw e (λ h. absurd (no_result _ r h))
          | inr open_case ↦
              rw open_case
                (elim (Bool-cases (
                  b.device_id == input.device_id
                  && b.device_ref
                    == derive_device_ref w.host o.tenant_id input.case_id input.device_id)) [
                      | inr e ↦ rw e (λ h. absurd (no_result _ r h))
                      | inl same ↦
                          rw same
                            (elim (Bool-cases (
                              verify w.host o.pepper input.binding_credential (record {
                                salt = b.binding_credential_salt;
                                hash = b.binding_credential_hash;
                              }))) [
                                | inr e ↦ rw e (λ h. absurd (no_result _ r h))
                                | inl proved ↦ rw proved (λ h. record {
                                  binding = b;
                                  session = s;
                                  bound = found;
                                  own = ground arith;
                                  still_active = ground arith;
                                  case_stored = stored;
                                  still_open = ground arith;
                                  same_device =
                                      ground
                                        (arith, string_eq.equal_iff b.device_id input.device_id);
                                  proved = proved;
                                  labelled = sym (ap minted_of h);
                                })
                              ])
                    ])
        ])
      ])
    ]

-- Where `resolveEdgeBinding` returns, the tenant has an active binding for the case and the device's
-- reference, in a stored case that is not closed; the binding is for the device that asks, its
-- credential verifies, and the labels that are minted are the binding's case and reference.
pub resolve_edge_binding-IsAdmitted :
    (o : PairingOptions) (input : ResolveEdgeBindingInput) (w : World) (r : ResolvedEdgeBinding)
    → (resolve_edge_binding o input w).0 ≡ ok r
    → IsAdmitted o input w r
unfolding resolve_edge_binding read_case_device_binding read_session
resolve_edge_binding-IsAdmitted o input w r = elim (Bool-cases (is_bounded input.device_id 128)) [
  | inr e ↦ rw e (λ h. absurd (no_result _ r h))
  | inl e ↦ rw e (elim (Bool-cases (is_bounded input.binding_credential 256)) [
    | inr e ↦ rw e (λ h. absurd (no_result _ r h))
    | inl e ↦ rw e (elim (Bool-cases (is_non_empty input.case_id)) [
      | inr e ↦ rw e (λ h. absurd (no_result _ r h))
      | inl e ↦ rw e (elim (Bool-cases (is_non_empty input.device_ref)) [
        | inr e ↦ rw e (λ h. absurd (no_result _ r h))
        | inl e ↦
            rw e (elim (Option-cases (get (input.case_id, input.device_ref) w.store.bindings)) [
              | inl e ↦ rw e (λ h. absurd (no_result _ r h))
              | inr (b, found) ↦ rw found (check_binding-IsAdmitted o input w r b found)
            ])
      ])
    ])
  ])
]
