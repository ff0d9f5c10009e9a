-- ===== src/Pairing/Expulsion.antt =====
-- `revokeDevice` of src/central/managers/case/case-pairing-manager.ts, and the gate after it.
use newconduit.Pairing.Gate.{resolve_edge_binding-IsAdmitted}
use newconduit.Base.{
  Bool-cases, Option, Option-cases, String, ap, arith, false, get, get-put_self, inl, inr, list_eq,
  nat_eq, none, option_eq, pair_eq, refl, some, string_eq, subst, sym, true, ◌∙◌, ◌≡◌, ◌≢◌,
}
use newconduit.Model.{CaseDeviceBindingRecord, condition_eq, event_type_eq, lifecycle_eq, status_eq}
use newconduit.Pairing.Manager.{
  PairingOptions, ResolveEdgeBindingInput, ResolvedEdgeBinding, is_active, is_non_empty,
  resolve_edge_binding,
}
use newconduit.Pairing.Revocation.{is_revocable, mark_binding_revoked, revoke_device, revoked}
use newconduit.Storage.Claims.{compare_and_set_case_device_binding, write_if-true}
use newconduit.Storage.Records.{read_case_device_binding}
use newconduit.World.{Store, World, ok}

-- A write that was made has stored the revoked binding.
mark-revoked :
    (b : CaseDeviceBindingRecord) (w : World)
    → (mark_binding_revoked b w).0 ≡ ok true
    → get (b.case_id, b.device_ref) (mark_binding_revoked b w).1.store.bindings
      ≡ some (revoked b (w.host.clock w.readings))
unfolding mark_binding_revoked compare_and_set_case_device_binding revoked
mark-revoked b w h =
    rw (write_if-true _ _ _ _ _ h) (get-put_self (b.case_id, b.device_ref) _ w.store.bindings)

binding_of : CaseDeviceBindingRecord → Option CaseDeviceBindingRecord → CaseDeviceBindingRecord
binding_of b none = b
binding_of b (some c) = c

some_same : {b c : CaseDeviceBindingRecord} → some b ≡ some c → b ≡ c
unfolding binding_of
some_same {b} e = ap (binding_of b) e

-- Bindings are stored under their case and reference.
abbrev pub BindingsKeyed : Store → Type 0
BindingsKeyed st =
    (case ref : String) (b : CaseDeviceBindingRecord)
    → get (case, ref) st.bindings ≡ some b
    → (b.case_id ≡ case) × (b.device_ref ≡ ref)

revoke_device-revoked :
    (o : PairingOptions) (case_id ref : String) (w : World)
    → BindingsKeyed w.store
    → (revoke_device o case_id ref w).0 ≡ ok true
    → (b : CaseDeviceBindingRecord) × (get
          (case_id, ref)
          (revoke_device o case_id ref w).1.store.bindings
        ≡ some b)
      × (is_active b.status ≡ false)
unfolding revoke_device read_case_device_binding revoked
revoke_device-revoked o case_id ref w keyed = elim (Bool-cases (is_non_empty case_id)) [
  | inr e ↦ rw e (λ h. absurd (ground arith))
  | inl e ↦ rw e (elim (Bool-cases (is_non_empty ref)) [
    | inr e ↦ rw e (λ h. absurd (ground arith))
    | inl e ↦ rw e (elim (Option-cases (get (case_id, ref) w.store.bindings)) [
      | inl e ↦ rw e (λ h. absurd (ground arith))
      | inr (b, found) ↦ rw found (elim (Bool-cases (is_revocable o b)) [
        | inr e ↦ rw e (λ h. absurd (ground arith))
        | inl e ↦ rw e (λ h.
            (let (same_case, same_ref) = keyed case_id ref b found in
              let t = (mark_binding_revoked b w).1.store.bindings in
              let next = revoked b (w.host.clock w.readings) in
              let at_case : get (case_id, b.device_ref) t ≡ some next =
                subst (λ k. get (k, b.device_ref) t ≡ some next) same_case (mark-revoked b w h) in
              (next, subst (λ k. get (case_id, k) t ≡ some next) same_ref at_case, refl)))
      ])
    ])
  ])
]

-- Where bindings are stored under their case and reference, and a device was revoked, the gate lets no
-- device pass with its case and reference in the state that the revocation left, whatever it presents
-- and whatever the options.
pub revoke_device-resolve :
    (o o' : PairingOptions) (input : ResolveEdgeBindingInput) (w : World)
    → BindingsKeyed w.store
    → (revoke_device o input.case_id input.device_ref w).0 ≡ ok true
    → (r : ResolvedEdgeBinding)
    → (resolve_edge_binding o' input (revoke_device o input.case_id input.device_ref w).1).0 ≢ ok r
revoke_device-resolve o o' input w keyed done r passes =
    let (b, found, dead) = revoke_device-revoked o input.case_id input.device_ref w keyed done in
    let admitted = resolve_edge_binding-IsAdmitted o' input _ r passes in
    let same : admitted.binding ≡ b = some_same (sym admitted.bound ∙ found) in
    let live : is_active b.status ≡ true =
      subst (λ x. is_active x.status ≡ true) same admitted.still_active in
    ground (arith, live, dead)
