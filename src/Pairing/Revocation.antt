-- ===== src/Pairing/Revocation.antt =====
-- src/central/managers/case/case-pairing-manager.ts: revoking one device, and all devices of a case.
use newconduit.Base.{
  Bool, List, String, false, keep, length, list_eq, nat_eq, option_eq, pair_eq, some, string_eq, ℕ,
  ◌&&◌, ◌+◌, ◌==◌,
}
use newconduit.Model.{
  CaseDeviceBindingRecord, condition_eq, event_type_eq, lifecycle_eq, revoked_binding, status_eq,
}
use newconduit.Pairing.Manager.{PairingOptions, is_active, require_non_empty}
use newconduit.Session.Lifecycle.{is_terminal}
use newconduit.Storage.Claims.{compare_and_set_case_device_binding}
use newconduit.Storage.Records.{read_case_device_binding, read_case_device_bindings, read_sessions}
use newconduit.World.{M, branch, collect, for_each, now, on_option, pure, ◌>>=◌, ◌>>◌}

unfoldable pub revoked : CaseDeviceBindingRecord → ℕ → CaseDeviceBindingRecord
revoked b t = record b {
  status = revoked_binding;
  revoked_at = some t;
  updated_at = t;
  revision = b.revision + 1;
}

unfoldable pub mark_binding_revoked : CaseDeviceBindingRecord → M Bool
unfolding revoked
mark_binding_revoked b = do t ← now; compare_and_set_case_device_binding b.revision (revoked b t)

abbrev pub is_revocable : PairingOptions → CaseDeviceBindingRecord → Bool
is_revocable o b = b.tenant_id == o.tenant_id && is_active b.status

unfoldable pub revoke_device : PairingOptions → String → String → M Bool
unfolding mark_binding_revoked
revoke_device o case_id ref = do
  require_non_empty case_id
  require_non_empty ref
  found ← read_case_device_binding case_id ref
  on_option found (pure false)
      (λ b. branch (is_revocable o b) (mark_binding_revoked b) (pure false))

abbrev trues : List Bool → ℕ
trues bs = length (keep (λ b. b) bs)

-- The number of bindings that were revoked.
revoke_case : PairingOptions → String → M ℕ
unfolding mark_binding_revoked
revoke_case o case_id = do
  require_non_empty case_id
  bindings ← read_case_device_bindings case_id
  done ← collect (keep (is_revocable o) bindings) mark_binding_revoked
  pure (trues done)

reconcile_terminal_cases : PairingOptions → M (Unit {0})
unfolding revoke_case
reconcile_terminal_cases o = do
  sessions ← read_sessions
  for_each (keep (λ s. s.tenant_id == o.tenant_id && is_terminal s.status) sessions)
      (λ s. revoke_case o s.session_id >>= λ _. pure tt)
