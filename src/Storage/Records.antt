-- ===== src/Storage/Records.antt =====
-- src/central/storage/local-file-storage.ts. The reads and the plain writes.
use newconduit.Base.{
  Bool, List, Option, String, Table, [], any, default, false, get, if◌then◌else◌, keep, list_eq,
  ltb, nat_eq, option_eq, pair_eq, put, string_eq, true, truthy, values, ℕ, ◌++◌, ◌==◌, ◌∷◌,
}
use newconduit.Model.{
  CaseDeviceBindingRecord, DelegationRecord, FanoutGroupRecord, InteractionRecord,
  PairingInviteRecord, RuntimeEvent, SessionRecord, WorkerRecord, WorkspaceSnapshot, condition_eq,
  event_type_eq, lifecycle_eq, status_eq,
}
use newconduit.World.{M, err, event_owner_required, gets, modify, ok, on_option, pure, ◌>>=◌}

unfoldable pub write_session : SessionRecord → M (Unit {0})
write_session s = modify λ st. record st { sessions = put s.session_id s st.sessions }

unfoldable pub read_session : String → M (Option SessionRecord)
read_session id = gets λ w. get id w.store.sessions

unfoldable pub read_sessions : M (List SessionRecord)
read_sessions = gets λ w. values w.store.sessions

-- `writeFile` with flag `wx` fails on an existing file, which is then read.
unfoldable pub create_session : SessionRecord → M (SessionRecord × Bool)
unfolding write_session read_session
create_session s = do
  existing ← read_session s.session_id
  on_option existing (write_session s >>= λ _. pure (s, true)) (λ old. pure (old, false))

-- `appendFile` on a log that may not be there yet.
unfoldable pub append_line :
    String → RuntimeEvent → Table String (List RuntimeEvent) → Table String (List RuntimeEvent)
append_line id event logs = put id (default (get id logs) [] ++ event ∷ []) logs

unfoldable pub append_event : RuntimeEvent → M RuntimeEvent
unfolding append_line
append_event event w =
    if truthy event.session_id
    then (
      ok event,
      record w {
        store = record w.store {
          session_logs = append_line (default event.session_id "") event w.store.session_logs;
        };
      },
    )
    else if truthy event.worker_id
    then (
      ok event,
      record w {
        store = record w.store {
          worker_logs = append_line (default event.worker_id "") event w.store.worker_logs;
        };
      },
    )
    else (err event_owner_required, w)

unfoldable pub read_events : String → ℕ → M (List RuntimeEvent)
read_events id after =
    gets λ w. keep (λ e. ltb after e.sequence) (default (get id w.store.session_logs) [])

unfoldable pub write_worker : WorkerRecord → M (Unit {0})
write_worker x = modify λ st. record st { workers = put x.worker_id x st.workers }

unfoldable pub read_worker : String → M (Option WorkerRecord)
read_worker id = gets λ w. get id w.store.workers

unfoldable pub read_workers : M (List WorkerRecord)
read_workers = gets λ w. values w.store.workers

unfoldable pub write_snapshot : WorkspaceSnapshot → M (Unit {0})
write_snapshot s =
    modify λ st. record st { snapshots = put (s.session_id, s.snapshot_id) s st.snapshots }

unfoldable pub read_snapshot : String → String → M (Option WorkspaceSnapshot)
read_snapshot session id = gets λ w. get (session, id) w.store.snapshots

unfoldable pub read_delegation : String → M (Option DelegationRecord)
read_delegation id = gets λ w. get id w.store.delegations

unfoldable pub read_delegations : M (List DelegationRecord)
read_delegations = gets λ w. values w.store.delegations

unfoldable pub read_interaction : String → M (Option InteractionRecord)
read_interaction id = gets λ w. get id w.store.interactions

unfoldable pub read_interactions : M (List InteractionRecord)
read_interactions = gets λ w. values w.store.interactions

unfoldable pub read_interactions_by_session : String → M (List InteractionRecord)
read_interactions_by_session id =
    gets λ w. keep (λ x. any (λ v. v.session_id == id) x.views) (values w.store.interactions)

unfoldable pub read_pairing_invite : String → M (Option PairingInviteRecord)
read_pairing_invite id = gets λ w. get id w.store.invites

unfoldable pub read_case_device_binding : String → String → M (Option CaseDeviceBindingRecord)
read_case_device_binding case ref = gets λ w. get (case, ref) w.store.bindings

-- The files of one case's directory.
abbrev pub of_case :
    String → Table (String × String) CaseDeviceBindingRecord → List CaseDeviceBindingRecord
of_case case [] = []
of_case case ((k, b) ∷ t) = let rest = of_case case t in if k.0 == case then b ∷ rest else rest

unfoldable pub read_case_device_bindings : String → M (List CaseDeviceBindingRecord)
read_case_device_bindings case = gets λ w. of_case case w.store.bindings

unfoldable pub read_fanout_group : String → M (Option FanoutGroupRecord)
read_fanout_group id = gets λ w. get id w.store.groups

unfoldable pub read_fanout_groups : M (List FanoutGroupRecord)
read_fanout_groups = gets λ w. values w.store.groups
