-- ===== src/Pairing/Roster.antt =====
-- src/central/managers/case/case-pairing-manager.ts: the devices of a case, with their workers' state.
use mathlib.Core.Option
use newconduit.Base.{
  Bool, List, Option, String, [], any, false, get, if◌then◌else◌, keep, list_eq, ltb, map, nat_eq,
  none, not, option_eq, pair_eq, some, string_eq, ℕ, ◌&&◌, ◌==◌, ◌||◌, ◌∷◌,
}
use newconduit.Model.{
  CaseDeviceBindingRecord, CaseDeviceView, WorkerRecord, active, closed, condition_eq,
  event_type_eq, expired, lifecycle_eq, ready, status_eq,
}
use newconduit.Pairing.Manager.{PairingOptions, require_non_empty}
use newconduit.Pairing.Revocation.{is_revocable}
use newconduit.Storage.Records.{read_case_device_bindings, read_workers}
use newconduit.Worker.Selector.{freshness}
use newconduit.World.{M, now, pure, ◌>>=◌, ◌>>◌}

unfoldable pub serves : CaseDeviceBindingRecord → WorkerRecord → Bool
serves b x =
    not (x.lifecycle_state == closed)
    && (not (x.lifecycle_state == expired)
        && (get "case" x.labels == some b.case_id && get "deviceRef" x.labels == some b.device_ref))

-- The first element after the stable sort by descending registration.
unfoldable pub newest : WorkerRecord → List WorkerRecord → WorkerRecord
newest best [] = best
newest best (x ∷ rest) = newest (if ltb (freshness best) (freshness x) then x else best) rest

unfoldable pub newest_of : List WorkerRecord → Option WorkerRecord
unfolding newest
newest_of [] = none
newest_of (x ∷ rest) = some (newest x rest)

unfoldable pub newest_live_worker :
    CaseDeviceBindingRecord → List WorkerRecord → Option WorkerRecord
unfolding newest_of serves
newest_live_worker b workers = newest_of (keep (serves b) workers)

abbrev is_online_at : ℕ → Option WorkerRecord → Bool
is_online_at t none = false
is_online_at t (some x) = x.lifecycle_state == active && ltb t x.expires_at

abbrev can_take : Option WorkerRecord → Bool
can_take none = false
can_take (some x) = any (λ c. c == ready) x.conditions && ltb 0 x.allocatable

unfoldable pub case_device_view : List WorkerRecord → ℕ → CaseDeviceBindingRecord → CaseDeviceView
unfolding newest_live_worker
case_device_view workers t b =
    let worker = newest_live_worker b workers in
    let online = is_online_at t worker in
    let free = online && can_take worker in
    record {
      device_ref = b.device_ref;
      device_label = b.device_label;
      is_online = online;
      is_ready = free;
      is_busy = online && not free;
      worker_id = Option.map (λ x. x.worker_id) worker;
      last_heartbeat_at = Option.map (λ x. x.heartbeat_at) worker;
      last_redeemed_at = b.last_redeemed_at;
    }

-- The order of texts by `localeCompare` is the host's: `before x y` where it is negative.
module _ (before : String → String → Bool) where
  pub listed_before : CaseDeviceView → CaseDeviceView → Bool
  listed_before x y =
      before x.device_label y.device_label
      || (not (before y.device_label x.device_label) && before x.device_ref y.device_ref)

  unfoldable pub enlist : CaseDeviceView → List CaseDeviceView → List CaseDeviceView
  unfolding listed_before
  enlist x [] = x ∷ []
  enlist x (y ∷ ys) = let rest = enlist x ys in if listed_before y x then y ∷ rest else x ∷ y ∷ ys

  -- A stable sort.
  unfoldable pub sorted : List CaseDeviceView → List CaseDeviceView
  unfolding enlist
  sorted [] = []
  sorted (x ∷ xs) = enlist x (sorted xs)

  -- The bindings that were found, joined with the workers of the tenant.
  unfoldable pub list_bindings :
      PairingOptions → List CaseDeviceBindingRecord → M (List CaseDeviceView)
  unfolding sorted case_device_view
  list_bindings o [] = pure []
  list_bindings o (b ∷ bs) = do
    t ← now
    workers ← read_workers
    let own = keep (λ x. x.tenant_id == o.tenant_id) workers
    pure (sorted (map (case_device_view own t) (b ∷ bs)))

  unfoldable pub list_case_devices : PairingOptions → String → M (List CaseDeviceView)
  unfolding list_bindings
  list_case_devices o case_id = do
    require_non_empty case_id
    all ← read_case_device_bindings case_id
    list_bindings o (keep (is_revocable o) all)
