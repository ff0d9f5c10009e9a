-- ===== src/Worker/Selector.antt =====
-- src/central/managers/worker/worker-selector.ts. The time is an argument, in milliseconds.
pub mod Fitness
pub mod Choice
use newconduit.Base.{
  Bool, List, Option, String, [], default, false, if◌then◌else◌, includes, keep, list_eq, ltb,
  nat_eq, none, not, option_eq, pair_eq, some, string_eq, true, truthy, ℕ, ◌&&◌, ◌==◌, ◌||◌, ◌∷◌,
}
use newconduit.Model.{
  Labels, SessionRecord, WorkerRecord, active, condition_eq, event_type_eq, lifecycle_eq,
  matches_labels, ready, status_eq,
}

-- `reuse !== false`.
abbrev pub reuses : Option Bool → Bool
reuses (some false) = false
reuses _ = true

-- `reuseAllows`: a worker without reuse serves the session that it is bound to.
pub reuse_allows : WorkerRecord → SessionRecord → Bool
reuse_allows x s =
    reuses x.reuse || (not (truthy x.bound_session_id) || x.bound_session_id == some s.session_id)

pub matches_required : Labels → Option Labels → Bool
unfolding matches_labels
matches_required labels none = true
matches_required labels (some required) = matches_labels labels required

pub is_eligible : ℕ → SessionRecord → WorkerRecord → Bool
unfolding reuse_allows matches_required
is_eligible time s x =
    (x.lifecycle_state == active)
    && (ltb time x.expires_at
        && (ltb 0 x.allocatable
            && (includes x.conditions ready
                && (matches_labels x.labels s.resolved_agent_spec.worker_selector.match_labels
                    && (matches_required x.labels s.required_worker_labels && reuse_allows x s)))))

-- `Date.parse(worker.registeredAt ?? worker.heartbeatAt)`.
pub freshness : WorkerRecord → ℕ
freshness x = default x.registered_at x.heartbeat_at

-- The order of texts by `localeCompare` is the host's.
module _ (before : String → String → Bool) where
  -- `compareByFreshness(right, left) < 0`: `left` is listed before `right`.
  pub fresher : WorkerRecord → WorkerRecord → Bool
  unfolding freshness
  fresher left right =
      if freshness left == freshness right
      then before right.worker_id left.worker_id
      else ltb (freshness right) (freshness left)

  -- The first element after a stable sort: the first that no other one precedes.
  pub freshest : WorkerRecord → List WorkerRecord → WorkerRecord
  unfolding fresher
  freshest best [] = best
  freshest best (x ∷ rest) = freshest (if fresher x best then x else best) rest

  abbrev is_pinned : Option Labels → Bool
  is_pinned none = false
  is_pinned (some []) = false
  is_pinned (some (l ∷ rest)) = true

  pub choose : Bool → List WorkerRecord → Option WorkerRecord
  unfolding freshest
  choose pinned [] = none
  choose pinned (x ∷ rest) = if pinned then some (freshest x rest) else some x

  unfoldable pub select : ℕ → SessionRecord → List WorkerRecord → Option WorkerRecord
  unfolding choose is_eligible
  select time s workers =
      choose (is_pinned s.required_worker_labels) (keep (is_eligible time s) workers)
