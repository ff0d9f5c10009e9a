-- ===== src/Model/Worker.antt =====
-- src/shared/models/worker.ts and worker-pool.ts.
use newconduit.Base.{Bool, Comparable, List, Option, String, arith, false, true, ℕ, ◌↔◌, ◌≡◌}
use newconduit.Model.Agent.{Labels}

pub data WorkerCondition : Type 0 where
  ready busy draining disconnected : WorkerCondition

pub data WorkerLifecycleState : Type 0 where
  registered active closed expired : WorkerLifecycleState

abbrev condition_beq : WorkerCondition → WorkerCondition → Bool
condition_beq ready ready = true
condition_beq busy busy = true
condition_beq draining draining = true
condition_beq disconnected disconnected = true
condition_beq _ _ = false

pub condition_beq_iff : (a b : WorkerCondition) → (condition_beq a b ≡ true) ↔ (a ≡ b)
condition_beq_iff a b = ground arith

instance abbrev pub condition_eq : Comparable WorkerCondition
condition_eq = record { equal = condition_beq; equal_iff = condition_beq_iff }

abbrev lifecycle_beq : WorkerLifecycleState → WorkerLifecycleState → Bool
lifecycle_beq registered registered = true
lifecycle_beq active active = true
lifecycle_beq closed closed = true
lifecycle_beq expired expired = true
lifecycle_beq _ _ = false

pub lifecycle_beq_iff : (a b : WorkerLifecycleState) → (lifecycle_beq a b ≡ true) ↔ (a ≡ b)
lifecycle_beq_iff a b = ground arith

instance abbrev pub lifecycle_eq : Comparable WorkerLifecycleState
lifecycle_eq = record { equal = lifecycle_beq; equal_iff = lifecycle_beq_iff }

pub record WorkerRecord : Type 0 where
  pub worker_id : String
  pub tenant_id : String
  pub capacity_scope : String
  pub host_pool_instance_id : Option String
  pub labels : Labels
  pub storage_class : String
  pub reuse : Option Bool
  pub description : Option Labels
  pub capacity : ℕ
  pub allocatable : ℕ
  pub conditions : List WorkerCondition
  pub lifecycle_state : WorkerLifecycleState
  pub heartbeat_at : ℕ
  pub expires_at : ℕ
  pub registered_at : Option ℕ
  pub current_session_count : ℕ
  pub bound_session_id : Option String
  pub terminal_reason : Option String
  pub updated_at : ℕ

pub record WorkerRegisterPayload : Type 0 where
  pub host_pool_instance_id : Option String
  pub labels : Labels
  pub storage_class : String
  pub description : Option Labels
  pub capacity : ℕ
  pub allocatable : ℕ

pub record WorkerHeartbeatPayload : Type 0 where
  pub worker_id : String
  pub capacity : ℕ
  pub allocatable : ℕ
  pub conditions : List WorkerCondition
