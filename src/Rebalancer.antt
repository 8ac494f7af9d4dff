-- ===== src/Rebalancer.antt =====
-- pkg/rebalancer/types.go: the data that the analyzer, the planner and the executor hand on. Texts of
-- messages and times of record are left out; durations are nanoseconds.
pub mod Analyzer
pub mod Planner
pub mod Merging
pub mod Nodes
pub mod Executor
pub mod Execution
pub mod Rollback
mod Tests
use vpsie_k8s_autoscaler.Prelude.{ℕ, ℤ, String, Bool, Option, List}
use vpsie_k8s_autoscaler.Prelude.Floats.{Floats}

pub record Workload : Type 0 where
  pub name : String
  pub namespace : String
  pub has_pdb : Bool
  pub has_local_storage : Bool
  pub is_critical : Bool

pub record CandidateNode : Type 0 where
  pub node_name : String
  pub current_offering : String
  pub target_offering : String
  pub workloads : List Workload

pub data RebalanceStrategy : Type 0 where
  rolling surge blue_green : RebalanceStrategy
  -- Any other text.
  unknown : String → RebalanceStrategy

pub record NodeBatch : Type 0 where
  pub batch_number : ℕ
  pub nodes : List CandidateNode
  pub estimated_duration : ℕ
  pub depends_on : List ℕ

pub data Action : Type 0 where
  pause_execution uncordon_old_nodes terminate_new_nodes verify_workloads update_status : Action

pub record RollbackPlan : Type 0 where
  pub steps : List Action
  pub auto_rollback : Bool

pub record RebalancePlan : Type 0 where
  pub node_group_name : String
  pub batches : List NodeBatch
  pub total_nodes : ℕ
  pub strategy : RebalanceStrategy
  pub max_concurrent : ℕ
  pub rollback_plan : Option RollbackPlan
  pub estimated_duration : ℤ
