-- ===== src/Rebalancer/Execution.antt =====
-- pkg/rebalancer/executor.go: the execution of a plan and its rollback.
use vpsie_k8s_autoscaler.Prelude.{
  ℕ, ◌+◌, String, ◌=ₛ◌, Bool, true, false, ◌&&◌, Option, none, some, List, [], ◌∷◌, ◌++◌, any,
  if◌then◌else◌,
}
use vpsie_k8s_autoscaler.Rebalancer.{
  CandidateNode, NodeBatch, Action, pause_execution, uncordon_old_nodes, terminate_new_nodes,
  verify_workloads, update_status, RollbackPlan, RebalancePlan,
}
use vpsie_k8s_autoscaler.Rebalancer.Nodes.{
  Kube, Call, terminate_node, uncordon_node, verify_cluster_health,
}
use vpsie_k8s_autoscaler.Rebalancer.Executor.{Progress, execute_batch}

pub data ExecutionStatus : Type 0 where
  in_progress paused completed_status failed_status rolling_back : ExecutionStatus

-- The nodes of the plan and the new ones, as the execution has recorded them.
pub record ExecutionState : Type 0 where
  pub status : ExecutionStatus
  pub completed_nodes : List String
  pub provisioned_nodes : List String

-- The calls of a rollback, and whether every step did what it is for.
pub record RolledBack : Type 0 where
  pub status : ExecutionStatus
  pub calls : List Call
  pub ok : Bool

abbrev pub is_named : List String → String → Bool
is_named names name = any (λ n. n =ₛ name) names

unfoldable pub uncordon_nodes : Kube → List String → List CandidateNode → RolledBack → RolledBack
unfolding uncordon_node
uncordon_nodes k completed [] r = r
uncordon_nodes k completed (n ∷ ns) r =
    let done = uncordon_node k n.node_name in
    uncordon_nodes k completed ns (
      if is_named completed n.node_name
      then r
      else record r { calls = r.calls ++ done.calls; ok = r.ok && done.ok })

unfoldable pub uncordon_batches : Kube → List String → List NodeBatch → RolledBack → RolledBack
unfolding uncordon_nodes
uncordon_batches k completed [] r = r
uncordon_batches k completed (b ∷ bs) r =
    uncordon_batches k completed bs (uncordon_nodes k completed b.nodes r)

unfoldable pub terminate_nodes : Kube → List String → List String → RolledBack → RolledBack
unfolding terminate_node
terminate_nodes k completed [] r = r
terminate_nodes k completed (name ∷ names) r =
    let done = terminate_node k name in
    terminate_nodes k completed names (
      if is_named completed name
      then r
      else record r { calls = r.calls ++ done.calls; ok = r.ok && done.ok })

unfoldable pub roll_back_step :
    Kube → RebalancePlan → ExecutionState → Action → RolledBack → RolledBack
unfolding uncordon_batches terminate_nodes verify_cluster_health
roll_back_step k p s pause_execution r = record r { status = paused }
roll_back_step k p s uncordon_old_nodes r = uncordon_batches k s.completed_nodes p.batches r
roll_back_step k p s terminate_new_nodes r =
    terminate_nodes k s.completed_nodes s.provisioned_nodes r
roll_back_step k p s verify_workloads r = record r { ok = r.ok && verify_cluster_health k.nodes }
roll_back_step k p s update_status r = record r { status = failed_status }

unfoldable pub roll_back_steps :
    Kube → RebalancePlan → ExecutionState → List Action → RolledBack → RolledBack
unfolding roll_back_step
roll_back_steps k p s [] r = r
roll_back_steps k p s (a ∷ actions) r = roll_back_steps k p s actions (roll_back_step k p s a r)

unfoldable pub roll_back_by :
    Kube → RebalancePlan → ExecutionState → Option RollbackPlan → RolledBack
unfolding roll_back_steps
roll_back_by k p s none = record { status = rolling_back; calls = []; ok = false }
roll_back_by k p s (some plan) =
    roll_back_steps k p s plan.steps record { status = rolling_back; calls = []; ok = true }

-- `Rollback`; without a plan for it, it only returns an error.
unfoldable pub roll_back : Kube → RebalancePlan → ExecutionState → RolledBack
unfolding roll_back_by
roll_back k p s = roll_back_by k p s p.rollback_plan

-- The result of the execution of a plan; `errors` counts those of the batch and of the rollback.
pub record RebalanceResult : Type 0 where
  pub status : ExecutionStatus
  pub calls : List Call
  pub nodes_rebalanced : ℕ
  pub nodes_failed : ℕ
  pub errors : ℕ
  pub failed : Bool

abbrev pub add_batch : Progress → RebalanceResult → RebalanceResult
add_batch b r = record r {
  calls = r.calls ++ b.calls;
  nodes_rebalanced = r.nodes_rebalanced + b.nodes_rebalanced;
  nodes_failed = r.nodes_failed + b.nodes_failed;
}

abbrev pub rolls_back : RebalancePlan → Bool
rolls_back p = elim p.rollback_plan [ none ↦ false | some plan ↦ plan.auto_rollback ]

-- A batch that returned an error ends the execution, after a rollback if the plan has one.
unfoldable pub abort : Kube → RebalancePlan → ExecutionState → RebalanceResult → RebalanceResult
unfolding roll_back
abort k p s r =
    let back = roll_back k p s in
    if rolls_back p
    then record r {
      status = failed_status;
      calls = r.calls ++ back.calls;
      errors = (if back.ok then 1 else 2);
      failed = true;
    }
    else record r { status = failed_status; errors = 1; failed = true }

module _ (provisions : RebalancePlan → CandidateNode → Option String) (k : Kube) where
  unfoldable pub execute_batches :
      RebalancePlan → List NodeBatch → ExecutionState → RebalanceResult → RebalanceResult
  unfolding execute_batch abort
  execute_batches p [] s r = record r { status = completed_status }
  execute_batches p (b ∷ bs) s r = elim (execute_batch provisions k p b s.provisioned_nodes) [
    | none ↦ abort k p s r
    | some done ↦
        execute_batches p bs
          (record s {
            completed_nodes = s.completed_nodes ++ done.completed;
            provisioned_nodes = done.provisioned;
          })
          (add_batch done r)
  ]

  unfoldable pub execute_rebalance : RebalancePlan → RebalanceResult
  unfolding execute_batches
  execute_rebalance p =
      execute_batches p p.batches
        record { status = in_progress; completed_nodes = []; provisioned_nodes = [] }
        record {
          status = in_progress;
          calls = [];
          nodes_rebalanced = 0;
          nodes_failed = 0;
          errors = 0;
          failed = false;
        }
