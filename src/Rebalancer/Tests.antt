-- ===== src/Rebalancer/Tests.antt =====
-- The rebalancer run at concrete inputs, with fractions for floats and a provisioner of two kinds.
use vpsie_k8s_autoscaler.Prelude.{
  ℕ, ◌+◌, ◌≡◌, refl, pos, String, true, false, Option, none, some, List, [], ◌∷◌, length,
}
use vpsie_k8s_autoscaler.Prelude.Floats.{ratios}
use vpsie_k8s_autoscaler.Cluster.{Node, Pod, get, get_text}
use vpsie_k8s_autoscaler.Rebalancer.{CandidateNode, NodeBatch, RebalancePlan, rolling}
use vpsie_k8s_autoscaler.Rebalancer.Planner.{
  PlannerConfig, batch_nodes, create_rebalance_plan, create_rollback_plan, minute,
}
use vpsie_k8s_autoscaler.Rebalancer.Planner.Batches.{batch_nodes_endless}
use vpsie_k8s_autoscaler.Rebalancer.Merging.{merge_from, merge_batches, optimize_plan}
use vpsie_k8s_autoscaler.Rebalancer.Nodes.{
  Kube, cordon, evict, delete_node, terminate_node, wait_for_node_ready, needs_no_change,
  get_node_group_from_node, drain_node, drain_found, drain_pods, evictions, drains_in_time,
  remaining,
}
use vpsie_k8s_autoscaler.Rebalancer.Executor.{
  retire, replace_by, replace_node, execute_rolling_batch, execute_surge_batch, unstarted,
  provision_new_node,
}
use vpsie_k8s_autoscaler.Rebalancer.Executor.Surging.{Removable, execute_surge_batch_strands}
use vpsie_k8s_autoscaler.Rebalancer.Executor.Results.{changes_in, execute_rebalance_reports}
use vpsie_k8s_autoscaler.Rebalancer.Execution.{
  ExecutionState, in_progress, completed_status, execute_rebalance,
}

abbrev candidate : String → CandidateNode
candidate name = record {
  node_name = name;
  current_offering = "large";
  target_offering = "small";
  workloads = [];
}

abbrev three : List CandidateNode
three = candidate "a" ∷ candidate "b" ∷ candidate "c" ∷ []

abbrev two_each : PlannerConfig
two_each = record {
  batch_size = 2;
  max_concurrent = 3;
  drain_timeout = minute;
  provision_timeout = minute;
}

abbrev unset : PlannerConfig
unset = record two_each { batch_size = 0 }

unset_size_never_ends : batch_nodes unset 50 0 three ≡ none
unset_size_never_ends = batch_nodes_endless unset 50 (candidate "a") _ refl

abbrev planned : Option RebalancePlan
planned = create_rebalance_plan ratios two_each "workers" three

abbrev batch_of : ℕ → List ℕ → List CandidateNode → NodeBatch
batch_of number waits nodes = record {
  batch_number = number;
  nodes = nodes;
  estimated_duration = minute;
  depends_on = waits;
}

abbrev two_batches : List NodeBatch
two_batches =
    batch_of 0 [] (candidate "a" ∷ candidate "b" ∷ [])
    ∷ batch_of 1 (0 ∷ []) (candidate "c" ∷ [])
    ∷ []

abbrev plan : RebalancePlan
plan = record {
  node_group_name = "workers";
  batches = two_batches;
  total_nodes = 3;
  strategy = rolling;
  max_concurrent = 2;
  rollback_plan = some create_rollback_plan;
  estimated_duration = pos 0;
}

abbrev narrow : PlannerConfig
narrow = record two_each { max_concurrent = 2 }

two_after_merge : length (optimize_plan ratios narrow plan).optimized.batches ≡ 2
unfolding optimize_plan merge_batches merge_from
two_after_merge = refl

abbrev host : String → Node
host name = record {
  name = name;
  labels = none;
  annotations = none;
  unschedulable = false;
  taints = [];
  conditions = record { condition_type = "Ready"; status = "True" } ∷ [];
  addresses = [];
  capacity = record { cpu = pos 4000; memory = pos 8000 };
  allocatable = record { cpu = pos 4000; memory = pos 8000 };
}

abbrev pod : Pod
pod = record {
  name = "web";
  namespace = "default";
  labels = none;
  annotations = none;
  deletion_timestamp = none;
  phase = "Running";
  owner_kinds = "ReplicaSet" ∷ [];
  node_name = "a";
  volumes = [];
  requests = [];
  init_requests = [];
  affinity = none;
}

-- Every node is found, empties at the second poll, and a new node gets ready at once.
abbrev kube : Kube
kube = record {
  labelled = λ name. some (host name);
  found = λ name. some (host name);
  updates = λ name. true;
  pods_on = λ name. some (pod ∷ []);
  drain_polls = λ name. some (pod ∷ []) ∷ some [] ∷ [];
  ready_polls = λ name. some (host name) ∷ [];
  deletes = λ name. true;
  found_later = λ name. some (host name);
  updates_later = λ name. true;
  nodes = some (host "a" ∷ []);
}

abbrev provisions : RebalancePlan → CandidateNode → Option String
provisions p n = some "new"

rolling_calls :
    (execute_rolling_batch provisions kube plan (candidate "a" ∷ []) (unstarted [])).calls
    ≡ cordon "a" ∷ evict "default" "web" ∷ delete_node "a" ∷ []
unfolding execute_rolling_batch replace_node replace_by retire terminate_node wait_for_node_ready
    needs_no_change get_node_group_from_node get_text get drain_node drain_found drain_pods
    evictions drains_in_time remaining
rolling_calls = refl

a_Removable : Removable kube plan (candidate "a")
unfolding terminate_node needs_no_change get_node_group_from_node get_text get drain_node
    drain_found drain_pods evictions drains_in_time remaining
a_Removable = (refl, refl, refl)

execute_surge_batch_strands_example :
    ((execute_surge_batch provision_new_node kube plan (candidate "a" ∷ []) (unstarted [])).calls
      ≡ cordon "a" ∷ evict "default" "web" ∷ delete_node "a" ∷ [])
    × ((execute_surge_batch provision_new_node kube plan
          (candidate "a" ∷ [])
          (unstarted [])).provisioned
        ≡ [])
    × ((execute_surge_batch provision_new_node kube plan
          (candidate "a" ∷ [])
          (unstarted [])).completed
        ≡ "a" ∷ [])
unfolding drain_node drain_found drain_pods evictions provision_new_node get
execute_surge_batch_strands_example =
    execute_surge_batch_strands provision_new_node kube plan (candidate "a" ∷ []) [] (refl, tt)
      (a_Removable, tt)

execute_rebalance_reports_example :
    ((execute_rebalance provisions kube plan).status ≡ completed_status)
    × ((execute_rebalance provisions kube plan).errors ≡ 0)
    × ((execute_rebalance provisions kube plan).failed ≡ false)
    × (plan.strategy ≡ rolling
        → (execute_rebalance provisions kube plan).nodes_rebalanced
            + (execute_rebalance provisions kube plan).nodes_failed
          ≡ changes_in provisions kube plan two_batches)
execute_rebalance_reports_example = execute_rebalance_reports provisions kube plan

abbrev halfway : ExecutionState
halfway = record {
  status = in_progress;
  completed_nodes = "a" ∷ [];
  provisioned_nodes = "new-a" ∷ "new-b" ∷ [];
}
