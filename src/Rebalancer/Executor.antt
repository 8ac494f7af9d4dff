-- ===== src/Rebalancer/Executor.antt =====
-- pkg/rebalancer/executor.go: the batches under the strategies. Times and messages are left out.
pub mod Rolling
pub mod Surging
pub mod Results
use vpsie_k8s_autoscaler.Prelude.{
  ℕ, suc, ◌+◌, ◌*◌, String, ◌=ₛ◌, Bool, true, false, not, ◌&&◌, ◌||◌, Option, none, some, List, [],
  ◌∷◌, ◌++◌, length, any, is_some, leb, ltb, ◌==◌, if◌then◌else◌,
}
use vpsie_k8s_autoscaler.Rebalancer.Nodes.{
  Kube, Call, Done, drain_node, terminate_node, wait_for_node_ready, needs_no_change,
}
use vpsie_k8s_autoscaler.Rebalancer.{
  CandidateNode, RebalanceStrategy, rolling, surge, blue_green, unknown, NodeBatch, Action,
  pause_execution, uncordon_old_nodes, terminate_new_nodes, verify_workloads, update_status,
  RollbackPlan, RebalancePlan,
}

pub data Operation : Type 0 where
  provision node_ready drain terminate : Operation

-- What a batch has come to so far, with the names in `state` of the new nodes.
pub record Progress : Type 0 where
  pub calls : List Call
  pub provisioned : List String
  pub completed : List String
  pub failed : List (String × Operation)
  pub nodes_rebalanced : ℕ
  pub nodes_failed : ℕ

abbrev pub unstarted : List String → Progress
unstarted provisioned = record {
  calls = [];
  provisioned = provisioned;
  completed = [];
  failed = [];
  nodes_rebalanced = 0;
  nodes_failed = 0;
}

abbrev pub note_failure : String → Operation → List Call → Progress → Progress
note_failure name op calls s = record s {
  calls = s.calls ++ calls;
  failed = s.failed ++ (name, op) ∷ [];
  nodes_failed = suc s.nodes_failed;
}

abbrev pub note_completed : String → List Call → Progress → Progress
note_completed name calls s = record s {
  calls = s.calls ++ calls;
  completed = s.completed ++ name ∷ [];
  nodes_rebalanced = suc s.nodes_rebalanced;
}

-- `provisionNewNode` as it stands: it refuses every candidate.
unfoldable pub provision_new_node : RebalancePlan → CandidateNode → Option String
provision_new_node p n = none

-- The name of a new node, or `none` for an error: what is shown holds also for a provisioner that
-- does its work.
module _ (provisions : RebalancePlan → CandidateNode → Option String) (k : Kube) where
  -- The last steps for a candidate whose new node is ready.
  unfoldable pub retire : String → Progress → Progress
  unfolding terminate_node
  retire old s =
      let drained = drain_node k old in
      let gone = terminate_node k old in
      if drained.ok
      then (if gone.ok
          then note_completed old (drained.calls ++ gone.calls) s
          else note_failure old terminate (drained.calls ++ gone.calls) s)
      else note_failure old drain drained.calls s

  unfoldable pub replace_by : String → Option String → Progress → Progress
  unfolding retire terminate_node wait_for_node_ready
  replace_by old none s = note_failure old provision [] s
  replace_by old (some new) s =
      let started = record s { provisioned = s.provisioned ++ new ∷ [] } in
      if wait_for_node_ready (k.ready_polls new)
      then retire old started
      else note_failure old node_ready (terminate_node k new).calls started

  unfoldable pub replace_node : RebalancePlan → CandidateNode → Progress → Progress
  unfolding needs_no_change replace_by
  replace_node p n s =
      if needs_no_change k p n then s else replace_by n.node_name (provisions p n) s

  unfoldable pub execute_rolling_batch : RebalancePlan → List CandidateNode → Progress → Progress
  unfolding replace_node
  execute_rolling_batch p [] s = s
  execute_rolling_batch p (n ∷ ns) s = execute_rolling_batch p ns (replace_node p n s)

  unfoldable pub candidates_to_process : RebalancePlan → List CandidateNode → List CandidateNode
  unfolding needs_no_change
  candidates_to_process p [] = []
  candidates_to_process p (n ∷ ns) =
      let rest = candidates_to_process p ns in if needs_no_change k p n then rest else n ∷ rest

  abbrev pub note_provisioned : String → Option String → Progress → Progress
  note_provisioned old none s = note_failure old provision [] s
  note_provisioned old (some new) s = record s { provisioned = s.provisioned ++ new ∷ [] }

  -- The first phase, and the new nodes of this batch.
  unfoldable pub provision_all : RebalancePlan → List CandidateNode → Progress → Progress
  provision_all p [] s = s
  provision_all p (n ∷ ns) s = provision_all p ns (note_provisioned n.node_name (provisions p n) s)

  unfoldable pub new_nodes : RebalancePlan → List CandidateNode → List String
  new_nodes p [] = []
  new_nodes p (n ∷ ns) =
      let rest = new_nodes p ns in elim (provisions p n) [ none ↦ rest | some new ↦ new ∷ rest ]

  -- A new node that is not ready in time is counted, and nothing else.
  unfoldable pub await_all : List String → Progress → Progress
  unfolding wait_for_node_ready
  await_all [] s = s
  await_all (new ∷ more) s = await_all more (
      if wait_for_node_ready (k.ready_polls new)
      then s
      else record s { nodes_failed = suc s.nodes_failed })

  -- In the second phase a failure is counted without a record of the node.
  unfoldable pub retire_counted : String → Progress → Progress
  unfolding terminate_node
  retire_counted old s =
      let drained = drain_node k old in
      let gone = terminate_node k old in
      if drained.ok && gone.ok
      then note_completed old (drained.calls ++ gone.calls) s
      else record s {
        calls = s.calls ++ (if drained.ok then drained.calls ++ gone.calls else drained.calls);
        nodes_failed = suc s.nodes_failed;
      }

  unfoldable pub retire_all : List CandidateNode → Progress → Progress
  unfolding retire_counted
  retire_all [] s = s
  retire_all (n ∷ ns) s = retire_all ns (retire_counted n.node_name s)

  unfoldable pub execute_surge_batch : RebalancePlan → List CandidateNode → Progress → Progress
  unfolding candidates_to_process provision_all new_nodes await_all retire_all
  execute_surge_batch p ns s =
      let chosen = candidates_to_process p ns in
      retire_all chosen (await_all (new_nodes p chosen) (provision_all p chosen s))

  -- An unknown strategy is reported and then carried out as rolling.
  unfoldable pub execute_under :
      RebalanceStrategy → RebalancePlan → List CandidateNode → Progress → Progress
  unfolding execute_rolling_batch execute_surge_batch
  execute_under rolling p ns s = execute_rolling_batch p ns s
  execute_under surge p ns s = execute_surge_batch p ns s
  execute_under blue_green p ns s = execute_surge_batch p ns s
  execute_under (unknown other) p ns s = execute_rolling_batch p ns s

  -- `none` stands for an error, which no strategy returns.
  unfoldable pub execute_batch : RebalancePlan → NodeBatch → List String → Option Progress
  unfolding execute_under
  execute_batch p b provisioned = some (execute_under p.strategy p b.nodes (unstarted provisioned))
