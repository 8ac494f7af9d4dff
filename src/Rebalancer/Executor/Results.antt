-- ===== src/Rebalancer/Executor/Results.antt =====
-- What the execution of a plan reports.
use vpsie_k8s_autoscaler.Prelude.{
  ℕ, suc, ◌+◌, ◌≡◌, refl, String, false, Option, List, [], ◌∷◌, ◌++◌, if◌then◌else◌, arith,
}
use vpsie_k8s_autoscaler.Rebalancer.{
  RebalanceStrategy, CandidateNode, NodeBatch, rolling, RebalancePlan,
}
use vpsie_k8s_autoscaler.Rebalancer.Nodes.{Kube, needs_no_change}
use vpsie_k8s_autoscaler.Rebalancer.Executor.{
  Progress, unstarted, retire, replace_by, replace_node, execute_rolling_batch, execute_under,
  execute_batch,
}
use vpsie_k8s_autoscaler.Rebalancer.Execution.{
  RebalanceResult, ExecutionState, completed_status, add_batch, execute_batches, execute_rebalance,
}

module _ (provisions : RebalancePlan → CandidateNode → Option String) (k : Kube) where
  -- How many candidates need a change.
  abbrev pub changes : RebalancePlan → List CandidateNode → ℕ
  changes p [] = 0
  changes p (n ∷ ns) = let rest = changes p ns in if needs_no_change k p n then rest else suc rest

  abbrev pub changes_in : RebalancePlan → List NodeBatch → ℕ
  changes_in p [] = 0
  changes_in p (b ∷ bs) = changes p b.nodes + changes_in p bs

  replace_node-counts :
      (p : RebalancePlan) (n : CandidateNode) (s : Progress)
      → (replace_node provisions k p n s).nodes_rebalanced
          + (replace_node provisions k p n s).nodes_failed
        ≡ s.nodes_rebalanced + s.nodes_failed + (if needs_no_change k p n then 0 else 1)
  unfolding replace_node replace_by retire
  replace_node-counts p n s = ground arith

  execute_rolling_batch-counts :
      (p : RebalancePlan) (ns : List CandidateNode) (s : Progress)
      → (execute_rolling_batch provisions k p ns s).nodes_rebalanced
          + (execute_rolling_batch provisions k p ns s).nodes_failed
        ≡ s.nodes_rebalanced + s.nodes_failed + changes p ns
  unfolding execute_rolling_batch
  execute_rolling_batch-counts p [] s = omega arith
  execute_rolling_batch-counts p (n ∷ ns) s = ground (
    arith,
    replace_node-counts p n s,
    execute_rolling_batch-counts p ns (replace_node provisions k p n s),
  )

  execute_under-counts :
      (st : RebalanceStrategy) (p : RebalancePlan) (ns : List CandidateNode) (names : List String)
      → st ≡ rolling
      → (execute_under provisions k st p ns (unstarted names)).nodes_rebalanced
          + (execute_under provisions k st p ns (unstarted names)).nodes_failed
        ≡ changes p ns
  unfolding execute_under
  execute_under-counts st p ns names h =
      rw h (omega (arith, execute_rolling_batch-counts p ns (unstarted names)))

  execute_batches-counts :
      (p : RebalancePlan) (bs : List NodeBatch) (s : ExecutionState) (r : RebalanceResult)
      → p.strategy ≡ rolling
      → (execute_batches provisions k p bs s r).nodes_rebalanced
          + (execute_batches provisions k p bs s r).nodes_failed
        ≡ r.nodes_rebalanced + r.nodes_failed + changes_in p bs
  unfolding execute_batches execute_batch
  execute_batches-counts p [] s r h = omega arith
  execute_batches-counts p (b ∷ bs) s r h =
      let done = execute_under provisions k p.strategy p b.nodes (unstarted s.provisioned_nodes) in
      omega (
        arith,
        execute_under-counts p.strategy p b.nodes s.provisioned_nodes h,
        execute_batches-counts p bs
            (record s {
              completed_nodes = s.completed_nodes ++ done.completed;
              provisioned_nodes = done.provisioned;
            })
            (add_batch done r) h,
      )

  execute_batches-completed :
      (p : RebalancePlan) (bs : List NodeBatch) (s : ExecutionState) (r : RebalanceResult)
      → ((execute_batches provisions k p bs s r).status ≡ completed_status)
        × ((execute_batches provisions k p bs s r).errors ≡ r.errors)
        × ((execute_batches provisions k p bs s r).failed ≡ r.failed)
  unfolding execute_batches execute_batch
  execute_batches-completed p [] s r = (refl, refl, refl)
  execute_batches-completed p (b ∷ bs) s r = execute_batches-completed p bs _ _

  -- The execution of a plan always reports that it was completed, with no error, so that the rollback
  -- never runs; under the rolling strategy each candidate that needs a change is counted once, as
  -- rebalanced or as failed, though all of them may be failed.
  pub execute_rebalance_reports :
      (p : RebalancePlan)
      → ((execute_rebalance provisions k p).status ≡ completed_status)
        × ((execute_rebalance provisions k p).errors ≡ 0)
        × ((execute_rebalance provisions k p).failed ≡ false)
        × (p.strategy ≡ rolling
            → (execute_rebalance provisions k p).nodes_rebalanced
                + (execute_rebalance provisions k p).nodes_failed
              ≡ changes_in p p.batches)
  unfolding execute_rebalance
  execute_rebalance_reports p =
      let (status, errors, failed) = execute_batches-completed p p.batches _ _ in
      (status, errors, failed, λ h. omega (arith, execute_batches-counts p p.batches _ _ h))
