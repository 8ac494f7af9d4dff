-- ===== src/Rebalancer/Merging/Shared.antt =====
-- What the optimization of a plan of one batch does to the plan that it was given.
use vpsie_k8s_autoscaler.Prelude.{◌+◌, ◌*◌, ◌≡◌, refl, [], ◌∷◌}
use vpsie_k8s_autoscaler.Prelude.Floats.{Floats}
use vpsie_k8s_autoscaler.Rebalancer.{NodeBatch, RebalancePlan}
use vpsie_k8s_autoscaler.Rebalancer.Planner.{PlannerConfig}
use vpsie_k8s_autoscaler.Rebalancer.Merging.{
  count_complex_on, adjust_duration_for_workloads, optimize_plan,
}

-- The optimization of a plan of one batch writes the longer duration to the plan that it was given:
-- thirty seconds more for each complex workload.
pub optimize_plan_shares :
    (F : Floats) (c : PlannerConfig) (p : RebalancePlan) (b : NodeBatch)
    → p.batches ≡ b ∷ []
    → (optimize_plan F c p).original.batches
      ≡ record b {
        estimated_duration = b.estimated_duration + count_complex_on b.nodes * 30000000000;
      }
        ∷ []
unfolding optimize_plan adjust_duration_for_workloads
optimize_plan_shares F c p b h = rw h refl
