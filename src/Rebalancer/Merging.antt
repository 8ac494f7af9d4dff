-- ===== src/Rebalancer/Merging.antt =====
-- pkg/rebalancer/planner.go: the optimization of a plan, which merges batches.
pub mod Order
pub mod Shared
use vpsie_k8s_autoscaler.Prelude.{
  ℕ, suc, ◌+◌, ◌*◌, Bool, ◌||◌, List, [], ◌∷◌, ◌++◌, length, map, leb, ltb, if◌then◌else◌,
}
use vpsie_k8s_autoscaler.Prelude.Floats.{Floats}
use vpsie_k8s_autoscaler.Rebalancer.{Workload, CandidateNode, NodeBatch, RebalancePlan}
use vpsie_k8s_autoscaler.Rebalancer.Planner.{
  PlannerConfig, estimate_batch_duration, estimate_total_duration,
}

-- A merged batch; what it waits for is not set.
abbrev pub closed : PlannerConfig → ℕ → List CandidateNode → NodeBatch
closed c number nodes = record {
  batch_number = number;
  nodes = nodes;
  estimated_duration = estimate_batch_duration c nodes;
  depends_on = [];
}

-- The current batch is kept if it has a node.
abbrev pub push_current : PlannerConfig → ℕ → List CandidateNode → List NodeBatch → List NodeBatch
push_current c number [] bs = bs
push_current c number (n ∷ ns) bs = closed c number (n ∷ ns) ∷ bs

abbrev pub next_number : ℕ → List CandidateNode → ℕ
next_number number [] = number
next_number number (n ∷ ns) = suc number

-- The loop, from the number and the nodes of the current batch.
unfoldable pub merge_from :
    PlannerConfig → (limit number : ℕ) → List CandidateNode → List NodeBatch → List NodeBatch
unfolding estimate_batch_duration
merge_from c limit number current [] = push_current c number current []
merge_from c limit number current (b ∷ bs) =
    let started =
      push_current c number current (merge_from c limit (next_number number current) b.nodes bs) in
    let joined = merge_from c limit number (current ++ b.nodes) bs in
    if ltb limit (length current + length b.nodes) then started else joined

unfoldable pub merge_batches : PlannerConfig → List NodeBatch → (limit : ℕ) → List NodeBatch
unfolding merge_from
merge_batches c bs limit = merge_from c limit 0 [] bs

abbrev pub is_complex : Workload → Bool
is_complex w = w.has_pdb || w.has_local_storage || w.is_critical

unfoldable pub count_complex : List Workload → ℕ
count_complex [] = 0
count_complex (w ∷ ws) = let rest = count_complex ws in if is_complex w then suc rest else rest

unfoldable pub count_complex_on : List CandidateNode → ℕ
unfolding count_complex
count_complex_on [] = 0
count_complex_on (n ∷ ns) = count_complex n.workloads + count_complex_on ns

-- Thirty seconds for each complex workload.
unfoldable pub adjust_duration_for_workloads : NodeBatch → ℕ
unfolding count_complex_on
adjust_duration_for_workloads b = b.estimated_duration + count_complex_on b.nodes * 30000000000

abbrev pub adjusted : NodeBatch → NodeBatch
unfolding adjust_duration_for_workloads
adjusted b = record b { estimated_duration = adjust_duration_for_workloads b }

-- The optimized plan, and the plan that it was made from, whose batches it shares unless they were
-- merged: the loop writes the durations to them.
pub record Optimized : Type 0 where
  pub optimized : RebalancePlan
  pub original : RebalancePlan

module _ (F : Floats) where
  unfoldable pub optimize_plan : PlannerConfig → RebalancePlan → Optimized
  unfolding merge_batches adjusted estimate_total_duration
  optimize_plan c p =
      let merges = ltb 1 (length p.batches) in
      let batches =
        map adjusted (if merges then merge_batches c p.batches c.max_concurrent else p.batches) in
      record {
        optimized = record p {
          batches = batches;
          estimated_duration = estimate_total_duration F batches p.strategy;
        };
        original = if merges then p else record p { batches = batches };
      }
