-- ===== src/Events/Estimate.antt =====
-- The estimate of the nodes that a deficit needs, against what nodes hold.
use native.Mathlib.Nat.{div-lt_iff_lt-mul}
use vpsie_k8s_autoscaler.Prelude.{ℕ, suc, ◌+◌, ◌-◌, ◌*◌, ◌≤◌, ◌<◌, ◌↔◌, arith}
use vpsie_k8s_autoscaler.Events.{ResourceDeficit, InstanceTypeInfo, ceiling, estimate_nodes_needed}

ceiling_le_iff : (x d k : ℕ) → 0 < d → (ceiling x d ≤ k) ↔ (x ≤ k * d)
ceiling_le_iff x d k h =
    let fact = div-lt_iff_lt-mul {k = d} {x = x + d - 1} {y = suc k} h in
    (λ e. omega (arith, fact.0 (omega arith)), λ e. omega (arith, fact.1 (omega arith)))

-- For pods that do lack something, the estimate is the least number of nodes, at least one, that hold
-- the CPU, the memory and the pods together, with 110 pods to a node.
pub estimate_nodes_needed_le_iff :
    (d : ResourceDeficit) (t : InstanceTypeInfo) (k : ℕ)
    → 0 < d.pods
    → 0 < t.cpu
    → 0 < t.memory_mb
    → (estimate_nodes_needed d t ≤ k) ↔ (
        (1 ≤ k)
        × (d.cpu ≤ k * (t.cpu * 1000))
        × (d.memory ≤ k * (t.memory_mb * 1024 * 1024))
        × (d.pods ≤ k * 110))
unfolding estimate_nodes_needed
estimate_nodes_needed_le_iff d t k pods cpu memory = ground (
  arith,
  ceiling_le_iff d.cpu (t.cpu * 1000) k (omega arith),
  ceiling_le_iff d.memory (t.memory_mb * 1024 * 1024) k (omega arith),
  ceiling_le_iff d.pods 110 k (omega arith),
)
