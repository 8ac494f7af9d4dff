-- ===== src/Scaler/Removal/OnlyNode.antt =====
-- The checks of rescheduling and capacity on a cluster of one node.
use vpsie_k8s_autoscaler.Prelude.{
  ◌≡◌, refl, ℤ, pos, ◌+ℤ◌, ◌-ℤ◌, ltbℤ, text_eq_iff, true, false, some, List, [], ◌∷◌, arith,
}
use vpsie_k8s_autoscaler.Prelude.Floats.{Floats}
use vpsie_k8s_autoscaler.Cluster.{Node, Pod}
use vpsie_k8s_autoscaler.Scaler.Safety.{
  Kube, add_resources, calculate_resource_requests, is_available, free_resources, count_ready,
}
use vpsie_k8s_autoscaler.Scaler.Removal.{
  remaining, with_buffer, can_pods_be_rescheduled, predict_utilization_after_removal,
  has_insufficient_capacity,
}

+ℤ-zero : (a : ℤ) → a +ℤ pos 0 ≡ a
unfolding ◌+ℤ◌
+ℤ-zero a = ground arith

module _ (F : Floats) where
  open F use {literal, lt}

  -- The one node is available, and these are its pods.
  pub record IsOnly (k : Kube) (n : Node) (ps : List Pod) : Type 0 where
    pub alone : k.nodes ≡ some (n ∷ [])
    pub available : is_available n ≡ true
    pub pods : k.pods_on n.name ≡ some ps

  -- The node has room for its own pods a second time, with the buffer.
  pub record HasRoom (n : Node) (ps : List Pod) : Type 0 where
    pub cpu_room :
        ltbℤ
          (n.allocatable.cpu -ℤ (calculate_resource_requests ps).cpu)
          (with_buffer F (calculate_resource_requests ps).cpu)
        ≡ false
    pub memory_room :
        ltbℤ
          (n.allocatable.memory -ℤ (calculate_resource_requests ps).memory)
          (with_buffer F (calculate_resource_requests ps).memory)
        ≡ false

  free_resources-only :
      (k : Kube) (n : Node) (ps : List Pod)
      → IsOnly k n ps
      → free_resources k (n ∷ []) ≡ record {
        cpu = n.allocatable.cpu -ℤ (calculate_resource_requests ps).cpu;
        memory = n.allocatable.memory -ℤ (calculate_resource_requests ps).memory;
      }
  unfolding free_resources add_resources
  free_resources-only k n ps o = rw (o.available) (
      rw (o.pods) (
        rw (+ℤ-zero (n.allocatable.cpu -ℤ (calculate_resource_requests ps).cpu))
          (rw (+ℤ-zero (n.allocatable.memory -ℤ (calculate_resource_requests ps).memory)) refl)))

  can_pods_be_rescheduled-only :
      (k : Kube) (n : Node) (ps : List Pod)
      → IsOnly k n ps
      → HasRoom n ps
      → can_pods_be_rescheduled F k ps ≡ some true
  unfolding can_pods_be_rescheduled count_ready
  can_pods_be_rescheduled-only k n ps o r = ground (arith, free_resources-only k n ps o)

  has_insufficient_capacity-only :
      (k : Kube) (n : Node) (ps : List Pod)
      → IsOnly k n ps
      → lt (literal 85 1) (literal 0 1) ≡ false
      → has_insufficient_capacity F k n ≡ some false
  unfolding has_insufficient_capacity predict_utilization_after_removal remaining
  has_insufficient_capacity-only k n ps o z = ground (arith, text_eq_iff n.name n.name)

  -- On a cluster of one node, the checks that the pods fit elsewhere pass as soon as the node to be
  -- removed has room for its own pods a second time: it counts as a place for them, and no capacity
  -- that is left counts as none used.
  pub only_node_passes :
      (k : Kube) (n : Node) (ps : List Pod)
      → IsOnly k n ps
      → HasRoom n ps
      → lt (literal 85 1) (literal 0 1) ≡ false
      → (can_pods_be_rescheduled F k ps ≡ some true)
        × (has_insufficient_capacity F k n ≡ some false)
  only_node_passes k n ps o r z =
      (can_pods_be_rescheduled-only k n ps o r, has_insufficient_capacity-only k n ps o z)
