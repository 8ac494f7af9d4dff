-- ===== src/Groups/Counts.antt =====
-- What the counts of a group come to, and which of its nodes are given up first.
use vpsie_k8s_autoscaler.Prelude.{
  ℕ, ◌+◌, ◌-◌, ◌≤◌, ◌<◌, ◌≡◌, refl, pos, true, false, List, [], ◌∷◌, length, take, length-append,
  length-take, append_empty, leb, if◌then◌else◌, arith,
}
use vpsie_k8s_autoscaler.Lifecycle.Types.{VpsieNode}
use vpsie_k8s_autoscaler.Groups.{
  Size, calculate_desired_nodes, needs_scale_up, needs_scale_down, calculate_nodes_to_add,
  calculate_nodes_to_remove, only, select_nodes_to_delete,
}

-- The desired count lies between the bounds where they are in order, and once it was calculated, a
-- group that needs to grow or shrink grows or shrinks exactly to it.
pub calculate_desired_nodes-reached :
    (s : Size)
    → s.min_nodes ≤ s.max_nodes
    → (s.min_nodes ≤ calculate_desired_nodes s)
      × (calculate_desired_nodes s ≤ s.max_nodes)
      × (s.desired ≡ calculate_desired_nodes s
          → needs_scale_up s ≡ true
          → calculate_nodes_to_add s ≡ pos (s.desired - s.current))
      × (s.desired ≡ calculate_desired_nodes s
          → needs_scale_down s ≡ true
          → calculate_nodes_to_remove s ≡ pos (s.current - s.desired))
unfolding calculate_desired_nodes needs_scale_up needs_scale_down calculate_nodes_to_add
    calculate_nodes_to_remove
calculate_desired_nodes-reached s h = ground arith

length-only : (vns : List VpsieNode) → length (only false vns) + length (only true vns) ≡ length vns
unfolding only
length-only [] = refl
length-only (vn ∷ vns) = ground (arith, length-only vns)

-- As many nodes are given up as asked for, or all if there are fewer; and one that is ready only
-- after all those that are not.
pub select_nodes_to_delete-count :
    (vns : List VpsieNode) (count : ℕ)
    → (length (select_nodes_to_delete vns count)
        ≡ (if leb (length vns) count then length vns else count))
      × (count ≤ length (only false vns)
          → count < length vns
          → select_nodes_to_delete vns count ≡ take count (only false vns))
unfolding select_nodes_to_delete
select_nodes_to_delete-count vns count = (
  ground (
    arith,
    length-only vns,
    length-take count (only false vns),
    length-append (take count (only false vns))
        (take (count - length (take count (only false vns))) (only true vns)),
    length-take (count - length (take count (only false vns))) (only true vns),
  ),
  λ enough fewer.
      ground
        (arith, length-take count (only false vns), append_empty (take count (only false vns))),
)
