-- ===== src/Groups/ScaleUp/Sequential.antt =====
-- When a pass over a group creates an object, and that it does so again at once.
use vpsie_k8s_autoscaler.Prelude.{
  pos_part, ◌≤◌, ◌<◌, ◌≡◌, ◌↔◌, refl, true, false, ◌&&◌, none, some, List, [], ◌∷◌, All, length,
  arith,
}
use vpsie_k8s_autoscaler.Lifecycle.Types.{VpsieNode}
use vpsie_k8s_autoscaler.Groups.{
  Size, calculate_desired_nodes, needs_scale_up, calculate_nodes_to_add, calculate_nodes_to_remove,
  select_nodes_to_delete,
}
use vpsie_k8s_autoscaler.Groups.ScaleUp.{
  Group, is_in_transition, is_failed, count_nodes_in_transition, has_capacity_reason,
  count_capacity_limit_failures, build_vpsie_node, Answers, create_node, reconcile_scale_up,
  delete_selected, reconcile_simple_scale_down, update_node_group_status, with_counts,
  reconcile_counted, reconcile_group,
}

-- No object is on its way to be ready.
abbrev pub Settled : List VpsieNode → Type 0
Settled vns = All (λ vn. is_in_transition vn.status.phase ≡ false) vns

-- No object has failed for the capacity limit.
abbrev pub Unlimited : List VpsieNode → Type 0
Unlimited vns = All (λ vn. (is_failed vn.status.phase && has_capacity_reason vn) ≡ false) vns

count_nodes_in_transition-Settled :
    (vns : List VpsieNode) → (count_nodes_in_transition vns ≡ 0) ↔ Settled vns
unfolding count_nodes_in_transition
count_nodes_in_transition-Settled [] = (λ h. tt, λ h. refl)
count_nodes_in_transition-Settled (vn ∷ vns) = ground (arith, count_nodes_in_transition-Settled vns)

count_capacity_limit_failures-Unlimited :
    (vns : List VpsieNode) → (count_capacity_limit_failures vns ≡ 0) ↔ Unlimited vns
unfolding count_capacity_limit_failures
count_capacity_limit_failures-Unlimited [] = (λ h. tt, λ h. refl)
count_capacity_limit_failures-Unlimited (vn ∷ vns) =
    ground (arith, count_capacity_limit_failures-Unlimited vns)

pub calculate_desired_nodes-le : (s : Size) → calculate_desired_nodes s ≤ s.max_nodes
unfolding calculate_desired_nodes
calculate_desired_nodes-le s = ground arith

delete_selected-created :
    (env : Answers) (vns : List VpsieNode) → (delete_selected env vns).created ≡ none
unfolding delete_selected
delete_selected-created env [] = refl
delete_selected-created env (vn ∷ vns) = ground (arith, delete_selected-created env vns)

create_node-created :
    (env : Answers) (g : Group) (vn : VpsieNode)
    → ((create_node env g).created ≡ some vn)
      ↔ ((env.owns ≡ true) × (env.creates ≡ true) × (build_vpsie_node g env.name ≡ vn))
unfolding create_node
create_node-created env g vn = ground arith

reconcile_scale_up-created :
    (env : Answers) (g : Group) (vns : List VpsieNode) (vn : VpsieNode)
    → needs_scale_up g.size ≡ true
    → ((reconcile_scale_up env g vns).created ≡ some vn)
      ↔ (Unlimited vns × Settled vns × ((create_node env g).created ≡ some vn))
unfolding reconcile_scale_up calculate_nodes_to_add needs_scale_up
reconcile_scale_up-created env g vns vn h =
    ground
      (arith, count_capacity_limit_failures-Unlimited vns, count_nodes_in_transition-Settled vns)

reconcile_simple_scale_down-created :
    (env : Answers) (g : Group) (vns : List VpsieNode)
    → (reconcile_simple_scale_down env g vns).created ≡ none
unfolding reconcile_simple_scale_down
reconcile_simple_scale_down-created env g vns = ground (
  arith,
  delete_selected-created env
      (select_nodes_to_delete vns (pos_part (calculate_nodes_to_remove g.size))),
)

reconcile_counted-created :
    (env : Answers) (g : Group) (vns : List VpsieNode) (vn : VpsieNode)
    → ((reconcile_counted env g vns).created ≡ some vn)
      ↔ ((needs_scale_up g.size ≡ true) × ((reconcile_scale_up env g vns).created ≡ some vn))
unfolding reconcile_counted
reconcile_counted-created env g vns vn =
    ground (arith, reconcile_simple_scale_down-created env g vns)

pub needs_scale_up-with_counts :
    (g : Group) (vns : List VpsieNode)
    → (needs_scale_up (with_counts g vns).size ≡ true)
      ↔ (length vns < (with_counts g vns).size.desired)
unfolding with_counts needs_scale_up
needs_scale_up-with_counts g vns =
    ground (arith, calculate_desired_nodes-le (update_node_group_status g.size vns))

pub reconcile_group-created :
    (env : Answers) (g : Group) (vns : List VpsieNode) (vn : VpsieNode)
    → ((reconcile_group env g vns).1.created ≡ some vn) ↔ (
        (length vns < (with_counts g vns).size.desired)
        × Unlimited vns
        × Settled vns
        × (env.owns ≡ true)
        × (env.creates ≡ true)
        × (build_vpsie_node g env.name ≡ vn))
unfolding reconcile_group with_counts build_vpsie_node
reconcile_group-created env g vns vn =
    let counted = with_counts g vns in
    ground (
      arith,
      needs_scale_up-with_counts g vns,
      reconcile_counted-created env counted vns vn,
      reconcile_scale_up-created env counted vns vn,
      create_node-created env counted vn,
    )
