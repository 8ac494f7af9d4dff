-- ===== src/Groups/ScaleUp/Deletions.antt =====
-- Which objects a pass over a group deletes, and how many.
use vpsie_k8s_autoscaler.Prelude.{◌<◌, ◌≡◌, refl, true, ◌&&◌, List, [], ◌∷◌, All, length, arith}
use vpsie_k8s_autoscaler.Lifecycle.Types.{VpsieNode}
use vpsie_k8s_autoscaler.Groups.{needs_scale_up, calculate_nodes_to_add}
use vpsie_k8s_autoscaler.Groups.ScaleUp.Sequential.{needs_scale_up-with_counts}
use vpsie_k8s_autoscaler.Groups.ScaleUp.{
  Group, is_failed, has_capacity_reason, count_capacity_limit_failures, get_failed_vpsie_nodes,
  clean_up, Answers, create_node, reconcile_scale_up, with_counts, reconcile_counted,
  reconcile_group,
}

-- The failures that the clean-up meets.
abbrev pub CapacityFailed : VpsieNode → Type 0
CapacityFailed vn = (is_failed vn.status.phase && has_capacity_reason vn) ≡ true

clean_up-count :
    (vns : List VpsieNode)
    → (length (clean_up (get_failed_vpsie_nodes vns)) ≡ count_capacity_limit_failures vns)
      × All CapacityFailed (clean_up (get_failed_vpsie_nodes vns))
unfolding clean_up get_failed_vpsie_nodes count_capacity_limit_failures
clean_up-count [] = (refl, tt)
clean_up-count (vn ∷ vns) = ground (arith, clean_up-count vns)

create_node-deleted : (env : Answers) (g : Group) → (create_node env g).deleted ≡ []
unfolding create_node
create_node-deleted env g = ground arith

clean_up-empty :
    (vns : List VpsieNode)
    → count_capacity_limit_failures vns ≡ 0
    → clean_up (get_failed_vpsie_nodes vns) ≡ []
unfolding clean_up get_failed_vpsie_nodes count_capacity_limit_failures
clean_up-empty [] h = refl
clean_up-empty (vn ∷ vns) h = ground (arith, clean_up-empty vns)

-- Where nothing failed for the limit, the clean-up of nothing is what the other branches do.
reconcile_scale_up-deleted :
    (env : Answers) (g : Group) (vns : List VpsieNode)
    → needs_scale_up g.size ≡ true
    → (reconcile_scale_up env g vns).deleted ≡ clean_up (get_failed_vpsie_nodes vns)
unfolding reconcile_scale_up needs_scale_up calculate_nodes_to_add
reconcile_scale_up-deleted env g vns h =
    ground (arith, clean_up-empty vns, create_node-deleted env g)

reconcile_counted-up :
    (env : Answers) (g : Group) (vns : List VpsieNode)
    → needs_scale_up g.size ≡ true
    → reconcile_counted env g vns ≡ reconcile_scale_up env g vns
unfolding reconcile_counted
reconcile_counted-up env g vns h = rw h refl

-- A pass over a group that has fewer objects than desired asks for the deletion of as many objects as
-- have failed for the capacity limit, and only of such.
pub reconcile_group_cleans_up :
    (env : Answers) (g : Group) (vns : List VpsieNode)
    → length vns < (with_counts g vns).size.desired
    → (length (reconcile_group env g vns).1.deleted ≡ count_capacity_limit_failures vns)
      × All CapacityFailed (reconcile_group env g vns).1.deleted
unfolding reconcile_group
reconcile_group_cleans_up env g vns h =
    let needed = (needs_scale_up-with_counts g vns).1 h in
    rw (reconcile_counted-up env (with_counts g vns) vns needed)
      (rw (reconcile_scale_up-deleted env (with_counts g vns) vns needed) (clean_up-count vns))
