-- ===== src/Rebalancer/Rollback.antt =====
-- What a rollback does to the nodes that were provisioned.
use vpsie_k8s_autoscaler.Prelude.{
  ◌≡◌, refl, sym, subst, ◌∙◌, String, ◌&&◌, true, false, some, List, [], ◌∷◌, ◌++◌, All, map,
  append_assoc, append_empty, if◌then◌else◌,
}
use vpsie_k8s_autoscaler.Rebalancer.{RebalancePlan}
use vpsie_k8s_autoscaler.Rebalancer.Planner.{create_rollback_plan}
use vpsie_k8s_autoscaler.Rebalancer.Nodes.{Kube, Call, delete_node, terminate_node}
use vpsie_k8s_autoscaler.Rebalancer.Execution.{
  paused, failed_status, ExecutionState, RolledBack, is_named, uncordon_batches, terminate_nodes,
  roll_back_by, roll_back,
}

terminate_nodes-calls :
    (k : Kube) (completed names : List String) (r : RolledBack)
    → All (λ name. is_named completed name ≡ false) names
    → (terminate_nodes k completed names r).calls ≡ r.calls ++ map delete_node names
unfolding terminate_nodes terminate_node
terminate_nodes-calls k completed [] r h = sym (append_empty r.calls)
terminate_nodes-calls k completed (name ∷ names) r (other, h) =
    let deleted = record r {
      calls = r.calls ++ delete_node name ∷ [];
      ok = r.ok && k.deletes name;
    } in
    subst
      (λ b.
        (terminate_nodes k completed names (if b then r else deleted)).calls
        ≡ r.calls ++ delete_node name ∷ map delete_node names)
      (sym other) (terminate_nodes-calls k completed names deleted h ∙ append_assoc r.calls _ _)

-- If no new node has the name of an old one that was replaced, the rollback that the planner asks for
-- ends with the deletion of every new node, those included whose old nodes are gone.
pub roll_back_deletes :
    (k : Kube) (p : RebalancePlan) (s : ExecutionState)
    → p.rollback_plan ≡ some create_rollback_plan
    → All (λ name. is_named s.completed_nodes name ≡ false) s.provisioned_nodes
    → (earlier : List Call) × ((roll_back k p s).calls
        ≡ earlier ++ map delete_node s.provisioned_nodes)
      × ((roll_back k p s).status ≡ failed_status)
unfolding roll_back create_rollback_plan terminate_nodes
roll_back_deletes k p s planned new_names =
    let begun : RolledBack = record { status = paused; calls = []; ok = true } in
    let uncordoned = uncordon_batches k s.completed_nodes p.batches begun in
    subst
      (λ plan.
        (earlier : List Call) × ((roll_back_by k p s plan).calls
          ≡ earlier ++ map delete_node s.provisioned_nodes)
        × ((roll_back_by k p s plan).status ≡ failed_status))
      (sym planned)
      (
        uncordoned.calls,
        terminate_nodes-calls k s.completed_nodes s.provisioned_nodes uncordoned new_names,
        refl,
      )
