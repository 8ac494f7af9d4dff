-- ===== src/Groups/ScaleUp/Tests.antt =====
-- Passes over a group of at most five objects, of which two are ready.
use vpsie_k8s_autoscaler.Prelude.{
  ℕ, ◌+◌, ◌≤◌, ◌<◌, ◌≡◌, refl, true, String, List, [], ◌∷◌, ◌++◌, length, arith,
}
use vpsie_k8s_autoscaler.Lifecycle.Types.{ready, failed, error, cond_true, Condition, VpsieNode}
use vpsie_k8s_autoscaler.Groups.{calculate_desired_nodes}
use vpsie_k8s_autoscaler.Groups.Tests.{object}
use vpsie_k8s_autoscaler.Groups.ScaleUp.{
  Group, count_capacity_limit_failures, build_vpsie_node, Answers, update_node_group_status,
  with_counts, reconcile_group, listed_after, run_passes,
}
use vpsie_k8s_autoscaler.Groups.ScaleUp.Repeated.{run_passes_create_each}
use vpsie_k8s_autoscaler.Groups.ScaleUp.Bounds.{World, passes, here, next, Reach-bounded}

abbrev wanting : ℕ → Group
wanting n = record {
  name = "workers";
  datacenter_id = "dc";
  resource_identifier = "cluster-1";
  vpsie_group_id = 5;
  size = record { min_nodes = 1; max_nodes = 5; current = 0; desired = n };
}

abbrev accepting : String → Answers
accepting name = record {
  name = name;
  owns = true;
  creates = true;
  deletes = λ vn. true;
  saves = true;
}

abbrev two_ready : List VpsieNode
two_ready = object "a" ready ∷ object "b" ready ∷ []

room_for_two : length two_ready + 2 ≤ (with_counts (wanting 4) two_ready).size.desired
unfolding with_counts update_node_group_status calculate_desired_nodes
room_for_two = omega arith

run_passes_create_each_example :
    run_passes (accepting "x" ∷ accepting "y" ∷ []) (wanting 4) two_ready
    ≡ two_ready ++ (build_vpsie_node (wanting 4) "x" ∷ build_vpsie_node (wanting 4) "y" ∷ [])
run_passes_create_each_example =
    run_passes_create_each (accepting "x" ∷ accepting "y" ∷ []) (wanting 4) two_ready
      ((refl, refl), ((refl, refl), tt)) (refl, (refl, tt)) (refl, (refl, tt)) room_for_two

abbrev start : World
start = record { group = wanting 4; objects = two_ready }

Reach-bounded_example :
    length
      (listed_after (reconcile_group (accepting "x") (wanting 4) two_ready).1.created two_ready)
    ≤ (reconcile_group (accepting "x") (wanting 4) two_ready).0.size.max_nodes
Reach-bounded_example =
    (Reach-bounded {w = start} (next here (passes (accepting "x"))) (omega arith)).1

abbrev at_limit : Condition
at_limit = record {
  type = error;
  status = cond_true;
  last_transition_time = 1;
  last_update_time = 1;
  reason = "CapacityLimitReached";
  message = [];
}

abbrev refused_node : VpsieNode
refused_node =
    let vn = object "c" failed in
    record vn { status = record (vn.status) { conditions = at_limit ∷ [] } }

abbrev with_refused : List VpsieNode
with_refused = object "a" ready ∷ refused_node ∷ []

room_beside : length with_refused < (with_counts (wanting 4) with_refused).size.desired
unfolding with_counts update_node_group_status calculate_desired_nodes
room_beside = omega arith

one_failed : count_capacity_limit_failures with_refused ≡ 1
unfolding count_capacity_limit_failures
one_failed = refl
