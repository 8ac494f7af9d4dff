-- ===== src/Events/Tests.antt =====
-- A group of at most three nodes, of which one is wanted and ready, and two pods that wait.
use vpsie_k8s_autoscaler.Prelude.{
  ◌-◌, ◌≤◌, ◌<◌, ◌≡◌, refl, true, false, none, some, [], ◌∷◌, lookup, ℕ, ◌⊎◌,
}
use vpsie_k8s_autoscaler.Events.{
  ResourceDeficit, InstanceTypeInfo, estimate_nodes_needed, ScaledGroup, select_instance_type,
  Watcher, can_scale, ScaleUpDecision, decided, decide_for, make_scale_up_decision,
  execute_scale_up,
}
use vpsie_k8s_autoscaler.Events.Matches.{
  NodeGroupMatch, calculate_match_score, compare_neighbours, sort_rounds, sort_node_group_matches,
}
use vpsie_k8s_autoscaler.Events.Decisions.{make_scale_up_decision-decided, execute_scale_up-reached}

abbrev deficit : ResourceDeficit
deficit = record { cpu = 6000; memory = 1073741824; pods = 2 }

abbrev small : InstanceTypeInfo
small = record { cpu = 4; memory_mb = 8192 }

abbrev group : ScaledGroup
group = record {
  name = "workers";
  max_nodes = 3;
  desired = 1;
  ready = 1;
  preferred_instance_type = "";
  offering_ids = "small" ∷ [];
  last_scale_time = none;
}

-- The group was scaled long ago.
abbrev watcher : Watcher
watcher = record { last_scale_time = ("workers", 100) ∷ []; stabilization_window = 60 }

abbrev decision : ScaleUpDecision
decision = record {
  name = "workers";
  current_nodes = 1;
  desired_nodes = 2;
  nodes_to_add = 1;
  instance_type = "small";
}

makes_it : make_scale_up_decision watcher 300 none group deficit ≡ decided decision
unfolding make_scale_up_decision can_scale select_instance_type decide_for estimate_nodes_needed
    lookup
makes_it = refl

make_scale_up_decision-decided_example : select_instance_type none group ≡ some "small"
make_scale_up_decision-decided_example =
    (make_scale_up_decision-decided watcher 300 none group deficit decision makes_it).4

execute_scale_up-reached_example :
    (after : ScaledGroup) × ((execute_scale_up 300 true decision watcher (some group)).stored
      ≡ some after)
    × (1 ≤ after.desired)
    × ((after.desired ≤ 1) ⊎ (after.desired ≤ 2))
    × ((execute_scale_up 300 true decision watcher (some group)).failing ≡ false
        → (2 ≤ after.desired)
          × ((later : ℕ)
              → later - 300 < 60
              → can_scale
                  (execute_scale_up 300 true decision watcher (some group)).watcher
                  later
                  "workers"
                ≡ false))
    × ((execute_scale_up 300 true decision watcher (some group)).failing ≡ true
        → (after ≡ group)
          × ((execute_scale_up 300 true decision watcher (some group)).watcher ≡ watcher))
execute_scale_up-reached_example = execute_scale_up-reached 300 true decision watcher group

it_is_saved :
    (execute_scale_up 300 true decision watcher (some group)).stored
    ≡ some (record group { desired = 2; last_scale_time = some 300 })
unfolding execute_scale_up
it_is_saved = refl

abbrev scored : ℕ → NodeGroupMatch
scored n = record { node_group = group; matching_pods = 1; deficit = deficit; score = n }

sorts :
    sort_node_group_matches (scored 100 ∷ scored 350 ∷ scored 200 ∷ [])
    ≡ scored 350 ∷ scored 200 ∷ scored 100 ∷ []
unfolding sort_node_group_matches sort_rounds compare_neighbours
sorts = refl

-- One pod, two more nodes possible, no preferred type, and a cost score of 500.
scores : calculate_match_score group 1 500 ≡ 900
unfolding calculate_match_score
scores = refl
