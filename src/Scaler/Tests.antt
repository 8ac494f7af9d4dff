-- ===== src/Scaler/Tests.antt =====
-- The scale-down decisions run at concrete inputs, with fractions for floats.
use vpsie_k8s_autoscaler.Prelude.{
  ◌+◌, ◌<◌, ◌≤◌, ◌≡◌, inl, refl, pos, ◌+ℤ◌, ◌-ℤ◌, String, lookup, true, false, List, [], ◌∷◌, none,
  some, length, All, arith,
}
use vpsie_k8s_autoscaler.Prelude.Floats.{ratios}
use vpsie_k8s_autoscaler.Cluster.{get, Node, Pod, Taint, Toleration, is_node_ready, first_ready}
use vpsie_k8s_autoscaler.Scaler.Scheduling.{tolerations_tolerate_taints}
use vpsie_k8s_autoscaler.Scaler.Scheduling.Meaning.{everything, tolerations_tolerate_taints_iff}
use vpsie_k8s_autoscaler.Scaler.Policy.{
  Clock, get_current_mode, balanced, mode_in, allow_scale_down, is_within_allowed_time,
  is_node_allowed_for_scale_down,
}
use vpsie_k8s_autoscaler.Scaler.Policy.Modes.{ScaleDownConfig}
use vpsie_k8s_autoscaler.Scaler.Safety.{
  Kube, has_pods_with_local_storage, has_unique_system_pods, add_resources, sum_requests,
  calculate_resource_requests, free_resources, count_ready,
}
use vpsie_k8s_autoscaler.Scaler.Removal.{
  can_pods_be_rescheduled, has_anti_affinity_violations, remaining,
  predict_utilization_after_removal, has_insufficient_capacity, is_node_protected,
  is_safe_to_remove,
}
use vpsie_k8s_autoscaler.Scaler.Removal.OnlyNode.{IsOnly, HasRoom, only_node_passes}
use vpsie_k8s_autoscaler.Scaler.Utilization.{
  Sample, NodeUtilization, count_underutilized, has_been_underutilized_for_window, is_candidate,
}
use vpsie_k8s_autoscaler.Scaler.Manager.{
  NodeGroup, Attempt, Manager, allowed, in_cooldown, is_outside_cooldown_period, check_node,
  can_scale_down, scale_down,
}
use vpsie_k8s_autoscaler.Scaler.Manager.Limits.{
  scale_down-Permitted, scale_down-cooldown, scale_down_below_minimum, Permitted,
}

abbrev dedicated : Taint
dedicated = record { key = "dedicated"; value = "gpu"; effect = "NoSchedule" }

abbrev tolerates_all : Toleration
tolerates_all = record { key = ""; operator = "Exists"; value = ""; effect = "" }

tolerations_tolerate_taints_iff_example :
    tolerations_tolerate_taints (tolerates_all ∷ []) (dedicated ∷ []) ≡ true
tolerations_tolerate_taints_iff_example =
    (tolerations_tolerate_taints_iff (tolerates_all ∷ []) (dedicated ∷ [])).1
      (λ hard. inl (everything refl refl), tt)

abbrev noon : Clock
noon = record { hour = 12; minute = 0; weekday = 1 }

abbrev host : String → Node
host name = record {
  name = name;
  labels = none;
  annotations = none;
  unschedulable = false;
  taints = [];
  conditions = record { condition_type = "Ready"; status = "True" } ∷ [];
  addresses = [];
  capacity = record { cpu = pos 4000; memory = pos 8000 };
  allocatable = record { cpu = pos 4000; memory = pos 8000 };
}

abbrev kube_of : List Node → List Pod → Kube
kube_of ns ps = record {
  nodes = some ns;
  pods_on = λ name. some ps;
  claim_volume = λ namespace claim. none;
  volume_is_local = λ volume. none;
  is_valid_selector = λ s. true;
  pods_in = λ namespace s. some [];
  namespaces = λ s. some [];
}

abbrev three : Kube
three = kube_of (host "a" ∷ host "b" ∷ host "c" ∷ []) []

abbrev try : String → Attempt
try name = record { node = host name; now = 100; clock = noon; kube = three; drains = true }

abbrev config : ScaleDownConfig ratios
config = record {
  cpu_threshold = record { num = 50; den = 1 };
  memory_threshold = record { num = 50; den = 1 };
  observation_window = 600000000000;
  cooldown_period = 600000000000;
  max_nodes_per_scale_down = 2;
}

abbrev manager : Manager ratios
manager = record {
  config = config;
  last_scale_down = [];
  policy_engine = record { time_windows = []; default_mode = balanced };
}

abbrev group : NodeGroup
group = record { name = "workers"; node_count = 3; min_nodes = 2; scale_down_enabled = true }

a_allowed : can_scale_down ratios manager group (try "a") ≡ allowed
unfolding can_scale_down is_outside_cooldown_period lookup check_node is_safe_to_remove
    has_pods_with_local_storage can_pods_be_rescheduled count_ready is_node_ready first_ready
    free_resources calculate_resource_requests add_resources sum_requests has_unique_system_pods
    has_anti_affinity_violations has_insufficient_capacity predict_utilization_after_removal
    remaining is_node_protected get allow_scale_down get_current_mode is_within_allowed_time
    is_node_allowed_for_scale_down mode_in ◌+ℤ◌ ◌-ℤ◌
a_allowed = refl

b_allowed : can_scale_down ratios manager group (try "b") ≡ allowed
unfolding can_scale_down is_outside_cooldown_period lookup check_node is_safe_to_remove
    has_pods_with_local_storage can_pods_be_rescheduled count_ready is_node_ready first_ready
    free_resources calculate_resource_requests add_resources sum_requests has_unique_system_pods
    has_anti_affinity_violations has_insufficient_capacity predict_utilization_after_removal
    remaining is_node_protected get allow_scale_down get_current_mode is_within_allowed_time
    is_node_allowed_for_scale_down mode_in ◌+ℤ◌ ◌-ℤ◌
b_allowed = refl

abbrev tries : List Attempt
tries = try "a" ∷ try "b" ∷ []

-- Three nodes with a minimum of two lose two.
scale_down_below_minimum_example : 3 < 2 + length (scale_down ratios 200 manager group tries).1
scale_down_below_minimum_example =
    scale_down_below_minimum ratios 200 manager group tries
      ((a_allowed, refl), ((b_allowed, refl), tt)) refl (omega arith) (omega arith)

scale_down-Permitted_example :
    (length (scale_down ratios 200 manager group tries).1 ≤ 2)
    × All (Permitted ratios manager group) (scale_down ratios 200 manager group tries).1
scale_down-Permitted_example = scale_down-Permitted ratios 200 manager group tries

some_drained : 0 < length (scale_down ratios 200 manager group tries).1
some_drained = omega (
  arith,
  scale_down_below_minimum ratios 200 manager group tries
      ((a_allowed, refl), ((b_allowed, refl), tt)) refl (omega arith) (omega arith),
)

scale_down-cooldown_example :
    can_scale_down ratios (scale_down ratios 200 manager group tries).0 group (try "c")
    ≡ in_cooldown
scale_down-cooldown_example =
    (scale_down-cooldown ratios 200 manager group group tries (try "c")).0 some_drained
      (omega arith)

abbrev pod : Pod
pod = record {
  name = "web";
  namespace = "default";
  labels = none;
  annotations = none;
  deletion_timestamp = none;
  phase = "Running";
  owner_kinds = [];
  node_name = "a";
  volumes = [];
  requests = record { cpu = pos 1000; memory = pos 1000 } ∷ [];
  init_requests = [];
  affinity = none;
}

abbrev single : Kube
single = kube_of (host "a" ∷ []) (pod ∷ [])

single-IsOnly : IsOnly ratios single (host "a") (pod ∷ [])
unfolding is_node_ready first_ready
single-IsOnly = record { alone = refl; available = refl; pods = refl }

single-HasRoom : HasRoom ratios (host "a") (pod ∷ [])
unfolding calculate_resource_requests add_resources sum_requests ◌+ℤ◌ ◌-ℤ◌
single-HasRoom = record { cpu_room = refl; memory_room = refl }

only_node_passes_example :
    (can_pods_be_rescheduled ratios single (pod ∷ []) ≡ some true)
    × (has_insufficient_capacity ratios single (host "a") ≡ some false)
only_node_passes_example =
    only_node_passes ratios single (host "a") (pod ∷ []) single-IsOnly single-HasRoom refl

abbrev low_sample : Sample ratios
low_sample = record {
  timestamp = 50;
  cpu = record { num = 10; den = 1 };
  memory = record { num = 10; den = 1 };
}

abbrev idle : NodeUtilization ratios
idle = record {
  cpu_utilization = record { num = 10; den = 1 };
  memory_utilization = record { num = 10; den = 1 };
  samples = low_sample ∷ [];
  last_updated = 50;
  is_underutilized = true;
}

idle-IsCandidate : is_candidate ratios config 100 (host "a") (some idle) ≡ true
unfolding is_candidate is_node_protected get has_been_underutilized_for_window count_underutilized
idle-IsCandidate = refl
