-- ===== src/Groups/Tests.antt =====
-- The node groups at concrete inputs: a group in its cooldown, and one ready node among three.
use vpsie_k8s_autoscaler.Prelude.{
  ◌≡◌, refl, pos, String, lookup, true, false, List, [], ◌∷◌, none, some, take,
}
use vpsie_k8s_autoscaler.Prelude.Floats.{ratios}
use vpsie_k8s_autoscaler.Cluster.{Node}
use vpsie_k8s_autoscaler.Lifecycle.Types.{Phase, provisioning, ready, VpsieNode}
use vpsie_k8s_autoscaler.Scaler.Policy.{balanced}
use vpsie_k8s_autoscaler.Scaler.Manager.{NodeGroup, Attempt, Manager, is_outside_cooldown_period}
use vpsie_k8s_autoscaler.Groups.{
  Size, calculate_desired_nodes, needs_scale_up, last_named, find_vpsie_node, delete_candidates,
  reconcile_intelligent_scale_down,
}
use vpsie_k8s_autoscaler.Groups.ScaleDown.{reconcile_deletes_refused}

abbrev size : Size
size = record { min_nodes = 1; max_nodes = 5; current = 2; desired = 4 }

growing : needs_scale_up size ≡ true
unfolding needs_scale_up
growing = refl

desired_in_bounds : size.desired ≡ calculate_desired_nodes size
unfolding calculate_desired_nodes
desired_in_bounds = refl

abbrev pub object : String → Phase → VpsieNode
object name phase = record {
  name = name;
  annotations = none;
  finalizers = [];
  deletion_timestamp = none;
  creation_timestamp = 0;
  generation = 1;
  spec = record {
    vpsie_instance_id = 1;
    node_group_name = "workers";
    datacenter_id = "";
    resource_identifier = "cluster-1";
    node_name = name;
    ip_address = "";
    ipv6_address = "";
    vpsie_group_id = 5;
    vpsie_node_identifier = "";
  };
  status = record {
    phase = phase;
    node_name = name;
    vpsie_status = "";
    hostname = name;
    resources = record { cpu = 0; memory_mb = 0; disk_gb = 0 };
    created_at = none;
    provisioned_at = none;
    joined_at = none;
    ready_at = none;
    terminating_at = none;
    deleted_at = none;
    conditions = [];
    last_error = [];
    observed_generation = 0;
  };
}

abbrev pub objects : List VpsieNode
objects = object "a" ready ∷ object "b" provisioning ∷ object "c" ready ∷ []

abbrev host : String → Node
host name = record {
  name = name;
  labels = none;
  annotations = none;
  unschedulable = false;
  taints = [];
  conditions = [];
  addresses = [];
  capacity = record { cpu = pos 4000; memory = pos 8000 };
  allocatable = record { cpu = pos 4000; memory = pos 8000 };
}

abbrev candidate : Attempt
candidate = record {
  node = host "a";
  now = 100;
  clock = record { hour = 12; minute = 0; weekday = 1 };
  kube = record {
    nodes = some [];
    pods_on = λ name. some [];
    claim_volume = λ namespace claim. none;
    volume_is_local = λ volume. none;
    is_valid_selector = λ s. true;
    pods_in = λ namespace s. some [];
    namespaces = λ s. some [];
  };
  drains = true;
}

-- The group was scaled down at 50, and its cooldown is 600 seconds.
abbrev manager : Manager ratios
manager = record {
  config = record {
    cpu_threshold = record { num = 50; den = 1 };
    memory_threshold = record { num = 50; den = 1 };
    observation_window = 600000000000;
    cooldown_period = 600000000000;
    max_nodes_per_scale_down = 1;
  };
  last_scale_down = ("workers", 50) ∷ [];
  policy_engine = record { time_windows = []; default_mode = balanced };
}

abbrev group : NodeGroup
group = record { name = "workers"; node_count = 3; min_nodes = 1; scale_down_enabled = true }

cooling : is_outside_cooldown_period ratios manager 100 "workers" ≡ false
unfolding is_outside_cooldown_period lookup
cooling = refl

reconcile_deletes_refused_example :
    ((reconcile_intelligent_scale_down ratios 200 manager group objects (candidate ∷ [])).drained
      ≡ [])
    × ((reconcile_intelligent_scale_down ratios 200 manager group objects (candidate ∷ [])).deleted
        ≡ delete_candidates objects (take 1 (candidate ∷ [])))
reconcile_deletes_refused_example =
    reconcile_deletes_refused ratios 200 manager group objects (candidate ∷ []) (cooling, tt)

the_object_goes : delete_candidates objects (take 1 (candidate ∷ [])) ≡ object "a" ready ∷ []
unfolding delete_candidates find_vpsie_node last_named
the_object_goes = refl
