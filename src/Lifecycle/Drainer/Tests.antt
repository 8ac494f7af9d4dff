-- ===== src/Lifecycle/Drainer/Tests.antt =====
-- Drains of one node at concrete inputs.
use vpsie_k8s_autoscaler.Prelude.{
  ◌≡◌, ◌↔◌, refl, pos, String, true, false, none, some, List, [], ◌∷◌,
}
use vpsie_k8s_autoscaler.Cluster.{get, Node, Pod}
use vpsie_k8s_autoscaler.Lifecycle.Drainer.{
  Read, failed, found, cordon, uncordon, evict, Cluster, cordon_node, is_static_pod, is_evictable,
  filter_pods_to_evict, evictions, remaining, wait_for_pods_deleted, evict_pods, drain_node,
}
use vpsie_k8s_autoscaler.Lifecycle.Drainer.Outcomes.{Emptied, drain_node_iff}

abbrev host : Node
host = record {
  name = "a";
  labels = none;
  annotations = none;
  unschedulable = false;
  taints = [];
  conditions = [];
  addresses = [];
  capacity = record { cpu = pos 4000; memory = pos 8000 };
  allocatable = record { cpu = pos 4000; memory = pos 8000 };
}

abbrev pod : String → Pod
pod kind = record {
  name = "web";
  namespace = "default";
  labels = none;
  annotations = none;
  deletion_timestamp = none;
  phase = "Running";
  owner_kinds = kind ∷ [];
  node_name = "a";
  volumes = [];
  requests = [];
  init_requests = [];
  affinity = none;
}

abbrev pods : List Pod
pods = pod "ReplicaSet" ∷ pod "DaemonSet" ∷ []

-- No read of a pod succeeds.
abbrev blind : Pod → Read Pod
blind p = failed

-- The pods stay, until no read of them succeeds.
abbrev cluster : Cluster
cluster = record {
  node_now = found host;
  cordons = true;
  pods = some pods;
  polls = blind ∷ [];
  node_later = found (record host { unschedulable = true });
  uncordons = true;
}

cordoned : (cordon_node "a" cluster.node_now cluster.cordons).ok ≡ true
unfolding cordon_node
cordoned = refl

drain_node_iff_example : ((drain_node "a" cluster).ok ≡ true) ↔ (
    ((cordon_node "a" cluster.node_now cluster.cordons).ok ≡ true)
    × ((ps : List Pod) × (cluster.pods ≡ some ps) × Emptied cluster (filter_pods_to_evict ps)))
drain_node_iff_example = drain_node_iff "a" cluster

one_evicted : (drain_node "a" cluster).writes ≡ cordon "a" ∷ evict "default" "web" ∷ []
unfolding drain_node cordon_node filter_pods_to_evict is_evictable is_static_pod get evict_pods
    evictions wait_for_pods_deleted remaining
one_evicted = refl

restored :
    (drain_node "a" (record cluster { polls = [] })).writes
    ≡ cordon "a" ∷ evict "default" "web" ∷ uncordon "a" ∷ []
unfolding drain_node cordon_node filter_pods_to_evict is_evictable is_static_pod get evict_pods
    evictions wait_for_pods_deleted remaining
restored = refl
