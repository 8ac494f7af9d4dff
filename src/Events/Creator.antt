-- ===== src/Events/Creator.antt =====
-- pkg/events/creator.go: the group that is created for a pod that no group matches. A map is walked in the
-- order of its list. Tags, notes, and the settings of costs and spot instances are copied and left out.
pub mod Matching
pub mod Created
pub mod Repeated
pub mod Admission
mod Tests
use vpsie_k8s_autoscaler.Prelude.{
  ℕ, ℤ, pos, ◌+◌, ◌*◌, ◌/◌, String, ◌=ₛ◌, insert, lookup, Bool, true, false, not, ◌&&◌, ◌||◌,
  Option, none, some, List, [], ◌∷◌, ◌++◌, any, all, leb, ltb, ◌==◌, if◌then◌else◌,
}
use vpsie_k8s_autoscaler.Cluster.{Taint, Toleration}
use vpsie_k8s_autoscaler.Webhook.{NodeGroup, Policy}
use vpsie_k8s_autoscaler.Events.Offers.{
  Request, PendingPod, K8sOffer, Template, smallest, larger_of, sum_from, cpus, memories,
  calculate_pod_resources, insert_by_price, sort_by_price, is_used, fits, first_with, Selection,
  select_sorted, Api, static_size, used_sizes, select_offered, select_optimal_kube_size_id,
  selected, no_client, offers_failed, no_offers, all_in_use,
}

-- A group as the webhook reads it, with what it does not read.
pub record DynamicGroup : Type 0 where
  pub object : NodeGroup
  pub managed : Bool
  pub resource_identifier : String
  pub kube_size_id : ℕ

abbrev pub system_keys : List String
system_keys =
    "node.kubernetes.io/not-ready" ∷ "node.kubernetes.io/unreachable"
    ∷ "node.kubernetes.io/memory-pressure" ∷ "node.kubernetes.io/disk-pressure"
    ∷ "node.kubernetes.io/pid-pressure" ∷ "node.kubernetes.io/unschedulable"
    ∷ "node.kubernetes.io/network-unavailable" ∷ "node.cloudprovider.kubernetes.io/uninitialized"
    ∷ []

unfoldable pub is_system_toleration : String → Bool
is_system_toleration key = any (λ k. key =ₛ k) system_keys

abbrev pub taint_of : Toleration → Taint
taint_of t = record {
  key = t.key;
  value = if t.operator =ₛ "Equal" then t.value else "";
  effect = t.effect;
}

unfoldable pub extract_required_taints : List Toleration → List Taint
unfolding is_system_toleration
extract_required_taints [] = []
extract_required_taints (t ∷ ts) =
    let rest = extract_required_taints ts in
    if t.key =ₛ "" || is_system_toleration t.key then rest else taint_of t ∷ rest

-- The labels of the pod take precedence over those of the template.
unfoldable pub overlay :
    List (String × String) → (selector : List (String × String)) → List (String × String)
unfolding insert
overlay labels [] = labels
overlay labels ((key, value) ∷ rest) = insert key value (overlay labels rest)

abbrev pub zero_policy : Policy
zero_policy = record {
  cooldown_seconds = pos 0;
  stabilization_window_seconds = pos 0;
  cpu_threshold = pos 0;
  memory_threshold = pos 0;
}

abbrev pub policy_of : Option Policy → Policy
policy_of none = zero_policy
policy_of (some p) = p

unfoldable pub build_node_group_spec : Template → (name namespace : String) → PendingPod → NodeGroup
unfolding overlay extract_required_taints
build_node_group_spec t name namespace p = record {
  name = name;
  namespace = namespace;
  min_nodes = t.min_nodes;
  max_nodes = t.max_nodes;
  datacenter_id = t.default_datacenter_id;
  offering_ids = t.default_offering_ids;
  preferred_instance_type = "";
  kubernetes_version = t.kubernetes_version;
  os_image_id = t.os_image_id;
  ssh_key_ids = t.ssh_key_ids;
  labels = overlay t.labels p.node_selector;
  taints = t.taints ++ extract_required_taints p.tolerations;
  scale_up_policy = policy_of t.scale_up_policy;
  scale_down_policy = policy_of t.scale_down_policy;
}

abbrev pub is_no_id : List String → Bool
is_no_id [] = true
is_no_id (id ∷ ids) = false

unfoldable pub validate_template : Template → Bool
validate_template t =
    not (t.default_datacenter_id =ₛ "")
    && not (is_no_id t.default_offering_ids)
    && not (t.resource_identifier =ₛ "")

pub data Creation : Type 0 where
  created : DynamicGroup → Creation
  template_refused create_refused : Creation
  no_size : Selection → Creation

abbrev pub create_sized :
    (accepts : DynamicGroup → Bool)
    → Template
    → (name namespace : String) → PendingPod
    → Selection
    → Creation
unfolding build_node_group_spec
create_sized accepts t name namespace p (selected size) =
    let group : DynamicGroup = record {
      object = build_node_group_spec t name (if namespace =ₛ "" then t.namespace else namespace) p;
      managed = true;
      resource_identifier = t.resource_identifier;
      kube_size_id = size;
    } in
    if accepts group then created group else create_refused
create_sized accepts t name namespace p refused = no_size refused

-- Whether the API server accepts a group is the first argument; the name is the generated one.
unfoldable pub create_node_group_for_pod :
    (accepts : DynamicGroup → Bool)
    → Template
    → (name namespace : String) → Option Api
    → PendingPod
    → Creation
unfolding validate_template select_optimal_kube_size_id create_sized
create_node_group_for_pod accepts t name namespace api p =
    if validate_template t
    then create_sized accepts t name namespace p (select_optimal_kube_size_id t p api)
    else template_refused
