-- ===== src/Webhook/Tests.antt =====
-- The patterns and the validators run at concrete objects.
use vpsie_k8s_autoscaler.Prelude.{
  ◌≡◌, ◌≢◌, ◌↔◌, ◌⊎◌, refl, pos, codes, true, false, none, some, [], ◌∷◌, arith,
}
use vpsie_k8s_autoscaler.Cluster.{get, StringMap}
use vpsie_k8s_autoscaler.Webhook.{create, delete, NodeGroup, VpsieNode, Policy, duplicated_item}
use vpsie_k8s_autoscaler.Webhook.Regex.{matches, derivative}
use vpsie_k8s_autoscaler.Webhook.Regex.Meaning.{matches_iff}
use vpsie_k8s_autoscaler.Webhook.Patterns.{
  valid_kubernetes_version, label_key, valid_node_group_name,
}
use vpsie_k8s_autoscaler.Webhook.Groups
use vpsie_k8s_autoscaler.Webhook.Groups.{
  group_checks, validate_offering_ids, validate_scale_up_policy,
}
use vpsie_k8s_autoscaler.Webhook.Groups.Accepted.{Accepted}
use vpsie_k8s_autoscaler.Webhook.Nodes
use vpsie_k8s_autoscaler.Webhook.Nodes.{new_node_of, node_for}
use vpsie_k8s_autoscaler.Webhook.Nodes.Accepted.{
  IsName, KeysAccepted, PreferenceAccepted, new_node_admitted_iff,
}
use vpsie_k8s_autoscaler.Webhook.Server.{decoded, allowed, validate_node_deletion}
use vpsie_k8s_autoscaler.Webhook.Server.Allowed.{validate_node_deletion_iff}

release : matches valid_kubernetes_version (codes "v1.28.0") ≡ true
unfolding matches derivative
release = refl

candidate : matches valid_kubernetes_version (codes "v1.29.1-rc.0") ≡ true
unfolding matches derivative
candidate = refl

leading_zero : matches valid_kubernetes_version (codes "v1.08.0") ≡ false
unfolding matches derivative
leading_zero = refl

-- Not a semantic version.
empty_identifiers : matches valid_kubernetes_version (codes "v1.2.3-..") ≡ true
unfolding matches derivative
empty_identifiers = refl

prefixed_key : matches label_key (codes "example.com/role") ≡ true
unfolding matches derivative
prefixed_key = refl

two_slashes : matches label_key (codes "a/b/c") ≡ false
unfolding matches derivative
two_slashes = refl

abbrev policy : Policy
policy = record {
  cooldown_seconds = pos 600;
  stabilization_window_seconds = pos 60;
  cpu_threshold = pos 80;
  memory_threshold = pos 80;
}

abbrev group : NodeGroup
group = record {
  name = "a";
  namespace = "kube-system";
  min_nodes = pos 1;
  max_nodes = pos 10;
  datacenter_id = "d-1";
  offering_ids = "s" ∷ "m" ∷ [];
  preferred_instance_type = "";
  kubernetes_version = "v1.28.0";
  os_image_id = "";
  ssh_key_ids = "k" ∷ "k" ∷ [];
  labels = ("role", "web") ∷ [];
  taints = record { key = "dedicated"; value = "gpu"; effect = "NoSchedule" } ∷ [];
  scale_up_policy = policy;
  scale_down_policy = policy;
}

group_admitted : Groups.validate group create ≡ none
unfolding Groups.validate
group_admitted = refl

abbrev node : VpsieNode
node = node_for group "s"

duplicated_keys : Nodes.validate node create ≡ some (duplicated_item "spec.sshKeyIds" 1)
unfolding Nodes.validate node_for
duplicated_keys = refl

abbrev keyed : VpsieNode
keyed = record {
  namespace = "kube-system";
  node_group_name = "a";
  datacenter_id = "d-1";
  instance_type = "s";
  kubernetes_version = "v1.28.0";
  os_image_id = "";
  ssh_key_ids = "k" ∷ [];
}

name_matches : matches valid_node_group_name (codes "a") ≡ true
unfolding matches derivative
name_matches = refl

a_IsName : IsName "a"
a_IsName = ((matches_iff valid_node_group_name (codes "a")).0 name_matches, omega arith)

new_node_admitted_iff_example :
    (n : VpsieNode) × (new_node_of group ≡ some n)
    × ((Nodes.validate n create ≡ none)
        ↔ (PreferenceAccepted group × KeysAccepted ("k" ∷ "k" ∷ [])))
new_node_admitted_iff_example = new_node_admitted_iff group group_admitted a_IsName

abbrev managed : StringMap
managed = some (("autoscaler.vpsie.com/managed", "true") ∷ [])

validate_node_deletion_iff_example : (validate_node_deletion delete (decoded managed) ≡ allowed) ↔ (
    (delete ≢ delete)
    ⊎ ((labels : StringMap) × (decoded managed ≡ decoded labels)
        × (get "autoscaler.vpsie.com/managed" labels ≡ some "true")))
validate_node_deletion_iff_example = validate_node_deletion_iff delete (decoded managed)
