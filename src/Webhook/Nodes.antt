-- ===== src/Webhook/Nodes.antt =====
-- pkg/webhook/vpsienode_validator.go, and what buildVPSieNode of pkg/controller/nodegroup gives it.
pub mod Accepted
use vpsie_k8s_autoscaler.Prelude.{
  ℕ, String, ◌=ₛ◌, codes, Bool, Option, none, some, List, [], ◌∷◌, length, ltb, if◌then◌else◌,
}
use vpsie_k8s_autoscaler.Webhook.{
  Operation, NodeGroup, VpsieNode, Refusal, missing, malformed, name_too_long,
}
use vpsie_k8s_autoscaler.Webhook.Regex.{matches}
use vpsie_k8s_autoscaler.Webhook.Patterns.{
  valid_node_group_name, valid_datacenter, valid_offering_id, valid_kubernetes_version,
  valid_os_image,
}
use vpsie_k8s_autoscaler.Webhook.Fields.{
  first_refusal, validate_namespace, validate_optional, validate_required, validate_ids,
}
use vpsie_k8s_autoscaler.Webhook.Groups.{is_checked}

unfoldable pub validate_node_group_ref : String → Option Refusal
unfolding validate_required
validate_node_group_ref name = first_refusal (
    validate_required valid_node_group_name "spec.nodeGroupName" name
    ∷ (if ltb 253 (length (codes name)) then some name_too_long else none)
    ∷ [])

-- The keys have the pattern of a data center.
unfoldable pub validate_ssh_key_ids : List String → Option Refusal
unfolding validate_ids
validate_ssh_key_ids [] = none
validate_ssh_key_ids (key ∷ keys) = validate_ids valid_datacenter "spec.sshKeyIds" (key ∷ keys)

unfoldable pub node_checks : VpsieNode → List (Option Refusal)
unfolding validate_namespace validate_node_group_ref validate_required validate_optional
    validate_ssh_key_ids
node_checks n =
    validate_namespace n.namespace
    ∷ validate_node_group_ref n.node_group_name
    ∷ validate_required valid_datacenter "spec.datacenterID" n.datacenter_id
    ∷ validate_required valid_offering_id "spec.instanceType" n.instance_type
    ∷ validate_required valid_kubernetes_version "spec.kubernetesVersion" n.kubernetes_version
    ∷ validate_optional valid_os_image "spec.osImageId" n.os_image_id
    ∷ validate_ssh_key_ids n.ssh_key_ids
    ∷ []

unfoldable pub validate : VpsieNode → Operation → Option Refusal
unfolding node_checks
validate n op = if is_checked op then first_refusal (node_checks n) else none

-- The instance type is the preferred one, or else the first offering.
unfoldable pub node_for : NodeGroup → (first : String) → VpsieNode
node_for g first = record {
  namespace = g.namespace;
  node_group_name = g.name;
  datacenter_id = g.datacenter_id;
  instance_type = if g.preferred_instance_type =ₛ "" then first else g.preferred_instance_type;
  kubernetes_version = g.kubernetes_version;
  os_image_id = g.os_image_id;
  ssh_key_ids = g.ssh_key_ids;
}

-- `none`: without offerings, the code panics.
abbrev pub new_node_from : NodeGroup → List String → Option VpsieNode
unfolding node_for
new_node_from g [] = none
new_node_from g (id ∷ ids) = some (node_for g id)

unfoldable pub new_node_of : NodeGroup → Option VpsieNode
unfolding new_node_from
new_node_of g = new_node_from g g.offering_ids
