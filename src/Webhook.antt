-- ===== src/Webhook.antt =====
-- pkg/webhook: the admission of NodeGroup and VPSieNode objects, and of the deletion of nodes. What the
-- validators read of the objects, and why they refuse; the texts of the refusals are left out but for
-- the field, the key or the place in a list that they name. Texts are ASCII.
pub mod Regex
pub mod Patterns
pub mod Fields
pub mod Groups
pub mod Nodes
pub mod Server
mod Tests
use vpsie_k8s_autoscaler.Prelude.{ℕ, ℤ, String, List}
use vpsie_k8s_autoscaler.Cluster.{Taint}

-- admissionv1.Operation
pub data Operation : Type 0 where
  create update delete connect : Operation

pub record Policy : Type 0 where
  -- Of a scale-down only.
  pub cooldown_seconds : ℤ
  pub stabilization_window_seconds : ℤ
  pub cpu_threshold : ℤ
  pub memory_threshold : ℤ

-- Labels are in the order in which the map is walked.
pub record NodeGroup : Type 0 where
  pub name : String
  pub namespace : String
  pub min_nodes : ℤ
  pub max_nodes : ℤ
  pub datacenter_id : String
  pub offering_ids : List String
  pub preferred_instance_type : String
  pub kubernetes_version : String
  pub os_image_id : String
  pub ssh_key_ids : List String
  pub labels : List (String × String)
  pub taints : List Taint
  pub scale_up_policy : Policy
  pub scale_down_policy : Policy

pub record VpsieNode : Type 0 where
  pub namespace : String
  pub node_group_name : String
  pub datacenter_id : String
  pub instance_type : String
  pub kubernetes_version : String
  pub os_image_id : String
  pub ssh_key_ids : List String

pub data Refusal : Type 0 where
  wrong_namespace min_above_max max_above_limit no_offerings name_too_long : Refusal
  negative too_large outside_percent missing malformed : (field : String) → Refusal
  missing_item malformed_item duplicated_item : (field : String) (index : ℕ) → Refusal
  malformed_key long_key malformed_value long_value reserved_key : (key : String) → Refusal
  missing_taint_key unknown_effect reserved_taint_key : (index : ℕ) → Refusal
