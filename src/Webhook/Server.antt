-- ===== src/Webhook/Server.antt =====
-- pkg/webhook/server.go, from the decoded review on, and pkg/webhook/node_deletion_validator.go.
pub mod Allowed
use vpsie_k8s_autoscaler.Prelude.{
  ℕ, String, ◌=ₛ◌, Bool, true, false, Option, none, some, if◌then◌else◌,
}
use vpsie_k8s_autoscaler.Cluster.{StringMap, get}
use vpsie_k8s_autoscaler.Webhook.{
  Operation, create, update, delete, connect, NodeGroup, VpsieNode, Refusal,
}
use vpsie_k8s_autoscaler.Webhook.Groups
use vpsie_k8s_autoscaler.Webhook.Nodes

-- The bytes of an object: none at all, not to be decoded, or those of an object.
pub data Raw {ℓ} (A : Type ℓ) : Type ℓ where
  absent garbled : Raw A
  decoded : A → Raw A

-- With the code of the HTTP status.
pub data Response : Type 0 where
  allowed : Response
  denied : (code : ℕ) → Response

abbrev pub verdict : (code : ℕ) → Option Refusal → Response
verdict code none = allowed
verdict code (some r) = denied code

unfoldable pub validate_node_group : Operation → Raw NodeGroup → Response
unfolding Groups.validate
validate_node_group op absent = denied 400
validate_node_group op garbled = denied 400
validate_node_group op (decoded g) = verdict 422 (Groups.validate g op)

unfoldable pub validate_vpsie_node : Operation → Raw VpsieNode → Response
unfolding Nodes.validate
validate_vpsie_node op absent = denied 400
validate_vpsie_node op garbled = denied 400
validate_vpsie_node op (decoded n) = verdict 422 (Nodes.validate n op)

-- The three errors are told apart by their texts only.
unfoldable pub validate_delete : StringMap → Bool
unfolding get
validate_delete none = false
validate_delete (some labels) = elim (get "autoscaler.vpsie.com/managed" (some labels)) [
  | none ↦ false
  | some value ↦ value =ₛ "true"
]

abbrev pub deletion_verdict : Raw StringMap → Response
unfolding validate_delete
deletion_verdict absent = denied 400
deletion_verdict garbled = denied 400
deletion_verdict (decoded labels) = if validate_delete labels then allowed else denied 403

-- The old object is that of the node; of it, the labels are read.
unfoldable pub validate_node_deletion : Operation → (old : Raw StringMap) → Response
unfolding deletion_verdict
validate_node_deletion create old = allowed
validate_node_deletion update old = allowed
validate_node_deletion connect old = allowed
validate_node_deletion delete old = deletion_verdict old
