-- ===== src/Webhook/Groups.antt =====
-- pkg/webhook/nodegroup_validator.go
pub mod Accepted
use vpsie_k8s_autoscaler.Prelude.{
  ℕ, suc, ℤ, pos, ltbℤ, String, ◌=ₛ◌, codes, Bool, true, false, not, ◌&&◌, ◌||◌, Option, none, some,
  List, [], ◌∷◌, any, length, ltb, if◌then◌else◌,
}
use vpsie_k8s_autoscaler.Cluster.{Taint}
use vpsie_k8s_autoscaler.Lifecycle.Errors.{is_prefix}
use vpsie_k8s_autoscaler.Webhook.{
  Operation, create, update, delete, connect, Policy, NodeGroup, Refusal, min_above_max,
  max_above_limit, no_offerings, negative, too_large, outside_percent, malformed_key, long_key,
  malformed_value, long_value, reserved_key, missing_taint_key, unknown_effect, reserved_taint_key,
}
use vpsie_k8s_autoscaler.Webhook.Regex.{matches}
use vpsie_k8s_autoscaler.Webhook.Patterns.{
  valid_datacenter, valid_offering_id, valid_kubernetes_version, valid_os_image, label_key,
  label_value,
}
use vpsie_k8s_autoscaler.Webhook.Fields.{
  first_refusal, validate_namespace, validate_optional, validate_required, validate_ids,
}

abbrev pub is_negative : ℤ → Bool
is_negative n = ltbℤ n (pos 0)

unfoldable pub validate_node_count : NodeGroup → Option Refusal
validate_node_count g =
    if is_negative g.min_nodes
    then some (negative "spec.minNodes")
    else if is_negative g.max_nodes
    then some (negative "spec.maxNodes")
    else if ltbℤ g.max_nodes g.min_nodes
    then some min_above_max
    else if ltbℤ (pos 1000) g.max_nodes
    then some max_above_limit
    else none

abbrev pub validate_offerings : List String → Option Refusal
unfolding validate_ids
validate_offerings [] = some no_offerings
validate_offerings (id ∷ ids) = validate_ids valid_offering_id "spec.offeringIds" (id ∷ ids)

unfoldable pub validate_offering_ids : NodeGroup → Option Refusal
unfolding validate_offerings
validate_offering_ids g = validate_offerings g.offering_ids

abbrev pub validate_limit : (limit : ℕ) (field : String) → ℤ → Option Refusal
validate_limit limit field n =
    if is_negative n
    then some (negative field)
    else if ltbℤ (pos limit) n
    then some (too_large field)
    else none

abbrev pub validate_percent : (field : String) → ℤ → Option Refusal
validate_percent field n =
    if is_negative n || ltbℤ (pos 100) n then some (outside_percent field) else none

unfoldable pub validate_scale_up_policy : NodeGroup → Option Refusal
validate_scale_up_policy g =
    let p = g.scale_up_policy in
    first_refusal (
      validate_limit 1800 "spec.scaleUpPolicy.stabilizationWindowSeconds"
        p.stabilization_window_seconds
      ∷ validate_percent "spec.scaleUpPolicy.cpuThreshold" p.cpu_threshold
      ∷ validate_percent "spec.scaleUpPolicy.memoryThreshold" p.memory_threshold
      ∷ [])

unfoldable pub validate_scale_down_policy : NodeGroup → Option Refusal
validate_scale_down_policy g =
    let p = g.scale_down_policy in
    first_refusal (
      validate_limit 3600 "spec.scaleDownPolicy.cooldownSeconds" p.cooldown_seconds
      ∷ validate_limit 3600 "spec.scaleDownPolicy.stabilizationWindowSeconds"
          p.stabilization_window_seconds
      ∷ validate_percent "spec.scaleDownPolicy.cpuThreshold" p.cpu_threshold
      ∷ validate_percent "spec.scaleDownPolicy.memoryThreshold" p.memory_threshold
      ∷ [])

unfoldable pub has_reserved_prefix : String → Bool
unfolding is_prefix
has_reserved_prefix key =
    any (λ prefix. is_prefix (codes prefix) (codes key)) ("kubernetes.io/" ∷ "k8s.io/" ∷ [])

unfoldable pub validate_label : (key value : String) → Option Refusal
unfolding matches has_reserved_prefix
validate_label key value =
    if not (matches label_key (codes key))
    then some (malformed_key key)
    else if ltb 253 (length (codes key))
    then some (long_key key)
    else if not (value =ₛ "") && not (matches label_value (codes value))
    then some (malformed_value key)
    else if ltb 63 (length (codes value))
    then some (long_value key)
    else if has_reserved_prefix key
    then some (reserved_key key)
    else none

unfoldable pub validate_labels : List (String × String) → Option Refusal
unfolding validate_label
validate_labels [] = none
validate_labels ((key, value) ∷ labels) =
    let rest = validate_labels labels in
    elim (validate_label key value) [ none ↦ rest | some r ↦ some r ]

abbrev pub valid_effects : List String
valid_effects = "NoSchedule" ∷ "PreferNoSchedule" ∷ "NoExecute" ∷ []

unfoldable pub validate_taint : ℕ → Taint → Option Refusal
unfolding has_reserved_prefix
validate_taint index t =
    if t.key =ₛ ""
    then some (missing_taint_key index)
    else if not (any (λ effect. t.effect =ₛ effect) valid_effects)
    then some (unknown_effect index)
    else if has_reserved_prefix t.key
    then some (reserved_taint_key index)
    else none

unfoldable pub validate_taints : ℕ → List Taint → Option Refusal
unfolding validate_taint
validate_taints index [] = none
validate_taints index (t ∷ ts) =
    let rest = validate_taints (suc index) ts in
    elim (validate_taint index t) [ none ↦ rest | some r ↦ some r ]

abbrev pub is_checked : Operation → Bool
is_checked create = true
is_checked update = true
is_checked delete = false
is_checked connect = false

unfoldable pub group_checks : NodeGroup → List (Option Refusal)
unfolding validate_namespace validate_node_count validate_required validate_optional
    validate_offering_ids validate_scale_up_policy validate_scale_down_policy validate_labels
    validate_taints
group_checks g =
    validate_namespace g.namespace
    ∷ validate_node_count g
    ∷ validate_required valid_datacenter "spec.datacenterID" g.datacenter_id
    ∷ validate_offering_ids g
    ∷ validate_required valid_kubernetes_version "spec.kubernetesVersion" g.kubernetes_version
    ∷ validate_optional valid_os_image "spec.osImageId" g.os_image_id
    ∷ validate_scale_up_policy g
    ∷ validate_scale_down_policy g
    ∷ validate_labels g.labels
    ∷ validate_taints 0 g.taints
    ∷ []

unfoldable pub validate : NodeGroup → Operation → Option Refusal
unfolding group_checks
validate g op = if is_checked op then first_refusal (group_checks g) else none
