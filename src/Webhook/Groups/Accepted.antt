-- ===== src/Webhook/Groups/Accepted.antt =====
-- Which node groups are admitted.
use vpsie_k8s_autoscaler.Prelude.{
  ℕ, suc, ◌≤◌, ◌<◌, ◌≡◌, ◌≢◌, ◌↔◌, ◌⊎◌, refl, ap, ℤ, pos, ◌≤ℤ◌, String, ◌=ₛ◌, text_eq_iff, codes,
  Bool, true, false, not, ◌&&◌, Option, none, some, List, [], ◌∷◌, ◌++◌, All, Some, length, ltb,
  if◌then◌else◌, arith,
}
use vpsie_k8s_autoscaler.Cluster.{Taint}
use vpsie_k8s_autoscaler.Lifecycle.Errors.{is_prefix}
use vpsie_k8s_autoscaler.Webhook.{Operation, NodeGroup, Refusal}
use vpsie_k8s_autoscaler.Webhook.Regex.{nullable, matches}
use vpsie_k8s_autoscaler.Webhook.Regex.Meaning.{Matches, matches_iff}
use vpsie_k8s_autoscaler.Webhook.Patterns.{
  valid_datacenter, valid_offering_id, valid_kubernetes_version, valid_os_image, label_key,
  label_value,
}
use vpsie_k8s_autoscaler.Webhook.Fields.{first_refusal}
use vpsie_k8s_autoscaler.Webhook.Fields.Accepted.{
  Distinct, checked_iff, first_refusal_iff, three_iff, four_iff, validate_namespace_iff,
  validate_required_iff, validate_optional_iff, validate_ids_iff,
}
use vpsie_k8s_autoscaler.Webhook.Groups.{
  validate_node_count, validate_offerings, validate_offering_ids, validate_limit, validate_percent,
  validate_scale_up_policy, validate_scale_down_policy, has_reserved_prefix, validate_label,
  validate_labels, valid_effects, validate_taint, validate_taints, is_checked, group_checks,
  validate,
}

abbrev pub Within : (limit : ℕ) → ℤ → Type 0
Within limit n = (pos 0 ≤ℤ n) × (n ≤ℤ pos limit)

abbrev pub reserved_prefixes : List String
reserved_prefixes = "kubernetes.io/" ∷ "k8s.io/" ∷ []

-- The key starts with a reserved prefix.
abbrev pub Reserved : String → Type 0
Reserved key =
    Some (λ prefix. (rest : List ℕ) × (codes key ≡ codes prefix ++ rest)) reserved_prefixes

pub record LabelAccepted (key value : String) : Type 0 where
  pub key_form : Matches label_key (codes key)
  pub key_length : length (codes key) ≤ 253
  pub value_form : (value ≡ "") ⊎ Matches label_value (codes value)
  pub value_length : length (codes value) ≤ 63
  pub own : ¬ Reserved key

pub record TaintAccepted (t : Taint) : Type 0 where
  pub named : t.key ≢ ""
  pub known : Some (λ effect. t.effect ≡ effect) valid_effects
  pub own : ¬ Reserved t.key

-- What the documentation of the fields asks of a group.
pub record Accepted (g : NodeGroup) : Type 0 where
  pub namespace : g.namespace ≡ "kube-system"
  pub counts : (pos 0 ≤ℤ g.min_nodes) × (g.min_nodes ≤ℤ g.max_nodes) × (g.max_nodes ≤ℤ pos 1000)
  pub datacenter : Matches valid_datacenter (codes g.datacenter_id)
  pub offerings :
      (0 < length g.offering_ids)
      × All (λ id. Matches valid_offering_id (codes id)) g.offering_ids
      × Distinct g.offering_ids
  pub version : Matches valid_kubernetes_version (codes g.kubernetes_version)
  pub os_image : (g.os_image_id ≡ "") ⊎ Matches valid_os_image (codes g.os_image_id)
  pub scale_up :
      Within 1800 g.scale_up_policy.stabilization_window_seconds
      × Within 100 g.scale_up_policy.cpu_threshold
      × Within 100 g.scale_up_policy.memory_threshold
  pub scale_down :
      Within 3600 g.scale_down_policy.cooldown_seconds
      × Within 3600 g.scale_down_policy.stabilization_window_seconds
      × Within 100 g.scale_down_policy.cpu_threshold
      × Within 100 g.scale_down_policy.memory_threshold
  pub labels : All (λ l. LabelAccepted l.0 l.1) g.labels
  pub taints : All TaintAccepted g.taints

validate_node_count_iff :
    (g : NodeGroup)
    → (validate_node_count g ≡ none)
      ↔ ((pos 0 ≤ℤ g.min_nodes) × (g.min_nodes ≤ℤ g.max_nodes) × (g.max_nodes ≤ℤ pos 1000))
unfolding validate_node_count
validate_node_count_iff g = ground arith

validate_limit_iff :
    (limit : ℕ) (field : String) (n : ℤ) → (validate_limit limit field n ≡ none) ↔ Within limit n
validate_limit_iff limit field n = ground arith

validate_percent_iff : (field : String) (n : ℤ) → (validate_percent field n ≡ none) ↔ Within 100 n
validate_percent_iff field n = ground arith

validate_scale_up_policy_iff :
    (g : NodeGroup)
    → (validate_scale_up_policy g ≡ none) ↔ (
        Within 1800 g.scale_up_policy.stabilization_window_seconds
        × Within 100 g.scale_up_policy.cpu_threshold
        × Within 100 g.scale_up_policy.memory_threshold)
unfolding validate_scale_up_policy
validate_scale_up_policy_iff g =
    let p = g.scale_up_policy in
    three_iff
      (validate_limit_iff 1800 "spec.scaleUpPolicy.stabilizationWindowSeconds"
        p.stabilization_window_seconds)
      (validate_percent_iff "spec.scaleUpPolicy.cpuThreshold" p.cpu_threshold)
      (validate_percent_iff "spec.scaleUpPolicy.memoryThreshold" p.memory_threshold)

validate_scale_down_policy_iff :
    (g : NodeGroup)
    → (validate_scale_down_policy g ≡ none) ↔ (
        Within 3600 g.scale_down_policy.cooldown_seconds
        × Within 3600 g.scale_down_policy.stabilization_window_seconds
        × Within 100 g.scale_down_policy.cpu_threshold
        × Within 100 g.scale_down_policy.memory_threshold)
unfolding validate_scale_down_policy
validate_scale_down_policy_iff g =
    let p = g.scale_down_policy in
    four_iff (validate_limit_iff 3600 "spec.scaleDownPolicy.cooldownSeconds" p.cooldown_seconds)
      (validate_limit_iff 3600 "spec.scaleDownPolicy.stabilizationWindowSeconds"
        p.stabilization_window_seconds)
      (validate_percent_iff "spec.scaleDownPolicy.cpuThreshold" p.cpu_threshold)
      (validate_percent_iff "spec.scaleDownPolicy.memoryThreshold" p.memory_threshold)

offerings_iff :
    (ids : List String)
    → (validate_offerings ids ≡ none)
      ↔ ((0 < length ids) × All (λ id. Matches valid_offering_id (codes id)) ids × Distinct ids)
unfolding nullable validate_offerings
offerings_iff [] = (λ h. cc, λ (h, m, d). absurd (omega arith))
offerings_iff (id ∷ ids) =
    let (fro, to) = validate_ids_iff valid_offering_id "spec.offeringIds" (id ∷ ids) refl in
    (λ h. let (m, d) = fro h in (omega arith, m, d), λ (h, m, d). to (m, d))

validate_offering_ids_iff :
    (g : NodeGroup)
    → (validate_offering_ids g ≡ none) ↔ (
        (0 < length g.offering_ids)
        × All (λ id. Matches valid_offering_id (codes id)) g.offering_ids
        × Distinct g.offering_ids)
unfolding validate_offering_ids
validate_offering_ids_iff g = offerings_iff g.offering_ids

is_prefix_iff : (p s : List ℕ) → (is_prefix p s ≡ true) ↔ ((rest : List ℕ) × (s ≡ p ++ rest))
unfolding is_prefix
is_prefix_iff [] s = (λ h. (s, refl), λ h. refl)
is_prefix_iff (c ∷ p) [] = (λ h. cc, λ (rest, e). cc)
is_prefix_iff (c ∷ p) (d ∷ s) = (
  λ h.
      let same : c ≡ d = ground arith in
      let (rest, e) = (is_prefix_iff p s).0 (ground arith) in (rest, rw same (ap (◌∷◌ d) e)),
  λ (rest, e).
      let same : c ≡ d = cc in
      let tail : s ≡ p ++ rest = cc in
      let here = (is_prefix_iff p s).1 (rest, tail) in ground arith,
)

has_reserved_prefix_iff : (key : String) → (has_reserved_prefix key ≡ false) ↔ (¬ Reserved key)
unfolding has_reserved_prefix
has_reserved_prefix_iff key = ground (
  arith,
  is_prefix_iff (codes "kubernetes.io/") (codes key),
  is_prefix_iff (codes "k8s.io/") (codes key),
)

rest_iff :
    {P Q : Type 0} {c rest : Option Refusal}
    → (c ≡ none) ↔ P
    → (rest ≡ none) ↔ Q
    → ((elim c [ none ↦ rest | some r ↦ some r ]) ≡ none) ↔ (P × Q)
rest_iff {c = none} p q = (λ h. (p.0 refl, q.0 h), λ (a, b). q.1 b)
rest_iff {c = some r} p q = (λ h. cc, λ (a, b). (let clash : some r ≡ none = p.1 a in cc))

guards_iff :
    (r₁ r₂ r₃ r₄ r₅ : Refusal) (a b c d e : Bool)
    → ((if not a
          then some r₁
          else if b
          then some r₂
          else if c
          then some r₃
          else if d
          then some r₄
          else if e
          then some r₅
          else none)
        ≡ none)
      ↔ ((a ≡ true) × (b ≡ false) × (c ≡ false) × (d ≡ false) × (e ≡ false))
guards_iff r₁ r₂ r₃ r₄ r₅ a b c d e = ground arith

short_iff : (limit : ℕ) (s : List ℕ) → (ltb limit (length s) ≡ false) ↔ (length s ≤ limit)
short_iff limit s = ground arith

value_form_iff :
    (value : String)
    → ((not (value =ₛ "") && not (matches label_value (codes value))) ≡ false)
      ↔ ((value ≡ "") ⊎ Matches label_value (codes value))
value_form_iff value = ground (arith, text_eq_iff value "", matches_iff label_value (codes value))

validate_label_iff :
    (key value : String) → (validate_label key value ≡ none) ↔ LabelAccepted key value
unfolding validate_label
validate_label_iff key value =
    let guards =
      guards_iff _ _ _ _ _ (matches label_key (codes key)) (ltb 253 (length (codes key)))
        (not (value =ₛ "") && not (matches label_value (codes value)))
        (ltb 63 (length (codes value))) (has_reserved_prefix key) in
    let key_form = matches_iff label_key (codes key) in
    let key_length = short_iff 253 (codes key) in
    let value_form = value_form_iff value in
    let value_length = short_iff 63 (codes value) in
    let own = has_reserved_prefix_iff key in
    (
      λ h.
          let (a, b, c, d, e) = guards.0 h in
          record {
            key_form = key_form.0 a;
            key_length = key_length.0 b;
            value_form = value_form.0 c;
            value_length = value_length.0 d;
            own = own.0 e;
          },
      λ a. guards.1 (
        key_form.1 a.key_form,
        key_length.1 a.key_length,
        value_form.1 a.value_form,
        value_length.1 a.value_length,
        own.1 a.own,
      ),
    )

validate_labels_iff :
    (labels : List (String × String))
    → (validate_labels labels ≡ none) ↔ All (λ l. LabelAccepted l.0 l.1) labels
unfolding validate_labels
validate_labels_iff [] = (λ h. tt, λ h. refl)
validate_labels_iff ((key, value) ∷ labels) =
    rest_iff (validate_label_iff key value) (validate_labels_iff labels)

validate_taint_iff : (index : ℕ) (t : Taint) → (validate_taint index t ≡ none) ↔ TaintAccepted t
unfolding validate_taint
validate_taint_iff index t = (
  λ h. record {
    named = ground (arith, text_eq_iff t.key "");
    known = ground (
      arith,
      text_eq_iff t.effect "NoSchedule",
      text_eq_iff t.effect "PreferNoSchedule",
      text_eq_iff t.effect "NoExecute",
    );
    own = (has_reserved_prefix_iff t.key).0 (ground arith);
  },
  λ a.
      let own = (has_reserved_prefix_iff t.key).1 a.own in
      let named = a.named in
      let known = a.known in
      ground (
        arith,
        text_eq_iff t.key "",
        text_eq_iff t.effect "NoSchedule",
        text_eq_iff t.effect "PreferNoSchedule",
        text_eq_iff t.effect "NoExecute",
      ),
)

validate_taints_iff :
    (index : ℕ) (ts : List Taint) → (validate_taints index ts ≡ none) ↔ All TaintAccepted ts
unfolding validate_taints
validate_taints_iff index [] = (λ h. tt, λ h. refl)
validate_taints_iff index (t ∷ ts) =
    rest_iff (validate_taint_iff index t) (validate_taints_iff (suc index) ts)

checks_iff : (g : NodeGroup) → (first_refusal (group_checks g) ≡ none) ↔ Accepted g
unfolding group_checks nullable
checks_iff g =
    let all = first_refusal_iff (group_checks g) in
    let datacenter =
      validate_required_iff valid_datacenter "spec.datacenterID" g.datacenter_id refl in
    let version =
      validate_required_iff valid_kubernetes_version "spec.kubernetesVersion" g.kubernetes_version
        refl in
    let os_image = validate_optional_iff valid_os_image "spec.osImageId" g.os_image_id in
    (
      λ h.
          let (a, (b, (c, (d, (e, (f, (u, (v, (l, (t, done)))))))))) = all.0 h in
          record {
            namespace = (validate_namespace_iff g.namespace).0 a;
            counts = (validate_node_count_iff g).0 b;
            datacenter = datacenter.0 c;
            offerings = (validate_offering_ids_iff g).0 d;
            version = version.0 e;
            os_image = os_image.0 f;
            scale_up = (validate_scale_up_policy_iff g).0 u;
            scale_down = (validate_scale_down_policy_iff g).0 v;
            labels = (validate_labels_iff g.labels).0 l;
            taints = (validate_taints_iff 0 g.taints).0 t;
          },
      λ a. all.1 (
        (validate_namespace_iff g.namespace).1 a.namespace,
        (
          (validate_node_count_iff g).1 a.counts,
          (
            datacenter.1 a.datacenter,
            (
              (validate_offering_ids_iff g).1 a.offerings,
              (
                version.1 a.version,
                (
                  os_image.1 a.os_image,
                  (
                    (validate_scale_up_policy_iff g).1 a.scale_up,
                    (
                      (validate_scale_down_policy_iff g).1 a.scale_down,
                      (
                        (validate_labels_iff g.labels).1 a.labels,
                        ((validate_taints_iff 0 g.taints).1 a.taints, tt),
                      ),
                    ),
                  ),
                ),
              ),
            ),
          ),
        ),
      ),
    )

pub validate_iff :
    (g : NodeGroup) (op : Operation)
    → (validate g op ≡ none) ↔ ((is_checked op ≡ false) ⊎ Accepted g)
unfolding validate
validate_iff g op = checked_iff (is_checked op) (first_refusal (group_checks g)) (checks_iff g)
