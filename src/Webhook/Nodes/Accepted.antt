-- ===== src/Webhook/Nodes/Accepted.antt =====
-- Which VPSieNode objects are admitted, and which groups that are admitted can have one.
use vpsie_k8s_autoscaler.Prelude.{
  ◌≤◌, ◌<◌, ◌≡◌, ◌↔◌, ◌⊎◌, inl, inr, refl, sym, ◌∙◌, String, ◌=ₛ◌, text_eq_iff, codes, true, false,
  Option, none, some, List, [], ◌∷◌, All, length, ltb, Bool-cases, if◌then◌else◌, arith,
}
use vpsie_k8s_autoscaler.Webhook.{Operation, create, NodeGroup, VpsieNode, Refusal, name_too_long}
use vpsie_k8s_autoscaler.Webhook.Regex.{nullable}
use vpsie_k8s_autoscaler.Webhook.Regex.Meaning.{Matches}
use vpsie_k8s_autoscaler.Webhook.Patterns.{
  valid_node_group_name, valid_datacenter, valid_offering_id, valid_kubernetes_version,
  valid_os_image,
}
use vpsie_k8s_autoscaler.Webhook.Fields.{first_refusal, validate_required}
use vpsie_k8s_autoscaler.Webhook.Fields.Accepted.{
  Distinct, checked_iff, first_refusal_iff, validate_namespace_iff, validate_required_iff,
  validate_optional_iff, validate_ids_iff,
}
use vpsie_k8s_autoscaler.Webhook.Groups
use vpsie_k8s_autoscaler.Webhook.Groups.{is_checked}
use vpsie_k8s_autoscaler.Webhook.Groups.Accepted as Admission
use vpsie_k8s_autoscaler.Webhook.Nodes.{
  validate_node_group_ref, validate_ssh_key_ids, node_checks, validate, node_for, new_node_from,
  new_node_of,
}

-- A name that Kubernetes gives an object.
abbrev pub IsName : String → Type 0
IsName name = Matches valid_node_group_name (codes name) × (length (codes name) ≤ 253)

abbrev pub KeysAccepted : List String → Type 0
KeysAccepted keys = All (λ key. Matches valid_datacenter (codes key)) keys × Distinct keys

pub record NodeAccepted (n : VpsieNode) : Type 0 where
  pub namespace : n.namespace ≡ "kube-system"
  pub node_group : IsName n.node_group_name
  pub datacenter : Matches valid_datacenter (codes n.datacenter_id)
  pub instance_type : Matches valid_offering_id (codes n.instance_type)
  pub version : Matches valid_kubernetes_version (codes n.kubernetes_version)
  pub os_image : (n.os_image_id ≡ "") ⊎ Matches valid_os_image (codes n.os_image_id)
  pub ssh_keys : KeysAccepted n.ssh_key_ids

validate_node_group_ref_iff : (name : String) → (validate_node_group_ref name ≡ none) ↔ IsName name
unfolding validate_node_group_ref nullable
validate_node_group_ref_iff name =
    let form = validate_required_iff valid_node_group_name "spec.nodeGroupName" name refl in
    let long : Option Refusal =
      if ltb 253 (length (codes name)) then some name_too_long else none in
    let all =
      first_refusal_iff
        (validate_required valid_node_group_name "spec.nodeGroupName" name ∷ long ∷ []) in
    (
      λ h. let (a, (b, done)) = all.0 h in (form.0 a, ground arith),
      λ (a, b). all.1 (form.1 a, (ground arith, tt)),
    )

validate_ssh_key_ids_iff :
    (keys : List String) → (validate_ssh_key_ids keys ≡ none) ↔ KeysAccepted keys
unfolding validate_ssh_key_ids nullable
validate_ssh_key_ids_iff [] = (λ h. (tt, tt), λ h. refl)
validate_ssh_key_ids_iff (key ∷ keys) =
    validate_ids_iff valid_datacenter "spec.sshKeyIds" (key ∷ keys) refl

checks_iff : (n : VpsieNode) → (first_refusal (node_checks n) ≡ none) ↔ NodeAccepted n
unfolding node_checks nullable
checks_iff n =
    let all = first_refusal_iff (node_checks n) in
    let datacenter =
      validate_required_iff valid_datacenter "spec.datacenterID" n.datacenter_id refl in
    let instance_type =
      validate_required_iff valid_offering_id "spec.instanceType" n.instance_type refl in
    let version =
      validate_required_iff valid_kubernetes_version "spec.kubernetesVersion" n.kubernetes_version
        refl in
    let os_image = validate_optional_iff valid_os_image "spec.osImageId" n.os_image_id in
    (
      λ h.
          let (a, (b, (c, (d, (e, (f, (k, done))))))) = all.0 h in
          record {
            namespace = (validate_namespace_iff n.namespace).0 a;
            node_group = (validate_node_group_ref_iff n.node_group_name).0 b;
            datacenter = datacenter.0 c;
            instance_type = instance_type.0 d;
            version = version.0 e;
            os_image = os_image.0 f;
            ssh_keys = (validate_ssh_key_ids_iff n.ssh_key_ids).0 k;
          },
      λ a. all.1 (
        (validate_namespace_iff n.namespace).1 a.namespace,
        (
          (validate_node_group_ref_iff n.node_group_name).1 a.node_group,
          (
            datacenter.1 a.datacenter,
            (
              instance_type.1 a.instance_type,
              (
                version.1 a.version,
                (
                  os_image.1 a.os_image,
                  ((validate_ssh_key_ids_iff n.ssh_key_ids).1 a.ssh_keys, tt),
                ),
              ),
            ),
          ),
        ),
      ),
    )

-- The operations create and update admit exactly the VPSieNode objects whose fields are as documented;
-- every other operation is admitted.
pub validate_node_iff :
    (n : VpsieNode) (op : Operation)
    → (validate n op ≡ none) ↔ ((is_checked op ≡ false) ⊎ NodeAccepted n)
unfolding validate
validate_node_iff n op = checked_iff (is_checked op) (first_refusal (node_checks n)) (checks_iff n)

-- No instance type is preferred, or one with the form of an offering.
abbrev pub PreferenceAccepted : NodeGroup → Type 0
PreferenceAccepted g =
    (g.preferred_instance_type ≡ "") ⊎ Matches valid_offering_id (codes g.preferred_instance_type)

instance_type_iff :
    (preferred first : String)
    → Matches valid_offering_id (codes first)
    → Matches valid_offering_id (codes (if preferred =ₛ "" then first else preferred))
      ↔ ((preferred ≡ "") ⊎ Matches valid_offering_id (codes preferred))
instance_type_iff preferred first offered = elim (Bool-cases (preferred =ₛ "")) [
  | inl e ↦ rw e (λ h. inl ((text_eq_iff preferred "").0 e), λ h. offered)
  | inr e ↦ rw e (
    λ h. inr h,
    λ h. elim h [
      | inl same ↦
          (let clash : true ≡ false = sym ((text_eq_iff preferred "").1 same) ∙ e in
            absurd (apart clash))
      | inr m ↦ m
    ],
  )
]
  where
    apart : true ≡ false → ⊥
    apart clash = cc

node_for_iff :
    (g : NodeGroup) (first : String)
    → Admission.Accepted g
    → IsName g.name
    → Matches valid_offering_id (codes first)
    → (validate (node_for g first) create ≡ none)
      ↔ (PreferenceAccepted g × KeysAccepted g.ssh_key_ids)
unfolding node_for
node_for_iff g first a named offered =
    let verdict = validate_node_iff (node_for g first) create in
    let chosen = instance_type_iff g.preferred_instance_type first offered in
    (
      λ h. elim (verdict.0 h) [ inl never ↦ cc | inr n ↦ (chosen.0 n.instance_type, n.ssh_keys) ],
      λ (preferred, keys). verdict.1 (
          inr record {
            namespace = a.namespace;
            node_group = named;
            datacenter = a.datacenter;
            instance_type = chosen.1 preferred;
            version = a.version;
            os_image = a.os_image;
            ssh_keys = keys;
          }),
    )

new_node_from_iff :
    (g : NodeGroup) (ids : List String)
    → Admission.Accepted g
    → IsName g.name
    → 0 < length ids
    → All (λ id. Matches valid_offering_id (codes id)) ids
    → (n : VpsieNode) × (new_node_from g ids ≡ some n)
      × ((validate n create ≡ none) ↔ (PreferenceAccepted g × KeysAccepted g.ssh_key_ids))
unfolding new_node_from
new_node_from_iff g [] a named some_id offered = absurd (omega arith)
new_node_from_iff g (id ∷ ids) a named some_id offered =
    (node_for g id, refl, node_for_iff g id a named offered.0)

-- Of a group that was admitted, with a name of Kubernetes, a new VPSieNode object is made, and it is
-- admitted exactly if the preferred instance type, if there is one, has the form of an offering and the
-- SSH keys are well-formed and differ: the two fields that the admission of groups does not look at.
pub new_node_admitted_iff :
    (g : NodeGroup)
    → Groups.validate g create ≡ none
    → IsName g.name
    → (n : VpsieNode) × (new_node_of g ≡ some n)
      × ((validate n create ≡ none) ↔ (PreferenceAccepted g × KeysAccepted g.ssh_key_ids))
unfolding new_node_of
new_node_admitted_iff g admitted named = elim ((Admission.validate_iff g create).0 admitted) [
  | inl never ↦ absurd (create_is_checked never)
  | inr a ↦
      let (some_id, forms, distinct) = a.offerings in
      new_node_from_iff g g.offering_ids a named some_id forms
]
  where
    create_is_checked : is_checked create ≡ false → ⊥
    create_is_checked never = cc
