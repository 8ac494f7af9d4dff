-- ===== src/Scaler/Scheduling.antt =====
-- pkg/scaler/safety.go: whether a pod may run on a node, by taints, node affinity and anti-affinity.
pub mod Meaning
use vpsie_k8s_autoscaler.Prelude.{
  String, ◌=ₛ◌, Bool, true, false, not, ◌&&◌, ◌||◌, Option, none, some, List, [], ◌∷◌, any, all,
  is_some, if◌then◌else◌,
}
use vpsie_k8s_autoscaler.Cluster.{
  StringMap, get, get_text, Taint, Node, Toleration, Requirement, LabelSelector, PodTerm, Affinity,
  Pod,
}

unfoldable pub toleration_matches : Toleration → Taint → Bool
toleration_matches t taint =
    if t.key =ₛ "" && t.operator =ₛ "Exists"
    then true
    else if not (t.key =ₛ taint.key)
    then false
    else if not (t.effect =ₛ "") && not (t.effect =ₛ taint.effect)
    then false
    else if t.operator =ₛ "Exists"
    then true
    else if t.operator =ₛ "Equal" || t.operator =ₛ ""
    then t.value =ₛ taint.value
    else false

unfoldable pub toleration_matches_taint : List Toleration → Taint → Bool
toleration_matches_taint ts taint = any (λ t. toleration_matches t taint) ts

abbrev pub is_hard : Taint → Bool
is_hard taint = taint.effect =ₛ "NoSchedule" || taint.effect =ₛ "NoExecute"

unfoldable pub tolerations_tolerate_taints : List Toleration → List Taint → Bool
tolerations_tolerate_taints ts [] = true
tolerations_tolerate_taints ts (taint ∷ taints) =
    if not (is_hard taint)
    then tolerations_tolerate_taints ts taints
    else if toleration_matches_taint ts taint
    then tolerations_tolerate_taints ts taints
    else false

unfoldable pub mentions : List String → String → Bool
mentions vs value = any (λ v. value =ₛ v) vs

-- With nil labels every label is absent.
unfoldable pub match_requirement : StringMap → Requirement → Bool
match_requirement none r = r.operator =ₛ "DoesNotExist" || r.operator =ₛ "NotIn"
match_requirement (some m) r =
    if r.operator =ₛ "In"
    then elim (get r.key (some m)) [ none ↦ false | some v ↦ mentions r.values v ]
    else if r.operator =ₛ "NotIn"
    then elim (get r.key (some m)) [ none ↦ true | some v ↦ not (mentions r.values v) ]
    else if r.operator =ₛ "Exists"
    then is_some (get r.key (some m))
    else if r.operator =ₛ "DoesNotExist"
    then not (is_some (get r.key (some m)))
    else false

abbrev none_of {ℓ} : {A : Type ℓ} → List A → Bool
none_of [] = true
none_of (x ∷ xs) = false

unfoldable pub matches_term : StringMap → List Requirement → Bool
matches_term labels rs = if none_of rs then true else all (match_requirement labels) rs

unfoldable pub matches_terms : StringMap → List (List Requirement) → Bool
matches_terms labels terms = if none_of terms then true else any (matches_term labels) terms

unfoldable pub matches_node_affinity : Pod → Node → Bool
matches_node_affinity pod n = elim pod.affinity [
  | none ↦ true
  | some a ↦ elim a.node_terms [
    | none ↦ true
    | some required ↦ elim required [ none ↦ true | some terms ↦ matches_terms n.labels terms ]
  ]
]

-- `metav1.LabelSelectorAsSelector` and `Matches` are an argument: `none` is an invalid selector.
module _ (selects : LabelSelector → StringMap → Option Bool) where
  abbrev selected : Option Bool → Bool
  selected none = false
  selected (some b) = b

  abbrev pub topology_host : Node → String
  topology_host n =
      let hostname = get_text "kubernetes.io/hostname" n.labels in
      if hostname =ₛ "" then n.name else hostname

  unfoldable pub matches_pod_affinity_term : Pod → PodTerm → Node → Bool
  matches_pod_affinity_term existing term n = elim term.label_selector [
    | none ↦ false
    | some s ↦
        if selected (selects s existing.labels)
        then (if term.topology_key =ₛ "kubernetes.io/hostname"
            then existing.node_name =ₛ topology_host n
            else false)
        else false
  ]

  unfoldable pub has_pod_anti_affinity_violation : Pod → Node → List Pod → Bool
  has_pod_anti_affinity_violation pod n existing = elim pod.affinity [
    | none ↦ false
    | some a ↦ elim a.pod_anti_terms [
      | none ↦ false
      | some terms ↦ any (λ term. any (λ p. matches_pod_affinity_term p term n) existing) terms
    ]
  ]
