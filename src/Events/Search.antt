-- ===== src/Events/Search.antt =====
-- The match of pods and groups of pkg/events/analyzer.go, and the search of scaleup.go (HandleScaleUp),
-- which creates a group if none matches.
use vpsie_k8s_autoscaler.Prelude.{
  String, ◌=ₛ◌, lookup, Bool, true, false, ◌&&◌, none, some, List, [], ◌∷◌, ◌++◌, any, all,
  if◌then◌else◌,
}
use vpsie_k8s_autoscaler.Cluster.{Taint, Toleration}
use vpsie_k8s_autoscaler.Webhook.{NodeGroup}
use vpsie_k8s_autoscaler.Events.Offers.{PendingPod}
use vpsie_k8s_autoscaler.Events.Creator.{DynamicGroup, Creation, created}

unfoldable pub selects : List (String × String) → (labels : List (String × String)) → Bool
unfolding lookup
selects selector labels =
    all (λ (key, value). elim (lookup key labels) [ none ↦ false | some v ↦ v =ₛ value ]) selector

abbrev pub matches_labels : (selector labels : List (String × String)) → Bool
matches_labels [] [] = true
matches_labels [] (l ∷ ls) = false
matches_labels (s ∷ ss) [] = false
matches_labels (s ∷ ss) (l ∷ ls) = selects (s ∷ ss) (l ∷ ls)

-- `tolerates` is the method of the Kubernetes API.
module _ (tolerates : Toleration → Taint → Bool) where
  unfoldable pub pod_tolerates_taints : List Toleration → List Taint → Bool
  pod_tolerates_taints ts taints = all (λ taint. any (λ t. tolerates t taint) ts) taints

  unfoldable pub pod_matches_node_group : PendingPod → NodeGroup → Bool
  unfolding pod_tolerates_taints
  pod_matches_node_group p g =
      matches_labels p.node_selector g.labels && pod_tolerates_taints p.tolerations g.taints

  abbrev pub matches_any : List PendingPod → DynamicGroup → Bool
  matches_any ps g = g.managed && any (λ p. pod_matches_node_group p g.object) ps

  -- The groups with a matching pod, unsorted.
  unfoldable pub find_matching_node_groups : List PendingPod → List DynamicGroup → List DynamicGroup
  unfolding pod_matches_node_group
  find_matching_node_groups ps [] = []
  find_matching_node_groups ps (g ∷ gs) =
      let rest = find_matching_node_groups ps gs in if matches_any ps g then g ∷ rest else rest

  abbrev pub with_created : List PendingPod → List DynamicGroup → Creation → List DynamicGroup
  with_created ps gs (created g) = find_matching_node_groups ps (gs ++ (g ∷ []))
  with_created ps gs _ = []

  abbrev pub search_again :
      List PendingPod
      → List DynamicGroup
      → (PendingPod → Creation)
      → (matches : List DynamicGroup) → List DynamicGroup
  search_again [] gs create [] = []
  search_again (p ∷ ps) gs create [] = with_created (p ∷ ps) gs (create p)
  search_again ps gs create (m ∷ ms) = m ∷ ms

  -- The groups that HandleScaleUp decides on; a group is created for the first pod if none matches.
  unfoldable pub groups_to_scale :
      (PendingPod → Creation) → List PendingPod → List DynamicGroup → List DynamicGroup
  unfolding find_matching_node_groups
  groups_to_scale create ps gs = search_again ps gs create (find_matching_node_groups ps gs)
