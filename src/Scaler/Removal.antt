-- ===== src/Scaler/Removal.antt =====
-- pkg/scaler/safety.go, utilization.go and scaler.go: whether a node may be removed, all checks in order.
pub mod OnlyNode
use vpsie_k8s_autoscaler.Prelude.{
  ℕ, zero, suc, ◌+◌, ◌-◌, ◌≡◌, ℤ, pos, negsuc, ◌+ℤ◌, ◌-ℤ◌, ltbℤ, sub_ℕ, String, ◌=ₛ◌, codes, Bool,
  true, false, not, ◌&&◌, ◌||◌, Option, none, some, List, [], ◌∷◌, ◌++◌, length, any, ltb, leb,
  if◌then◌else◌,
}
use vpsie_k8s_autoscaler.Prelude.Floats.{Floats}
use vpsie_k8s_autoscaler.Cluster.{get, Resources, Node, PodTerm, Affinity, Pod}
use vpsie_k8s_autoscaler.Scaler.Safety.{
  Reason, local_storage, rescheduling, system_pods, affinity, capacity, protection, Verdict, safe,
  unsafe, check_failed, Kube, has_pods_with_local_storage, has_unique_system_pods, zero_resources,
  add_resources, calculate_resource_requests, is_available, free_resources, count_ready,
  resolve_target_namespaces, matching_pods, crowds,
}

-- `checkAntiAffinityTerm`: `none` is an error.
unfoldable pub check_anti_affinity_term : Kube → Pod → PodTerm → Option Bool
check_anti_affinity_term k p term =
    if k.is_valid_selector term.label_selector
    then elim (resolve_target_namespaces k term p.namespace) [
      | none ↦ none
      | some ns ↦ elim (matching_pods k term.label_selector ns) [
        | none ↦ none
        | some ps ↦ crowds k term ps
      ]
    ]
    else none

unfoldable pub check_terms : Kube → Pod → List PodTerm → Option Bool
unfolding check_anti_affinity_term
check_terms k p [] = some false
check_terms k p (t ∷ ts) =
    let rest = check_terms k p ts in
    elim (check_anti_affinity_term k p t) [
      | none ↦ none
      | some violated ↦ if violated then some true else rest
    ]

abbrev pub anti_terms_of : Option Affinity → List PodTerm
anti_terms_of none = []
anti_terms_of (some a) = elim a.pod_anti_terms [ none ↦ [] | some ts ↦ ts ]

unfoldable pub has_anti_affinity_violations : Kube → List Pod → Option Bool
unfolding check_terms
has_anti_affinity_violations k [] = some false
has_anti_affinity_violations k (p ∷ ps) =
    let rest = has_anti_affinity_violations k ps in
    elim (check_terms k p (anti_terms_of p.affinity)) [
      | none ↦ none
      | some violated ↦ if violated then some true else rest
    ]

unfoldable pub is_node_protected : Node → Bool
is_node_protected n =
    (elim (get "autoscaler.vpsie.com/protected" n.annotations) [
      | none ↦ false
      | some v ↦ v =ₛ "true"
    ])
    || elim (get "autoscaler.vpsie.com/scale-down-disabled" n.labels) [
      | none ↦ false
      | some v ↦ v =ₛ "true"
    ]

-- The allocatable resources and the requests of the nodes that stay; `none` is an error.
unfoldable pub remaining : Kube → String → List Node → Option (Resources × Resources)
unfolding add_resources calculate_resource_requests
remaining k removed [] = some (zero_resources, zero_resources)
remaining k removed (n ∷ ns) =
    let rest = remaining k removed ns in
    if n.name =ₛ removed then rest else elim (k.pods_on n.name) [
      | none ↦ none
      | some ps ↦ elim rest [
        | none ↦ none
        | some (total, used) ↦
            some (
              add_resources n.allocatable total,
              add_resources (calculate_resource_requests ps) used,
            )
      ]
    ]

module _ (F : Floats) where
  open F use {Float, of_int, literal, to_int, mul, div, lt}

  -- `int64(float64(n) * 1.2)`
  abbrev pub with_buffer : ℤ → ℤ
  with_buffer n = to_int (mul (of_int n) (literal 12 10))

  unfoldable pub can_pods_be_rescheduled : Kube → List Pod → Option Bool
  unfolding free_resources calculate_resource_requests
  can_pods_be_rescheduled k ps = elim k.nodes [
    | none ↦ none
    | some ns ↦
        if ltb 0 (count_ready ns)
        then (let free = free_resources k ns in
            let wanted = calculate_resource_requests ps in
            some (
              not (ltbℤ free.cpu (with_buffer wanted.cpu))
              && not (ltbℤ free.memory (with_buffer wanted.memory))))
        else some false
  ]

  -- One figure of `PredictUtilizationAfterRemoval`: the average scaled to the worst case.
  abbrev pub worst : ℕ → ℕ → ℤ → ℤ → Float
  worst all_nodes left total used =
      let average =
        if ltbℤ (pos 0) total
        then mul (div (of_int used) (of_int total)) (literal 100 1)
        else literal 0 1 in
      if ltb 0 left
      then div (mul average (of_int (pos all_nodes))) (of_int (pos left))
      else literal 0 1

  unfoldable pub predict_utilization_after_removal :
      Kube → Node → List Node → Option (Float × Float)
  unfolding remaining
  predict_utilization_after_removal k n ns = elim (remaining k n.name ns) [
    | none ↦ none
    | some (total, used) ↦ elim (k.pods_on n.name) [
      | none ↦ none
      | some ps ↦
          let moved = add_resources (calculate_resource_requests ps) used in
          some (
            worst (length ns) (length ns - 1) total.cpu moved.cpu,
            worst (length ns) (length ns - 1) total.memory moved.memory,
          )
    ]
  ]

  unfoldable pub has_insufficient_capacity : Kube → Node → Option Bool
  unfolding predict_utilization_after_removal
  has_insufficient_capacity k n = elim k.nodes [
    | none ↦ none
    | some ns ↦ elim (predict_utilization_after_removal k n ns) [
      | none ↦ none
      | some (cpu, memory) ↦ some (lt (literal 85 1) cpu || lt (literal 85 1) memory)
    ]
  ]

  -- One check of the sequence: its answer, what makes it fail, and the checks after it.
  abbrev check : Option Bool → Bool → Reason → Verdict → Verdict
  check none bad reason rest = check_failed
  check (some true) true reason rest = unsafe reason
  check (some false) false reason rest = unsafe reason
  check (some true) false reason rest = rest
  check (some false) true reason rest = rest

  unfoldable pub is_safe_to_remove : Kube → Node → List Pod → Verdict
  is_safe_to_remove k n ps = check (some (has_pods_with_local_storage k ps)) true local_storage (
      check (can_pods_be_rescheduled k ps) false rescheduling (
        check (some (has_unique_system_pods ps)) true system_pods (
          check (has_anti_affinity_violations k ps) true affinity (
            check (has_insufficient_capacity k n) true capacity
              (check (some (is_node_protected n)) true protection safe)))))
