-- ===== src/Scaler/Safety.antt =====
-- pkg/scaler/safety.go: the checks before a node is removed, and the sums of utilization.go that they
-- use. The cluster's answers are a record; `none` is an error of the call.
use vpsie_k8s_autoscaler.Prelude.{
  ℕ, suc, pos, ◌+ℤ◌, ◌-ℤ◌, ltbℤ, sub_ℕ, String, ◌=ₛ◌, codes, Bool, true, false, not, ◌&&◌, ◌||◌,
  Option, none, some, List, [], ◌∷◌, ◌++◌, length, any, ltb, if◌then◌else◌,
}
use vpsie_k8s_autoscaler.Cluster.{
  Resources, Node, is_node_ready, LabelSelector, PodTerm, Volume, Pod,
}
use vpsie_k8s_autoscaler.Lifecycle.Errors.{contains}

-- The names of the label `reason` of the metric of failed checks.
pub data Reason : Type 0 where
  local_storage rescheduling system_pods affinity capacity protection : Reason

pub data Verdict : Type 0 where
  safe : Verdict
  unsafe : Reason → Verdict
  check_failed : Verdict

-- A call that fails answers `none`. `pods_on` is getNodePods: the pods of a node that have not ended.
pub record Kube : Type 0 where
  pub nodes : Option (List Node)
  pub pods_on : String → Option (List Pod)
  pub claim_volume : String → String → Option String
  pub volume_is_local : String → Option Bool
  pub is_valid_selector : Option LabelSelector → Bool
  pub pods_in : String → Option LabelSelector → Option (List Pod)
  pub namespaces : LabelSelector → Option (List String)

abbrev system_namespaces : List String
system_namespaces =
    "kube-system" ∷ "kube-public" ∷ "kube-node-lease" ∷ "cilium" ∷ "calico-system" ∷ "flannel"
    ∷ "weave-net" ∷ "tigera-operator" ∷ []

unfoldable pub is_skippable_daemon_set_pod : Pod → Bool
is_skippable_daemon_set_pod p =
    any (λ kind. kind =ₛ "DaemonSet") p.owner_kinds && any (λ n. p.namespace =ₛ n) system_namespaces

unfoldable pub is_pvc_local : Kube → String → String → Option Bool
is_pvc_local k namespace claim = elim (k.claim_volume namespace claim) [
  | none ↦ none
  | some v ↦ if v =ₛ "" then some false else k.volume_is_local v
]

-- A claim that cannot be read counts as local.
abbrev or_true : Option Bool → Bool
or_true none = true
or_true (some b) = b

unfoldable pub uses_local_storage : Kube → String → Volume → Bool
unfolding is_pvc_local
uses_local_storage k namespace v =
    (elim v.empty_dir [ none ↦ false | some medium ↦ not (medium =ₛ "Memory") ])
    || v.host_path
    || elim v.claim [ none ↦ false | some claim ↦ or_true (is_pvc_local k namespace claim) ]

unfoldable pub has_pods_with_local_storage : Kube → List Pod → Bool
unfolding uses_local_storage is_skippable_daemon_set_pod
has_pods_with_local_storage k ps =
    any
      (λ p. not (is_skippable_daemon_set_pod p) && any (uses_local_storage k p.namespace) p.volumes)
      ps

abbrev critical_components : List String
critical_components = "kube-apiserver" ∷ "etcd" ∷ "kube-controller-manager" ∷ "kube-scheduler" ∷ []

unfoldable pub has_unique_system_pods : List Pod → Bool
has_unique_system_pods ps =
    any
      (λ p.
        p.namespace =ₛ "kube-system"
        && any (λ c. contains (codes p.name) (codes c)) critical_components)
      ps

abbrev pub zero_resources : Resources
zero_resources = record { cpu = pos 0; memory = pos 0 }

unfoldable pub add_resources : Resources → Resources → Resources
add_resources a b = record { cpu = a.cpu +ℤ b.cpu; memory = a.memory +ℤ b.memory }

unfoldable pub sum_requests : List Resources → Resources
unfolding add_resources
sum_requests [] = zero_resources
sum_requests (r ∷ rs) = add_resources r (sum_requests rs)

unfoldable pub calculate_resource_requests : List Pod → Resources
unfolding add_resources sum_requests
calculate_resource_requests [] = zero_resources
calculate_resource_requests (p ∷ ps) =
    add_resources (sum_requests p.requests) (calculate_resource_requests ps)

abbrev pub is_available : Node → Bool
is_available n = not n.unschedulable && is_node_ready n

-- What the available nodes have left; a node whose pods cannot be listed is passed over.
unfoldable pub free_resources : Kube → List Node → Resources
unfolding add_resources
free_resources k [] = zero_resources
free_resources k (n ∷ ns) =
    let rest = free_resources k ns in
    if is_available n
    then elim (k.pods_on n.name) [
      | none ↦ rest
      | some ps ↦
          let used = calculate_resource_requests ps in
          add_resources
            (record {
              cpu = n.allocatable.cpu -ℤ used.cpu;
              memory = n.allocatable.memory -ℤ used.memory;
            })
            rest
    ]
    else rest

unfoldable pub count_ready : List Node → ℕ
count_ready [] = 0
count_ready (n ∷ ns) = let rest = count_ready ns in if is_available n then suc rest else rest

-- `resolveTargetNamespaces`.
unfoldable pub resolve_target_namespaces : Kube → PodTerm → String → Option (List String)
resolve_target_namespaces k term own = elim term.namespace_selector [
  | none ↦ elim term.namespaces [ [] ↦ some (own ∷ []) | n ∷ ns ↦ some (n ∷ ns) ]
  | some s ↦ elim (k.namespaces s) [
    | none ↦ none
    | some found ↦ elim term.namespaces [ [] ↦ some found | n ∷ ns ↦ some (only_in found (n ∷ ns)) ]
  ]
]
  where
    only_in : List String → List String → List String
    only_in found [] = []
    only_in found (n ∷ ns) =
        if any (λ m. m =ₛ n) found then n ∷ only_in found ns else only_in found ns

-- The pods of all namespaces that the selector picks.
unfoldable pub matching_pods : Kube → Option LabelSelector → List String → Option (List Pod)
matching_pods k s [] = some []
matching_pods k s (n ∷ ns) =
    let rest = matching_pods k s ns in
    elim (k.pods_in n s) [
      | none ↦ none
      | some ps ↦ elim rest [ none ↦ none | some more ↦ some (ps ++ more) ]
    ]

-- `some true` is a violation. One node fewer must do for the pods that want a node each.
unfoldable pub crowds : Kube → PodTerm → List Pod → Option Bool
crowds k term ps =
    if ltb 0 (length ps) && term.topology_key =ₛ "kubernetes.io/hostname"
    then elim k.nodes [
      | none ↦ none
      | some ns ↦ some (ltbℤ (sub_ℕ (count_ready ns) 1) (pos (length ps)))
    ]
    else some false
