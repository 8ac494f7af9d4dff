-- ===== src/Rebalancer/Analyzer/Capacity.antt =====
-- pkg/rebalancer/analyzer.go: whether the pods of the candidates fit on the other nodes.
use vpsie_k8s_autoscaler.Prelude.{
  ℤ, pos, ◌+ℤ◌, ◌-ℤ◌, ltbℤ, String, ◌=ₛ◌, Bool, true, false, not, ◌&&◌, ◌||◌, Option, none, some,
  List, [], ◌∷◌, any, if◌then◌else◌,
}
use vpsie_k8s_autoscaler.Prelude.Floats.{Floats}
use vpsie_k8s_autoscaler.Cluster.{Resources, Node, is_node_ready, Pod}
use vpsie_k8s_autoscaler.Rebalancer.{CandidateNode}
use vpsie_k8s_autoscaler.Rebalancer.Nodes.{is_daemon_set_pod}

pub data CheckStatus : Type 0 where
  passed warned failed_check : CheckStatus

-- What the API server lists; `none` is an error.
pub record Answers : Type 0 where
  pub nodes : Option (List Node)
  pub pods_on : String → Option (List Pod)

abbrev pub zero_resources : Resources
zero_resources = record { cpu = pos 0; memory = pos 0 }

abbrev pub plus : Resources → Resources → Resources
plus a b = record { cpu = a.cpu +ℤ b.cpu; memory = a.memory +ℤ b.memory }

unfoldable pub sum_containers : List Resources → Resources
unfolding ◌+ℤ◌
sum_containers [] = zero_resources
sum_containers (r ∷ rs) = plus r (sum_containers rs)

abbrev larger : ℤ → ℤ → ℤ
larger a b = if ltbℤ a b then b else a

-- The largest of the init containers, which run one after the other, and zero.
unfoldable pub largest : List Resources → Resources
largest [] = zero_resources
largest (r ∷ rs) =
    let rest = largest rs in
    record { cpu = larger rest.cpu r.cpu; memory = larger rest.memory r.memory }

unfoldable pub calculate_pod_resource_requests : Pod → Resources
unfolding sum_containers largest
calculate_pod_resource_requests p =
    let running = sum_containers p.requests in
    let starting = largest p.init_requests in
    record { cpu = larger running.cpu starting.cpu; memory = larger running.memory starting.memory }

abbrev pub has_ended : Pod → Bool
has_ended p = p.phase =ₛ "Succeeded" || p.phase =ₛ "Failed"

-- The requests of the pods that have not ended, with or without those of daemon sets.
unfoldable pub sum_pods : (daemons : Bool) → List Pod → Resources
unfolding calculate_pod_resource_requests
sum_pods daemons [] = zero_resources
sum_pods daemons (p ∷ ps) =
    let rest = sum_pods daemons ps in
    if has_ended p || (not daemons && is_daemon_set_pod p)
    then rest
    else plus (calculate_pod_resource_requests p) rest

unfoldable pub requested : Answers → List CandidateNode → Option Resources
unfolding sum_pods
requested a [] = some zero_resources
requested a (n ∷ ns) =
    let rest = requested a ns in
    elim (a.pods_on n.node_name) [
      | none ↦ none
      | some ps ↦ elim rest [ none ↦ none | some r ↦ some (plus (sum_pods false ps) r) ]
    ]

abbrev pub is_usable : List CandidateNode → Node → Bool
is_usable ns n = not (any (λ c. c.node_name =ₛ n.name) ns) && not n.unschedulable && is_node_ready n

abbrev pub room : Answers → Node → Resources
room a n = elim (a.pods_on n.name) [
  | none ↦ zero_resources
  | some ps ↦ record {
    cpu = n.allocatable.cpu -ℤ (sum_pods true ps).cpu;
    memory = n.allocatable.memory -ℤ (sum_pods true ps).memory;
  }
]

-- A node whose pods cannot be listed adds nothing.
unfoldable pub available : Answers → List CandidateNode → List Node → Resources
unfolding sum_pods
available a ns [] = zero_resources
available a ns (n ∷ nodes) =
    let rest = available a ns nodes in if is_usable ns n then plus (room a n) rest else rest

module _ (F : Floats) where
  -- One fifth is added to what is requested.
  abbrev pub buffered : ℤ → ℤ
  buffered n = F.to_int (F.mul (F.of_int n) (F.literal 12 10))

  -- Less than half of what is required is left over.
  abbrev pub is_tight : ℤ → ℤ → Bool
  is_tight have need =
      F.lt (F.mul (F.div (F.of_int (have -ℤ need)) (F.of_int need)) (F.literal 100 1))
        (F.literal 50 1)

  unfoldable pub compare_capacity : (have want : Resources) → CheckStatus
  compare_capacity have want =
      let cpu = buffered want.cpu in
      let memory = buffered want.memory in
      if ltbℤ have.cpu cpu
      then failed_check
      else if ltbℤ have.memory memory
      then failed_check
      else if is_tight have.cpu cpu || is_tight have.memory memory
      then warned
      else passed

  -- `none`: an error is returned.
  unfoldable pub check_pod_resource_capacity : Answers → List CandidateNode → Option CheckStatus
  unfolding requested available compare_capacity
  check_pod_resource_capacity a ns = elim a.nodes [
    | none ↦ none
    | some nodes ↦ elim (requested a ns) [
      | none ↦ none
      | some want ↦ some (compare_capacity (available a ns nodes) want)
    ]
  ]
