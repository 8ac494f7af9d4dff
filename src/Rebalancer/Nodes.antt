-- ===== src/Rebalancer/Nodes.antt =====
-- pkg/rebalancer/executor.go: the operations on one node. The Kubernetes API is a record of its answers
-- about each node, and each write that it is asked for stands in a list of calls.
use vpsie_k8s_autoscaler.Prelude.{
  ℕ, suc, ◌*◌, String, ◌=ₛ◌, Bool, true, false, ◌&&◌, ◌||◌, Option, none, some, List, [], ◌∷◌,
  length, any, is_some, leb, ltb, ◌==◌, if◌then◌else◌,
}
use vpsie_k8s_autoscaler.Cluster.{get, get_text, Node, Pod, NodeCondition}
use vpsie_k8s_autoscaler.Rebalancer.{CandidateNode, RebalancePlan}

-- Reads of a node, `none` an error, and writes, accepted or not. The polls are those before the
-- timeout: what is listed on a node that drains, and what a new node looks like.
pub record Kube : Type 0 where
  pub labelled : String → Option Node
  pub found : String → Option Node
  pub updates : String → Bool
  pub pods_on : String → Option (List Pod)
  pub drain_polls : String → List (Option (List Pod))
  pub ready_polls : String → List (Option Node)
  pub deletes : String → Bool
  pub found_later : String → Option Node
  pub updates_later : String → Bool
  pub nodes : Option (List Node)

pub data Call : Type 0 where
  cordon uncordon delete_node : String → Call
  evict : (namespace name : String) → Call

-- A condition Ready that is True, at any place.
abbrev pub shows_ready : List NodeCondition → Bool
shows_ready cs = any (λ c. c.condition_type =ₛ "Ready" && c.status =ₛ "True") cs

abbrev pub is_daemon_set_pod : Pod → Bool
is_daemon_set_pod p = any (λ kind. kind =ₛ "DaemonSet") p.owner_kinds

abbrev pub is_mirror_pod : Pod → Bool
is_mirror_pod p = is_some (get "kubernetes.io/config.mirror" p.annotations)

abbrev pub stays : Pod → Bool
stays p = is_daemon_set_pod p || is_mirror_pod p

-- The pods that are evicted; a refused eviction is only logged.
unfoldable pub evictions : List Pod → List Call
evictions [] = []
evictions (p ∷ ps) =
    let rest = evictions ps in if stays p then rest else evict p.namespace p.name ∷ rest

unfoldable pub remaining : List Pod → ℕ
remaining [] = 0
remaining (p ∷ ps) = let rest = remaining ps in if stays p then rest else suc rest

-- The polls until no pod is left, an error ends them, or the time is over.
unfoldable pub drains_in_time : List (Option (List Pod)) → Bool
unfolding remaining
drains_in_time [] = false
drains_in_time (none ∷ polls) = false
drains_in_time (some ps ∷ polls) = remaining ps == 0 || drains_in_time polls

-- The calls, and whether no error is returned.
pub record Done : Type 0 where
  pub calls : List Call
  pub ok : Bool

abbrev pub failing : List Call → Done
failing calls = record { calls = calls; ok = false }

unfoldable pub drain_pods : Kube → String → Option (List Pod) → Done
unfolding evictions drains_in_time
drain_pods k name none = failing (cordon name ∷ [])
drain_pods k name (some ps) = record {
  calls = cordon name ∷ evictions ps;
  ok = drains_in_time (k.drain_polls name);
}

unfoldable pub drain_found : Kube → String → Option Node → Done
unfolding drain_pods
drain_found k name none = failing []
drain_found k name (some n) =
    if k.updates name then drain_pods k name (k.pods_on name) else failing (cordon name ∷ [])

unfoldable pub drain_node : Kube → String → Done
unfolding drain_found
drain_node k name = drain_found k name (k.found name)

-- The machine itself is not touched: that call is not written yet.
unfoldable pub terminate_node : Kube → String → Done
terminate_node k name = record { calls = delete_node name ∷ []; ok = k.deletes name }

unfoldable pub wait_for_node_ready : List (Option Node) → Bool
wait_for_node_ready [] = false
wait_for_node_ready (none ∷ polls) = wait_for_node_ready polls
wait_for_node_ready (some n ∷ polls) = shows_ready n.conditions || wait_for_node_ready polls

unfoldable pub get_node_group_from_node : Kube → String → String
unfolding get_text
get_node_group_from_node k name = elim (k.labelled name) [
  | none ↦ ""
  | some n ↦ get_text "autoscaler.vpsie.com/nodegroup" n.labels
]

unfoldable pub needs_no_change : Kube → RebalancePlan → CandidateNode → Bool
unfolding get_node_group_from_node
needs_no_change k p n =
    get_node_group_from_node k n.node_name =ₛ p.node_group_name
    && n.current_offering =ₛ n.target_offering

-- Uncordoning asks for a write only if the node is cordoned.
unfoldable pub uncordon_found : Kube → String → Option Node → Done
uncordon_found k name none = failing []
uncordon_found k name (some n) =
    if n.unschedulable
    then record { calls = uncordon name ∷ []; ok = k.updates_later name }
    else record { calls = []; ok = true }

unfoldable pub uncordon_node : Kube → String → Done
unfolding uncordon_found
uncordon_node k name = uncordon_found k name (k.found_later name)

unfoldable pub count_ready : List Node → ℕ
count_ready [] = 0
count_ready (n ∷ ns) =
    let rest = count_ready ns in if shows_ready n.conditions then suc rest else rest

-- Some node is ready, and at least eight of ten: the comparison of the floats, multiplied out.
unfoldable pub verify_cluster_health : Option (List Node) → Bool
unfolding count_ready
verify_cluster_health none = false
verify_cluster_health (some ns) =
    ltb 0 (count_ready ns) && leb (length ns * 8) (count_ready ns * 10)
