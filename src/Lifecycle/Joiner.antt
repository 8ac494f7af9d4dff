-- ===== src/Lifecycle/Joiner.antt =====
-- pkg/controller/vpsienode/joiner.go: finding the Kubernetes node of a machine, and watching it.
use vpsie_k8s_autoscaler.Prelude.{
  ℕ, String, ◌=ₛ◌, codes, insert, Bool, true, false, ◌&&◌, ◌||◌, Option, none, some, List, [], ◌∷◌,
  any, all, if◌then◌else◌,
}
use vpsie_k8s_autoscaler.Cluster.{StringMap, get_text, Node, is_node_ready}
use vpsie_k8s_autoscaler.Lifecycle.Errors.{Failure, wrap, is_not_found}
use vpsie_k8s_autoscaler.Lifecycle.Types.{
  ready, node_joined, node_ready, VpsieNode, set_phase, set_condition_to, or_now,
}
use vpsie_k8s_autoscaler.Lifecycle.Env.{
  Reply, reply, refused, Env, ApiCall, labelled_node, Outcome, after, done, fails, having_called,
  default_requeue_after, fast_requeue_after,
}
use vpsie_k8s_autoscaler.Lifecycle.Provisioner.{or_text}

unfoldable pub first_node : (Node → Bool) → List Node → Option Node
first_node p [] = none
first_node p (n ∷ ns) = if p n then some n else first_node p ns

unfoldable pub has_ip : String → Node → Bool
has_ip ip n =
    any (λ a. (a.address_type =ₛ "InternalIP" || a.address_type =ₛ "ExternalIP") && a.address =ₛ ip)
      n.addresses

unfoldable pub has_hostname : String → Node → Bool
has_hostname h n =
    any (λ a. a.address_type =ₛ "Hostname" && a.address =ₛ h) n.addresses || n.name =ₛ h

-- An error of the list call is only logged, so it reads as no node.
unfoldable pub listed_node : (Node → Bool) → Reply (List Node) → Option Node
unfolding first_node
listed_node p (reply ns) = first_node p ns
listed_node p (refused e) = none

pub data Search : Type 0 where
  found : Node → Search
  missing : Search
  search_failed : Failure → Search

-- The three strategies: by address, by name, by host name.
find_by_hostname : Env → VpsieNode → Search
unfolding listed_node has_hostname
find_by_hostname env vn =
    if vn.status.hostname =ₛ ""
    then missing
    else elim (listed_node (has_hostname vn.status.hostname) env.nodes) [
      | some n ↦ found n
      | none ↦ missing
    ]

find_by_name : Env → VpsieNode → Search
unfolding find_by_hostname
find_by_name env vn =
    if vn.spec.node_name =ₛ ""
    then find_by_hostname env vn
    else elim (env.get_node vn.spec.node_name) [
      | reply n ↦ found n
      | refused e ↦ if is_not_found e then find_by_hostname env vn else search_failed e
    ]

unfoldable pub find_kubernetes_node : Env → VpsieNode → Search
unfolding find_by_name listed_node has_ip
find_kubernetes_node env vn =
    if vn.spec.ip_address =ₛ ""
    then find_by_name env vn
    else elim (listed_node (has_ip vn.spec.ip_address) env.nodes) [
      | some n ↦ found n
      | none ↦ find_by_name env vn
    ]

unfoldable pub required_labels : VpsieNode → List (String × String)
required_labels vn =
    ("autoscaler.vpsie.com/managed", "true")
    ∷ ("autoscaler.vpsie.com/nodegroup", vn.spec.node_group_name)
    ∷ ("autoscaler.vpsie.com/vpsienode", vn.name)
    ∷ ("autoscaler.vpsie.com/datacenter", vn.spec.datacenter_id)
    ∷ []

unfoldable pub has_label : Node → String × String → Bool
has_label n (key, value) = get_text key n.labels =ₛ value

-- `insert` writes where the value differs; where it is there already the write changes nothing.
unfoldable pub add_labels : List (String × String) → StringMap → List (String × String)
add_labels [] none = []
add_labels [] (some m) = m
add_labels ((key, value) ∷ ls) m = insert key value (add_labels ls m)

unfoldable pub label_node : VpsieNode → Node → Node
unfolding required_labels add_labels
label_node vn n = record n { labels = some (add_labels (required_labels vn) n.labels) }

-- The configured node, what was called, and the error.
unfoldable pub apply_node_configuration : Env → VpsieNode → Node → List ApiCall × Option Failure
unfolding required_labels has_label label_node
apply_node_configuration env vn n = if all (has_label n) (required_labels vn) then ([], none) else (
  labelled_node (label_node vn n) ∷ [],
  elim (env.update_node (label_node vn n)) [
    | none ↦ none
    | some e ↦ some (wrap "failed to update node labels" e)
  ],
)

-- `vn.Status.NodeName`, and the name in the spec where it has none.
unfoldable pub record_name : Node → VpsieNode → VpsieNode
record_name n vn = record vn {
  status = record (vn.status) { node_name = n.name };
  spec = record (vn.spec) { node_name = or_text vn.spec.node_name n.name };
}

unfoldable pub mark_ready : ℕ → VpsieNode → VpsieNode
unfolding set_phase set_condition_to
mark_ready now vn =
    let up = set_condition_to node_ready now true "Ready" (codes "Node is ready") (
      set_condition_to node_joined now true "Joined" (codes "Node has joined the cluster")
        (set_phase now ready vn)) in
    record up {
      status = record (up.status) {
        joined_at = or_now now up.status.joined_at;
        ready_at = or_now now up.status.ready_at;
      };
    }

unfoldable pub mark_joined : ℕ → VpsieNode → VpsieNode
unfolding set_condition_to
mark_joined now vn =
    let in_cluster =
      set_condition_to node_ready now false "Joining" (codes "Node is not ready yet") (
        set_condition_to node_joined now true "Joined" (codes "Node has joined but not ready")
          vn) in
    record in_cluster {
      status = record (in_cluster.status) { joined_at = or_now now in_cluster.status.joined_at };
    }

-- What `CheckJoinStatus` does once the labels of the node were applied, or could not be.
unfoldable pub after_labels : ℕ → Node → VpsieNode → Option Failure → Outcome
unfolding mark_ready mark_joined
after_labels now n named (some e) = fails named (after default_requeue_after) e
after_labels now n named none =
    if is_node_ready n
    then done (mark_ready now named) (after default_requeue_after)
    else done (mark_joined now named) (after fast_requeue_after)

unfoldable pub settle_joined : Env → Node → VpsieNode → Outcome
unfolding record_name
settle_joined env n vn =
    let named = record_name n vn in
    let (calls, problem) = apply_node_configuration env named n in
    having_called calls (after_labels env.now n named problem)

unfoldable pub check_join_status : Env → VpsieNode → Outcome
check_join_status env vn = elim (find_kubernetes_node env vn) [
  | missing ↦ done vn (after fast_requeue_after)
  | search_failed e ↦ fails vn (after default_requeue_after) e
  | found n ↦ settle_joined env n vn
]

-- A node that vanished or is not ready changes the condition and never the phase.
unfoldable pub monitor_node : Env → VpsieNode → Outcome
unfolding set_condition_to
monitor_node env vn = elim (env.get_node vn.status.node_name) [
  | refused e ↦
      if is_not_found e
      then done
          (set_condition_to node_ready env.now false "NodeNotFound"
            (codes "Node not found in Kubernetes") vn)
          (after default_requeue_after)
      else fails vn (after default_requeue_after) e
  | reply n ↦
      if is_node_ready n
      then done (set_condition_to node_ready env.now true "Ready" (codes "Node is ready") vn)
          (after default_requeue_after)
      else done
          (set_condition_to node_ready env.now false "NotReady" (codes "Node is not ready") vn)
          (after default_requeue_after)
]
