-- ===== src/Lifecycle/Drainer.antt =====
-- pkg/controller/vpsienode/drainer.go. Reads are answers, and the writes that are asked for stand in a
-- list of calls. Polls are those before the timeout.
pub mod Outcomes
pub mod Writes
mod Tests
use vpsie_k8s_autoscaler.Prelude.{
  ℕ, suc, String, ◌=ₛ◌, Bool, true, false, not, ◌&&◌, ◌||◌, Option, none, some, List, [], ◌∷◌, ◌++◌,
  any, length, is_some, ◌==◌, if◌then◌else◌,
}
use vpsie_k8s_autoscaler.Cluster.{get, Node, Pod}
use vpsie_k8s_autoscaler.Lifecycle.Types.{VpsieNode}

-- The answer to a read of one object.
pub data Read {ℓ} (A : Type ℓ) : Type ℓ where
  missing failed : Read A
  found : A → Read A

pub data Write : Type 0 where
  cordon uncordon remove : String → Write
  evict : (namespace name : String) → Write

-- The node before the drain and after a failure, and whether the writes of it are accepted; the pods
-- that are listed on it; and what each poll reads of a pod.
pub record Cluster : Type 0 where
  pub node_now : Read Node
  pub cordons : Bool
  pub pods : Option (List Pod)
  pub polls : List (Pod → Read Pod)
  pub node_later : Read Node
  pub uncordons : Bool

-- The writes in their order, and whether no error is returned.
pub record Drained : Type 0 where
  pub writes : List Write
  pub ok : Bool

unfoldable pub cordon_node : String → Read Node → (accepted : Bool) → Drained
cordon_node name missing accepted = record { writes = []; ok = true }
cordon_node name failed accepted = record { writes = []; ok = false }
cordon_node name (found n) accepted =
    if n.unschedulable
    then record { writes = []; ok = true }
    else record { writes = cordon name ∷ []; ok = accepted }

unfoldable pub uncordon_node : String → Read Node → (accepted : Bool) → Drained
uncordon_node name missing accepted = record { writes = []; ok = true }
uncordon_node name failed accepted = record { writes = []; ok = false }
uncordon_node name (found n) accepted =
    if n.unschedulable
    then record { writes = uncordon name ∷ []; ok = accepted }
    else record { writes = []; ok = true }

abbrev pub is_daemon_set_pod : Pod → Bool
is_daemon_set_pod p = any (λ kind. kind =ₛ "DaemonSet") p.owner_kinds

unfoldable pub is_static_pod : Pod → Bool
unfolding get
is_static_pod p =
    is_some (get "kubernetes.io/config.mirror" p.annotations)
    || (length p.owner_kinds == 0 && p.namespace =ₛ "kube-system")

unfoldable pub is_evictable : Pod → Bool
unfolding is_static_pod
is_evictable p =
    not (is_some p.deletion_timestamp)
    && not (p.phase =ₛ "Succeeded" || p.phase =ₛ "Failed")
    && not (is_daemon_set_pod p)
    && not (is_static_pod p)

unfoldable pub filter_pods_to_evict : List Pod → List Pod
unfolding is_evictable
filter_pods_to_evict [] = []
filter_pods_to_evict (p ∷ ps) =
    let rest = filter_pods_to_evict ps in if is_evictable p then p ∷ rest else rest

-- The answer to an eviction is only logged.
unfoldable pub evictions : List Pod → List Write
evictions [] = []
evictions (p ∷ ps) = evict p.namespace p.name ∷ evictions ps

-- A pod that cannot be read is passed over like one that is gone.
unfoldable pub remaining : (Pod → Read Pod) → List Pod → ℕ
remaining poll [] = 0
remaining poll (p ∷ ps) =
    let rest = remaining poll ps in
    elim (poll p) [ missing ↦ rest | failed ↦ rest | found q ↦ suc rest ]

unfoldable pub wait_for_pods_deleted : List (Pod → Read Pod) → List Pod → Bool
unfolding remaining
wait_for_pods_deleted [] ps = false
wait_for_pods_deleted (poll ∷ polls) ps = remaining poll ps == 0 || wait_for_pods_deleted polls ps

unfoldable pub evict_pods : List (Pod → Read Pod) → List Pod → Drained
unfolding evictions wait_for_pods_deleted
evict_pods polls [] = record { writes = []; ok = true }
evict_pods polls (p ∷ ps) = record {
  writes = evictions (p ∷ ps);
  ok = wait_for_pods_deleted polls (p ∷ ps);
}

-- The end of a drain that failed behind the cordon.
abbrev pub given_up : String → Cluster → List Write → Drained
unfolding uncordon_node
given_up name c writes = record {
  writes = writes ++ (uncordon_node name c.node_later c.uncordons).writes;
  ok = false;
}

unfoldable pub drain_cordoned : String → Cluster → List Write → Option (List Pod) → Drained
unfolding given_up filter_pods_to_evict evict_pods
drain_cordoned name c writes none = given_up name c writes
drain_cordoned name c writes (some ps) =
    let evicted = evict_pods c.polls (filter_pods_to_evict ps) in
    if evicted.ok
    then record { writes = writes ++ evicted.writes; ok = true }
    else given_up name c (writes ++ evicted.writes)

unfoldable pub drain_node : String → Cluster → Drained
unfolding cordon_node drain_cordoned
drain_node name c =
    let cordoned = cordon_node name c.node_now c.cordons in
    if cordoned.ok then drain_cordoned name c cordoned.writes c.pods else cordoned

-- `DeleteNode`, from the answer to the deletion: `missing` if the node is gone already.
unfoldable pub delete_node : VpsieNode → Read Node → Drained
delete_node vn answer =
    let name = if vn.status.node_name =ₛ "" then vn.spec.node_name else vn.status.node_name in
    if name =ₛ "" then record { writes = []; ok = true } else record {
      writes = remove name ∷ [];
      ok = elim answer [ missing ↦ true | failed ↦ false | found n ↦ true ];
    }
