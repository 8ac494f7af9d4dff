-- ===== src/Lifecycle/Discoverer/Claims.antt =====
-- Claims that conflict: what discovery makes of a node that another object was given.
use vpsie_k8s_autoscaler.Prelude.{◌≡◌, refl, ◌=ₛ◌, true, false, some, List, ◌∷◌}
use vpsie_k8s_autoscaler.Lifecycle.Types.{VpsieNode}
use vpsie_k8s_autoscaler.Lifecycle.Env.{reply, discovered}
use vpsie_k8s_autoscaler.Lifecycle.Discoverer.{
  DiscovererConfig, Listing, Machine, JoinedNode, find_unclaimed_k8s_node, get_node_ip, claim_node,
  discover_among, discover_listed, discover_vps_id, machine_of, newest_first, candidates,
  has_waited,
}

abbrev relabelled : VpsieNode → JoinedNode → JoinedNode
relabelled vn j = record j { node = claim_node vn j.node }

-- Two objects that discover from the same lists, if the patch of both is accepted, are given the same
-- machine: the newest unclaimed node, or the machine with its address.
pub discover_vps_id_shared :
    (c : DiscovererConfig) (l : Listing) (vn wn : VpsieNode) (all : List Machine)
    (js : List JoinedNode) (m : Machine) (ms : List Machine) (j : JoinedNode)
    → has_waited c l.now vn.status.created_at ≡ false
    → has_waited c l.now wn.status.created_at ≡ false
    → l.machines ≡ reply all
    → l.nodes ≡ reply js
    → newest_first (candidates all) ≡ m ∷ ms
    → find_unclaimed_k8s_node c l.now js ≡ some j
    → (get_node_ip j.node =ₛ "") ≡ false
    → l.claims (claim_node vn j.node) ≡ true
    → l.claims (claim_node wn j.node) ≡ true
    → (discover_vps_id c l vn ≡ discovered (machine_of j.node (get_node_ip j.node) (m ∷ ms)))
      × (discover_vps_id c l wn ≡ discovered (machine_of j.node (get_node_ip j.node) (m ∷ ms)))
unfolding discover_vps_id discover_listed discover_among
discover_vps_id_shared c l vn wn all js m ms j waits_v waits_w machines nodes sorted chosen
      addressed claims_v claims_w =
    (
      rw (waits_v, machines, nodes, sorted, chosen, addressed, claims_v) refl,
      rw (waits_w, machines, nodes, sorted, chosen, addressed, claims_w) refl,
    )
