-- ===== src/Lifecycle/Discoverer.antt =====
-- pkg/controller/vpsienode/discoverer.go: which machine, or which Kubernetes node, an object waits for. Its
-- result is the answer of discovery in Lifecycle.Env. The end of the context is left out.
pub mod Choice
pub mod Claims
mod Tests
use vpsie_k8s_autoscaler.Prelude.{
  ℕ, ◌-◌, String, ◌=ₛ◌, codes, insert, Bool, true, false, not, ◌&&◌, ◌||◌, Option, none, some, List,
  [], ◌∷◌, is_some, ltb, map, if◌then◌else◌,
}
use vpsie_k8s_autoscaler.Cluster.{StringMap, get, Node, NodeAddress}
use vpsie_k8s_autoscaler.Lifecycle.Errors.{wrap, to_lower, is_prefix}
use vpsie_k8s_autoscaler.Lifecycle.Types.{VpsieNode}
use vpsie_k8s_autoscaler.Lifecycle.Env.{
  Reply, reply, refused, Vps, Discovery, discovery_failed, timed_out, discovered, nothing_found,
}

pub record DiscovererConfig : Type 0 where
  pub discovery_timeout : ℕ
  pub max_node_age : ℕ

unfoldable pub default_discoverer_config : DiscovererConfig
default_discoverer_config = record {
  discovery_timeout = 900000000000;
  max_node_age = 1800000000000;
}

pub record Machine : Type 0 where
  pub vps : Vps
  pub created_at : ℕ

pub record JoinedNode : Type 0 where
  pub node : Node
  pub created_at : ℕ

-- What the two APIs list, and whether the patch that claims this node is accepted.
pub record Listing : Type 0 where
  pub now : ℕ
  pub machines : Reply (List Machine)
  pub nodes : Reply (List JoinedNode)
  pub claims : Node → Bool

-- The sort leaves open in which order machines of the same time stand; here the earlier stays first.
unfoldable pub insert_newest : Machine → List Machine → List Machine
insert_newest m [] = m ∷ []
insert_newest m (x ∷ xs) =
    let rest = insert_newest m xs in if ltb x.created_at m.created_at then m ∷ x ∷ xs else x ∷ rest

unfoldable pub newest_first : List Machine → List Machine
unfolding insert_newest
newest_first [] = []
newest_first (m ∷ ms) = insert_newest m (newest_first ms)

abbrev pub may_run : Machine → Bool
may_run m = m.vps.vps_status =ₛ "running" || m.vps.vps_status =ₛ ""

unfoldable pub candidates : List Machine → List Machine
candidates [] = []
candidates (m ∷ ms) = let rest = candidates ms in if may_run m then m ∷ rest else rest

abbrev pub has_key : String → Node → Bool
has_key key n = is_some (get key n.labels)

unfoldable pub is_unclaimed : DiscovererConfig → (now : ℕ) → JoinedNode → Bool
unfolding get
is_unclaimed c now j =
    not (has_key "node-role.kubernetes.io/control-plane" j.node)
    && not (has_key "node-role.kubernetes.io/master" j.node)
    && not (has_key "autoscaler.vpsie.com/vpsienode" j.node)
    && not (ltb c.max_node_age (now - j.created_at))

-- The newest of the unclaimed nodes, from the one found so far.
unfoldable pub newest_unclaimed :
    DiscovererConfig → (now : ℕ) → Option JoinedNode → List JoinedNode → Option JoinedNode
unfolding is_unclaimed
newest_unclaimed c now so_far [] = so_far
newest_unclaimed c now so_far (j ∷ js) =
    newest_unclaimed c now
      (if is_unclaimed c now j
        then elim so_far [
          | none ↦ some j
          | some k ↦ if ltb k.created_at j.created_at then some j else some k
        ]
        else so_far)
      js

unfoldable pub find_unclaimed_k8s_node :
    DiscovererConfig → (now : ℕ) → List JoinedNode → Option JoinedNode
unfolding newest_unclaimed
find_unclaimed_k8s_node c now js = newest_unclaimed c now none js

abbrev pub first_of_type : String → List NodeAddress → Option String
first_of_type kind [] = none
first_of_type kind (a ∷ more) =
    if a.address_type =ₛ kind then some a.address else first_of_type kind more

unfoldable pub get_node_ip : Node → String
get_node_ip n = elim (first_of_type "InternalIP" n.addresses) [
  | some ip ↦ ip
  | none ↦ elim (first_of_type "ExternalIP" n.addresses) [ some ip ↦ ip | none ↦ "" ]
]

abbrev pub labels_of : StringMap → List (String × String)
labels_of none = []
labels_of (some m) = m

-- The node as `claimNode` changes it, and as the patch asks for it.
unfoldable pub claim_node : VpsieNode → Node → Node
claim_node vn n = record n {
  labels = some (
      insert "autoscaler.vpsie.com/nodegroup" vn.spec.node_group_name
        (insert "autoscaler.vpsie.com/vpsienode" vn.name (labels_of n.labels)));
}

-- The list that was cached, once the claim has changed the node of this name in it.
unfoldable pub relabel : VpsieNode → (name : String) → List JoinedNode → List JoinedNode
unfolding claim_node
relabel vn name [] = []
relabel vn name (j ∷ js) =
    (if j.node.name =ₛ name then record j { node = claim_node vn j.node } else j)
    ∷ relabel vn name js

abbrev pub has_address : String → List NodeAddress → Bool
has_address ip [] = false
has_address ip (a ∷ more) =
    ((a.address_type =ₛ "InternalIP" || a.address_type =ₛ "ExternalIP") && a.address =ₛ ip)
    || has_address ip more

unfoldable pub find_k8s_node_by_ip : List JoinedNode → String → Option JoinedNode
find_k8s_node_by_ip [] ip = none
find_k8s_node_by_ip (j ∷ js) ip =
    let rest = find_k8s_node_by_ip js ip in if has_address ip j.node.addresses then some j else rest

unfoldable pub is_node_claimed_by_other : VpsieNode → Node → Bool
unfolding get
is_node_claimed_by_other vn n = elim (get "autoscaler.vpsie.com/vpsienode" n.labels) [
  | none ↦ false
  | some owner ↦ not (owner =ₛ "") && not (owner =ₛ vn.name)
]

unfoldable pub matches_hostname_pattern : (name hostname : String) → Bool
unfolding to_lower is_prefix
matches_hostname_pattern name hostname =
    is_prefix (to_lower (codes name)) (to_lower (codes hostname))

abbrev pub is_free : VpsieNode → Option JoinedNode → Bool
is_free vn none = false
is_free vn (some j) = not (is_node_claimed_by_other vn j.node)

unfoldable pub is_match : VpsieNode → List JoinedNode → Vps → Bool
unfolding matches_hostname_pattern find_k8s_node_by_ip is_node_claimed_by_other
is_match vn js v =
    matches_hostname_pattern vn.name v.hostname
    || (not (v.ip_address =ₛ "") && is_free vn (find_k8s_node_by_ip js v.ip_address))

-- The loop of the strategies 2 and 3.
unfoldable pub match_machines : VpsieNode → List JoinedNode → List Machine → Discovery
unfolding is_match
match_machines vn js [] = nothing_found
match_machines vn js (m ∷ ms) =
    let rest = match_machines vn js ms in if is_match vn js m.vps then discovered m.vps else rest

-- The machine with the address of a node that was claimed, or what is known of the node.
unfoldable pub machine_of : Node → (ip : String) → List Machine → Vps
machine_of n ip [] = record {
  id = 0;
  identifier = "";
  hostname = n.name;
  ip_address = ip;
  ipv6_address = "";
  vps_status = "running";
  cpu = 0;
  ram = 0;
  disk = 0;
}
machine_of n ip (m ∷ ms) = if m.vps.ip_address =ₛ ip then m.vps else machine_of n ip ms

-- Strategy 1, and then the others.
unfoldable pub discover_among :
    Listing → VpsieNode → List JoinedNode → List Machine → Option JoinedNode → Discovery
unfolding get_node_ip claim_node relabel match_machines machine_of
discover_among l vn js ms none = match_machines vn js ms
discover_among l vn js ms (some j) =
    let ip = get_node_ip j.node in
    if ip =ₛ ""
    then match_machines vn js ms
    else if l.claims (claim_node vn j.node)
    then discovered (machine_of j.node ip ms)
    else match_machines vn (relabel vn j.node.name js) ms

unfoldable pub discover_listed :
    DiscovererConfig → Listing → VpsieNode → List JoinedNode → List Machine → Discovery
unfolding discover_among find_unclaimed_k8s_node
discover_listed c l vn js [] = nothing_found
discover_listed c l vn js (m ∷ ms) =
    discover_among l vn js (m ∷ ms) (find_unclaimed_k8s_node c l.now js)

abbrev pub has_waited : DiscovererConfig → (now : ℕ) → Option ℕ → Bool
has_waited c now none = false
has_waited c now (some t) = ltb c.discovery_timeout (now - t)

unfoldable pub discover_vps_id : DiscovererConfig → Listing → VpsieNode → Discovery
unfolding discover_listed candidates newest_first
discover_vps_id c l vn =
    if has_waited c l.now vn.status.created_at then timed_out else elim l.machines [
      | refused e ↦ discovery_failed (wrap "failed to list VMs" e)
      | reply ms ↦ elim l.nodes [
        | refused e ↦ discovery_failed (wrap "failed to list K8s nodes" e)
        | reply js ↦ discover_listed c l vn js (newest_first (candidates ms))
      ]
    ]
