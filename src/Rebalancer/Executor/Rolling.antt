-- ===== src/Rebalancer/Executor/Rolling.antt =====
-- What a rolling batch touches: an old node only once its new one is ready.
use vpsie_k8s_autoscaler.Prelude.{
  ◌≡◌, ◌⊎◌, inl, inr, String, true, false, Option, none, some, List, [], ◌∷◌, All, Bool-cases,
}
use vpsie_k8s_autoscaler.Cluster.{Node, Pod}
use vpsie_k8s_autoscaler.Rebalancer.{CandidateNode, RebalancePlan}
use vpsie_k8s_autoscaler.Rebalancer.Nodes.{
  Kube, Call, cordon, delete_node, evict, stays, evictions, drain_pods, drain_found, drain_node,
  wait_for_node_ready, needs_no_change,
}

-- A call that the retirement of a node makes.
pub data Retires (old : String) : Call → Type 0 where
  cordons : Retires old (cordon old)
  evicts : (namespace name : String) → Retires old (evict namespace name)
  removes : Retires old (delete_node old)

evictions-Retires : (old : String) (ps : List Pod) → All (Retires old) (evictions ps)
unfolding evictions
evictions-Retires old [] = tt
evictions-Retires old (p ∷ ps) = elim (Bool-cases (stays p)) [
  | inl e ↦ rw e (evictions-Retires old ps)
  | inr e ↦ rw e (evicts p.namespace p.name, evictions-Retires old ps)
]

drain_pods-Retires :
    (k : Kube) (old : String) (o : Option (List Pod)) → All (Retires old) (drain_pods k old o).calls
unfolding drain_pods
drain_pods-Retires k old none = (cordons, tt)
drain_pods-Retires k old (some ps) = (cordons, evictions-Retires old ps)

drain_found-Retires :
    (k : Kube) (old : String) (o : Option Node) → All (Retires old) (drain_found k old o).calls
unfolding drain_found
drain_found-Retires k old none = tt
drain_found-Retires k old (some n) = elim (Bool-cases (k.updates old)) [
  | inl e ↦ rw e (drain_pods-Retires k old (k.pods_on old))
  | inr e ↦ rw e (cordons, tt)
]

pub drain_node-Retires : (k : Kube) (old : String) → All (Retires old) (drain_node k old).calls
unfolding drain_node
drain_node-Retires k old = drain_found-Retires k old (k.found old)

module _ (provisions : RebalancePlan → CandidateNode → Option String) (k : Kube) where
  -- A property of calls that the replacement of a node by this one keeps.
  abbrev Keeps : (Call → Type 0) → String → Option String → Type 0
  Keeps P old none = Unit
  Keeps P old (some new) =
      (wait_for_node_ready (k.ready_polls new) ≡ true → (c : Call) → Retires old c → P c)
      × (wait_for_node_ready (k.ready_polls new) ≡ false → P (delete_node new))

  -- What justifies a call in a batch: a candidate that needs a change and was given a new node. If
  -- that one is ready, the call retires the candidate, and else it removes the new node.
  pub record JustifiedBy (p : RebalancePlan) (c : Call) (n : CandidateNode) : Type 0 where
    pub needed : needs_no_change k p n ≡ false
    pub new : String
    pub given : provisions p n ≡ some new
    pub why :
        ((wait_for_node_ready (k.ready_polls new) ≡ true) × Retires n.node_name c)
        ⊎ ((wait_for_node_ready (k.ready_polls new) ≡ false) × (c ≡ delete_node new))
