-- ===== src/Lifecycle/Drainer/Writes.antt =====
-- What a drain asks for, on every path.
use vpsie_k8s_autoscaler.Prelude.{
  ◌≡◌, inl, inr, refl, String, Bool, true, false, Option, none, some, List, [], ◌∷◌, ◌++◌, All,
  All-append, Some, Bool-cases,
}
use vpsie_k8s_autoscaler.Cluster.{Node, Pod}
use vpsie_k8s_autoscaler.Lifecycle.Drainer.{
  Read, missing, failed, found, Write, cordon, uncordon, evict, Cluster, cordon_node, uncordon_node,
  is_evictable, filter_pods_to_evict, evictions, evict_pods, given_up, drain_cordoned, drain_node,
}

-- A write of this node, or the eviction of one of these pods that may be evicted.
pub data Asked (name : String) (ps : List Pod) : Write → Type 0 where
  cordons : Asked name ps (cordon name)
  uncordons : Asked name ps (uncordon name)
  evicts :
      (p : Pod)
      → Some (λ q. q ≡ p) ps
      → is_evictable p ≡ true
      → Asked name ps (evict p.namespace p.name)

abbrev pub listed : Option (List Pod) → List Pod
listed none = []
listed (some ps) = ps

evictions-Asked :
    (name : String) (all ps : List Pod)
    → ((p : Pod) → Some (λ q. q ≡ p) ps → Some (λ q. q ≡ p) all)
    → All (Asked name all) (evictions (filter_pods_to_evict ps))
unfolding evictions filter_pods_to_evict
evictions-Asked name all [] sub = tt
evictions-Asked name all (p ∷ ps) sub =
    let rest = evictions-Asked name all ps (λ q h. sub q (inr h)) in
    elim (Bool-cases (is_evictable p)) [
      | inl e ↦ rw e (evicts p (sub p (inl refl)) e, rest)
      | inr e ↦ rw e rest
    ]

cordon_node-Asked :
    (name : String) (ps : List Pod) (o : Read Node) (b : Bool)
    → All (Asked name ps) (cordon_node name o b).writes
unfolding cordon_node
cordon_node-Asked name ps missing b = tt
cordon_node-Asked name ps failed b = tt
cordon_node-Asked name ps (found n) b = elim (Bool-cases n.unschedulable) [
  | inl e ↦ rw e tt
  | inr e ↦ rw e (cordons, tt)
]

uncordon_node-Asked :
    (name : String) (ps : List Pod) (o : Read Node) (b : Bool)
    → All (Asked name ps) (uncordon_node name o b).writes
unfolding uncordon_node
uncordon_node-Asked name ps missing b = tt
uncordon_node-Asked name ps failed b = tt
uncordon_node-Asked name ps (found n) b = elim (Bool-cases n.unschedulable) [
  | inl e ↦ rw e (uncordons, tt)
  | inr e ↦ rw e tt
]

evict_pods-writes :
    (polls : List (Pod → Read Pod)) (ps : List Pod) → (evict_pods polls ps).writes ≡ evictions ps
unfolding evict_pods evictions
evict_pods-writes polls [] = refl
evict_pods-writes polls (p ∷ ps) = refl

drain_cordoned-Asked :
    (name : String) (c : Cluster) (writes : List Write) (o : Option (List Pod))
    → All (Asked name (listed o)) writes
    → All (Asked name (listed o)) (drain_cordoned name c writes o).writes
unfolding drain_cordoned given_up
drain_cordoned-Asked name c writes none h =
    All-append _ writes _ h (uncordon_node-Asked name [] c.node_later c.uncordons)
drain_cordoned-Asked name c writes (some ps) h =
    let qs = filter_pods_to_evict ps in
    let evicted : All (Asked name ps) (evict_pods c.polls qs).writes =
      rw (evict_pods-writes c.polls qs) (evictions-Asked name ps ps (λ p m. m)) in
    let both = All-append (Asked name ps) writes _ h evicted in
    elim (Bool-cases (evict_pods c.polls qs).ok) [
      | inl e ↦ rw e both
      | inr e ↦ rw e (All-append _ _ _ both (uncordon_node-Asked name ps c.node_later c.uncordons))
    ]

-- A drain asks for no write but the cordon and the uncordon of its node, and the evictions of listed pods
-- that are neither ending nor ended, nor of a daemon set, nor static.
pub drain_node-Asked :
    (name : String) (c : Cluster) → All (Asked name (listed c.pods)) (drain_node name c).writes
unfolding drain_node
drain_node-Asked name c =
    let asked = cordon_node-Asked name (listed c.pods) c.node_now c.cordons in
    elim (Bool-cases (cordon_node name c.node_now c.cordons).ok) [
      | inl e ↦ rw e (drain_cordoned-Asked name c _ c.pods asked)
      | inr e ↦ rw e asked
    ]

drain_cordoned-restores :
    (name : String) (c : Cluster) (n : Node) (writes : List Write) (o : Option (List Pod))
    → (drain_cordoned name c writes o).ok ≡ false
    → c.node_later ≡ found n
    → n.unschedulable ≡ true
    → (earlier : List Write) × ((drain_cordoned name c writes o).writes
        ≡ earlier ++ uncordon name ∷ [])
unfolding drain_cordoned given_up uncordon_node
drain_cordoned-restores name c n writes none h later closed = (writes, rw (later, closed) refl)
drain_cordoned-restores name c n writes (some ps) h later closed =
    let evicted = evict_pods c.polls (filter_pods_to_evict ps) in
    elim (Bool-cases evicted.ok) [
      | inl e ↦ (let clash : true ≡ false = rw e at h in absurd (apart clash))
      | inr e ↦ (writes ++ evicted.writes, rw (e, later, closed) refl)
    ]
  where
    apart : true ≡ false → ⊥
    apart clash = cc

-- If a drain fails behind the cordon, and the node is then read as cordoned, the last write that it asks for
-- makes the node schedulable again.
pub drain_node_restores :
    (name : String) (c : Cluster) (n : Node)
    → (cordon_node name c.node_now c.cordons).ok ≡ true
    → (drain_node name c).ok ≡ false
    → c.node_later ≡ found n
    → n.unschedulable ≡ true
    → (earlier : List Write) × ((drain_node name c).writes ≡ earlier ++ uncordon name ∷ [])
unfolding drain_node
drain_node_restores name c n cordoned h later closed =
    let fails = rw cordoned at h in
    rw cordoned (drain_cordoned-restores name c n _ c.pods fails later closed)
