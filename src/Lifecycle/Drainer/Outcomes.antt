-- ===== src/Lifecycle/Drainer/Outcomes.antt =====
-- What the outcome of a drain says of the pods.
use vpsie_k8s_autoscaler.Prelude.{
  ℕ, suc, ◌≡◌, ◌↔◌, ◌⊎◌, inl, inr, refl, sym, String, true, false, Option, none, some, List, [],
  ◌∷◌, All, All-of, subst, ◌∙◌, Some, Bool-cases, arith,
}
use vpsie_k8s_autoscaler.Cluster.{Pod}
use vpsie_k8s_autoscaler.Lifecycle.Drainer.{
  Read, missing, failed, found, Write, Cluster, cordon_node, filter_pods_to_evict, remaining,
  wait_for_pods_deleted, evict_pods, given_up, drain_cordoned, drain_node,
}

-- The pod was not found there, but may not have been looked for with success.
abbrev pub Unseen : Read Pod → Type 0
Unseen missing = Unit
Unseen failed = Unit
Unseen (found p) = ⊥

counted_iff :
    {Q : Type 0} (o : Read Pod) (rest : ℕ)
    → (rest ≡ 0) ↔ Q
    → ((elim o [ missing ↦ rest | failed ↦ rest | found q ↦ suc rest ]) ≡ 0) ↔ (Unseen o × Q)
counted_iff missing rest q = (λ h. (tt, q.0 h), λ h. q.1 h.1)
counted_iff failed rest q = (λ h. (tt, q.0 h), λ h. q.1 h.1)
counted_iff (found p) rest q = (λ h. absurd (omega arith), λ h. absurd h.0)

remaining_iff :
    (poll : Pod → Read Pod) (ps : List Pod)
    → (remaining poll ps ≡ 0) ↔ All (λ p. Unseen (poll p)) ps
unfolding remaining
remaining_iff poll [] = (λ h. tt, λ h. refl)
remaining_iff poll (p ∷ ps) = counted_iff (poll p) (remaining poll ps) (remaining_iff poll ps)

wait_iff :
    (polls : List (Pod → Read Pod)) (ps : List Pod)
    → (wait_for_pods_deleted polls ps ≡ true) ↔ Some (λ poll. All (λ p. Unseen (poll p)) ps) polls
unfolding wait_for_pods_deleted
wait_iff [] ps = (λ h. cc, λ h. absurd h)
wait_iff (poll ∷ polls) ps = ground (arith, remaining_iff poll ps, wait_iff polls ps)

-- Some poll before the timeout sees none of these pods.
abbrev pub Emptied : Cluster → List Pod → Type 0
Emptied c ps = (ps ≡ []) ⊎ Some (λ poll. All (λ p. Unseen (poll p)) ps) c.polls

evict_pods_iff : (c : Cluster) (ps : List Pod) → ((evict_pods c.polls ps).ok ≡ true) ↔ Emptied c ps
unfolding evict_pods
evict_pods_iff c [] = (λ h. inl refl, λ h. refl)
evict_pods_iff c (p ∷ ps) =
    let (fro, to) = wait_iff c.polls (p ∷ ps) in
    (λ h. inr (fro h), λ h. elim h [ inl e ↦ cc | inr some_poll ↦ to some_poll ])

drain_cordoned_iff :
    (name : String) (c : Cluster) (writes : List Write) (o : Option (List Pod))
    → ((drain_cordoned name c writes o).ok ≡ true)
      ↔ ((ps : List Pod) × (o ≡ some ps) × Emptied c (filter_pods_to_evict ps))
unfolding drain_cordoned given_up
drain_cordoned_iff name c writes none = (λ h. cc, λ (ps, e, m). cc)
drain_cordoned_iff name c writes (some ps) =
    let (fro, to) = evict_pods_iff c (filter_pods_to_evict ps) in
    elim (Bool-cases (evict_pods c.polls (filter_pods_to_evict ps)).ok) [
      | inl e ↦ rw e (λ h. (ps, refl, fro e), λ h. refl)
      | inr e ↦ rw e (
        λ h. cc,
        λ (qs, same, emptied).
            let equal : qs ≡ ps = cc in
            (let clash : true ≡ false =
                sym (to (subst (λ rs. Emptied c (filter_pods_to_evict rs)) equal emptied)) ∙ e in
              cc),
      )
    ]

-- A drain returns no error exactly if the cordon did not fail, the pods were listed, and either none of
-- them is to be evicted or some poll before the timeout sees none of those.
pub drain_node_iff :
    (name : String) (c : Cluster)
    → ((drain_node name c).ok ≡ true) ↔ (
        ((cordon_node name c.node_now c.cordons).ok ≡ true)
        × ((ps : List Pod) × (c.pods ≡ some ps) × Emptied c (filter_pods_to_evict ps)))
unfolding drain_node
drain_node_iff name c =
    let cordoned = cordon_node name c.node_now c.cordons in
    let (fro, to) = drain_cordoned_iff name c cordoned.writes c.pods in
    elim (Bool-cases cordoned.ok) [
      | inl e ↦ rw e (λ h. (refl, fro h), λ h. to h.1)
      | inr e ↦ rw e (λ h. cc, λ h. cc)
    ]

-- If the node is cordoned and its pods are listed, a poll in which the read of every pod fails ends the
-- drain without an error, although no pod has been seen to be gone.
pub drain_node_blind :
    (name : String) (c : Cluster) (ps : List Pod) (poll : Pod → Read Pod)
    (polls : List (Pod → Read Pod))
    → (cordon_node name c.node_now c.cordons).ok ≡ true
    → c.pods ≡ some ps
    → c.polls ≡ poll ∷ polls
    → ((p : Pod) → poll p ≡ failed)
    → (drain_node name c).ok ≡ true
drain_node_blind name c ps poll polls cordoned listed first fails =
    let unseen : (p : Pod) → Unseen (poll p) = λ p. subst Unseen (sym (fails p)) tt in
    let emptied : Some (λ q. All (λ p. Unseen (q p)) (filter_pods_to_evict ps)) c.polls =
      subst (Some (λ q. All (λ p. Unseen (q p)) (filter_pods_to_evict ps))) (sym first)
        (inl (All-of _ unseen (filter_pods_to_evict ps))) in
    (drain_node_iff name c).1 (cordoned, (ps, listed, inr emptied))
