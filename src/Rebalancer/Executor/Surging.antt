-- ===== src/Rebalancer/Executor/Surging.antt =====
-- A surge batch whose provisioning fails.
use vpsie_k8s_autoscaler.Prelude.{
  ◌≡◌, refl, sym, ap, subst, ◌∙◌, String, true, false, Option, none, List, [], ◌∷◌, ◌++◌, All, map,
  append_assoc, append_empty, arith,
}
use vpsie_k8s_autoscaler.Rebalancer.{CandidateNode, RebalancePlan}
use vpsie_k8s_autoscaler.Rebalancer.Nodes.{
  Kube, Call, delete_node, drain_node, terminate_node, needs_no_change,
}
use vpsie_k8s_autoscaler.Rebalancer.Executor.{
  Progress, unstarted, provision, note_failure, note_completed, note_provisioned,
  candidates_to_process, provision_all, new_nodes, await_all, retire_counted, retire_all,
  execute_surge_batch,
}

module _ (k : Kube) where
  -- The calls that retire these nodes one after the other.
  abbrev pub retirements : List CandidateNode → List Call
  retirements [] = []
  retirements (n ∷ ns) =
      (drain_node k n.node_name).calls ++ delete_node n.node_name ∷ retirements ns

  -- The node needs a change, can be drained, and its deletion is accepted.
  abbrev pub Removable : RebalancePlan → CandidateNode → Type 0
  Removable p n =
      (needs_no_change k p n ≡ false)
      × ((drain_node k n.node_name).ok ≡ true)
      × (k.deletes n.node_name ≡ true)

module _ (provisions : RebalancePlan → CandidateNode → Option String) (k : Kube) where
  candidates_to_process-Removable :
      (p : RebalancePlan) (ns : List CandidateNode)
      → All (Removable k p) ns
      → candidates_to_process provisions k p ns ≡ ns
  unfolding candidates_to_process
  candidates_to_process-Removable p [] h = refl
  candidates_to_process-Removable p (n ∷ ns) ((needed, drains, goes), h) =
      rw (needed, candidates_to_process-Removable p ns h) refl

  new_nodes-refused :
      (p : RebalancePlan) (ns : List CandidateNode)
      → All (λ n. provisions p n ≡ none) ns
      → new_nodes provisions k p ns ≡ []
  unfolding new_nodes
  new_nodes-refused p [] h = refl
  new_nodes-refused p (n ∷ ns) h = ground (arith, h.0, new_nodes-refused p ns h.1)

  -- No call was made, no node added and none completed.
  abbrev Idle : Progress → Progress → Type 0
  Idle s t = (t.calls ≡ s.calls) × (t.provisioned ≡ s.provisioned) × (t.completed ≡ s.completed)

  provision_all-Idle :
      (p : RebalancePlan) (ns : List CandidateNode) (s : Progress)
      → All (λ n. provisions p n ≡ none) ns
      → Idle s (provision_all provisions k p ns s)
  unfolding provision_all
  provision_all-Idle p [] s h = (refl, refl, refl)
  provision_all-Idle p (n ∷ ns) s h =
      let (calls, provisioned, completed) =
        provision_all-Idle p ns (note_failure n.node_name provision [] s) h.1 in
      subst
        (λ o.
          Idle s (provision_all provisions k p ns (note_provisioned provisions k n.node_name o s)))
        (sym (h.0)) (calls ∙ append_empty s.calls, provisioned, completed)

  retire_counted-Removable :
      (p : RebalancePlan) (n : CandidateNode) (s : Progress)
      → Removable k p n
      → retire_counted provisions k n.node_name s
        ≡ note_completed n.node_name
            ((drain_node k n.node_name).calls ++ delete_node n.node_name ∷ [])
            s
  unfolding retire_counted terminate_node
  retire_counted-Removable p n s (needed, drains, goes) = rw (drains, goes) refl

  -- The calls, the new nodes and the completed ones once these nodes are retired as well.
  abbrev Retired : Progress → List CandidateNode → Progress → Type 0
  Retired s ns t =
      (t.calls ≡ s.calls ++ retirements k ns)
      × (t.provisioned ≡ s.provisioned)
      × (t.completed ≡ s.completed ++ map (λ n. n.node_name) ns)

  retire_all-Removable :
      (p : RebalancePlan) (ns : List CandidateNode) (s : Progress)
      → All (Removable k p) ns
      → Retired s ns (retire_all provisions k ns s)
  unfolding retire_all
  retire_all-Removable p [] s h = (sym (append_empty s.calls), refl, sym (append_empty s.completed))
  retire_all-Removable p (n ∷ ns) s (removable, h) =
      let name = n.node_name in
      let drained = (drain_node k name).calls in
      let t = note_completed name (drained ++ delete_node name ∷ []) s in
      let (calls, provisioned, completed) = retire_all-Removable p ns t h in
      subst (λ u. Retired s (n ∷ ns) (retire_all provisions k ns u))
        (sym (retire_counted-Removable p n s removable))
        (
          calls ∙ append_assoc s.calls _ _ ∙ ap (◌++◌ s.calls) (append_assoc drained _ _),
          provisioned,
          completed ∙ append_assoc s.completed _ _,
        )

  -- If every provisioning of a surge batch is refused, while the nodes need a change, can be drained and
  -- deleted, then each of them is drained and deleted all the same and counts as completed, and there is
  -- no new node.
  pub execute_surge_batch_strands :
      (p : RebalancePlan) (ns : List CandidateNode) (provisioned : List String)
      → All (λ n. provisions p n ≡ none) ns
      → All (Removable k p) ns
      → ((execute_surge_batch provisions k p ns (unstarted provisioned)).calls ≡ retirements k ns)
        × ((execute_surge_batch provisions k p ns (unstarted provisioned)).provisioned
            ≡ provisioned)
        × ((execute_surge_batch provisions k p ns (unstarted provisioned)).completed
            ≡ map (λ n. n.node_name) ns)
  unfolding execute_surge_batch await_all
  execute_surge_batch_strands p ns provisioned refused h =
      let s = provision_all provisions k p ns (unstarted provisioned) in
      let (calls, kept, completed) = provision_all-Idle p ns (unstarted provisioned) refused in
      let (retired, kept_still, all_completed) = retire_all-Removable p ns s h in
      rw (candidates_to_process-Removable p ns h, new_nodes-refused p ns refused)
        (
          retired ∙ ap (λ cs. cs ++ retirements k ns) calls,
          kept_still ∙ kept,
          all_completed ∙ ap (λ names. names ++ map (λ n. n.node_name) ns) completed,
        )
