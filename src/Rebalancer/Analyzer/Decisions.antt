-- ===== src/Rebalancer/Analyzer/Decisions.antt =====
-- What the recommended action says of the checks, and of the group.
use vpsie_k8s_autoscaler.Prelude.{
  ℕ, ◌+◌, ◌-◌, ◌≤◌, ◌≡◌, ◌↔◌, inl, inr, refl, String, ◌=ₛ◌, text_eq_iff, Bool, true, false, not,
  ◌&&◌, Option, none, some, List, [], ◌∷◌, All, All-append_right, Some, any, length, Bool-cases,
  Option-cases, subst, sym, arith, if◌then◌else◌, ltb,
}
use vpsie_k8s_autoscaler.Prelude.Floats.{Floats}
use vpsie_k8s_autoscaler.Rebalancer.{CandidateNode}
use vpsie_k8s_autoscaler.Rebalancer.Analyzer.Capacity.{
  CheckStatus, passed, warned, failed_check, Answers, check_pod_resource_capacity,
}
use vpsie_k8s_autoscaler.Rebalancer.Analyzer.{
  AnalyzerConfig, GroupState, OfferedNode, get_node_workloads, identify_candidates,
  check_node_group_health, is_recent, combined, check_pod_disruption_budgets, proceed, postpone,
  reject, needs_review, is_failed, is_warned, determine_recommended_action, Opportunity, Situation,
  check_resource_capacity, perform_safety_checks, RebalanceAnalysis, rejected, analyze_nodes,
  analyze_report, analyze_rebalance_opportunities,
}

any_failed_iff :
    (checks : List CheckStatus)
    → (any is_failed checks ≡ true) ↔ Some (λ c. c ≡ failed_check) checks
any_failed_iff [] = (λ h. cc, λ h. absurd h)
any_failed_iff (passed ∷ checks) = ground (arith, any_failed_iff checks)
any_failed_iff (warned ∷ checks) = ground (arith, any_failed_iff checks)
any_failed_iff (failed_check ∷ checks) = (λ h. inl refl, λ h. refl)

any_warned_iff :
    (checks : List CheckStatus) → (any is_warned checks ≡ true) ↔ Some (λ c. c ≡ warned) checks
any_warned_iff [] = (λ h. cc, λ h. absurd h)
any_warned_iff (passed ∷ checks) = ground (arith, any_warned_iff checks)
any_warned_iff (failed_check ∷ checks) = ground (arith, any_warned_iff checks)
any_warned_iff (warned ∷ checks) = (λ h. inl refl, λ h. refl)

All-passed_iff :
    (checks : List CheckStatus)
    → ((any is_failed checks ≡ false) × (any is_warned checks ≡ false))
      ↔ All (λ c. c ≡ passed) checks
All-passed_iff [] = (λ h. tt, λ h. (refl, refl))
All-passed_iff (passed ∷ checks) = ground (arith, All-passed_iff checks)
All-passed_iff (warned ∷ checks) = ground (arith, All-passed_iff checks)
All-passed_iff (failed_check ∷ checks) = ground (arith, All-passed_iff checks)

-- The action is to proceed exactly if every check passed, and to reject exactly if one failed; if none
-- failed but one warned, it is a review for a high risk, and to postpone otherwise.
pub determine_recommended_action_iff :
    (checks : List CheckStatus) (high_risk : Bool)
    → ((determine_recommended_action checks high_risk ≡ proceed) ↔ All (λ c. c ≡ passed) checks)
      × ((determine_recommended_action checks high_risk ≡ reject)
          ↔ Some (λ c. c ≡ failed_check) checks)
      × ((determine_recommended_action checks high_risk ≡ needs_review)
          ↔ ((high_risk ≡ true) × (any is_failed checks ≡ false) × Some (λ c. c ≡ warned) checks))
      × ((determine_recommended_action checks high_risk ≡ postpone)
          ↔ ((high_risk ≡ false) × (any is_failed checks ≡ false) × Some (λ c. c ≡ warned) checks))
unfolding determine_recommended_action
determine_recommended_action_iff checks high_risk =
    ground (arith, any_failed_iff checks, any_warned_iff checks, All-passed_iff checks)

-- What an analysis that says to proceed has found of the group, of the first opportunity that the
-- optimizer reported, and of the candidates.
pub record Proceeds (F : Floats) (c : AnalyzerConfig) (s : Situation F) (g : GroupState)
    (o : Opportunity F) (candidates : List CandidateNode) : Type 0 where
  pub managed : g.managed ≡ true
  pub enough : g.min_nodes ≤ g.current_nodes
  pub headroom : g.current_nodes + length candidates ≤ g.max_nodes
  pub rested : (t : ℕ) → g.last_scale_time ≡ some t → c.cooldown_period ≤ s.now - t
  pub fits : check_pod_resource_capacity F s.cluster candidates ≡ some passed
  pub moves :
      All
        (λ n.
          (n.current_offering ≡ o.current_offering) × (n.target_offering ≡ o.recommended_offering))
        candidates

identify_candidates-moves :
    (c : AnalyzerConfig) (current recommended : String) (ns : List OfferedNode)
    → All
        (λ n. (n.current_offering ≡ current) × (n.target_offering ≡ recommended))
        (identify_candidates c current recommended ns)
unfolding identify_candidates
identify_candidates-moves c current recommended [] = tt
identify_candidates-moves c current recommended (n ∷ ns) =
    let rest = identify_candidates-moves c current recommended ns in
    elim (Bool-cases (
      n.offering =ₛ current
      && not (
          c.skip_nodes_with_local_storage
          && any (λ w. w.has_local_storage) (get_node_workloads n.pods)))) [
            | inl e ↦
                let same : n.offering ≡ current = (text_eq_iff _ _).0 (ground arith) in
                rw e ((same, refl), rest)
            | inr e ↦ rw e rest
          ]

not_recent :
    (c : AnalyzerConfig) (now : ℕ) (o : Option ℕ) (t : ℕ)
    → o ≡ some t
    → is_recent c now o ≡ false
    → c.cooldown_period ≤ now - t
not_recent c now none t e h = cc
not_recent c now (some at) t e h = ground arith

check_node_group_health_passed :
    (c : AnalyzerConfig) (now : ℕ) (g : GroupState)
    → check_node_group_health c now g ≡ passed
    → (g.min_nodes ≤ g.current_nodes)
      × ((t : ℕ) → g.last_scale_time ≡ some t → c.cooldown_period ≤ now - t)
unfolding check_node_group_health
check_node_group_health_passed c now g h =
    let rested : is_recent c now g.last_scale_time ≡ false = ground arith in
    (ground arith, λ t e. not_recent c now g.last_scale_time t e rested)

combined_passed :
    (own : CheckStatus) (o : Option CheckStatus) (have limit : ℕ)
    → own ≡ (if ltb limit have then warned else passed)
    → combined own o ≡ passed
    → (have ≤ limit) × (o ≡ some passed)
combined_passed own none have limit e h = cc
combined_passed own (some failed_check) have limit e h = cc
combined_passed own (some passed) have limit e h = (ground arith, refl)
combined_passed passed (some warned) have limit e h = cc
combined_passed warned (some warned) have limit e h = cc
combined_passed failed_check (some warned) have limit e h = cc

check_resource_capacity_passed :
    (F : Floats) (g : GroupState) (a : Answers) (ns : List CandidateNode)
    → check_resource_capacity F g a ns ≡ passed
    → (g.current_nodes + length ns ≤ g.max_nodes)
      × (check_pod_resource_capacity F a ns ≡ some passed)
unfolding check_resource_capacity
check_resource_capacity_passed F g a ns h =
    combined_passed _ (check_pod_resource_capacity F a ns) _ _ refl h

analyze_nodes-Proceeds :
    (F : Floats) (c : AnalyzerConfig) (s : Situation F) (g : GroupState) (o : Opportunity F)
    (ns : List OfferedNode)
    → g.managed ≡ true
    → (analyze_nodes F c s g o ns).recommended_action ≡ proceed
    → Proceeds F c s g o (analyze_nodes F c s g o ns).candidate_nodes
unfolding analyze_nodes perform_safety_checks
analyze_nodes-Proceeds F c s g o ns managed h =
    let candidates = identify_candidates c o.current_offering o.recommended_offering ns in
    let (health, (group, rest)) =
      (determine_recommended_action_iff (perform_safety_checks F c s g candidates) o.high_risk).0.0
        h in
    let pdbs = if c.respect_pdbs then check_pod_disruption_budgets s.pdbs candidates ∷ [] else [] in
    let (room, timing) = All-append_right _ pdbs _ rest in
    let (enough, rested) = check_node_group_health_passed c s.now g group in
    let (headroom, fits) = check_resource_capacity_passed F g s.cluster candidates room in
    record {
      managed = managed;
      enough = enough;
      headroom = headroom;
      rested = rested;
      fits = fits;
      moves = identify_candidates-moves c o.current_offering o.recommended_offering ns;
    }

analyze_report-Proceeds :
    (F : Floats) (c : AnalyzerConfig) (s : Situation F) (g : GroupState)
    (report : Option (List (Opportunity F))) (a : RebalanceAnalysis F)
    → g.managed ≡ true
    → analyze_report F c s g report ≡ some a
    → a.recommended_action ≡ proceed
    → (o : Opportunity F) × (others : List (Opportunity F)) × (report ≡ some (o ∷ others))
      × Proceeds F c s g o a.candidate_nodes
unfolding analyze_report
analyze_report-Proceeds F c s g none a managed e h = cc
analyze_report-Proceeds F c s g (some []) a managed e h = cc
analyze_report-Proceeds F c s g (some (o ∷ others)) a managed e h =
    elim (Option-cases s.group_nodes) [
      | inl missing ↦ (let failed : none ≡ some a = rw missing at e in cc)
      | inr (ns, found) ↦
          let made : some (analyze_nodes F c s g o ns) ≡ some a = rw found at e in
          let same : analyze_nodes F c s g o ns ≡ a = cc in
          (
            o,
            others,
            refl,
            subst (λ x. x.recommended_action ≡ proceed → Proceeds F c s g o x.candidate_nodes) same
                (analyze_nodes-Proceeds F c s g o ns managed) h,
          )
    ]

-- An analysis says to proceed only with a group that is managed, has its minimum of nodes, has room
-- for a new node beside each candidate and was last scaled a cooldown ago or earlier, if the pods of the
-- candidates fit on the other nodes with no warning; then each candidate has the current offering of the
-- first opportunity that was reported, and is to get the one recommended there.
pub analyze_rebalance_opportunities-Proceeds :
    (F : Floats) (c : AnalyzerConfig) (s : Situation F) (g : GroupState)
    (report : Option (List (Opportunity F))) (a : RebalanceAnalysis F)
    → analyze_rebalance_opportunities F c s g report ≡ some a
    → a.recommended_action ≡ proceed
    → (o : Opportunity F) × (others : List (Opportunity F)) × (report ≡ some (o ∷ others))
      × Proceeds F c s g o a.candidate_nodes
unfolding analyze_rebalance_opportunities
analyze_rebalance_opportunities-Proceeds F c s g report a e h = elim (Bool-cases g.managed) [
  | inl managed ↦ analyze_report-Proceeds F c s g report a managed (rw managed at e) h
  | inr unmanaged ↦
      let made : some (rejected F) ≡ some a = rw unmanaged at e in
      let same : rejected F ≡ a = cc in
      let refused : reject ≡ proceed = subst (λ x. x.recommended_action ≡ proceed) (sym same) h in
      cc
]
