-- ===== src/Rebalancer/Analyzer.antt =====
-- pkg/rebalancer/analyzer.go: which nodes are candidates, the checks, and the recommended action. The
-- report of the optimizer and the cluster's answers are arguments; `none` is an error of the call. The
-- scores of the nodes, which nothing compares, and the texts of the checks are left out.
pub mod Capacity
pub mod Decisions
pub mod Windows
mod Tests
use vpsie_k8s_autoscaler.Prelude.{
  ℕ, ◌+◌, ◌-◌, ◌*◌, ◌/◌, String, ◌=ₛ◌, Bool, true, false, not, ◌&&◌, ◌||◌, Option, none, some, List,
  [], ◌∷◌, ◌++◌, length, any, is_some, leb, ltb, if◌then◌else◌, suc,
}
use vpsie_k8s_autoscaler.Prelude.Floats.{Floats}
use vpsie_k8s_autoscaler.Cluster.{Node, Volume, Pod}
use vpsie_k8s_autoscaler.Rebalancer.{Workload, CandidateNode}
use vpsie_k8s_autoscaler.Rebalancer.Nodes.{count_ready}
use vpsie_k8s_autoscaler.Rebalancer.Analyzer.Capacity.{
  CheckStatus, passed, warned, failed_check, Answers, check_pod_resource_capacity,
}

pub record MaintenanceWindow : Type 0 where
  pub start : String
  pub end : String
  pub days : List String

pub record AnalyzerConfig : Type 0 where
  pub min_healthy_percent : ℕ
  pub skip_nodes_with_local_storage : Bool
  pub respect_pdbs : Bool
  pub cooldown_period : ℕ
  pub maintenance_windows : List MaintenanceWindow

-- What is read of a NodeGroup; the time of its last scaling, if there was one.
pub record GroupState : Type 0 where
  pub name : String
  pub managed : Bool
  pub min_nodes : ℕ
  pub max_nodes : ℕ
  pub current_nodes : ℕ
  pub last_scale_time : Option ℕ

-- A node of the group, with the offering of its label.
pub record OfferedNode : Type 0 where
  pub name : String
  pub offering : String
  pub pods : List Pod

abbrev is_local : Volume → Bool
is_local v = is_some v.empty_dir || v.host_path

-- One workload for each pod: the loop over the owners of a pod has its own `continue`.
unfoldable pub get_node_workloads : List Pod → List Workload
get_node_workloads [] = []
get_node_workloads (p ∷ ps) =
    record {
      name = p.name;
      namespace = p.namespace;
      has_pdb = false;
      has_local_storage = any is_local p.volumes;
      is_critical = false;
    }
    ∷ get_node_workloads ps

abbrev pub has_local_storage : List Workload → Bool
has_local_storage ws = any (λ w. w.has_local_storage) ws

-- The offerings of the opportunity.
unfoldable pub identify_candidates :
    AnalyzerConfig → (current recommended : String) → List OfferedNode → List CandidateNode
unfolding get_node_workloads
identify_candidates c current recommended [] = []
identify_candidates c current recommended (n ∷ ns) =
    let rest = identify_candidates c current recommended ns in
    let workloads = get_node_workloads n.pods in
    if n.offering =ₛ current && not (c.skip_nodes_with_local_storage && has_local_storage workloads)
    then record {
      node_name = n.name;
      current_offering = n.offering;
      target_offering = recommended;
      workloads = workloads;
    }
      ∷ rest
    else rest

unfoldable pub check_cluster_health : AnalyzerConfig → Option (List Node) → CheckStatus
unfolding count_ready
check_cluster_health c none = failed_check
check_cluster_health c (some ns) =
    if ltb (count_ready ns) (length ns * c.min_healthy_percent / 100) then warned else passed

abbrev pub is_recent : AnalyzerConfig → ℕ → Option ℕ → Bool
is_recent c now none = false
is_recent c now (some t) = ltb (now - t) c.cooldown_period

unfoldable pub check_node_group_health : AnalyzerConfig → ℕ → GroupState → CheckStatus
check_node_group_health c now g =
    if ltb g.current_nodes g.min_nodes
    then failed_check
    else if is_recent c now g.last_scale_time
    then failed_check
    else passed

-- A budget is read for whether it sets a limit.
unfoldable pub can_satisfy_pdb : (limits : Bool) → List CandidateNode → Bool
can_satisfy_pdb limits ns = if ltb 2 (length ns) then false else not (limits && ltb 1 (length ns))

unfoldable pub check_pod_disruption_budgets : Option (List Bool) → List CandidateNode → CheckStatus
unfolding can_satisfy_pdb
check_pod_disruption_budgets none ns = warned
check_pod_disruption_budgets (some pdbs) ns =
    if any (λ limits. not (can_satisfy_pdb limits ns)) pdbs then failed_check else passed

-- The check of the requests, or `none` for its error, on top of that of the headroom.
abbrev pub combined : CheckStatus → Option CheckStatus → CheckStatus
combined own none = warned
combined own (some failed_check) = failed_check
combined own (some passed) = own
combined passed (some warned) = warned
combined own (some warned) = own

-- The start and the end of the window are not looked at.
unfoldable pub is_in_maintenance_window : (weekday : String) → MaintenanceWindow → Bool
is_in_maintenance_window weekday w = any (λ day. day =ₛ weekday) w.days

unfoldable pub check_timing : AnalyzerConfig → (weekday : String) → CheckStatus
unfolding is_in_maintenance_window
check_timing c weekday = elim c.maintenance_windows [
  | [] ↦ passed
  | w ∷ ws ↦ if any (is_in_maintenance_window weekday) (w ∷ ws) then passed else failed_check
]

pub data RecommendedAction : Type 0 where
  proceed postpone reject needs_review : RecommendedAction

pub data RebalancePriority : Type 0 where
  high medium low : RebalancePriority

abbrev pub is_failed : CheckStatus → Bool
is_failed failed_check = true
is_failed _ = false

abbrev pub is_warned : CheckStatus → Bool
is_warned warned = true
is_warned _ = false

abbrev pub is_passed : CheckStatus → Bool
is_passed passed = true
is_passed _ = false

unfoldable pub determine_recommended_action :
    List CheckStatus → (high_risk : Bool) → RecommendedAction
determine_recommended_action checks high_risk =
    if any is_failed checks
    then reject
    else if high_risk && any is_warned checks
    then needs_review
    else if any is_warned checks
    then postpone
    else proceed

-- The status that `ValidateRebalanceSafety` sums the checks up to.
unfoldable pub overall_status : CheckStatus → List CheckStatus → CheckStatus
overall_status so_far [] = so_far
overall_status so_far (failed_check ∷ checks) = failed_check
overall_status passed (warned ∷ checks) = overall_status warned checks
overall_status so_far (_ ∷ checks) = overall_status so_far checks

module _ (F : Floats) where
  pub record Opportunity : Type 0 where
    pub current_offering : String
    pub recommended_offering : String
    pub monthly_savings : F.Float
    pub high_risk : Bool

  pub record Situation : Type 0 where
    pub now : ℕ
    pub weekday : String
    pub cluster : Answers
    pub pdbs : Option (List Bool)
    pub group_nodes : Option (List OfferedNode)

  unfoldable pub check_resource_capacity : GroupState → Answers → List CandidateNode → CheckStatus
  unfolding check_pod_resource_capacity
  check_resource_capacity g a ns =
      combined (if ltb g.max_nodes (g.current_nodes + length ns) then warned else passed)
        (check_pod_resource_capacity F a ns)

  unfoldable pub perform_safety_checks :
      AnalyzerConfig → Situation → GroupState → List CandidateNode → List CheckStatus
  unfolding check_cluster_health check_node_group_health check_pod_disruption_budgets
      check_resource_capacity check_timing
  perform_safety_checks c s g ns =
      check_cluster_health c s.cluster.nodes
        ∷ check_node_group_health c s.now g
        ∷ (if c.respect_pdbs then check_pod_disruption_budgets s.pdbs ns ∷ [] else [])
      ++ check_resource_capacity g s.cluster ns ∷ check_timing c s.weekday ∷ []

  unfoldable pub calculate_priority : Opportunity → List CheckStatus → RebalancePriority
  calculate_priority o checks =
      if F.lt (F.literal 100 1) o.monthly_savings && not (any (λ c. not (is_passed c)) checks)
      then high
      else if F.lt (F.literal 50 1) o.monthly_savings
      then medium
      else low

  pub record RebalanceAnalysis : Type 0 where
    pub candidate_nodes : List CandidateNode
    pub safety_checks : List CheckStatus
    pub recommended_action : RecommendedAction
    pub priority : Option RebalancePriority

  unfoldable pub analyze_nodes :
      AnalyzerConfig → Situation → GroupState → Opportunity → List OfferedNode → RebalanceAnalysis
  unfolding identify_candidates perform_safety_checks determine_recommended_action
      calculate_priority
  analyze_nodes c s g o ns =
      let candidates = identify_candidates c o.current_offering o.recommended_offering ns in
      let checks = perform_safety_checks c s g candidates in
      record {
        candidate_nodes = candidates;
        safety_checks = checks;
        recommended_action = determine_recommended_action checks o.high_risk;
        priority = some (calculate_priority o checks);
      }

  abbrev pub rejected : RebalanceAnalysis
  rejected = record {
    candidate_nodes = [];
    safety_checks = [];
    recommended_action = reject;
    priority = none;
  }

  -- The first of the opportunities that the optimizer reports is taken up.
  unfoldable pub analyze_report :
      AnalyzerConfig → Situation → GroupState → Option (List Opportunity) → Option RebalanceAnalysis
  unfolding analyze_nodes
  analyze_report c s g none = none
  analyze_report c s g (some []) = some rejected
  analyze_report c s g (some (o ∷ os)) = elim s.group_nodes [
    | none ↦ none
    | some ns ↦ some (analyze_nodes c s g o ns)
  ]

  -- `none`: an error is returned.
  unfoldable pub analyze_rebalance_opportunities :
      AnalyzerConfig → Situation → GroupState → Option (List Opportunity) → Option RebalanceAnalysis
  unfolding analyze_report
  analyze_rebalance_opportunities c s g report =
      if g.managed then analyze_report c s g report else some rejected
