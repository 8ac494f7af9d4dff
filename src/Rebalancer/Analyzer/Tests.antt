-- ===== src/Rebalancer/Analyzer/Tests.antt =====
-- The analyzer run at concrete inputs, with fractions for floats.
use vpsie_k8s_autoscaler.Prelude.{
  ◌≡◌, refl, pos, ◌-ℤ◌, String, true, false, none, some, List, [], ◌∷◌,
}
use vpsie_k8s_autoscaler.Prelude.Floats.{ratios}
use vpsie_k8s_autoscaler.Cluster.{Node, Pod, is_node_ready}
use vpsie_k8s_autoscaler.Rebalancer.Analyzer.{
  AnalyzerConfig, GroupState, Opportunity, Situation, proceed, RebalanceAnalysis, analyze_nodes,
  analyze_report, analyze_rebalance_opportunities, identify_candidates, get_node_workloads,
  perform_safety_checks,
}
use vpsie_k8s_autoscaler.Rebalancer.Analyzer.Decisions.{
  Proceeds, analyze_rebalance_opportunities-Proceeds,
}

abbrev config : AnalyzerConfig
config = record {
  min_healthy_percent = 75;
  skip_nodes_with_local_storage = true;
  respect_pdbs = true;
  cooldown_period = 3600;
  maintenance_windows = [];
}

abbrev host : String → Node
host name = record {
  name = name;
  labels = none;
  annotations = none;
  unschedulable = false;
  taints = [];
  conditions = record { condition_type = "Ready"; status = "True" } ∷ [];
  addresses = [];
  capacity = record { cpu = pos 4000; memory = pos 8000 };
  allocatable = record { cpu = pos 4000; memory = pos 8000 };
}

abbrev pod : Pod
pod = record {
  name = "web";
  namespace = "default";
  labels = none;
  annotations = none;
  deletion_timestamp = none;
  phase = "Running";
  owner_kinds = "ReplicaSet" ∷ [];
  node_name = "a";
  volumes = [];
  requests = record { cpu = pos 100; memory = pos 100 } ∷ [];
  init_requests = [];
  affinity = none;
}

abbrev situation : Situation ratios
situation = record {
  now = 10000;
  weekday = "Monday";
  cluster = record { nodes = some (host "a" ∷ host "b" ∷ []); pods_on = λ name. some (pod ∷ []) };
  pdbs = some [];
  group_nodes = some (record { name = "a"; offering = "large"; pods = pod ∷ [] } ∷ []);
}

abbrev group : GroupState
group = record {
  name = "workers";
  managed = true;
  min_nodes = 1;
  max_nodes = 3;
  current_nodes = 2;
  last_scale_time = some 0;
}

abbrev opportunity : Opportunity ratios
opportunity = record {
  current_offering = "large";
  recommended_offering = "small";
  monthly_savings = record { num = 120; den = 1 };
  high_risk = false;
}

abbrev analysis : RebalanceAnalysis ratios
analysis =
    analyze_nodes ratios config situation group opportunity
      (record { name = "a"; offering = "large"; pods = pod ∷ [] } ∷ [])

analysis_made :
    analyze_rebalance_opportunities ratios config situation group (some (opportunity ∷ []))
    ≡ some analysis
unfolding analyze_rebalance_opportunities analyze_report
analysis_made = refl

analysis_proceeds : analysis.recommended_action ≡ proceed
unfolding analyze_nodes identify_candidates get_node_workloads perform_safety_checks is_node_ready
    ◌-ℤ◌
analysis_proceeds = refl

analyze_rebalance_opportunities-Proceeds_example :
    (o : Opportunity ratios) × (others : List (Opportunity ratios)) × (some (opportunity ∷ [])
      ≡ some (o ∷ others))
    × Proceeds ratios config situation group o analysis.candidate_nodes
analyze_rebalance_opportunities-Proceeds_example =
    analyze_rebalance_opportunities-Proceeds ratios config situation group (some (opportunity ∷ []))
      analysis analysis_made analysis_proceeds

abbrev mondays : AnalyzerConfig
mondays = record config {
  maintenance_windows = record { start = "02:00"; end = "04:00"; days = "monday" ∷ [] } ∷ [];
}
