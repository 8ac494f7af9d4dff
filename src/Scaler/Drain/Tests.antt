-- ===== src/Scaler/Drain/Tests.antt =====
-- Drains of the scale-down at concrete inputs.
use vpsie_k8s_autoscaler.Prelude.{
  ℕ, zero, suc, ◌≡◌, refl, pos, String, true, false, none, some, List, [], ◌∷◌,
}
use vpsie_k8s_autoscaler.Scaler.Drain.{
  NodeObject, evicted, blocked, other_error, TrackedPod, Surroundings, budgets_refuse,
  eviction_failed, still_running, filter_pods_for_eviction, needs_eviction, is_static_pod,
  validate_pdb, validate_pod_disruption_budgets, evict_pod_with_retry, evict_pods,
  wait_for_pod_termination, verify_migration, fail_eviction, drained, drain_node, drain_pods,
  drain_filtered, drain_listed, cordon_node,
}
use vpsie_k8s_autoscaler.Scaler.Drain.Rollback.{drain_node_stays_cordoned}
use vpsie_k8s_autoscaler.Scaler.Drain.Success.{IsOver, drain_node_drained}

abbrev tracked : (kind : String) → ℕ → TrackedPod
tracked kind uid = record {
  uid = uid;
  pod = record {
    name = "web";
    namespace = "default";
    labels = none;
    annotations = none;
    deletion_timestamp = none;
    phase = "Running";
    owner_kinds = kind ∷ [];
    node_name = "a";
    volumes = [];
    requests = [];
    init_requests = [];
    affinity = none;
  };
}

abbrev pods : List TrackedPod
pods = tracked "ReplicaSet" 1 ∷ tracked "DaemonSet" 2 ∷ tracked "Node" 3 ∷ []

abbrev left : List TrackedPod
left = tracked "DaemonSet" 2 ∷ []

-- An eviction is granted at the second attempt; the first poll still sees the pod, and the second does not.
abbrev answers : Surroundings
answers = record {
  reaches = λ u. true;
  pods = some pods;
  enable_pod_disruption_budget = true;
  budgets =
      λ namespace. some (record { selects = some (λ p. true); disruptions_allowed = pos 1 } ∷ []);
  evicts = λ p attempt. elim attempt [ zero ↦ other_error | suc n ↦ evicted ];
  is_over = λ p attempt. false;
  drain_ended = false;
  parent_cancelled = false;
  abandoned = false;
  polls = some pods ∷ some left ∷ [];
  pods_after = some left;
  start_time = "2024-01-01T00:00:00Z";
}

abbrev node : NodeObject
node = record { version = 7; unschedulable = false; annotations = none }

-- The budget allows no disruption.
abbrev exhausted : Surroundings
exhausted = record answers {
  budgets =
      λ namespace. some (record { selects = some (λ p. true); disruptions_allowed = pos 0 } ∷ []);
}

drained_in_the_end : (drain_node answers node node).1 ≡ drained
unfolding drain_node cordon_node drain_listed drain_filtered drain_pods verify_migration evict_pods
    evict_pod_with_retry filter_pods_for_eviction needs_eviction is_static_pod
    validate_pod_disruption_budgets validate_pdb wait_for_pod_termination
drained_in_the_end = refl

refused_by_budget : (drain_node exhausted node node).1 ≡ budgets_refuse
unfolding drain_node cordon_node drain_listed drain_filtered validate_pod_disruption_budgets
    validate_pdb
refused_by_budget = refl

-- A blocked eviction is not tried again.
fails_when_blocked :
    (drain_node (record answers { evicts = λ p attempt. blocked }) node node).1 ≡ eviction_failed
unfolding drain_node cordon_node drain_listed drain_filtered drain_pods fail_eviction evict_pods
    evict_pod_with_retry
fails_when_blocked = refl

new_pods_are_seen :
    (drain_node (record answers { pods_after = some (tracked "ReplicaSet" 9 ∷ left) }) node node).1
    ≡ still_running 1
unfolding drain_node cordon_node drain_listed drain_filtered drain_pods verify_migration
new_pods_are_seen = refl

drain_node_stays_cordoned_example :
    (drain_node exhausted node node).0 ≡ record node { version = 8; unschedulable = true }
drain_node_stays_cordoned_example = drain_node_stays_cordoned exhausted node node refl refl refl

drain_node_drained_example :
    (ps : List TrackedPod) × (answers.pods ≡ some ps) × IsOver answers (filter_pods_for_eviction ps)
drain_node_drained_example = drain_node_drained answers node node drained_in_the_end
