-- ===== src/Scaler/Utilization.antt =====
-- pkg/scaler/utilization.go and scaler.go: samples of a node's use, and when it is underutilized.
use vpsie_k8s_autoscaler.Prelude.{
  ℕ, suc, ◌+◌, ◌-◌, ◌≤◌, ◌<◌, ◌≡◌, pos, String, ◌=ₛ◌, Bool, true, false, not, ◌&&◌, Option, none,
  some, List, [], ◌∷◌, ◌++◌, length, drop, ltb, ◌==◌, if◌then◌else◌, refl, arith,
}
use vpsie_k8s_autoscaler.Prelude.Floats.{Floats}
use vpsie_k8s_autoscaler.Cluster.{get, Resources, Node}
use vpsie_k8s_autoscaler.Scaler.Policy.Modes.{ScaleDownConfig}
use vpsie_k8s_autoscaler.Scaler.Removal.{is_node_protected}

abbrev pub max_samples_per_node : ℕ
max_samples_per_node = 50

abbrev pub max_staleness : ℕ
max_staleness = 300000000000

module _ (F : Floats) where
  open F use {Float, of_int, literal, add, mul, div, lt, le}

  pub record Sample : Type 0 where
    pub timestamp : ℕ
    pub cpu : Float
    pub memory : Float

  pub record NodeUtilization : Type 0 where
    pub cpu_utilization : Float
    pub memory_utilization : Float
    pub samples : List Sample
    pub last_updated : ℕ
    pub is_underutilized : Bool

  -- `sample.Timestamp.Before(now.Add(-window))`
  abbrev pub is_old : ℕ → ℕ → Sample → Bool
  is_old now window s = ltb (s.timestamp + window) now

  -- The sums and the count of the samples in the window.
  unfoldable pub window_sums : ℕ → ℕ → List Sample → Float × Float × ℕ → Float × Float × ℕ
  window_sums now window [] acc = acc
  window_sums now window (s ∷ ss) (cpu, memory, count) = window_sums now window ss (
      if is_old now window s
      then (cpu, memory, count)
      else (add cpu s.cpu, add memory s.memory, count + 1))

  unfoldable pub calculate_rolling_average : ℕ → ℕ → List Sample → Float × Float
  unfolding window_sums
  calculate_rolling_average now window ss =
      let (cpu, memory, count) = window_sums now window ss (literal 0 1, literal 0 1, 0) in
      if count == 0
      then (literal 0 1, literal 0 1)
      else (div cpu (of_int (pos count)), div memory (of_int (pos count)))

  unfoldable pub keep_recent : List Sample → List Sample
  keep_recent ss =
      if ltb max_samples_per_node (length ss)
      then drop (length ss - max_samples_per_node) ss
      else ss

  abbrev empty_utilization : NodeUtilization
  empty_utilization = record {
    cpu_utilization = literal 0 1;
    memory_utilization = literal 0 1;
    samples = [];
    last_updated = 0;
    is_underutilized = false;
  }

  abbrev or_empty : Option NodeUtilization → NodeUtilization
  or_empty none = empty_utilization
  or_empty (some u) = u

  sample_of : ℕ → Node → Resources → Sample
  sample_of now n usage = record {
    timestamp = now;
    cpu = mul (div (of_int usage.cpu) (of_int n.capacity.cpu)) (literal 100 1);
    memory = mul (div (of_int usage.memory) (of_int n.capacity.memory)) (literal 100 1);
  }

  -- `updateNodeUtilizationMetrics`, with what the metrics server tells of the node.
  unfoldable pub update_node_utilization_metrics :
      ScaleDownConfig F → ℕ → Node → Resources → Option NodeUtilization → NodeUtilization
  unfolding keep_recent calculate_rolling_average sample_of
  update_node_utilization_metrics c now n usage known =
      let kept = keep_recent ((or_empty known).samples ++ sample_of now n usage ∷ []) in
      let (cpu, memory) = calculate_rolling_average now c.observation_window kept in
      record {
        cpu_utilization = cpu;
        memory_utilization = memory;
        samples = kept;
        last_updated = now;
        is_underutilized = lt cpu c.cpu_threshold && lt memory c.memory_threshold;
      }

  -- How many samples are in the window, and how many of them are below both thresholds.
  unfoldable pub count_underutilized : ScaleDownConfig F → ℕ → List Sample → ℕ × ℕ
  count_underutilized c now [] = (0, 0)
  count_underutilized c now (s ∷ ss) =
      let (total, low) = count_underutilized c now ss in
      if is_old now c.observation_window s then (total, low) else (
        suc total,
        if lt s.cpu c.cpu_threshold && lt s.memory c.memory_threshold then suc low else low,
      )

  unfoldable pub has_been_underutilized_for_window : ScaleDownConfig F → ℕ → NodeUtilization → Bool
  unfolding count_underutilized
  has_been_underutilized_for_window c now u =
      if length u.samples == 0
      then false
      else if ltb (u.last_updated + max_staleness) now
      then false
      else (let (total, low) = count_underutilized c now u.samples in
          if total == 0
          then false
          else le (literal 8 10) (div (of_int (pos low)) (of_int (pos total))))

  -- Whether `IdentifyUnderutilizedNodes` keeps a node, as far as its pods can be listed.
  unfoldable pub is_candidate : ScaleDownConfig F → ℕ → Node → Option NodeUtilization → Bool
  unfolding has_been_underutilized_for_window
  is_candidate c now n known =
      if n.unschedulable
      then false
      else if is_node_protected n
      then false
      else if skipped_reason (get "autoscaler.vpsie.com/creation-reason" n.annotations)
      then false
      else elim known [
        | none ↦ false
        | some u ↦ if u.is_underutilized then has_been_underutilized_for_window c now u else false
      ]
    where
      skipped_reason : Option String → Bool
      skipped_reason none = false
      skipped_reason (some r) = not (r =ₛ "") && not (r =ₛ "metrics")

  count_underutilized-le :
      (c : ScaleDownConfig F) (now : ℕ) (ss : List Sample)
      → (count_underutilized c now ss).1 ≤ (count_underutilized c now ss).0
  unfolding count_underutilized
  count_underutilized-le c now [] = omega arith
  count_underutilized-le c now (s ∷ ss) = ground (arith, count_underutilized-le c now ss)

  has_been_underutilized_for_window-fresh :
      (c : ScaleDownConfig F) (now : ℕ) (u : NodeUtilization)
      → has_been_underutilized_for_window c now u ≡ true
      → (now ≤ u.last_updated + max_staleness) × (0 < (count_underutilized c now u.samples).0)
  unfolding has_been_underutilized_for_window
  has_been_underutilized_for_window-fresh c now u h = ground arith

  is_candidate-cases :
      (c : ScaleDownConfig F) (now : ℕ) (n : Node) (u : NodeUtilization)
      → is_candidate c now n (some u) ≡ true
      → (n.unschedulable ≡ false)
        × (is_node_protected n ≡ false)
        × (u.is_underutilized ≡ true)
        × (has_been_underutilized_for_window c now u ≡ true)
  unfolding is_candidate
  is_candidate-cases c now n u h = ground arith

  -- A node is a candidate for removal only if it is schedulable and not protected, its use is known
  -- and was measured in the last five minutes, and a sample lies in the observation window.
  pub is_candidate-fresh :
      (c : ScaleDownConfig F) (now : ℕ) (n : Node) (known : Option NodeUtilization)
      → is_candidate c now n known ≡ true
      → (n.unschedulable ≡ false)
        × (is_node_protected n ≡ false)
        × ((u : NodeUtilization) × (known ≡ some u)
            × (u.is_underutilized ≡ true)
            × (now ≤ u.last_updated + max_staleness)
            × (0 < (count_underutilized c now u.samples).0))
  unfolding is_candidate
  is_candidate-fresh c now n none h = ground arith
  is_candidate-fresh c now n (some u) h =
      let (open_node, unprotected, low, lasting) = is_candidate-cases c now n u h in
      let (recent, sampled) = has_been_underutilized_for_window-fresh c now u lasting in
      (open_node, unprotected, (u, refl, low, recent, sampled))
