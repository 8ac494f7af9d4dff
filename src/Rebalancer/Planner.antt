-- ===== src/Rebalancer/Planner.antt =====
-- pkg/rebalancer/planner.go. Sizes and limits are natural numbers: zero stands for what is not set.
-- Slices are lists: the merge appends to a part of the candidates only what already follows it there.
pub mod Batches
pub mod Validity
use mathlib.Core.Option
use vpsie_k8s_autoscaler.Prelude.{
  ℕ, zero, suc, ◌+◌, ◌-◌, ◌*◌, ◌/◌, pos, ℤ, Bool, true, false, ◌&&◌, ◌||◌, Option, none, some, List,
  [], ◌∷◌, ◌++◌, length, take, drop, any, all, leb, ltb, ◌==◌, if◌then◌else◌, String,
}
use vpsie_k8s_autoscaler.Prelude.Floats.{Floats}
use vpsie_k8s_autoscaler.Rebalancer.{
  Workload, CandidateNode, RebalanceStrategy, rolling, surge, blue_green, unknown, NodeBatch,
  Action, pause_execution, uncordon_old_nodes, terminate_new_nodes, verify_workloads, update_status,
  RollbackPlan, RebalancePlan,
}

pub record PlannerConfig : Type 0 where
  pub batch_size : ℕ
  pub max_concurrent : ℕ
  pub drain_timeout : ℕ
  pub provision_timeout : ℕ

abbrev pub minute : ℕ
minute = 60000000000

-- Go panics at a limit of zero with two nodes or more; here the quotient is zero.
unfoldable pub estimate_batch_duration : PlannerConfig → List CandidateNode → ℕ
estimate_batch_duration c nodes =
    let base_time = c.provision_timeout + c.drain_timeout + minute in
    if leb (length nodes) 1
    then base_time
    else base_time
      * length nodes
      / (if ltb (length nodes) c.max_concurrent then length nodes else c.max_concurrent)

abbrev pub previous : ℕ → List ℕ
previous zero = []
previous (suc n) = n ∷ []

abbrev pub before : NodeBatch → Option (List NodeBatch) → Option (List NodeBatch)
before b none = none
before b (some bs) = some (b ∷ bs)

-- The loop over the candidates that are left. `none`: the rounds that were given are not enough.
unfoldable pub batch_from :
    PlannerConfig → (size number rounds : ℕ) → List CandidateNode → Option (List NodeBatch)
unfolding estimate_batch_duration
batch_from c size number rounds [] = some []
batch_from c size number zero (n ∷ ns) = none
batch_from c size number (suc rounds) (n ∷ ns) =
    let batch = take size (n ∷ ns) in
    let rest = batch_from c size (suc number) rounds (drop size (n ∷ ns)) in
    before
      record {
        batch_number = number;
        nodes = batch;
        estimated_duration = estimate_batch_duration c batch;
        depends_on = previous number;
      }
      rest

abbrev pub effective_size : PlannerConfig → ℕ → ℕ
effective_size c size = if size == 0 then c.batch_size else size

unfoldable pub batch_nodes :
    PlannerConfig → (rounds size : ℕ) → List CandidateNode → Option (List NodeBatch)
unfolding batch_from
batch_nodes c rounds size nodes = batch_from c (effective_size c size) 0 rounds nodes

unfoldable pub create_rollback_plan : RollbackPlan
create_rollback_plan = record {
  steps =
      pause_execution ∷ uncordon_old_nodes ∷ terminate_new_nodes ∷ verify_workloads ∷ update_status
      ∷ [];
  auto_rollback = true;
}

-- The specification of a group has no field for it yet.
unfoldable pub determine_strategy : RebalanceStrategy
determine_strategy = rolling

abbrev stage : ℕ → ℕ → List CandidateNode → NodeBatch
stage number duration nodes = record {
  batch_number = number;
  nodes = nodes;
  estimated_duration = duration;
  depends_on = previous number;
}

unfoldable pub create_surge_batches : PlannerConfig → List CandidateNode → List NodeBatch
create_surge_batches c nodes =
    stage 0 c.provision_timeout nodes ∷ stage 1 (c.drain_timeout * length nodes) nodes ∷ []

unfoldable pub create_blue_green_batches : PlannerConfig → List CandidateNode → List NodeBatch
create_blue_green_batches c nodes =
    stage 0 (c.provision_timeout * 2) nodes
    ∷ stage 1 minute nodes
    ∷ stage 2 (c.drain_timeout * length nodes) nodes
    ∷ []

-- The rounds of the loop of rolling batches are the candidates.
unfoldable pub create_batches :
    PlannerConfig → List CandidateNode → RebalanceStrategy → Option (List NodeBatch)
unfolding batch_nodes create_surge_batches create_blue_green_batches
create_batches c nodes surge = some (create_surge_batches c nodes)
create_batches c nodes blue_green = some (create_blue_green_batches c nodes)
create_batches c nodes rolling = batch_nodes c (length nodes) c.batch_size nodes
create_batches c nodes (unknown s) = batch_nodes c (length nodes) c.batch_size nodes

unfoldable pub sum_durations : List NodeBatch → ℕ
sum_durations [] = 0
sum_durations (b ∷ bs) = b.estimated_duration + sum_durations bs

abbrev pub is_known : RebalanceStrategy → Bool
is_known (unknown s) = false
is_known _ = true

module _ (F : Floats) where
  -- One fifth is added, in floats. An unknown strategy adds nothing up.
  unfoldable pub estimate_total_duration : List NodeBatch → RebalanceStrategy → ℤ
  unfolding sum_durations
  estimate_total_duration bs s =
      F.to_int
        (F.mul (F.of_int (pos (if is_known s then sum_durations bs else 0))) (F.literal 12 10))

  abbrev pub plan_of :
      PlannerConfig → (group : String) → List CandidateNode → List NodeBatch → RebalancePlan
  unfolding determine_strategy create_rollback_plan estimate_total_duration
  plan_of c group nodes batches = record {
    node_group_name = group;
    batches = batches;
    total_nodes = length nodes;
    strategy = determine_strategy;
    max_concurrent = c.max_concurrent;
    rollback_plan = some create_rollback_plan;
    estimated_duration = estimate_total_duration batches determine_strategy;
  }

  unfoldable pub create_rebalance_plan :
      PlannerConfig → (group : String) → List CandidateNode → Option RebalancePlan
  unfolding create_batches determine_strategy
  create_rebalance_plan c group nodes =
      Option.map (plan_of c group nodes) (create_batches c nodes determine_strategy)

pub data PlanError : Type 0 where
  later_batch invalid_dependency too_many_nodes invalid_strategy no_rollback_plan : PlanError

-- The first dependency of a batch that is refused.
unfoldable pub refused_dependency : (count number : ℕ) → List ℕ → Option PlanError
refused_dependency count number [] = none
refused_dependency count number (d ∷ ds) =
    let rest = refused_dependency count number ds in
    if leb number d then some later_batch else if leb count d then some invalid_dependency else rest

unfoldable pub refused_batch : ℕ → List NodeBatch → Option PlanError
unfolding refused_dependency
refused_batch count [] = none
refused_batch count (b ∷ bs) =
    let rest = refused_batch count bs in
    elim (refused_dependency count b.batch_number b.depends_on) [ some e ↦ some e | none ↦ rest ]

abbrev pub refused_rest : RebalancePlan → ℕ → Option PlanError → Option PlanError
refused_rest p max_nodes (some e) = some e
refused_rest p max_nodes none =
    if ltb max_nodes p.total_nodes
    then some too_many_nodes
    else if is_known p.strategy
    then elim p.rollback_plan [ none ↦ some no_rollback_plan | some r ↦ none ]
    else some invalid_strategy

-- The error, or `none` for a valid plan.
unfoldable pub validate_plan : RebalancePlan → (max_nodes : ℕ) → Option PlanError
unfolding refused_batch
validate_plan p max_nodes = refused_rest p max_nodes (refused_batch (length p.batches) p.batches)

-- `GetBatchByNumber`: the first batch of that number.
unfoldable pub get_batch_by_number : List NodeBatch → ℕ → Option NodeBatch
get_batch_by_number [] number = none
get_batch_by_number (b ∷ bs) number =
    if b.batch_number == number then some b else get_batch_by_number bs number

abbrev pub is_among : List ℕ → ℕ → Bool
is_among ns n = any (λ m. n == m) ns

abbrev pub is_executable : List ℕ → Option NodeBatch → Bool
is_executable completed none = false
is_executable completed (some b) = all (is_among completed) b.depends_on

-- The error is returned with `false`.
unfoldable pub can_execute_batch : RebalancePlan → ℕ → List ℕ → Bool
unfolding get_batch_by_number
can_execute_batch p number completed =
    is_executable completed (get_batch_by_number p.batches number)
