-- ===== src/Scaler/Manager.antt =====
-- pkg/scaler/scaler.go: the decision to remove a node, and a scale-down of several.
pub mod Limits
use vpsie_k8s_autoscaler.Prelude.{
  ℕ, zero, suc, ◌+◌, ◌-◌, ◌≡◌, String, ◌=ₛ◌, lookup, insert, Bool, true, false, not, ◌&&◌, ◌||◌,
  Option, none, some, List, [], ◌∷◌, ◌++◌, length, take, ltb, leb, if◌then◌else◌,
}
use vpsie_k8s_autoscaler.Prelude.Floats.{Floats}
use vpsie_k8s_autoscaler.Cluster.{Node, Pod}
use vpsie_k8s_autoscaler.Scaler.Safety.{Reason, Verdict, safe, unsafe, check_failed, Kube}
use vpsie_k8s_autoscaler.Scaler.Removal.{is_safe_to_remove}
use vpsie_k8s_autoscaler.Scaler.Policy.{Clock, PolicyEngine, allow_scale_down}
use vpsie_k8s_autoscaler.Scaler.Policy.Modes.{ScaleDownConfig}

-- What the decision reads of a node group: the number of its nodes is that of its status.
pub record NodeGroup : Type 0 where
  pub name : String
  pub node_count : ℕ
  pub min_nodes : ℕ
  pub scale_down_enabled : Bool

pub data Decision : Type 0 where
  allowed in_cooldown at_minimum by_policy failed_check : Decision
  by_safety : Reason → Decision

-- What one candidate meets when its turn comes: the time in nanoseconds and by the clock, the
-- cluster, and how its drain ends.
pub record Attempt : Type 0 where
  pub node : Node
  pub now : ℕ
  pub clock : Clock
  pub kube : Kube
  pub drains : Bool

module _ (F : Floats) where
  pub record Manager : Type 0 where
    pub config : ScaleDownConfig F
    pub last_scale_down : List (String × ℕ)
    pub policy_engine : PolicyEngine

  unfoldable pub is_outside_cooldown_period : Manager → ℕ → String → Bool
  is_outside_cooldown_period m now group = elim (lookup group m.last_scale_down) [
    | none ↦ true
    | some t ↦ leb (t + m.config.cooldown_period) now
  ]

  abbrev of_verdict : Verdict → Decision → Decision
  of_verdict safe rest = rest
  of_verdict (unsafe r) rest = by_safety r
  of_verdict check_failed rest = failed_check

  -- The safety checks and the policy, once the pods of the node were listed.
  unfoldable pub check_node : Manager → NodeGroup → Attempt → Option (List Pod) → Decision
  check_node m g a none = failed_check
  check_node m g a (some ps) = of_verdict (is_safe_to_remove F a.kube a.node ps) (
      if allow_scale_down m.policy_engine a.clock g.scale_down_enabled a.node
      then allowed
      else by_policy)

  unfoldable pub can_scale_down : Manager → NodeGroup → Attempt → Decision
  can_scale_down m g a =
      if not (is_outside_cooldown_period m a.now g.name)
      then in_cooldown
      else if leb g.node_count g.min_nodes
      then at_minimum
      else check_node m g a (a.kube.pods_on a.node.name)

  abbrev pub is_allowed : Decision → Bool
  is_allowed allowed = true
  is_allowed _ = false

  -- The candidates that the loop drains, in order.
  unfoldable pub drained_by : Manager → NodeGroup → List Attempt → List Attempt
  drained_by m g [] = []
  drained_by m g (a ∷ tries) =
      let rest = drained_by m g tries in
      if is_allowed (can_scale_down m g a) && a.drains then a ∷ rest else rest

  -- A check that failed, or a drain.
  unfoldable pub has_errors : Manager → NodeGroup → List Attempt → Bool
  has_errors m g [] = false
  has_errors m g (a ∷ tries) =
      let rest = has_errors m g tries in
      elim (can_scale_down m g a) [
        | failed_check ↦ true
        | allowed ↦ if a.drains then rest else true
        | _ ↦ rest
      ]

  -- The manager, the candidates that were drained, and whether an error is returned. The time of the
  -- scale-down is written once, after the loop, if a node was drained.
  unfoldable pub scale_down : ℕ → Manager → NodeGroup → List Attempt → Manager × List Attempt × Bool
  unfolding has_errors
  scale_down end m g tries =
      let chosen = take m.config.max_nodes_per_scale_down tries in
      let drained = drained_by m g chosen in
      let failed = has_errors m g chosen in
      if ltb 0 (length drained)
      then (record m { last_scale_down = insert g.name end m.last_scale_down }, drained, failed)
      else (m, drained, failed)
