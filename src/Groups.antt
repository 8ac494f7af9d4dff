-- ===== src/Groups.antt =====
-- pkg/controller/nodegroup: how many nodes a group wants, which ones it gives up, and the scale-down
-- that the manager of pkg/scaler prepares.
pub mod Counts
pub mod ScaleDown
pub mod ScaleUp
mod Tests
use vpsie_k8s_autoscaler.Prelude.{
  ℕ, zero, suc, ◌+◌, ◌-◌, ◌≡◌, ℤ, pos, sub_ℕ, ltbℤ, String, ◌=ₛ◌, Bool, true, false, not, ◌&&◌,
  ◌||◌, Option, none, some, List, [], ◌∷◌, ◌++◌, length, take, leb, ltb, ◌==◌, if◌then◌else◌,
}
use vpsie_k8s_autoscaler.Prelude.Floats.{Floats}
use vpsie_k8s_autoscaler.Lifecycle.Types.{Phase, ready, VpsieNode}
use vpsie_k8s_autoscaler.Scaler.Manager.{NodeGroup, Attempt, Manager, scale_down}

-- The counts of the status and the spec, in their order of use.
pub record Size : Type 0 where
  pub min_nodes : ℕ
  pub max_nodes : ℕ
  pub current : ℕ
  pub desired : ℕ

unfoldable pub calculate_desired_nodes : Size → ℕ
calculate_desired_nodes s =
    let wanted = if s.desired == 0 then s.min_nodes else s.desired in
    let raised = if ltb wanted s.min_nodes then s.min_nodes else wanted in
    if ltb s.max_nodes raised then s.max_nodes else raised

unfoldable pub needs_scale_up : Size → Bool
needs_scale_up s = ltb s.current s.desired && ltb s.current s.max_nodes

unfoldable pub needs_scale_down : Size → Bool
needs_scale_down s = ltb s.desired s.current && ltb s.min_nodes s.current

unfoldable pub calculate_nodes_to_add : Size → ℤ
calculate_nodes_to_add s =
    let needed = sub_ℕ s.desired s.current in
    let can_add = sub_ℕ s.max_nodes s.current in if ltbℤ can_add needed then can_add else needed

unfoldable pub calculate_nodes_to_remove : Size → ℤ
calculate_nodes_to_remove s =
    let excess = sub_ℕ s.current s.desired in
    let can_remove = sub_ℕ s.current s.min_nodes in
    if ltbℤ can_remove excess then can_remove else excess

abbrev pub is_ready_phase : Phase → Bool
is_ready_phase ready = true
is_ready_phase _ = false

-- The nodes whose readiness is as asked for, in order.
unfoldable pub only : Bool → List VpsieNode → List VpsieNode
only b [] = []
only b (vn ∷ vns) =
    let rest = only b vns in
    if (if b then is_ready_phase vn.status.phase else not (is_ready_phase vn.status.phase))
    then vn ∷ rest
    else rest

unfoldable pub select_nodes_to_delete : List VpsieNode → ℕ → List VpsieNode
unfolding only
select_nodes_to_delete vns count =
    if leb (length vns) count
    then vns
    else (let first = take count (only false vns) in
        first ++ take (count - length first) (only true vns))

-- A map from names is filled in order, so that the last object of a name stays; the empty name is
-- left out.
unfoldable pub last_named : (VpsieNode → String) → String → List VpsieNode → Option VpsieNode
last_named key name [] = none
last_named key name (vn ∷ vns) =
    let later = last_named key name vns in
    elim later [
      | some found ↦ some found
      | none ↦ if not (key vn =ₛ "") && key vn =ₛ name then some vn else none
    ]

unfoldable pub find_vpsie_node : List VpsieNode → String → Option VpsieNode
unfolding last_named
find_vpsie_node vns name = elim (last_named (λ vn. vn.status.node_name) name vns) [
  | some vn ↦ some vn
  | none ↦ elim (last_named (λ vn. vn.spec.node_name) name vns) [
    | some vn ↦ some vn
    | none ↦ last_named (λ vn. vn.status.hostname) name vns
  ]
]

-- The objects that the loop asks the API server to delete; a refused deletion does not end it.
unfoldable pub delete_candidates : List VpsieNode → List Attempt → List VpsieNode
delete_candidates vns [] = []
delete_candidates vns (a ∷ tries) =
    let rest = delete_candidates vns tries in
    elim (find_vpsie_node vns a.node.name) [ none ↦ rest | some vn ↦ vn ∷ rest ]

module _ (F : Floats) where
  -- The candidates that were drained, and the objects whose deletion was asked for.
  pub record ScaledDown : Type 0 where
    pub manager : Manager F
    pub drained : List Attempt
    pub deleted : List VpsieNode

  -- `reconcileIntelligentScaleDown`, once the candidates were identified.
  unfoldable pub reconcile_intelligent_scale_down :
      ℕ → Manager F → NodeGroup → List VpsieNode → List Attempt → ScaledDown
  reconcile_intelligent_scale_down end m g vns candidates =
      let chosen = take m.config.max_nodes_per_scale_down candidates in
      let (after, drained, failed) = scale_down F end m g chosen in
      if failed
      then record { manager = after; drained = drained; deleted = [] }
      else record { manager = after; drained = drained; deleted = delete_candidates vns chosen }
