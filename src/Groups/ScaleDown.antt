-- ===== src/Groups/ScaleDown.antt =====
-- The objects that a scale-down deletes, against the nodes that it drained.
use vpsie_k8s_autoscaler.Prelude.{ℕ, ◌≡◌, refl, false, List, [], ◌∷◌, take, All, All-take, arith}
use vpsie_k8s_autoscaler.Prelude.Floats.{Floats}
use vpsie_k8s_autoscaler.Lifecycle.Types.{VpsieNode}
use vpsie_k8s_autoscaler.Scaler.Manager.{
  NodeGroup, in_cooldown, Attempt, Manager, is_outside_cooldown_period, can_scale_down, drained_by,
  has_errors, scale_down,
}
use vpsie_k8s_autoscaler.Scaler.Manager.Limits.{can_scale_down-in_cooldown}
use vpsie_k8s_autoscaler.Groups.{delete_candidates, reconcile_intelligent_scale_down}

module _ (F : Floats) where
  -- The manager refuses the removal, without an error.
  abbrev pub Refused : Manager F → NodeGroup → Attempt → Type 0
  Refused m g a = can_scale_down F m g a ≡ in_cooldown

  drained_by-Refused :
      (m : Manager F) (g : NodeGroup) (tries : List Attempt)
      → All (Refused m g) tries
      → drained_by F m g tries ≡ []
  unfolding drained_by
  drained_by-Refused m g [] h = refl
  drained_by-Refused m g (a ∷ tries) h = ground (arith, drained_by-Refused m g tries h.1)

  has_errors-Refused :
      (m : Manager F) (g : NodeGroup) (tries : List Attempt)
      → All (Refused m g) tries
      → has_errors F m g tries ≡ false
  unfolding has_errors
  has_errors-Refused m g [] h = refl
  has_errors-Refused m g (a ∷ tries) h = ground (arith, has_errors-Refused m g tries h.1)

  scale_down-Refused :
      (end : ℕ) (m : Manager F) (g : NodeGroup) (tries : List Attempt)
      → All (Refused m g) tries
      → scale_down F end m g tries ≡ (m, [], false)
  unfolding scale_down
  scale_down-Refused end m g tries h =
      let chosen = take m.config.max_nodes_per_scale_down tries in
      let refused = All-take (Refused m g) m.config.max_nodes_per_scale_down tries h in
      rw (drained_by-Refused m g chosen refused) (rw (has_errors-Refused m g chosen refused) refl)

  in_cooldown-Refused :
      (m : Manager F) (g : NodeGroup) (tries : List Attempt)
      → All (λ a. is_outside_cooldown_period F m a.now g.name ≡ false) tries
      → All (Refused m g) tries
  in_cooldown-Refused m g [] h = tt
  in_cooldown-Refused m g (a ∷ tries) h =
      (can_scale_down-in_cooldown F m g a h.0, in_cooldown-Refused m g tries h.1)

  -- If the manager refuses every candidate because the group is in its cooldown, no node is drained,
  -- and the objects of the candidates up to the limit are deleted all the same.
  pub reconcile_deletes_refused :
      (end : ℕ) (m : Manager F) (g : NodeGroup) (vns : List VpsieNode) (candidates : List Attempt)
      → All (λ a. is_outside_cooldown_period F m a.now g.name ≡ false) candidates
      → ((reconcile_intelligent_scale_down F end m g vns candidates).drained ≡ [])
        × ((reconcile_intelligent_scale_down F end m g vns candidates).deleted
            ≡ delete_candidates vns (take m.config.max_nodes_per_scale_down candidates))
  unfolding reconcile_intelligent_scale_down
  reconcile_deletes_refused end m g vns candidates h =
      let chosen = take m.config.max_nodes_per_scale_down candidates in
      rw
        (scale_down-Refused end m g chosen (
          All-take (Refused m g) m.config.max_nodes_per_scale_down candidates
            (in_cooldown-Refused m g candidates h)))
        (refl, refl)
