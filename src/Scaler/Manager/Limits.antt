-- ===== src/Scaler/Manager/Limits.antt =====
-- How many nodes a scale-down drains, which ones, and when the next one may start.
use vpsie_k8s_autoscaler.Prelude.{
  ℕ, zero, suc, ◌+◌, ◌≤◌, ◌<◌, ◌≡◌, refl, ◌∙◌, inl, inr, String, ◌=ₛ◌, text_eq_iff, insert,
  lookup-insert, true, false, ◌&&◌, Option, none, some, List, [], ◌∷◌, length, take, All, All-take,
  length-take-le, ltb, leb, if◌then◌else◌, Bool-cases, arith,
}
use vpsie_k8s_autoscaler.Prelude.Floats.{Floats}
use vpsie_k8s_autoscaler.Cluster.{Node, Pod}
use vpsie_k8s_autoscaler.Scaler.Safety.{safe, Kube}
use vpsie_k8s_autoscaler.Scaler.Removal.{is_safe_to_remove, is_node_protected}
use vpsie_k8s_autoscaler.Scaler.Policy.{get_current_mode, is_disabled, allow_scale_down}
use vpsie_k8s_autoscaler.Scaler.Manager.{
  NodeGroup, Decision, allowed, in_cooldown, Attempt, Manager, is_outside_cooldown_period,
  check_node, can_scale_down, is_allowed, drained_by, scale_down,
}

module _ (F : Floats) where
  is_safe_to_remove-unprotected :
      (k : Kube) (n : Node) (ps : List Pod)
      → is_safe_to_remove F k n ps ≡ safe
      → is_node_protected n ≡ false
  unfolding is_safe_to_remove
  is_safe_to_remove-unprotected k n ps h = ground arith

  allow_scale_down-open :
      (m : Manager F) (g : NodeGroup) (a : Attempt)
      → allow_scale_down m.policy_engine a.clock g.scale_down_enabled a.node ≡ true
      → (g.scale_down_enabled ≡ true)
        × (is_disabled (get_current_mode m.policy_engine a.clock) ≡ false)
  unfolding allow_scale_down
  allow_scale_down-open m g a h = ground arith

  -- What an allowed removal rests on.
  abbrev pub Permitted : Manager F → NodeGroup → Attempt → Type 0
  Permitted m g a =
      (is_outside_cooldown_period F m a.now g.name ≡ true)
      × (g.min_nodes < g.node_count)
      × (is_node_protected a.node ≡ false)
      × (g.scale_down_enabled ≡ true)
      × (is_disabled (get_current_mode m.policy_engine a.clock) ≡ false)

  check_node-allowed :
      (m : Manager F) (g : NodeGroup) (a : Attempt) (listed : Option (List Pod))
      → check_node F m g a listed ≡ allowed
      → (is_node_protected a.node ≡ false)
        × (g.scale_down_enabled ≡ true)
        × (is_disabled (get_current_mode m.policy_engine a.clock) ≡ false)
  unfolding check_node
  check_node-allowed m g a none h = cc
  check_node-allowed m g a (some ps) h =
      ground (arith, is_safe_to_remove-unprotected a.kube a.node ps, allow_scale_down-open m g a)

  can_scale_down-Permitted :
      (m : Manager F) (g : NodeGroup) (a : Attempt)
      → can_scale_down F m g a ≡ allowed
      → Permitted m g a
  unfolding can_scale_down
  can_scale_down-Permitted m g a h =
      ground (arith, check_node-allowed m g a (a.kube.pods_on a.node.name))

  is_allowed-≡ : (d : Decision) → is_allowed F d ≡ true → d ≡ allowed
  is_allowed-≡ d h = ground arith

  drained_by-Permitted :
      (m : Manager F) (g : NodeGroup) (tries : List Attempt)
      → All (Permitted m g) (drained_by F m g tries)
  unfolding drained_by
  drained_by-Permitted m g [] = tt
  drained_by-Permitted m g (a ∷ tries) =
      elim (Bool-cases (is_allowed F (can_scale_down F m g a) && a.drains)) [
        | inl chosen ↦ rw chosen (
          can_scale_down-Permitted m g a (is_allowed-≡ (can_scale_down F m g a) (ground arith)),
          drained_by-Permitted m g tries,
        )
        | inr passed_over ↦ rw passed_over (drained_by-Permitted m g tries)
      ]

  drained_by-le :
      (m : Manager F) (g : NodeGroup) (tries : List Attempt)
      → length (drained_by F m g tries) ≤ length tries
  unfolding drained_by
  drained_by-le m g [] = omega arith
  drained_by-le m g (a ∷ tries) = ground (arith, drained_by-le m g tries)

  scale_down-drained :
      (end : ℕ) (m : Manager F) (g : NodeGroup) (tries : List Attempt)
      → (scale_down F end m g tries).1
        ≡ drained_by F m g (take m.config.max_nodes_per_scale_down tries)
  unfolding scale_down
  scale_down-drained end m g tries = ground arith

  -- A scale-down drains at most the configured number of nodes, and each of them outside of the
  -- cooldown, from a group that allows it and has more nodes than its minimum, with a policy that is
  -- not disabled, and never a protected node.
  pub scale_down-Permitted :
      (end : ℕ) (m : Manager F) (g : NodeGroup) (tries : List Attempt)
      → (length (scale_down F end m g tries).1 ≤ m.config.max_nodes_per_scale_down)
        × All (Permitted m g) (scale_down F end m g tries).1
  scale_down-Permitted end m g tries =
      let chosen = take m.config.max_nodes_per_scale_down tries in
      rw (scale_down-drained end m g tries) (
        omega (
          arith,
          drained_by-le m g chosen,
          length-take-le m.config.max_nodes_per_scale_down tries,
        ),
        drained_by-Permitted m g chosen,
      )

  is_outside-insert :
      (m : Manager F) (end now : ℕ) (name other : String)
      → is_outside_cooldown_period F
          (record m { last_scale_down = insert name end m.last_scale_down })
          now
          other
        ≡ (if name =ₛ other
            then leb (end + m.config.cooldown_period) now
            else is_outside_cooldown_period F m now other)
  unfolding is_outside_cooldown_period
  is_outside-insert m end now name other =
      ground (arith, lookup-insert name other end m.last_scale_down)

  pub can_scale_down-in_cooldown :
      (m : Manager F) (g : NodeGroup) (a : Attempt)
      → is_outside_cooldown_period F m a.now g.name ≡ false
      → can_scale_down F m g a ≡ in_cooldown
  unfolding can_scale_down
  can_scale_down-in_cooldown m g a h = rw h refl

  stamped : ℕ → NodeGroup → Manager F → Manager F
  stamped end g m = record m { last_scale_down = insert g.name end m.last_scale_down }

  scale_down-stamped :
      (end : ℕ) (m : Manager F) (g : NodeGroup) (tries : List Attempt)
      → 0 < length (scale_down F end m g tries).1
      → (scale_down F end m g tries).0 ≡ stamped end g m
  unfolding scale_down stamped
  scale_down-stamped end m g tries d = ground arith

  scale_down-same :
      (end : ℕ) (m : Manager F) (g : NodeGroup) (tries : List Attempt)
      → length (scale_down F end m g tries).1 ≡ 0
      → (scale_down F end m g tries).0 ≡ m
  unfolding scale_down
  scale_down-same end m g tries d = ground arith

  stamped-in_cooldown :
      (end : ℕ) (m : Manager F) (g : NodeGroup) (a : Attempt)
      → a.now < end + m.config.cooldown_period
      → can_scale_down F (stamped end g m) g a ≡ in_cooldown
  unfolding stamped
  stamped-in_cooldown end m g a early =
      can_scale_down-in_cooldown (stamped end g m) g a
        (is_outside-insert m end a.now g.name g.name ∙ ground (arith, text_eq_iff g.name g.name))

  stamped-other :
      (end now : ℕ) (m : Manager F) (g h : NodeGroup)
      → g.name =ₛ h.name ≡ false
      → is_outside_cooldown_period F (stamped end g m) now h.name
        ≡ is_outside_cooldown_period F m now h.name
  unfolding stamped
  stamped-other end now m g h differ = is_outside-insert m end now g.name h.name ∙ rw differ refl

  -- After a scale-down that drained a node, no node of the group may be removed before the cooldown
  -- has passed; one that drained none changes nothing, and the other groups keep their times.
  pub scale_down-cooldown :
      (end : ℕ) (m : Manager F) (g h : NodeGroup) (tries : List Attempt) (a : Attempt)
      → (0 < length (scale_down F end m g tries).1
          → a.now < end + m.config.cooldown_period
          → can_scale_down F (scale_down F end m g tries).0 g a ≡ in_cooldown)
        × (length (scale_down F end m g tries).1 ≡ 0 → (scale_down F end m g tries).0 ≡ m)
        × (g.name =ₛ h.name ≡ false
            → is_outside_cooldown_period F (scale_down F end m g tries).0 a.now h.name
              ≡ is_outside_cooldown_period F m a.now h.name)
  scale_down-cooldown end m g h tries a = (
    λ drained early.
        rw (scale_down-stamped end m g tries drained) (stamped-in_cooldown end m g a early),
    scale_down-same end m g tries,
    λ differ. elim (Bool-cases (ltb 0 (length (scale_down F end m g tries).1))) [
      | inl drained ↦
          rw (scale_down-stamped end m g tries (ground arith))
            (stamped-other end a.now m g h differ)
      | inr idle ↦ rw (scale_down-same end m g tries (ground arith)) refl
    ],
  )

  drained_by-All :
      (m : Manager F) (g : NodeGroup) (tries : List Attempt)
      → All (λ a. (can_scale_down F m g a ≡ allowed) × (a.drains ≡ true)) tries
      → drained_by F m g tries ≡ tries
  unfolding drained_by
  drained_by-All m g [] all_pass = refl
  drained_by-All m g (a ∷ tries) all_pass = ground (arith, drained_by-All m g tries all_pass.1)

  two_taken : (n : ℕ) (tries : List Attempt) → 1 < n → 1 < length tries → 1 < length (take n tries)
  two_taken zero tries p q = absurd (omega arith)
  two_taken (suc zero) tries p q = absurd (omega arith)
  two_taken (suc (suc n)) [] p q = absurd (omega arith)
  two_taken (suc (suc n)) (a ∷ []) p q = absurd (omega arith)
  two_taken (suc (suc n)) (a ∷ b ∷ tries) p q = omega arith

  -- The minimum is compared with the number of nodes in the status, which does not change during the
  -- loop: of candidates that all pass, the loop drains as many as the configuration lets it, so that
  -- a group with one node more than its minimum falls below it if two are drained at once.
  pub scale_down_below_minimum :
      (end : ℕ) (m : Manager F) (g : NodeGroup) (tries : List Attempt)
      → All (λ a. (can_scale_down F m g a ≡ allowed) × (a.drains ≡ true)) tries
      → g.node_count ≡ g.min_nodes + 1
      → 1 < length tries
      → 1 < m.config.max_nodes_per_scale_down
      → g.node_count < g.min_nodes + length (scale_down F end m g tries).1
  scale_down_below_minimum end m g tries all_pass one two max =
      let chosen = take m.config.max_nodes_per_scale_down tries in
      rw (scale_down-drained end m g tries) (
        rw (drained_by-All m g chosen (All-take _ m.config.max_nodes_per_scale_down tries all_pass))
          (omega (arith, two_taken m.config.max_nodes_per_scale_down tries max two)))
