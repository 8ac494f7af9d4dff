-- ===== src/Scaler/Drain/Rollback.antt =====
-- What the rollback of a drain does to a node that the drain itself cordoned.
use vpsie_k8s_autoscaler.Prelude.{
  suc, ◌<◌, ◌≡◌, inl, inr, refl, String, Bool, true, false, not, ◌&&◌, Option, none, some, List, [],
  ◌∷◌, ==_iff, length, Bool-cases, arith,
}
use vpsie_k8s_autoscaler.Scaler.Drain.{
  NodeObject, cordoning, Surroundings, TrackedPod, update, cordon_node, uncordon_node,
  annotate_node_drain_start, annotate_node_drain_status, filter_pods_for_eviction,
  validate_pod_disruption_budgets, evict_pods, wait_for_pod_termination, DrainResult, drained,
  still_running, verify_migration, fail_eviction, drain_pods, drain_filtered, drain_listed,
  drain_node,
}

update-stale :
    (reaches : Bool) (stored carried : NodeObject)
    → carried.version < stored.version
    → update reaches stored carried ≡ stored
unfolding update
update-stale reaches stored carried h = ground arith

-- The caller's object is older than the stored one, and was schedulable.
abbrev IsStale : NodeObject → NodeObject → Type 0
IsStale passed stored = (passed.version < stored.version) × (passed.unschedulable ≡ false)

module _ (s : Surroundings) (passed stored : NodeObject) (stale : IsStale passed stored) where
  uncordon_node-stale : uncordon_node s passed stored ≡ stored
  unfolding uncordon_node
  uncordon_node-stale = rw (stale.1) refl

  annotate_start-stale : annotate_node_drain_start s passed stored ≡ stored
  unfolding annotate_node_drain_start
  annotate_start-stale = update-stale _ stored _ stale.0

  annotate_status-stale :
      (status : String) → annotate_node_drain_status s status passed stored ≡ stored
  unfolding annotate_node_drain_status
  annotate_status-stale status = update-stale _ stored _ stale.0

  verify_migration-stale :
      (o : Option (List TrackedPod)) → (verify_migration s passed stored o).0 ≡ stored
  unfolding verify_migration
  verify_migration-stale none = refl
  verify_migration-stale (some ps) = verified (filter_pods_for_eviction ps)
    where
      verified :
          (qs : List TrackedPod)
          → (elim qs as (λ x. NodeObject × DrainResult) [
            | [] ↦ (annotate_node_drain_status s "complete" passed stored, drained)
            | p ∷ more ↦ (stored, still_running (suc (length more)))
          ]).0
            ≡ stored
      verified [] = annotate_status-stale "complete"
      verified (p ∷ more) = refl

  fail_eviction-stale : (fail_eviction s passed stored).0 ≡ stored
  unfolding fail_eviction
  fail_eviction-stale = elim (Bool-cases (not s.drain_ended && not s.parent_cancelled)) [
    | inl e ↦ rw (e, annotate_status-stale "failed") uncordon_node-stale
    | inr e ↦ rw e (annotate_status-stale "failed")
  ]

  drain_pods-stale : (ps : List TrackedPod) → (drain_pods s passed stored ps).0 ≡ stored
  unfolding drain_pods
  drain_pods-stale ps =
      rw annotate_start-stale (elim (Bool-cases (not s.abandoned && evict_pods s ps)) [
        | inl e ↦ elim (Bool-cases (wait_for_pod_termination s.polls ps)) [
          | inl f ↦ rw (e, f) (verify_migration-stale s.pods_after)
          | inr f ↦ rw (e, f) (annotate_status-stale "timeout")
        ]
        | inr e ↦ rw e fail_eviction-stale
      ])

  drain_filtered-stale : (ps : List TrackedPod) → (drain_filtered s passed stored ps).0 ≡ stored
  unfolding drain_filtered
  drain_filtered-stale [] = refl
  drain_filtered-stale (p ∷ ps) = elim (Bool-cases (validate_pod_disruption_budgets s (p ∷ ps))) [
    | inl e ↦ rw e (drain_pods-stale (p ∷ ps))
    | inr e ↦ rw e uncordon_node-stale
  ]

  drain_listed-stale : (o : Option (List TrackedPod)) → (drain_listed s passed stored o).0 ≡ stored
  unfolding drain_listed
  drain_listed-stale none = uncordon_node-stale
  drain_listed-stale (some ps) = drain_filtered-stale (filter_pods_for_eviction ps)

cordon_node-current :
    (s : Surroundings) (passed stored : NodeObject)
    → passed.version ≡ stored.version
    → passed.unschedulable ≡ false
    → s.reaches cordoning ≡ true
    → cordon_node s passed stored
      ≡ (record passed { version = suc stored.version; unschedulable = true }, true)
unfolding cordon_node update
cordon_node-current s passed stored current schedulable reached =
    rw (schedulable, reached, (==_iff passed.version stored.version).1 current) refl

-- If the caller's object is current and schedulable, and the cordon reaches the API server, the node is left
-- cordoned and without an annotation of the drain, however the drain ends: no failure makes it schedulable
-- again.
pub drain_node_stays_cordoned :
    (s : Surroundings) (passed stored : NodeObject)
    → passed.version ≡ stored.version
    → passed.unschedulable ≡ false
    → s.reaches cordoning ≡ true
    → (drain_node s passed stored).0
      ≡ record passed { version = suc stored.version; unschedulable = true }
unfolding drain_node
drain_node_stays_cordoned s passed stored current schedulable reached =
    let cordoned : NodeObject = record passed {
      version = suc stored.version;
      unschedulable = true;
    } in
    rw (cordon_node-current s passed stored current schedulable reached)
      (drain_listed-stale s passed cordoned (omega arith, schedulable) s.pods)
