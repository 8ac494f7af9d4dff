-- ===== src/Scaler/Drain/Success.antt =====
-- What a drain without an error has seen of the pods.
use vpsie_k8s_autoscaler.Prelude.{
  ℕ, zero, suc, ◌≡◌, ◌⊎◌, inl, inr, refl, Bool, true, false, not, ◌&&◌, Option, none, some, List,
  [], ◌∷◌, All, Some, any, length, Bool-cases, if◌then◌else◌, arith,
}
use vpsie_k8s_autoscaler.Scaler.Drain.{
  NodeObject, Surroundings, TrackedPod, Eviction, evicted, gone, blocked, other_error, is_among,
  cordon_node, needs_eviction, filter_pods_for_eviction, validate_pod_disruption_budgets,
  evict_pod_with_retry, evict_pods, wait_for_pod_termination, DrainResult, drained, still_running,
  annotate_node_drain_start, annotate_node_drain_status, verify_migration, fail_eviction,
  drain_pods, drain_filtered, drain_listed, drain_node,
}

-- The eviction is granted, or the pod is gone, at an attempt of these that follows only other errors.
abbrev pub Leaves : Surroundings → TrackedPod → (left attempt : ℕ) → Type 0
Leaves s p zero attempt = ⊥
Leaves s p (suc left) attempt =
    ((s.evicts p attempt ≡ evicted) ⊎ (s.evicts p attempt ≡ gone))
    ⊎ ((s.evicts p attempt ≡ other_error)
        × (s.is_over p attempt ≡ false)
        × Leaves s p left (suc attempt))

evict_pod_with_retry-Leaves :
    (s : Surroundings) (p : TrackedPod) (left attempt : ℕ)
    → evict_pod_with_retry s p left attempt ≡ true
    → Leaves s p left attempt
unfolding evict_pod_with_retry
evict_pod_with_retry-Leaves s p zero attempt h = cc
evict_pod_with_retry-Leaves s p (suc left) attempt h =
    answered (s.evicts p attempt) (s.is_over p attempt) refl refl
      (evict_pod_with_retry-Leaves s p left (suc attempt)) h
  where
    answered :
        (e : Eviction) (o : Bool)
        → s.evicts p attempt ≡ e
        → s.is_over p attempt ≡ o
        → (evict_pod_with_retry s p left (suc attempt) ≡ true → Leaves s p left (suc attempt))
        → (elim e as (λ x. Bool) [
          | evicted ↦ true
          | gone ↦ true
          | blocked ↦ false
          | other_error ↦ if o then false else evict_pod_with_retry s p left (suc attempt)
        ])
          ≡ true
        → Leaves s p (suc left) attempt
    answered evicted o e f next g = inl (inl e)
    answered gone o e f next g = inl (inr e)
    answered blocked o e f next g = cc
    answered other_error true e f next g = cc
    answered other_error false e f next g = inr (e, f, next g)

evict_pods-Leaves :
    (s : Surroundings) (ps : List TrackedPod)
    → evict_pods s ps ≡ true
    → All (λ p. Leaves s p 12 0) ps
unfolding evict_pods
evict_pods-Leaves s [] h = tt
evict_pods-Leaves s (p ∷ ps) h = elim (Bool-cases (evict_pod_with_retry s p 12 0)) [
  | inl e ↦ (evict_pod_with_retry-Leaves s p 12 0 e, evict_pods-Leaves s ps (cc))
  | inr e ↦ cc
]

-- A listing, and none of these pods in it.
abbrev pub IsClear : List TrackedPod → Option (List TrackedPod) → Type 0
IsClear ps none = ⊥
IsClear ps (some current) = any (is_among ps) current ≡ false

wait-IsClear :
    (polls : List (Option (List TrackedPod))) (ps : List TrackedPod)
    → wait_for_pod_termination polls ps ≡ true
    → Some (IsClear ps) polls
unfolding wait_for_pod_termination
wait-IsClear [] ps h = cc
wait-IsClear (none ∷ polls) ps h = cc
wait-IsClear (some current ∷ polls) ps h = elim (Bool-cases (any (is_among ps) current)) [
  | inl e ↦ inr (wait-IsClear polls ps (cc))
  | inr e ↦ inl e
]

abbrev pub IsEmptied : List TrackedPod → Type 0
IsEmptied ps = All (λ p. needs_eviction p.pod ≡ false) ps

filter-IsEmptied : (ps : List TrackedPod) → filter_pods_for_eviction ps ≡ [] → IsEmptied ps
unfolding filter_pods_for_eviction
filter-IsEmptied [] h = tt
filter-IsEmptied (p ∷ ps) h = elim (Bool-cases (needs_eviction p.pod)) [
  | inl e ↦ cc
  | inr e ↦ (e, filter-IsEmptied ps (cc))
]

-- These pods left within the attempts, a poll saw none of them, and the last listing has none to evict.
abbrev pub HasLeft : Surroundings → List TrackedPod → Type 0
HasLeft s ps =
    All (λ p. Leaves s p 12 0) ps
    × Some (IsClear ps) s.polls
    × ((later : List TrackedPod) × (s.pods_after ≡ some later) × IsEmptied later)

module _ (s : Surroundings) (passed stored : NodeObject) where
  verify_migration-IsEmptied :
      (o : Option (List TrackedPod))
      → (verify_migration s passed stored o).1 ≡ drained
      → (later : List TrackedPod) × (o ≡ some later) × IsEmptied later
  unfolding verify_migration
  verify_migration-IsEmptied none h = cc
  verify_migration-IsEmptied (some later) h =
      (later, refl, filter-IsEmptied later (remaining (filter_pods_for_eviction later) h))
    where
      remaining :
          (qs : List TrackedPod)
          → (elim qs as (λ x. NodeObject × DrainResult) [
            | [] ↦ (annotate_node_drain_status s "complete" passed stored, drained)
            | p ∷ more ↦ (stored, still_running (suc (length more)))
          ]).1
            ≡ drained
          → qs ≡ []
      remaining [] g = refl
      remaining (p ∷ more) g = cc

  fail_eviction-not_drained : ¬ (fail_eviction s passed stored).1 ≡ drained
  unfolding fail_eviction
  fail_eviction-not_drained = elim (Bool-cases (not s.drain_ended && not s.parent_cancelled)) [
    | inl e ↦ rw e (λ h. cc)
    | inr e ↦ rw e (λ h. cc)
  ]

drain_pods-HasLeft :
    (s : Surroundings) (passed stored : NodeObject) (ps : List TrackedPod)
    → (drain_pods s passed stored ps).1 ≡ drained
    → HasLeft s ps
unfolding drain_pods
drain_pods-HasLeft s passed stored ps =
    let started = annotate_node_drain_start s passed stored in
    elim (Bool-cases (not s.abandoned && evict_pods s ps)) [
      | inl e ↦ elim (Bool-cases (wait_for_pod_termination s.polls ps)) [
        | inl w ↦
            rw (e, w)
              (λ h. (
                evict_pods-Leaves s ps (ground arith),
                wait-IsClear s.polls ps w,
                verify_migration-IsEmptied s passed started s.pods_after h,
              ))
        | inr w ↦ rw (e, w) (λ h. cc)
      ]
      | inr e ↦ rw e (λ h. absurd (fail_eviction-not_drained s passed started h))
    ]

-- The drain of pods that no budget refuses.
abbrev pub IsOver : Surroundings → List TrackedPod → Type 0
IsOver s ps = (ps ≡ []) ⊎ ((validate_pod_disruption_budgets s ps ≡ true) × HasLeft s ps)

drain_filtered-IsOver :
    (s : Surroundings) (passed stored : NodeObject) (ps : List TrackedPod)
    → (drain_filtered s passed stored ps).1 ≡ drained
    → IsOver s ps
unfolding drain_filtered
drain_filtered-IsOver s passed stored [] = λ h. inl refl
drain_filtered-IsOver s passed stored (p ∷ ps) =
    elim (Bool-cases (validate_pod_disruption_budgets s (p ∷ ps))) [
      | inl e ↦ rw e (λ h. inr (refl, drain_pods-HasLeft s passed stored (p ∷ ps) h))
      | inr e ↦ rw e (λ h. cc)
    ]

drain_listed-IsOver :
    (s : Surroundings) (passed stored : NodeObject) (o : Option (List TrackedPod))
    → (drain_listed s passed stored o).1 ≡ drained
    → (ps : List TrackedPod) × (o ≡ some ps) × IsOver s (filter_pods_for_eviction ps)
unfolding drain_listed
drain_listed-IsOver s passed stored none h = cc
drain_listed-IsOver s passed stored (some ps) h =
    (ps, refl, drain_filtered-IsOver s passed stored (filter_pods_for_eviction ps) h)

-- If a drain returns no error, the pods of the node were listed, and either none of them was to be evicted,
-- or all of these hold: the budgets allowed it, each of those pods was evicted or gone within 12 attempts
-- that followed only other errors, some poll saw none of them, and the last listing has no pod to evict.
pub drain_node_drained :
    (s : Surroundings) (passed stored : NodeObject)
    → (drain_node s passed stored).1 ≡ drained
    → (ps : List TrackedPod) × (s.pods ≡ some ps) × IsOver s (filter_pods_for_eviction ps)
unfolding drain_node
drain_node_drained s passed stored = elim (Bool-cases (cordon_node s passed stored).1) [
  | inl e ↦ rw e (λ h. drain_listed-IsOver s passed (cordon_node s passed stored).0 s.pods h)
  | inr e ↦ rw e (λ h. cc)
]
