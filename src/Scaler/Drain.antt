-- ===== src/Scaler/Drain.antt =====
-- pkg/scaler/drain.go, with ValidatePodDisruptionBudgets of scaler.go. The API server keeps the node with
-- its version: an update that carries another version is refused, as its documentation says. Metrics
-- are left out.
pub mod Rollback
pub mod Success
mod Tests
use vpsie_k8s_autoscaler.Prelude.{
  ℕ, zero, suc, ◌+◌, ℤ, pos, ltbℤ, String, ◌=ₛ◌, insert, Bool, true, false, not, ◌&&◌, ◌||◌, Option,
  none, some, List, [], ◌∷◌, any, all, is_some, length, ◌==◌, if◌then◌else◌,
}
use vpsie_k8s_autoscaler.Cluster.{StringMap, get, Pod}

-- What a drain reads and writes of a node.
pub record NodeObject : Type 0 where
  pub version : ℕ
  pub unschedulable : Bool
  pub annotations : StringMap

pub data Update : Type 0 where
  cordoning uncordoning starting : Update
  reporting : (status : String) → Update

pub data Eviction : Type 0 where
  evicted gone blocked other_error : Eviction

pub record TrackedPod : Type 0 where
  pub uid : ℕ
  pub pod : Pod

-- A budget of a namespace, with what its selector says of a pod, or `none` if it is not valid.
pub record Budget : Type 0 where
  pub selects : Option (Pod → Bool)
  pub disruptions_allowed : ℤ

-- Whether an update reaches the API server; what is listed, in the end also by each poll before the
-- timeout; the answer to each attempt of an eviction, and whether the drain is over behind it; and how the
-- context of the drain and that of its caller have ended when an eviction failed.
pub record Surroundings : Type 0 where
  pub reaches : Update → Bool
  pub pods : Option (List TrackedPod)
  pub enable_pod_disruption_budget : Bool
  pub budgets : String → Option (List Budget)
  pub evicts : TrackedPod → ℕ → Eviction
  pub is_over : TrackedPod → ℕ → Bool
  pub drain_ended : Bool
  pub parent_cancelled : Bool
  pub abandoned : Bool
  pub polls : List (Option (List TrackedPod))
  pub pods_after : Option (List TrackedPod)
  pub start_time : String

-- The stored node after an update that carries this version.
unfoldable pub update : Bool → NodeObject → (carried : NodeObject) → NodeObject
update reaches stored carried =
    if reaches && carried.version == stored.version
    then record carried { version = suc stored.version }
    else stored

abbrev pub is_accepted : Bool → NodeObject → (carried : NodeObject) → Bool
is_accepted reaches stored carried = reaches && carried.version == stored.version

-- The object that the caller passed is copied, and itself never changed.
unfoldable pub cordon_node : Surroundings → (passed stored : NodeObject) → NodeObject × Bool
unfolding update
cordon_node s passed stored =
    let changed = record passed { unschedulable = true } in
    if passed.unschedulable then (stored, true) else (
      update (s.reaches cordoning) stored changed,
      is_accepted (s.reaches cordoning) stored changed,
    )

unfoldable pub uncordon_node : Surroundings → (passed stored : NodeObject) → NodeObject
unfolding update
uncordon_node s passed stored =
    if passed.unschedulable
    then update (s.reaches uncordoning) stored (record passed { unschedulable = false })
    else stored

abbrev pub annotations_of : StringMap → List (String × String)
annotations_of none = []
annotations_of (some m) = m

unfoldable pub annotate_node_drain_start : Surroundings → (passed stored : NodeObject) → NodeObject
unfolding update
annotate_node_drain_start s passed stored = update (s.reaches starting) stored record passed {
  annotations = some (
      insert "autoscaler.vpsie.com/drain-status" "draining" (
        insert "autoscaler.vpsie.com/drain-start-time" s.start_time
          (annotations_of passed.annotations)));
}

unfoldable pub annotate_node_drain_status :
    Surroundings → (status : String) → (passed stored : NodeObject) → NodeObject
unfolding update
annotate_node_drain_status s status passed stored =
    update (s.reaches (reporting status)) stored record passed {
      annotations =
          some
            (insert "autoscaler.vpsie.com/drain-status" status (annotations_of passed.annotations));
    }

abbrev pub is_owned_by : String → Pod → Bool
is_owned_by kind p = any (λ k. k =ₛ kind) p.owner_kinds

unfoldable pub is_static_pod : Pod → Bool
unfolding get
is_static_pod p =
    is_owned_by "Node" p
    || is_some (get "kubernetes.io/config.source" p.annotations)
    || is_some (get "kubernetes.io/config.mirror" p.annotations)

unfoldable pub needs_eviction : Pod → Bool
unfolding is_static_pod
needs_eviction p =
    not (p.phase =ₛ "Succeeded" || p.phase =ₛ "Failed")
    && not (is_owned_by "DaemonSet" p)
    && not (is_static_pod p)

unfoldable pub filter_pods_for_eviction : List TrackedPod → List TrackedPod
unfolding needs_eviction
filter_pods_for_eviction [] = []
filter_pods_for_eviction (p ∷ ps) =
    let rest = filter_pods_for_eviction ps in if needs_eviction p.pod then p ∷ rest else rest

abbrev pub is_in : String → TrackedPod → Bool
is_in namespace p = p.pod.namespace =ₛ namespace

-- No matching pod of the namespace, or a disruption is allowed.
unfoldable pub validate_pdb : (namespace : String) → List TrackedPod → Budget → Bool
validate_pdb namespace ps b = elim b.selects [
  | none ↦ false
  | some selects ↦
      not (any (λ p. is_in namespace p && selects p.pod) ps)
      || not (ltbℤ b.disruptions_allowed (pos 1))
]

-- The namespaces are those of the pods; their order does not show.
unfoldable pub validate_pod_disruption_budgets : Surroundings → List TrackedPod → Bool
unfolding validate_pdb
validate_pod_disruption_budgets s ps =
    not s.enable_pod_disruption_budget
    || all
        (λ p. elim (s.budgets p.pod.namespace) [
          | none ↦ false
          | some bs ↦ all (validate_pdb p.pod.namespace ps) bs
        ])
        ps

-- The attempts that are left, and the number of this one.
unfoldable pub evict_pod_with_retry : Surroundings → TrackedPod → (left attempt : ℕ) → Bool
evict_pod_with_retry s p zero attempt = false
evict_pod_with_retry s p (suc left) attempt =
    let again = evict_pod_with_retry s p left (suc attempt) in
    elim (s.evicts p attempt) [
      | evicted ↦ true
      | gone ↦ true
      | blocked ↦ false
      | other_error ↦ if s.is_over p attempt then false else again
    ]

unfoldable pub evict_pods : Surroundings → List TrackedPod → Bool
unfolding evict_pod_with_retry
evict_pods s ps = all (λ p. evict_pod_with_retry s p 12 0) ps

abbrev pub is_among : List TrackedPod → TrackedPod → Bool
is_among ps p = any (λ q. q.uid == p.uid) ps

unfoldable pub wait_for_pod_termination : List (Option (List TrackedPod)) → List TrackedPod → Bool
wait_for_pod_termination [] ps = false
wait_for_pod_termination (none ∷ polls) ps = false
wait_for_pod_termination (some current ∷ polls) ps =
    not (any (is_among ps) current) || wait_for_pod_termination polls ps

pub data DrainResult : Type 0 where
  drained cordon_refused no_list budgets_refuse eviction_failed not_terminated not_verified :
      DrainResult
  still_running : ℕ → DrainResult

-- The last listing, and the report of the success.
unfoldable pub verify_migration :
    Surroundings
    → (passed stored : NodeObject) → Option (List TrackedPod)
    → NodeObject × DrainResult
unfolding filter_pods_for_eviction annotate_node_drain_status
verify_migration s passed stored none = (stored, not_verified)
verify_migration s passed stored (some ps) = elim (filter_pods_for_eviction ps) [
  | [] ↦ (annotate_node_drain_status s "complete" passed stored, drained)
  | p ∷ more ↦ (stored, still_running (suc (length more)))
]

unfoldable pub fail_eviction :
    Surroundings → (passed stored : NodeObject) → NodeObject × DrainResult
unfolding annotate_node_drain_status uncordon_node
fail_eviction s passed stored =
    let reported = annotate_node_drain_status s "failed" passed stored in
    if not s.drain_ended && not s.parent_cancelled
    then (uncordon_node s passed reported, eviction_failed)
    else (reported, eviction_failed)

unfoldable pub drain_pods :
    Surroundings → (passed stored : NodeObject) → List TrackedPod → NodeObject × DrainResult
unfolding annotate_node_drain_start evict_pods fail_eviction wait_for_pod_termination
    annotate_node_drain_status verify_migration
drain_pods s passed stored ps =
    let started = annotate_node_drain_start s passed stored in
    if not s.abandoned && evict_pods s ps
    then (if wait_for_pod_termination s.polls ps
        then verify_migration s passed started s.pods_after
        else (annotate_node_drain_status s "timeout" passed started, not_terminated))
    else fail_eviction s passed started

unfoldable pub drain_filtered :
    Surroundings → (passed stored : NodeObject) → List TrackedPod → NodeObject × DrainResult
unfolding validate_pod_disruption_budgets drain_pods uncordon_node
drain_filtered s passed stored [] = (stored, drained)
drain_filtered s passed stored (p ∷ ps) =
    if validate_pod_disruption_budgets s (p ∷ ps)
    then drain_pods s passed stored (p ∷ ps)
    else (uncordon_node s passed stored, budgets_refuse)

unfoldable pub drain_listed :
    Surroundings
    → (passed stored : NodeObject) → Option (List TrackedPod)
    → NodeObject × DrainResult
unfolding drain_filtered filter_pods_for_eviction uncordon_node
drain_listed s passed stored none = (uncordon_node s passed stored, no_list)
drain_listed s passed stored (some ps) =
    drain_filtered s passed stored (filter_pods_for_eviction ps)

-- The stored node in the end, and the result.
unfoldable pub drain_node : Surroundings → (passed stored : NodeObject) → NodeObject × DrainResult
unfolding cordon_node drain_listed
drain_node s passed stored =
    let (cordoned, ok) = cordon_node s passed stored in
    if ok then drain_listed s passed cordoned s.pods else (cordoned, cordon_refused)
