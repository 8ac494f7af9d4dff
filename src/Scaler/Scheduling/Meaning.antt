-- ===== src/Scaler/Scheduling/Meaning.antt =====
-- What the scheduling tests of safety.go decide, against the rules of the Kubernetes documentation.
use vpsie_k8s_autoscaler.Prelude.{
  Some, ◌≡◌, refl, ◌⊎◌, inl, inr, ◌↔◌, text_eq_iff, true, List, [], ◌∷◌, All, Bool-cases, arith,
}
use vpsie_k8s_autoscaler.Cluster.{Taint, Toleration}
use vpsie_k8s_autoscaler.Scaler.Scheduling.{
  toleration_matches, toleration_matches_taint, is_hard, tolerations_tolerate_taints,
}

-- A toleration and a taint that it tolerates.
pub data Tolerates (t : Toleration) (taint : Taint) : Type 0 where
  everything : t.key ≡ "" → t.operator ≡ "Exists" → Tolerates t taint
  any_value :
      t.key ≡ taint.key
      → (t.effect ≡ "") ⊎ (t.effect ≡ taint.effect)
      → t.operator ≡ "Exists"
      → Tolerates t taint
  same_value :
      t.key ≡ taint.key
      → (t.effect ≡ "") ⊎ (t.effect ≡ taint.effect)
      → (t.operator ≡ "Equal") ⊎ (t.operator ≡ "")
      → t.value ≡ taint.value
      → Tolerates t taint

abbrev MatchesEffect : Toleration → Taint → Type 0
MatchesEffect t taint = (t.effect ≡ "") ⊎ (t.effect ≡ taint.effect)

toleration_matches-cases :
    (t : Toleration) (taint : Taint)
    → toleration_matches t taint ≡ true
    → ((t.key ≡ "") × (t.operator ≡ "Exists"))
      ⊎ ((t.key ≡ taint.key) × MatchesEffect t taint × (t.operator ≡ "Exists"))
      ⊎ ((t.key ≡ taint.key)
          × MatchesEffect t taint
          × ((t.operator ≡ "Equal") ⊎ (t.operator ≡ ""))
          × (t.value ≡ taint.value))
unfolding toleration_matches
toleration_matches-cases t taint h = ground (
  arith,
  text_eq_iff t.key "",
  text_eq_iff t.key taint.key,
  text_eq_iff t.effect "",
  text_eq_iff t.effect taint.effect,
  text_eq_iff t.operator "Exists",
  text_eq_iff t.operator "Equal",
  text_eq_iff t.operator "",
  text_eq_iff t.value taint.value,
)

toleration_matches_sound :
    (t : Toleration) (taint : Taint) → toleration_matches t taint ≡ true → Tolerates t taint
toleration_matches_sound t taint h = elim (toleration_matches-cases t taint h) [
  | inl (k, o) ↦ everything k o
  | inr (inl (k, e, o)) ↦ any_value k e o
  | inr (inr (k, e, o, v)) ↦ same_value k e o v
]

toleration_matches_complete :
    (t : Toleration) (taint : Taint) → Tolerates t taint → toleration_matches t taint ≡ true
unfolding toleration_matches
toleration_matches_complete t taint (everything k o) =
    ground (arith, text_eq_iff t.key "", text_eq_iff t.operator "Exists")
toleration_matches_complete t taint (any_value k e o) = ground (
  arith,
  text_eq_iff t.key taint.key,
  text_eq_iff t.effect "",
  text_eq_iff t.effect taint.effect,
  text_eq_iff t.operator "Exists",
)
toleration_matches_complete t taint (same_value k e o v) = ground (
  arith,
  text_eq_iff t.key taint.key,
  text_eq_iff t.effect "",
  text_eq_iff t.effect taint.effect,
  text_eq_iff t.operator "Equal",
  text_eq_iff t.operator "",
  text_eq_iff t.value taint.value,
)

covered_sound :
    (ts : List Toleration) (taint : Taint)
    → toleration_matches_taint ts taint ≡ true
    → Some (λ t. Tolerates t taint) ts
unfolding toleration_matches_taint
covered_sound [] taint h = cc
covered_sound (t ∷ ts) taint h = elim (Bool-cases (toleration_matches t taint)) [
  | inl here ↦ inl (toleration_matches_sound t taint here)
  | inr other ↦ inr (covered_sound ts taint (ground arith))
]

covered_complete :
    (ts : List Toleration) (taint : Taint)
    → Some (λ t. Tolerates t taint) ts
    → toleration_matches_taint ts taint ≡ true
unfolding toleration_matches_taint
covered_complete [] taint h = absurd h
covered_complete (t ∷ ts) taint (inl here) =
    ground (arith, toleration_matches_complete t taint here)
covered_complete (t ∷ ts) taint (inr later) = ground (arith, covered_complete ts taint later)

-- A taint that keeps pods off the node.
abbrev pub IsHard : Taint → Type 0
IsHard taint = (taint.effect ≡ "NoSchedule") ⊎ (taint.effect ≡ "NoExecute")

is_hard_iff : (taint : Taint) → (is_hard taint ≡ true) ↔ IsHard taint
is_hard_iff taint =
    ground (arith, text_eq_iff taint.effect "NoSchedule", text_eq_iff taint.effect "NoExecute")

taints_sound :
    (ts : List Toleration) (taints : List Taint)
    → tolerations_tolerate_taints ts taints ≡ true
    → All (λ taint. IsHard taint → Some (λ t. Tolerates t taint) ts) taints
unfolding tolerations_tolerate_taints
taints_sound ts [] h = tt
taints_sound ts (taint ∷ taints) h = (
  λ hard. covered_sound ts taint (ground (arith, is_hard_iff taint)),
  taints_sound ts taints (ground arith),
)

taints_complete :
    (ts : List Toleration) (taints : List Taint)
    → All (λ taint. IsHard taint → Some (λ t. Tolerates t taint) ts) taints
    → tolerations_tolerate_taints ts taints ≡ true
unfolding tolerations_tolerate_taints
taints_complete ts [] h = refl
taints_complete ts (taint ∷ taints) h = elim (Bool-cases (is_hard taint)) [
  | inl hard ↦
      let covered = covered_complete ts taint (h.0 ((is_hard_iff taint).0 hard)) in
      ground (arith, taints_complete ts taints h.1)
  | inr soft ↦ ground (arith, taints_complete ts taints h.1)
]

-- The taints of a node are tolerated exactly if each hard one, and only those count, is tolerated by
-- one of the pod's tolerations under the rules of `Tolerates`.
pub tolerations_tolerate_taints_iff :
    (ts : List Toleration) (taints : List Taint)
    → (tolerations_tolerate_taints ts taints ≡ true)
      ↔ All (λ taint. IsHard taint → Some (λ t. Tolerates t taint) ts) taints
tolerations_tolerate_taints_iff ts taints = (taints_sound ts taints, taints_complete ts taints)
