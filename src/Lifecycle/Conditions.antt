-- ===== src/Lifecycle/Conditions.antt =====
-- pkg/controller/vpsienode/conditions.go: the conditions of an object as a table by their type.
use vpsie_k8s_autoscaler.Prelude.{
  ℕ, ◌≡◌, refl, String, true, false, Option, none, some, List, [], ◌∷◌, if◌then◌else◌, arith,
}
use vpsie_k8s_autoscaler.Lifecycle.Types.{
  ConditionType, vps_ready, node_joined, node_ready, error, ConditionStatus, Condition, same_type,
  same_status, set_condition_in, set_condition, find_condition, get_condition, VpsieNode,
}

-- The time of the last transition: the old one where the status is the same as before.
abbrev pub transition_time : ℕ → ConditionStatus → Option Condition → ℕ
transition_time now status none = now
transition_time now status (some c) =
    if same_status c.status status then c.last_transition_time else now

same_type_refl : (t : ConditionType) → same_type t t ≡ true
same_type_refl vps_ready = refl
same_type_refl node_joined = refl
same_type_refl node_ready = refl
same_type_refl error = refl

same_type-≡ : (t u : ConditionType) → same_type t u ≡ true → t ≡ u
same_type-≡ t u h = ground arith

find_condition-set_condition_in :
    (now : ℕ) (t : ConditionType) (status : ConditionStatus) (reason : String) (message : List ℕ)
    (cs : List Condition)
    → find_condition t (set_condition_in now t status reason message cs)
      ≡ some (record {
        type = t;
        status = status;
        last_transition_time = transition_time now status (find_condition t cs);
        last_update_time = now;
        reason = reason;
        message = message;
      })
unfolding find_condition set_condition_in
find_condition-set_condition_in now t status reason message [] = ground (arith, same_type_refl t)
find_condition-set_condition_in now t status reason message (c ∷ cs) =
    ground
      (arith, same_type-≡ c.type t, find_condition-set_condition_in now t status reason message cs)

find_condition-other :
    (now : ℕ) (t u : ConditionType) (status : ConditionStatus) (reason : String) (message : List ℕ)
    (cs : List Condition)
    → same_type t u ≡ false
    → find_condition u (set_condition_in now t status reason message cs) ≡ find_condition u cs
unfolding find_condition set_condition_in
find_condition-other now t u status reason message [] d = ground arith
find_condition-other now t u status reason message (c ∷ cs) d =
    ground (arith, same_type-≡ c.type t, find_condition-other now t u status reason message cs d)

-- A condition that was set is read back as it was set, its transition time the old one where the
-- status is as before; every condition of another type reads as before.
pub get_condition-set_condition :
    (now : ℕ) (t u : ConditionType) (status : ConditionStatus) (reason : String) (message : List ℕ)
    (vn : VpsieNode)
    → (get_condition (set_condition now t status reason message vn) t
        ≡ some (record {
          type = t;
          status = status;
          last_transition_time = transition_time now status (get_condition vn t);
          last_update_time = now;
          reason = reason;
          message = message;
        }))
      × (same_type t u ≡ false
          → get_condition (set_condition now t status reason message vn) u ≡ get_condition vn u)
unfolding get_condition set_condition
get_condition-set_condition now t u status reason message vn = (
  find_condition-set_condition_in now t status reason message vn.status.conditions,
  find_condition-other now t u status reason message vn.status.conditions,
)
