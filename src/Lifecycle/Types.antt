-- ===== src/Lifecycle/Types.antt =====
-- The VPSieNode object (pkg/apis/autoscaler/v1alpha1/vpsienode_types.go), with the fields that its
-- controller reads or writes, and the updates of conditions.go and `SetPhase` of phases.go.
-- Identifiers and times are natural numbers, zero the absent identifier; a pointer to a time is an
-- `Option`.
use vpsie_k8s_autoscaler.Prelude.{
  ℕ, String, Bool, true, false, Option, none, some, List, [], ◌∷◌, if◌then◌else◌,
}
use vpsie_k8s_autoscaler.Cluster.{StringMap}

-- `unset` is the empty text, the phase of a new object.
pub data Phase : Type 0 where
  unset pending provisioning provisioned joining ready terminating deleting failed : Phase

pub data ConditionType : Type 0 where
  vps_ready node_joined node_ready error : ConditionType

pub data ConditionStatus : Type 0 where
  cond_true cond_false cond_unknown : ConditionStatus

pub record Condition : Type 0 where
  pub type : ConditionType
  pub status : ConditionStatus
  pub last_transition_time : ℕ
  pub last_update_time : ℕ
  pub reason : String
  pub message : List ℕ

pub record VpsResources : Type 0 where
  pub cpu : ℕ
  pub memory_mb : ℕ
  pub disk_gb : ℕ

pub record Spec : Type 0 where
  pub vpsie_instance_id : ℕ
  pub node_group_name : String
  pub datacenter_id : String
  pub resource_identifier : String
  pub node_name : String
  pub ip_address : String
  pub ipv6_address : String
  pub vpsie_group_id : ℕ
  pub vpsie_node_identifier : String

pub record Status : Type 0 where
  pub phase : Phase
  pub node_name : String
  pub vpsie_status : String
  pub hostname : String
  pub resources : VpsResources
  pub created_at : Option ℕ
  pub provisioned_at : Option ℕ
  pub joined_at : Option ℕ
  pub ready_at : Option ℕ
  pub terminating_at : Option ℕ
  pub deleted_at : Option ℕ
  pub conditions : List Condition
  pub last_error : List ℕ
  pub observed_generation : ℕ

pub record VpsieNode : Type 0 where
  pub name : String
  pub annotations : StringMap
  pub finalizers : List String
  pub deletion_timestamp : Option ℕ
  pub creation_timestamp : ℕ
  pub generation : ℕ
  pub spec : Spec
  pub status : Status

abbrev pub same_type : ConditionType → ConditionType → Bool
same_type vps_ready vps_ready = true
same_type node_joined node_joined = true
same_type node_ready node_ready = true
same_type error error = true
same_type _ _ = false

abbrev pub same_status : ConditionStatus → ConditionStatus → Bool
same_status cond_true cond_true = true
same_status cond_false cond_false = true
same_status cond_unknown cond_unknown = true
same_status _ _ = false

-- The loop of `SetCondition` over the conditions.
unfoldable pub set_condition_in :
    ℕ → ConditionType → ConditionStatus → String → List ℕ → List Condition → List Condition
set_condition_in now t status reason message [] =
    record {
      type = t;
      status = status;
      last_transition_time = now;
      last_update_time = now;
      reason = reason;
      message = message;
    }
    ∷ []
set_condition_in now t status reason message (c ∷ cs) =
    if same_type c.type t
    then record c {
      status = status;
      reason = reason;
      message = message;
      last_update_time = now;
      last_transition_time = if same_status c.status status then c.last_transition_time else now;
    }
      ∷ cs
    else c ∷ set_condition_in now t status reason message cs

unfoldable pub set_condition :
    ℕ → ConditionType → ConditionStatus → String → List ℕ → VpsieNode → VpsieNode
set_condition now t status reason message vn = record vn {
  status = record (vn.status) {
    conditions = set_condition_in now t status reason message vn.status.conditions;
  };
}

unfoldable pub find_condition : ConditionType → List Condition → Option Condition
find_condition t [] = none
find_condition t (c ∷ cs) = if same_type c.type t then some c else find_condition t cs

unfoldable pub get_condition : VpsieNode → ConditionType → Option Condition
unfolding find_condition
get_condition vn t = find_condition t vn.status.conditions

abbrev condition_status : Bool → ConditionStatus
condition_status true = cond_true
condition_status false = cond_false

-- `SetVPSReadyCondition`, `SetNodeJoinedCondition`, `SetNodeReadyCondition`, `SetErrorCondition`.
unfoldable pub set_condition_to : ConditionType → ℕ → Bool → String → List ℕ → VpsieNode → VpsieNode
unfolding set_condition
set_condition_to t now holds reason message vn =
    set_condition now t (condition_status holds) reason message vn

unfoldable pub clear_error : ℕ → VpsieNode → VpsieNode
unfolding set_condition_to
clear_error now vn =
    let cleared = set_condition_to error now false "" [] vn in
    record cleared { status = record (cleared.status) { last_error = [] } }

unfoldable pub record_error : ℕ → String → List ℕ → VpsieNode → VpsieNode
unfolding set_condition_to
record_error now reason message vn =
    let failing = set_condition_to error now true reason message vn in
    record failing { status = record (failing.status) { last_error = message } }

-- `if t == nil { t = &now }`
abbrev pub or_now : ℕ → Option ℕ → Option ℕ
or_now now none = some now
or_now now (some t) = some t

-- The timestamps that `SetPhase` sets.
unfoldable pub stamp : ℕ → Phase → Status → Status
stamp now provisioning s = record s { created_at = or_now now s.created_at }
stamp now provisioned s = record s { provisioned_at = or_now now s.provisioned_at }
stamp now ready s = record s {
  joined_at = or_now now s.joined_at;
  ready_at = or_now now s.ready_at;
}
stamp now terminating s = record s { terminating_at = or_now now s.terminating_at }
stamp now _ s = s

unfoldable pub set_phase : ℕ → Phase → VpsieNode → VpsieNode
unfolding stamp
set_phase now p vn = record vn { status = stamp now p (record (vn.status) { phase = p }) }
