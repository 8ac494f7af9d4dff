-- ===== src/Groups/ScaleUp.antt =====
-- pkg/controller/nodegroup/reconciler.go: one pass over a group that has no scale-down manager, with
-- the sequential scale-up and the simple scale-down. Texts of conditions, metrics and events are left
-- out, and so are the image, the keys and the type of a new machine.
mod Sequential
mod Bounds
mod Repeated
mod Deletions
mod Tests
use vpsie_k8s_autoscaler.Prelude.{
  ℕ, suc, ℤ, pos, pos_part, lebℤ, String, ◌=ₛ◌, Bool, true, false, ◌&&◌, Option, none, some, List,
  [], ◌∷◌, ◌++◌, any, length, ltb, ◌==◌, if◌then◌else◌,
}
use vpsie_k8s_autoscaler.Lifecycle.Types.{
  Phase, unset, pending, provisioning, provisioned, joining, failed, Condition, VpsieNode,
}
use vpsie_k8s_autoscaler.Groups.{
  Size, calculate_desired_nodes, needs_scale_up, needs_scale_down, calculate_nodes_to_add,
  calculate_nodes_to_remove, select_nodes_to_delete,
}

pub record Group : Type 0 where
  pub name : String
  pub datacenter_id : String
  pub resource_identifier : String
  pub vpsie_group_id : ℕ
  pub size : Size

abbrev pub is_in_transition : Phase → Bool
is_in_transition pending = true
is_in_transition provisioning = true
is_in_transition provisioned = true
is_in_transition joining = true
is_in_transition _ = false

abbrev pub is_failed : Phase → Bool
is_failed failed = true
is_failed _ = false

unfoldable pub count_nodes_in_transition : List VpsieNode → ℕ
count_nodes_in_transition [] = 0
count_nodes_in_transition (vn ∷ vns) =
    let rest = count_nodes_in_transition vns in
    if is_in_transition vn.status.phase then suc rest else rest

-- Some condition has the reason CapacityLimitReached.
abbrev pub has_capacity_reason : VpsieNode → Bool
has_capacity_reason vn = any (λ c. c.reason =ₛ "CapacityLimitReached") vn.status.conditions

unfoldable pub count_capacity_limit_failures : List VpsieNode → ℕ
count_capacity_limit_failures [] = 0
count_capacity_limit_failures (vn ∷ vns) =
    let rest = count_capacity_limit_failures vns in
    if is_failed vn.status.phase then (if has_capacity_reason vn then suc rest else rest) else rest

unfoldable pub get_failed_vpsie_nodes : List VpsieNode → List VpsieNode
get_failed_vpsie_nodes [] = []
get_failed_vpsie_nodes (vn ∷ vns) =
    let rest = get_failed_vpsie_nodes vns in if is_failed vn.status.phase then vn ∷ rest else rest

-- The failed objects whose deletion the clean-up asks for; a refused one does not end it.
unfoldable pub clean_up : List VpsieNode → List VpsieNode
clean_up [] = []
clean_up (vn ∷ vns) = let rest = clean_up vns in if has_capacity_reason vn then vn ∷ rest else rest

-- The name is the group's with a random suffix.
unfoldable pub build_vpsie_node : Group → String → VpsieNode
build_vpsie_node g name = record {
  name = name;
  annotations = none;
  finalizers = [];
  deletion_timestamp = none;
  creation_timestamp = 0;
  generation = 0;
  spec = record {
    vpsie_instance_id = 0;
    node_group_name = g.name;
    datacenter_id = g.datacenter_id;
    resource_identifier = g.resource_identifier;
    node_name = "";
    ip_address = "";
    ipv6_address = "";
    vpsie_group_id = g.vpsie_group_id;
    vpsie_node_identifier = "";
  };
  status = record {
    phase = unset;
    node_name = "";
    vpsie_status = "";
    hostname = "";
    resources = record { cpu = 0; memory_mb = 0; disk_gb = 0 };
    created_at = none;
    provisioned_at = none;
    joined_at = none;
    ready_at = none;
    terminating_at = none;
    deleted_at = none;
    conditions = [];
    last_error = [];
    observed_generation = 0;
  };
}

-- The random name, and what the API server answers: to the reference to the owner, the creation,
-- each deletion, and the write of the status.
pub record Answers : Type 0 where
  pub name : String
  pub owns : Bool
  pub creates : Bool
  pub deletes : VpsieNode → Bool
  pub saves : Bool

-- The objects whose deletion was accepted or asked for, the object that was created, whether an
-- error is returned, and the seconds to the next pass.
pub record Pass : Type 0 where
  pub deleted : List VpsieNode
  pub created : Option VpsieNode
  pub failing : Bool
  pub requeue_after : ℕ

abbrev pub quiet : ℕ → Pass
quiet seconds = record { deleted = []; created = none; failing = false; requeue_after = seconds }

abbrev pub erring : List VpsieNode → Pass
erring vns = record { deleted = vns; created = none; failing = true; requeue_after = 0 }

unfoldable pub create_node : Answers → Group → Pass
unfolding build_vpsie_node
create_node env g =
    if env.owns && env.creates
    then record {
      deleted = [];
      created = some (build_vpsie_node g env.name);
      failing = false;
      requeue_after = 10;
    }
    else erring []

unfoldable pub reconcile_scale_up : Answers → Group → List VpsieNode → Pass
unfolding create_node
reconcile_scale_up env g vns =
    if lebℤ (calculate_nodes_to_add g.size) (pos 0)
    then quiet 30
    else if ltb 0 (count_capacity_limit_failures vns)
    then record (quiet 60) { deleted = clean_up (get_failed_vpsie_nodes vns) }
    else if ltb 0 (count_nodes_in_transition vns)
    then quiet 10
    else create_node env g

-- The loop over the selected objects, which a refused deletion ends.
unfoldable pub delete_selected : Answers → List VpsieNode → Pass
delete_selected env [] = quiet 10
delete_selected env (vn ∷ vns) =
    let rest = delete_selected env vns in
    if env.deletes vn then record rest { deleted = vn ∷ rest.deleted } else erring []

unfoldable pub reconcile_simple_scale_down : Answers → Group → List VpsieNode → Pass
unfolding delete_selected
reconcile_simple_scale_down env g vns =
    let count = calculate_nodes_to_remove g.size in
    if lebℤ count (pos 0)
    then quiet 30
    else delete_selected env (select_nodes_to_delete vns (pos_part count))

unfoldable pub update_node_group_status : Size → List VpsieNode → Size
update_node_group_status s vns = record s {
  current = length vns;
  desired = if s.desired == 0 then s.min_nodes else s.desired;
}

-- The group in memory once the counts were taken and the desired count was set.
unfoldable pub with_counts : Group → List VpsieNode → Group
unfolding update_node_group_status
with_counts g vns =
    let counted = update_node_group_status g.size vns in
    record g { size = record counted { desired = calculate_desired_nodes counted } }

unfoldable pub reconcile_counted : Answers → Group → List VpsieNode → Pass
unfolding reconcile_scale_up reconcile_simple_scale_down
reconcile_counted env g vns =
    if needs_scale_up g.size
    then reconcile_scale_up env g vns
    else if needs_scale_down g.size
    then reconcile_simple_scale_down env g vns
    else quiet 30

-- `reconcile`, from the listing of the objects on, and what its scaling did. A refused write of the
-- status keeps the stored group as it was, and the pass is repeated.
unfoldable pub reconcile_group : Answers → Group → List VpsieNode → Group × Pass
unfolding with_counts reconcile_counted
reconcile_group env g vns =
    let counted = with_counts g vns in
    (if env.saves then counted else g, reconcile_counted env counted vns)

-- The objects that the next pass lists.
unfoldable pub listed_after : Option VpsieNode → List VpsieNode → List VpsieNode
listed_after none vns = vns
listed_after (some vn) vns = vns ++ (vn ∷ [])

-- Passes one after the other, while no other controller does anything.
unfoldable pub run_passes : List Answers → Group → List VpsieNode → List VpsieNode
unfolding reconcile_group listed_after
run_passes [] g vns = vns
run_passes (env ∷ envs) g vns =
    let (next, pass) = reconcile_group env g vns in
    run_passes envs next (listed_after pass.created vns)
