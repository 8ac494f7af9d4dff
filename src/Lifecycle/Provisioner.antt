-- ===== src/Lifecycle/Provisioner.antt =====
-- pkg/controller/vpsienode/provisioner.go.
use vpsie_k8s_autoscaler.Prelude.{
  ℕ, String, ◌=ₛ◌, codes, insert, Bool, true, false, not, ◌&&◌, Option, none, some, List, [], ◌∷◌,
  ◌==◌, if◌then◌else◌,
}
use vpsie_k8s_autoscaler.Cluster.{StringMap, get_text}
use vpsie_k8s_autoscaler.Lifecycle.Errors.{Failure, wrap, failure, failure_about, is_not_found}
use vpsie_k8s_autoscaler.Lifecycle.Types.{
  provisioned, failed, vps_ready, Spec, VpsieNode, set_phase, set_condition_to, record_error,
  or_now,
}
use vpsie_k8s_autoscaler.Lifecycle.Env.{
  Reply, reply, refused, Vps, Discovery, no_discoverer, discovery_failed, timed_out, discovered,
  nothing_found, Env, ApiCall, added_slave, removed_k8s_node, removed_vm, Outcome, no_requeue,
  after, done, fails, having_called, default_requeue_after, fast_requeue_after,
}

abbrev pub annotation_creation_requested : String
annotation_creation_requested = "autoscaler.vpsie.com/creation-requested"

unfoldable pub asks_creation : StringMap → Bool
asks_creation annotations = get_text annotation_creation_requested annotations =ₛ "true"

abbrev pub creation_requested : VpsieNode → Bool
creation_requested vn = asks_creation vn.annotations

unfoldable pub put : String → String → StringMap → StringMap
put key v none = some (insert key v [])
put key v (some m) = some (insert key v m)

-- `if s == "" { s = t }`
abbrev pub or_text : String → String → String
or_text s t = if s =ₛ "" then t else s

-- The status of the object after the virtual machine was read.
unfoldable pub copy_resources : Vps → VpsieNode → VpsieNode
copy_resources vps vn = record vn {
  status = record (vn.status) {
    hostname = vps.hostname;
    vpsie_status = vps.vps_status;
    resources = record { cpu = vps.cpu; memory_mb = vps.ram; disk_gb = vps.disk };
  };
}

unfoldable pub mark_provisioned : ℕ → String → VpsieNode → VpsieNode
unfolding set_phase set_condition_to
mark_provisioned now message vn =
    let running =
      set_condition_to vps_ready now true "Provisioned" (codes message)
        (set_phase now provisioned vn) in
    record running { status = record (running.status) { provisioned_at = some now } }

unfoldable pub check_vps_status : Env → VpsieNode → Outcome
unfolding copy_resources mark_provisioned set_phase record_error
check_vps_status env vn = elim (env.get_vm vn.spec.vpsie_instance_id) [
  | refused e ↦
      if is_not_found e
      then done
          (record_error env.now "VPSieAPIError" (codes "VPS not found")
            (set_phase env.now failed vn))
          no_requeue
      else fails vn (after default_requeue_after) (wrap "failed to get VPS status" e)
  | reply vps ↦
      let seen = copy_resources vps (record vn {
        spec = record (vn.spec) { ip_address = vps.ip_address; ipv6_address = vps.ipv6_address };
      }) in
      if vps.vps_status =ₛ "running"
      then done (mark_provisioned env.now "VPS is running" seen) (after fast_requeue_after)
      else done seen (after fast_requeue_after)
]

-- The object after discovery found its machine.
unfoldable pub adopt : Vps → VpsieNode → VpsieNode
unfolding copy_resources
adopt vps vn = copy_resources vps (record vn {
  spec = record (vn.spec) {
    vpsie_instance_id = vps.id;
    ip_address = vps.ip_address;
    ipv6_address = vps.ipv6_address;
    node_name =
        if vn.spec.node_name =ₛ "" && not (vps.hostname =ₛ "")
        then vps.hostname
        else vn.spec.node_name;
  };
})

-- A node of a managed cluster has no machine identifier of its own.
unfoldable pub adopt_k8s_node : ℕ → Vps → VpsieNode → VpsieNode
unfolding mark_provisioned
adopt_k8s_node now vps vn =
    let named = record vn {
      status = record (vn.status) {
        node_name =
            if vn.status.node_name =ₛ "" && not (vps.hostname =ₛ "")
            then vps.hostname
            else vn.status.node_name;
      };
    } in
    let running = mark_provisioned now "K8s node is running" named in
    record running {
      status = record (running.status) { created_at = or_now now running.status.created_at };
    }

unfoldable pub await_discovery : Discovery → Env → VpsieNode → Outcome
unfolding adopt adopt_k8s_node
await_discovery no_discoverer env vn = done vn (after fast_requeue_after)
await_discovery (discovery_failed e) env vn = done vn (after fast_requeue_after)
await_discovery timed_out env vn = fails vn no_requeue (failure "VPS discovery timeout exceeded")
await_discovery (discovered vps) env vn =
    if vps.id == 0 && not (vps.ip_address =ₛ "")
    then done (adopt_k8s_node env.now vps (adopt vps vn)) (after fast_requeue_after)
    else check_vps_status env (adopt vps vn)
await_discovery nothing_found env vn = done vn (after fast_requeue_after)

-- `if vps.Identifier != "" { vn.Spec.VPSieNodeIdentifier = vps.Identifier }`
abbrev keep_identifier : Vps → Spec → Spec
keep_identifier vps s = record s {
  vpsie_node_identifier = if vps.identifier =ₛ "" then s.vpsie_node_identifier else vps.identifier;
}

-- Creation was accepted and the machine has no identifier yet.
unfoldable pub mark_requested : ℕ → Vps → VpsieNode → VpsieNode
unfolding set_condition_to
mark_requested now vps vn =
    let asked = record vn {
      annotations = put annotation_creation_requested "true" vn.annotations;
      spec = keep_identifier vps vn.spec;
      status = record (vn.status) { vpsie_status = "provisioning" };
    } in
    let waiting =
      set_condition_to vps_ready now false "Provisioning"
        (codes "Node creation requested, waiting for VPSie to provision") asked in
    record waiting { status = record (waiting.status) { created_at = some now } }

-- `generateHostname` is called where the node name is empty.
unfoldable pub generate_hostname : VpsieNode → String
generate_hostname vn = if vn.spec.node_name =ₛ "" then vn.name else vn.spec.node_name

unfoldable pub mark_created : ℕ → Vps → VpsieNode → VpsieNode
unfolding copy_resources set_condition_to generate_hostname
mark_created now vps vn =
    let told = copy_resources vps (record vn {
      spec = record (keep_identifier vps vn.spec) {
        vpsie_instance_id = vps.id;
        ip_address = vps.ip_address;
        ipv6_address = vps.ipv6_address;
        node_name = or_text vn.spec.node_name (or_text vps.hostname (generate_hostname vn));
      };
    }) in
    set_condition_to vps_ready now false "Provisioning" (codes "VPS is being provisioned")
      (record told { status = record (told.status) { created_at = some now } })

-- What `createVPS` makes of the answer of `AddK8sSlaveToGroup`.
unfoldable pub settle_slave : ℕ → VpsieNode → Reply Vps → Outcome
settle_slave now vn (refused e) =
    fails vn (after default_requeue_after) (wrap "failed to create VPS" e)
settle_slave now vn (reply vps) =
    if vps.id == 0
    then done (mark_requested now vps vn) (after fast_requeue_after)
    else done (mark_created now vps vn) (after fast_requeue_after)

unfoldable pub request_slave : Env → VpsieNode → Outcome
request_slave env vn =
    let answer = env.add_slave vn.spec.resource_identifier vn.spec.vpsie_group_id in
    having_called (added_slave vn.spec.resource_identifier vn.spec.vpsie_group_id answer ∷ [])
      (settle_slave env.now vn answer)

unfoldable pub create_vps : Env → VpsieNode → Outcome
create_vps env vn =
    if creation_requested vn
    then await_discovery env.discovery env vn
    else if vn.spec.vpsie_group_id == 0
    then fails vn (after default_requeue_after) (failure "VPSieGroupID is required")
    else request_slave env vn

unfoldable pub provision : Env → VpsieNode → Outcome
provision env vn =
    if vn.spec.vpsie_instance_id == 0 then create_vps env vn else check_vps_status env vn

-- The host name by which the machine is looked up: `Delete` and `DeleteVPS` choose it alike.
unfoldable pub known_hostname : VpsieNode → String
known_hostname vn = or_text vn.status.hostname (or_text vn.spec.node_name vn.status.node_name)

-- What `Delete` returns: nil, with `deletedAt` set or not, or an error.
pub data Deletion : Type 0 where
  deleted_now already_gone : Deletion
  not_deleted : Failure → Deletion

abbrev pub deletion_of : String → Option Failure → Deletion
deletion_of context none = deleted_now
deletion_of context (some e) = if is_not_found e then already_gone else not_deleted (wrap context e)

unfoldable pub remove_k8s_node : Env → ℕ → String → VpsieNode → Deletion × List ApiCall
remove_k8s_node env attempt identifier vn =
    let answer = env.delete_k8s_node attempt vn.spec.resource_identifier identifier in
    (
      deletion_of "failed to delete K8s node" answer,
      removed_k8s_node vn.spec.resource_identifier identifier answer ∷ [],
    )

unfoldable pub remove_vm : Env → ℕ → VpsieNode → Deletion × List ApiCall
remove_vm env attempt vn =
    if vn.spec.vpsie_instance_id == 0
    then (
      not_deleted (
          failure_about
            "cannot delete VPS: no VPSieInstanceID or VPSieNodeIdentifier available (hostname: "
            vn.status.hostname),
      [],
    )
    else (let answer = env.delete_vm attempt vn.spec.vpsie_instance_id in
        (
          deletion_of "failed to delete VPS" answer,
          removed_vm vn.spec.vpsie_instance_id answer ∷ [],
        ))

unfoldable pub delete_identified : Env → ℕ → String → VpsieNode → Deletion × List ApiCall
delete_identified env attempt identifier vn =
    if not (vn.spec.resource_identifier =ₛ "") && not (identifier =ₛ "")
    then remove_k8s_node env attempt identifier vn
    else remove_vm env attempt vn

-- The identifier is looked up by host name where it is not known; an empty answer means that the
-- node is gone.
unfoldable pub after_look_up : Env → ℕ → VpsieNode → Reply String → Deletion × List ApiCall
after_look_up env attempt vn (refused e) = delete_identified env attempt "" vn
after_look_up env attempt vn (reply identifier) =
    if identifier =ₛ "" then (already_gone, []) else delete_identified env attempt identifier vn

unfoldable pub look_up : Env → ℕ → VpsieNode → Deletion × List ApiCall
look_up env attempt vn =
    if known_hostname vn =ₛ ""
    then delete_identified env attempt "" vn
    else after_look_up env attempt vn
        (env.find_identifier attempt vn.spec.resource_identifier (known_hostname vn))

unfoldable pub delete : Env → ℕ → VpsieNode → Deletion × List ApiCall
delete env attempt vn =
    if not (vn.spec.resource_identifier =ₛ "") && vn.spec.vpsie_node_identifier =ₛ ""
    then look_up env attempt vn
    else delete_identified env attempt vn.spec.vpsie_node_identifier vn
