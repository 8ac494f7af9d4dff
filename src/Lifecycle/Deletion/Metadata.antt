-- ===== src/Lifecycle/Deletion/Metadata.antt =====
-- What no handler changes: the metadata of the object other than its annotations, and outside the
-- Deleting phase the time of deletion.
use vpsie_k8s_autoscaler.Prelude.{ℕ, ◌≡◌, String, Option, arith}
use vpsie_k8s_autoscaler.Cluster.{Node}
use vpsie_k8s_autoscaler.Lifecycle.Errors.{Failure}
use vpsie_k8s_autoscaler.Lifecycle.Types.{
  Phase, unset, pending, provisioning, provisioned, joining, ready, terminating, deleting, failed,
  VpsieNode,
}
use vpsie_k8s_autoscaler.Lifecycle.Env.{
  Env, Outcome, Reply, reply, refused, Discovery, no_discoverer, discovery_failed, timed_out,
  discovered, nothing_found, Vps,
}
use vpsie_k8s_autoscaler.Lifecycle.Provisioner.{
  mark_requested, mark_created, settle_slave, check_vps_status, adopt, await_discovery,
  request_slave, create_vps, provision,
}
use vpsie_k8s_autoscaler.Lifecycle.Joiner.{
  record_name, after_labels, settle_joined, check_join_status, monitor_node,
  apply_node_configuration,
}
use vpsie_k8s_autoscaler.Lifecycle.Terminator.{
  retry_delete, finish_deletion, drain_and_delete, delete_vps, Retried, deleted, exhausted,
  interrupted,
}
use vpsie_k8s_autoscaler.Lifecycle.Phases.{
  handle_pending, fail_with, classify_provision, handle_provisioning, handle_provisioned,
  note_join_error, handle_joining, handle_failed, dispatch, handle,
}

-- The fields of the object that belong to the API server and the finalizer protocol.
pub record SameObject (vn was : VpsieNode) : Type 0 where
  pub same_finalizers : vn.finalizers ≡ was.finalizers
  pub same_deletion : vn.deletion_timestamp ≡ was.deletion_timestamp

check_vps_status-same : (env : Env) (vn : VpsieNode) → SameObject (check_vps_status env vn).node vn
unfolding check_vps_status
check_vps_status-same env vn = ground arith

adopt-same : (vps : Vps) (vn : VpsieNode) → SameObject (adopt vps vn) vn
unfolding adopt
adopt-same vps vn = ground arith

await_discovery-same :
    (d : Discovery) (env : Env) (vn : VpsieNode) → SameObject (await_discovery d env vn).node vn
unfolding await_discovery
await_discovery-same (discovered vps) env vn =
    ground (arith, adopt-same vps vn, check_vps_status-same env (adopt vps vn))
await_discovery-same no_discoverer env vn = ground arith
await_discovery-same (discovery_failed e) env vn = ground arith
await_discovery-same timed_out env vn = ground arith
await_discovery-same nothing_found env vn = ground arith

settle_slave-same :
    (now : ℕ) (vn : VpsieNode) (answer : Reply Vps)
    → SameObject (settle_slave now vn answer).node vn
unfolding settle_slave mark_requested mark_created
settle_slave-same now vn (refused e) = ground arith
settle_slave-same now vn (reply vps) = ground arith

request_slave-same : (env : Env) (vn : VpsieNode) → SameObject (request_slave env vn).node vn
unfolding request_slave
request_slave-same env vn =
    settle_slave-same env.now vn (env.add_slave vn.spec.resource_identifier vn.spec.vpsie_group_id)

provision-same : (env : Env) (vn : VpsieNode) → SameObject (provision env vn).node vn
unfolding provision create_vps
provision-same env vn = ground (
  arith,
  check_vps_status-same env vn,
  await_discovery-same env.discovery env vn,
  request_slave-same env vn,
)

classify_provision-same :
    (now : ℕ) (o : Outcome) → SameObject (classify_provision now o).node o.node
unfolding classify_provision
classify_provision-same now o = ground arith

note_join_error-same : (now : ℕ) (o : Outcome) → SameObject (note_join_error now o).node o.node
unfolding note_join_error
note_join_error-same now o = ground arith

fail_with-same :
    (now : ℕ) (reason message : String) (vn : VpsieNode)
    → SameObject (fail_with now reason message vn).node vn
unfolding fail_with
fail_with-same now reason message vn = ground arith

handle_provisioning-same :
    (env : Env) (vn : VpsieNode) → SameObject (handle_provisioning env vn).node vn
unfolding handle_provisioning
handle_provisioning-same env vn = ground (
  arith,
  fail_with-same env.now "ProvisioningTimeout" "Provisioning timeout exceeded" vn,
  provision-same env vn,
  classify_provision-same env.now (provision env vn),
)

after_labels-same :
    (now : ℕ) (n : Node) (named : VpsieNode) (problem : Option Failure)
    → SameObject (after_labels now n named problem).node named
unfolding after_labels
after_labels-same now n named problem = ground arith

settle_joined-same :
    (env : Env) (n : Node) (vn : VpsieNode) → SameObject (settle_joined env n vn).node vn
unfolding settle_joined
settle_joined-same env n vn = ground (
  arith,
  after_labels-same env.now n (record_name n vn)
      (apply_node_configuration env (record_name n vn) n).1,
)

check_join_status-same :
    (env : Env) (vn : VpsieNode) → SameObject (check_join_status env vn).node vn
unfolding check_join_status
check_join_status-same env vn = grind (arith, settle_joined-same)

handle_joining-same : (env : Env) (vn : VpsieNode) → SameObject (handle_joining env vn).node vn
unfolding handle_joining
handle_joining-same env vn = ground (
  arith,
  fail_with-same env.now "JoiningTimeout" "Node joining timeout exceeded" vn,
  check_join_status-same env vn,
  note_join_error-same env.now (check_join_status env vn),
)

monitor_node-same : (env : Env) (vn : VpsieNode) → SameObject (monitor_node env vn).node vn
unfolding monitor_node
monitor_node-same env vn = ground arith

drain_and_delete-same : (env : Env) (vn : VpsieNode) → SameObject (drain_and_delete env vn).node vn
unfolding drain_and_delete
drain_and_delete-same env vn = ground arith

finish_deletion-same :
    (env : Env) (r : Retried) (vn : VpsieNode) → SameObject (finish_deletion env r vn).node vn
unfolding finish_deletion
finish_deletion-same env deleted vn = ground arith
finish_deletion-same env interrupted vn = ground arith
finish_deletion-same env (exhausted e) vn = ground arith

delete_vps-same : (env : Env) (vn : VpsieNode) → SameObject (delete_vps env vn).node vn
unfolding delete_vps
delete_vps-same env vn = ground (arith, finish_deletion-same env (retry_delete env 1 2 vn).0 vn)

handle_failed-same :
    (ttl : ℕ) (env : Env) (vn : VpsieNode) → SameObject (handle_failed ttl env vn).node vn
unfolding handle_failed
handle_failed-same ttl env vn = ground arith

dispatch-same :
    (p : Phase) (ttl : ℕ) (env : Env) (vn : VpsieNode) → SameObject (dispatch p ttl env vn).node vn
unfolding dispatch handle_pending handle_provisioned
dispatch-same unset ttl env vn = ground arith
dispatch-same pending ttl env vn = ground arith
dispatch-same provisioning ttl env vn = handle_provisioning-same env vn
dispatch-same provisioned ttl env vn = ground arith
dispatch-same joining ttl env vn = handle_joining-same env vn
dispatch-same ready ttl env vn = monitor_node-same env vn
dispatch-same terminating ttl env vn = drain_and_delete-same env vn
dispatch-same deleting ttl env vn = delete_vps-same env vn
dispatch-same failed ttl env vn = handle_failed-same ttl env vn

pub handle-same : (ttl : ℕ) (env : Env) (vn : VpsieNode) → SameObject (handle ttl env vn).node vn
unfolding handle
handle-same ttl env vn = dispatch-same vn.status.phase ttl env vn
