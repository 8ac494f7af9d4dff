-- ===== src/Lifecycle/Edges.antt =====
-- The phase diagram of a VPSieNode, and that the state machine follows it.
use vpsie_k8s_autoscaler.Prelude.{ℕ, String, ◌≡◌, refl, ◌∙◌, ◌⊎◌, inl, inr, Option, arith}
use vpsie_k8s_autoscaler.Lifecycle.Errors.{Failure}
use vpsie_k8s_autoscaler.Lifecycle.Types.{
  Phase, unset, pending, provisioning, provisioned, joining, ready, terminating, deleting, failed,
  VpsieNode,
}
use vpsie_k8s_autoscaler.Cluster.{Node}
use vpsie_k8s_autoscaler.Lifecycle.Env.{
  Env, Outcome, Vps, Reply, reply, refused, Discovery, no_discoverer, discovery_failed, timed_out,
  discovered, nothing_found,
}
use vpsie_k8s_autoscaler.Lifecycle.Provisioner.{
  adopt, mark_requested, mark_created, settle_slave, check_vps_status, await_discovery,
  request_slave, create_vps, provision,
}
use vpsie_k8s_autoscaler.Lifecycle.Joiner.{
  record_name, after_labels, settle_joined, check_join_status, monitor_node,
  apply_node_configuration,
}
use vpsie_k8s_autoscaler.Lifecycle.Terminator.{
  retry_delete, finish_deletion, drain_and_delete, delete_vps, Retried,
}
use vpsie_k8s_autoscaler.Lifecycle.Phases.{
  handle_pending, fail_with, classify_provision, handle_provisioning, handle_provisioned,
  note_join_error, handle_joining, handle_failed, dispatch, handle,
}

-- One step of the state machine: a phase may stay, or follow an edge.
pub data Moves : Phase → Phase → Type 0 where
  stays : {p : Phase} → Moves p p
  begins : Moves pending provisioning
  runs : Moves provisioning provisioned
  cannot_run : Moves provisioning failed
  joins : Moves provisioned joining
  is_up : Moves joining ready
  cannot_join : Moves joining failed
  leaves : Moves terminating deleting
  cannot_leave : Moves deleting failed

-- What an operation may make of a phase.
abbrev Among : Phase → Phase → Phase → Phase → Type 0
Among p q r s = (s ≡ p) ⊎ (s ≡ q) ⊎ (s ≡ r)

check_vps_status-phase :
    (env : Env) (vn : VpsieNode)
    → Among vn.status.phase provisioned failed (check_vps_status env vn).node.status.phase
unfolding check_vps_status
check_vps_status-phase env vn = ground arith

await_discovery-phase :
    (d : Discovery) (env : Env) (vn : VpsieNode)
    → Among vn.status.phase provisioned failed (await_discovery d env vn).node.status.phase
unfolding await_discovery
await_discovery-phase (discovered vps) env vn =
    ground (arith, check_vps_status-phase env (adopt vps vn))
await_discovery-phase no_discoverer env vn = inl refl
await_discovery-phase (discovery_failed e) env vn = inl refl
await_discovery-phase timed_out env vn = inl refl
await_discovery-phase nothing_found env vn = inl refl

settle_slave-phase :
    (now : ℕ) (vn : VpsieNode) (answer : Reply Vps)
    → (settle_slave now vn answer).node.status.phase ≡ vn.status.phase
unfolding settle_slave mark_requested mark_created
settle_slave-phase now vn (refused e) = refl
settle_slave-phase now vn (reply vps) = ground arith

request_slave-phase :
    (env : Env) (vn : VpsieNode) → (request_slave env vn).node.status.phase ≡ vn.status.phase
unfolding request_slave
request_slave-phase env vn =
    settle_slave-phase env.now vn (env.add_slave vn.spec.resource_identifier vn.spec.vpsie_group_id)

provision-phase :
    (env : Env) (vn : VpsieNode)
    → Among vn.status.phase provisioned failed (provision env vn).node.status.phase
unfolding provision create_vps
provision-phase env vn = ground (
  arith,
  check_vps_status-phase env vn,
  await_discovery-phase env.discovery env vn,
  request_slave-phase env vn,
)

classify_provision-phase :
    (now : ℕ) (o : Outcome)
    → ((classify_provision now o).node.status.phase ≡ o.node.status.phase)
      ⊎ ((classify_provision now o).node.status.phase ≡ failed)
unfolding classify_provision
classify_provision-phase now o = ground arith

fail_with-phase :
    (now : ℕ) (reason message : String) (vn : VpsieNode)
    → (fail_with now reason message vn).node.status.phase ≡ failed
unfolding fail_with
fail_with-phase now reason message vn = refl

handle_provisioning-phase :
    (env : Env) (vn : VpsieNode)
    → Among vn.status.phase provisioned failed (handle_provisioning env vn).node.status.phase
unfolding handle_provisioning
handle_provisioning-phase env vn = ground (
  arith,
  fail_with-phase env.now "ProvisioningTimeout" "Provisioning timeout exceeded" vn,
  provision-phase env vn,
  classify_provision-phase env.now (provision env vn),
)

after_labels-phase :
    (now : ℕ) (n : Node) (named : VpsieNode) (problem : Option Failure)
    → ((after_labels now n named problem).node.status.phase ≡ named.status.phase)
      ⊎ ((after_labels now n named problem).node.status.phase ≡ ready)
unfolding after_labels
after_labels-phase now n named problem = ground arith

settle_joined-phase :
    (env : Env) (n : Node) (vn : VpsieNode)
    → ((settle_joined env n vn).node.status.phase ≡ vn.status.phase)
      ⊎ ((settle_joined env n vn).node.status.phase ≡ ready)
unfolding settle_joined
settle_joined-phase env n vn =
    after_labels-phase env.now n (record_name n vn)
      (apply_node_configuration env (record_name n vn) n).1

check_join_status-phase :
    (env : Env) (vn : VpsieNode)
    → ((check_join_status env vn).node.status.phase ≡ vn.status.phase)
      ⊎ ((check_join_status env vn).node.status.phase ≡ ready)
unfolding check_join_status
check_join_status-phase env vn = grind (arith, settle_joined-phase)

note_join_error-phase :
    (now : ℕ) (o : Outcome) → (note_join_error now o).node.status.phase ≡ o.node.status.phase
unfolding note_join_error
note_join_error-phase now o = ground arith

handle_joining-phase :
    (env : Env) (vn : VpsieNode)
    → Among vn.status.phase ready failed (handle_joining env vn).node.status.phase
unfolding handle_joining
handle_joining-phase env vn = ground (
  arith,
  fail_with-phase env.now "JoiningTimeout" "Node joining timeout exceeded" vn,
  check_join_status-phase env vn,
  note_join_error-phase env.now (check_join_status env vn),
)

monitor_node-phase :
    (env : Env) (vn : VpsieNode) → (monitor_node env vn).node.status.phase ≡ vn.status.phase
unfolding monitor_node
monitor_node-phase env vn = ground arith

pub drain_and_delete-phase :
    (env : Env) (vn : VpsieNode) → (drain_and_delete env vn).node.status.phase ≡ deleting
unfolding drain_and_delete
drain_and_delete-phase env vn = ground arith

finish_deletion-phase :
    (env : Env) (r : Retried) (vn : VpsieNode)
    → ((finish_deletion env r vn).node.status.phase ≡ vn.status.phase)
      ⊎ ((finish_deletion env r vn).node.status.phase ≡ failed)
unfolding finish_deletion
finish_deletion-phase env r vn = ground arith

delete_vps-phase :
    (env : Env) (vn : VpsieNode)
    → ((delete_vps env vn).node.status.phase ≡ vn.status.phase)
      ⊎ ((delete_vps env vn).node.status.phase ≡ failed)
unfolding delete_vps
delete_vps-phase env vn = ground (arith, finish_deletion-phase env (retry_delete env 1 2 vn).0 vn)

handle_failed-phase :
    (ttl : ℕ) (env : Env) (vn : VpsieNode)
    → (handle_failed ttl env vn).node.status.phase ≡ vn.status.phase
unfolding handle_failed
handle_failed-phase ttl env vn = ground arith

dispatch-Moves :
    (p : Phase) (ttl : ℕ) (env : Env) (vn : VpsieNode)
    → vn.status.phase ≡ p
    → Moves p (dispatch p ttl env vn).node.status.phase
unfolding dispatch handle_pending handle_provisioned
dispatch-Moves unset ttl env vn e = rw e stays
dispatch-Moves pending ttl env vn e = begins
dispatch-Moves provisioning ttl env vn e = elim (handle_provisioning-phase env vn) [
  | inl q ↦ rw (q ∙ e) stays
  | inr (inl q) ↦ rw q runs
  | inr (inr q) ↦ rw q cannot_run
]
dispatch-Moves provisioned ttl env vn e = joins
dispatch-Moves joining ttl env vn e = elim (handle_joining-phase env vn) [
  | inl q ↦ rw (q ∙ e) stays
  | inr (inl q) ↦ rw q is_up
  | inr (inr q) ↦ rw q cannot_join
]
dispatch-Moves ready ttl env vn e = rw (monitor_node-phase env vn ∙ e) stays
dispatch-Moves terminating ttl env vn e = rw (drain_and_delete-phase env vn) leaves
dispatch-Moves deleting ttl env vn e = elim (delete_vps-phase env vn) [
  | inl q ↦ rw (q ∙ e) stays
  | inr q ↦ rw q cannot_leave
]
dispatch-Moves failed ttl env vn e = rw (handle_failed-phase ttl env vn ∙ e) stays

-- Whatever the APIs answer, a pass of the state machine leaves the phase or follows one edge of the
-- diagram: Pending to Provisioning, to Provisioned, to Joining, to Ready; Provisioning or Joining to
-- Failed; Terminating to Deleting, and Deleting to Failed.
pub handle-Moves :
    (ttl : ℕ) (env : Env) (vn : VpsieNode)
    → Moves vn.status.phase (handle ttl env vn).node.status.phase
unfolding handle
handle-Moves ttl env vn = dispatch-Moves vn.status.phase ttl env vn refl
