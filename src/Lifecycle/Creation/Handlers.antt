-- ===== src/Lifecycle/Creation/Handlers.antt =====
-- The same count through every handler of the state machine.
use vpsie_k8s_autoscaler.Prelude.{
  ℕ, zero, suc, ◌+◌, ◌≡◌, refl, String, true, Option, List, [], ◌∷◌, ◌++◌, arith,
}
use vpsie_k8s_autoscaler.Cluster.{Node}
use vpsie_k8s_autoscaler.Lifecycle.Errors.{Failure}
use vpsie_k8s_autoscaler.Lifecycle.Types.{
  Phase, unset, pending, provisioning, provisioned, joining, ready, terminating, deleting, failed,
  VpsieNode,
}
use vpsie_k8s_autoscaler.Lifecycle.Env.{Env, Outcome, Reply, reply, refused, ApiCall, added_slave}
use vpsie_k8s_autoscaler.Lifecycle.Provisioner.{
  provision, delete, after_look_up, look_up, delete_identified, remove_k8s_node, remove_vm,
}
use vpsie_k8s_autoscaler.Lifecycle.Joiner.{
  record_name, after_labels, settle_joined, check_join_status, monitor_node,
  apply_node_configuration,
}
use vpsie_k8s_autoscaler.Lifecycle.Terminator.{
  retry_delete, finish_deletion, drain_and_delete, delete_vps, Retried, deleted, exhausted,
  interrupted,
}
use vpsie_k8s_autoscaler.Lifecycle.Phases.{
  handle_pending, fail_with, classify_provision, handle_provisioning, handle_provisioned,
  note_join_error, handle_joining, handle_failed, dispatch, handle,
}
use vpsie_k8s_autoscaler.Lifecycle.Reconciler.{in_deletion}
use vpsie_k8s_autoscaler.Lifecycle.Creation.Requests.{
  accepted, remembered, Accounts, provision-Accounts,
}

accepted-append : (xs ys : List ApiCall) → accepted (xs ++ ys) ≡ accepted xs + accepted ys
accepted-append [] ys = omega arith
accepted-append (added_slave cluster group (reply vps) ∷ xs) ys =
    omega (arith, accepted-append xs ys)
accepted-append (added_slave cluster group (refused e) ∷ xs) ys = accepted-append xs ys
accepted-append (_ ∷ xs) ys = accepted-append xs ys

delete_identified-quiet :
    (env : Env) (attempt : ℕ) (identifier : String) (vn : VpsieNode)
    → accepted (delete_identified env attempt identifier vn).1 ≡ 0
unfolding delete_identified remove_k8s_node remove_vm
delete_identified-quiet env attempt identifier vn = ground arith

after_look_up-quiet :
    (env : Env) (attempt : ℕ) (vn : VpsieNode) (answer : Reply String)
    → accepted (after_look_up env attempt vn answer).1 ≡ 0
unfolding after_look_up
after_look_up-quiet env attempt vn (refused e) = delete_identified-quiet env attempt "" vn
after_look_up-quiet env attempt vn (reply identifier) =
    ground (arith, delete_identified-quiet env attempt identifier vn)

look_up-quiet : (env : Env) (attempt : ℕ) (vn : VpsieNode) → accepted (look_up env attempt vn).1 ≡ 0
unfolding look_up
look_up-quiet env attempt vn = grind (arith, delete_identified-quiet, after_look_up-quiet)

delete-quiet : (env : Env) (attempt : ℕ) (vn : VpsieNode) → accepted (delete env attempt vn).1 ≡ 0
unfolding delete
delete-quiet env attempt vn = grind (arith, delete_identified-quiet, look_up-quiet)

retry_delete-quiet :
    (env : Env) (attempt left : ℕ) (vn : VpsieNode)
    → accepted (retry_delete env attempt left vn).1 ≡ 0
unfolding retry_delete
retry_delete-quiet env attempt zero vn = delete-quiet env attempt vn
retry_delete-quiet env attempt (suc left) vn = ground (
  arith,
  delete-quiet env attempt vn,
  retry_delete-quiet env (suc attempt) left vn,
  accepted-append (delete env attempt vn).1 (retry_delete env (suc attempt) left vn).1,
)

finish_deletion-quiet :
    (env : Env) (r : Retried) (vn : VpsieNode)
    → (accepted (finish_deletion env r vn).calls ≡ 0)
      × (remembered (finish_deletion env r vn).node ≡ remembered vn)
unfolding finish_deletion remembered
finish_deletion-quiet env deleted vn = (refl, refl)
finish_deletion-quiet env interrupted vn = (refl, refl)
finish_deletion-quiet env (exhausted e) vn = (refl, refl)

delete_vps-Accounts : (env : Env) (vn : VpsieNode) → Accounts vn (delete_vps env vn)
unfolding delete_vps remembered
delete_vps-Accounts env vn = ground (
  arith,
  retry_delete-quiet env 1 2 vn,
  finish_deletion-quiet env (retry_delete env 1 2 vn).0 vn,
  accepted-append (retry_delete env 1 2 vn).1
      (finish_deletion env (retry_delete env 1 2 vn).0 vn).calls,
)

drain_and_delete-Accounts : (env : Env) (vn : VpsieNode) → Accounts vn (drain_and_delete env vn)
unfolding drain_and_delete remembered
drain_and_delete-Accounts env vn = ground arith

apply_node_configuration-quiet :
    (env : Env) (vn : VpsieNode) (n : Node) → accepted (apply_node_configuration env vn n).0 ≡ 0
unfolding apply_node_configuration
apply_node_configuration-quiet env vn n = ground arith

after_labels-quiet :
    (now : ℕ) (n : Node) (named : VpsieNode) (problem : Option Failure)
    → (accepted (after_labels now n named problem).calls ≡ 0)
      × (remembered (after_labels now n named problem).node ≡ remembered named)
unfolding after_labels remembered
after_labels-quiet now n named problem = ground arith

settle_joined-Accounts :
    (env : Env) (n : Node) (vn : VpsieNode) → Accounts vn (settle_joined env n vn)
unfolding settle_joined remembered
settle_joined-Accounts env n vn =
    let named = record_name n vn in
    let (calls, problem) = apply_node_configuration env named n in
    omega (
      arith,
      apply_node_configuration-quiet env named n,
      after_labels-quiet env.now n named problem,
      accepted-append calls (after_labels env.now n named problem).calls,
    )

check_join_status-Accounts : (env : Env) (vn : VpsieNode) → Accounts vn (check_join_status env vn)
unfolding check_join_status
check_join_status-Accounts env vn = grind (arith, settle_joined-Accounts)

note_join_error-quiet :
    (now : ℕ) (o : Outcome)
    → (accepted (note_join_error now o).calls ≡ accepted o.calls)
      × (remembered (note_join_error now o).node ≡ remembered o.node)
unfolding note_join_error remembered
note_join_error-quiet now o = ground arith

classify_provision-quiet :
    (now : ℕ) (o : Outcome)
    → (accepted (classify_provision now o).calls ≡ accepted o.calls)
      × (remembered (classify_provision now o).node ≡ remembered o.node)
unfolding classify_provision remembered
classify_provision-quiet now o = ground arith

fail_with-Accounts :
    (now : ℕ) (reason message : String) (vn : VpsieNode)
    → Accounts vn (fail_with now reason message vn)
unfolding fail_with remembered
fail_with-Accounts now reason message vn = omega arith

handle_provisioning-Accounts :
    (env : Env) (vn : VpsieNode) → Accounts vn (handle_provisioning env vn)
unfolding handle_provisioning
handle_provisioning-Accounts env vn = ground (
  arith,
  fail_with-Accounts env.now "ProvisioningTimeout" "Provisioning timeout exceeded" vn,
  provision-Accounts env vn,
  classify_provision-quiet env.now (provision env vn),
)

handle_joining-Accounts : (env : Env) (vn : VpsieNode) → Accounts vn (handle_joining env vn)
unfolding handle_joining
handle_joining-Accounts env vn = ground (
  arith,
  fail_with-Accounts env.now "JoiningTimeout" "Node joining timeout exceeded" vn,
  check_join_status-Accounts env vn,
  note_join_error-quiet env.now (check_join_status env vn),
)

monitor_node-Accounts : (env : Env) (vn : VpsieNode) → Accounts vn (monitor_node env vn)
unfolding monitor_node remembered
monitor_node-Accounts env vn = ground arith

handle_failed-Accounts :
    (ttl : ℕ) (env : Env) (vn : VpsieNode) → Accounts vn (handle_failed ttl env vn)
unfolding handle_failed remembered
handle_failed-Accounts ttl env vn = ground arith

dispatch-Accounts :
    (p : Phase) (ttl : ℕ) (env : Env) (vn : VpsieNode) → Accounts vn (dispatch p ttl env vn)
unfolding dispatch handle_pending handle_provisioned remembered
dispatch-Accounts unset ttl env vn = omega arith
dispatch-Accounts pending ttl env vn = omega arith
dispatch-Accounts provisioning ttl env vn = handle_provisioning-Accounts env vn
dispatch-Accounts provisioned ttl env vn = omega arith
dispatch-Accounts joining ttl env vn = handle_joining-Accounts env vn
dispatch-Accounts ready ttl env vn = monitor_node-Accounts env vn
dispatch-Accounts terminating ttl env vn = drain_and_delete-Accounts env vn
dispatch-Accounts deleting ttl env vn = delete_vps-Accounts env vn
dispatch-Accounts failed ttl env vn = handle_failed-Accounts ttl env vn

pub handle-Accounts : (ttl : ℕ) (env : Env) (vn : VpsieNode) → Accounts vn (handle ttl env vn)
unfolding handle
handle-Accounts ttl env vn = dispatch-Accounts vn.status.phase ttl env vn

drain_and_delete-quiet : (env : Env) (vn : VpsieNode) → accepted (drain_and_delete env vn).calls ≡ 0
unfolding drain_and_delete
drain_and_delete-quiet env vn = ground arith

delete_vps-quiet : (env : Env) (vn : VpsieNode) → accepted (delete_vps env vn).calls ≡ 0
unfolding delete_vps
delete_vps-quiet env vn = ground (
  arith,
  retry_delete-quiet env 1 2 vn,
  finish_deletion-quiet env (retry_delete env 1 2 vn).0 vn,
  accepted-append (retry_delete env 1 2 vn).1
      (finish_deletion env (retry_delete env 1 2 vn).0 vn).calls,
)

dispatch_deletion-quiet :
    (p : Phase) (ttl : ℕ) (env : Env) (vn : VpsieNode)
    → in_deletion p ≡ true
    → accepted (dispatch p ttl env vn).calls ≡ 0
unfolding dispatch
dispatch_deletion-quiet terminating ttl env vn h = drain_and_delete-quiet env vn
dispatch_deletion-quiet deleting ttl env vn h = delete_vps-quiet env vn
dispatch_deletion-quiet _ ttl env vn h = cc

-- The handlers of the two deletion phases create nothing.
pub handle_deletion-quiet :
    (ttl : ℕ) (env : Env) (vn : VpsieNode)
    → in_deletion vn.status.phase ≡ true
    → accepted (handle ttl env vn).calls ≡ 0
unfolding handle
handle_deletion-quiet ttl env vn h = dispatch_deletion-quiet vn.status.phase ttl env vn h
