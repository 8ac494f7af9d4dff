-- ===== src/Lifecycle/Deletion/Completion.antt =====
-- A deletion that nothing refuses: Delete and DeleteVPS of pkg/controller/vpsienode, then the passes.
use vpsie_k8s_autoscaler.Prelude.{
  ℕ, ◌≡◌, refl, String, ◌=ₛ◌, Bool, true, false, Option, none, some, ◌==◌, arith,
}
use vpsie_k8s_autoscaler.Lifecycle.Errors.{Failure}
use vpsie_k8s_autoscaler.Lifecycle.Types.{terminating, deleting, VpsieNode, set_phase}
use vpsie_k8s_autoscaler.Lifecycle.Env.{Env, Reply, reply, refused}
use vpsie_k8s_autoscaler.Lifecycle.Provisioner.{
  deletion_of, known_hostname, remove_k8s_node, remove_vm, delete_identified, after_look_up,
  look_up, delete,
}
use vpsie_k8s_autoscaler.Lifecycle.Terminator.{retry_delete, can_delete, deleted}
use vpsie_k8s_autoscaler.Lifecycle.Phases.{handle}
use vpsie_k8s_autoscaler.Lifecycle.Reconciler.{observe, store_status}
use vpsie_k8s_autoscaler.Lifecycle.Deletion.Evidence.{confirms, is_gone}
use vpsie_k8s_autoscaler.Lifecycle.Deletion.Progress.{IsDoomed, handle_terminating}

abbrev pub is_reply : Reply String → Bool
is_reply (reply s) = true
is_reply (refused e) = false

-- The VPSie API answers the first attempt: each deletion is accepted or finds nothing to delete.
pub record IsConfirming (env : Env) : Type 0 where
  pub finds : (r h : String) → is_reply (env.find_identifier 1 r h) ≡ true
  pub removes_k8s_node : (r i : String) → confirms (env.delete_k8s_node 1 r i) ≡ true
  pub removes_vm : (i : ℕ) → confirms (env.delete_vm 1 i) ≡ true

deletion_of-is_gone :
    (context : String) (answer : Option Failure)
    → confirms answer ≡ true
    → is_gone (deletion_of context answer) ≡ true
deletion_of-is_gone context none h = refl
deletion_of-is_gone context (some e) h = rw h refl

delete_identified-is_gone :
    (env : Env) (identifier : String) (vn : VpsieNode)
    → IsConfirming env
    → (vn.spec.resource_identifier =ₛ "" ≡ true → vn.spec.vpsie_instance_id == 0 ≡ false)
    → (identifier =ₛ "" ≡ true → vn.spec.vpsie_instance_id == 0 ≡ false)
    → is_gone (delete_identified env 1 identifier vn).0 ≡ true
unfolding delete_identified remove_k8s_node remove_vm
delete_identified-is_gone env identifier vn c r i = ground (
  arith,
  deletion_of-is_gone "failed to delete K8s node"
      (env.delete_k8s_node 1 vn.spec.resource_identifier identifier)
      (c.removes_k8s_node vn.spec.resource_identifier identifier),
  deletion_of-is_gone "failed to delete VPS" (env.delete_vm 1 vn.spec.vpsie_instance_id)
      (c.removes_vm vn.spec.vpsie_instance_id),
)

after_look_up-is_gone :
    (env : Env) (vn : VpsieNode) (answer : Reply String)
    → IsConfirming env
    → is_reply answer ≡ true
    → vn.spec.resource_identifier =ₛ "" ≡ false
    → is_gone (after_look_up env 1 vn answer).0 ≡ true
unfolding after_look_up
after_look_up-is_gone env vn (refused e) c a r = cc
after_look_up-is_gone env vn (reply identifier) c a r =
    ground (arith, delete_identified-is_gone env identifier vn c)

-- One attempt is enough for a machine that can be named.
delete-is_gone :
    (env : Env) (vn : VpsieNode)
    → IsConfirming env
    → can_delete vn ≡ true
    → is_gone (delete env 1 vn).0 ≡ true
unfolding delete look_up can_delete
delete-is_gone env vn c n = ground (
  arith,
  delete_identified-is_gone env "" vn c,
  delete_identified-is_gone env vn.spec.vpsie_node_identifier vn c,
  after_look_up-is_gone env vn
      (env.find_identifier 1 vn.spec.resource_identifier (known_hostname vn)) c
      (c.finds vn.spec.resource_identifier (known_hostname vn)),
)

pub retry_delete-deleted :
    (env : Env) (vn : VpsieNode)
    → IsConfirming env
    → can_delete vn ≡ true
    → (retry_delete env 1 2 vn).0 ≡ deleted
unfolding retry_delete
retry_delete-deleted env vn c n = ground (arith, delete-is_gone env vn c n)

unfoldable pub terminated : Env → VpsieNode → VpsieNode
terminated env vn = store_status (set_phase env.now terminating vn) vn

unfoldable pub drained : ℕ → Env → VpsieNode → VpsieNode
drained ttl env vn = store_status (observe (handle ttl env vn).node) vn

pub terminated-IsDoomed : (env : Env) (vn : VpsieNode) → IsDoomed vn → IsDoomed (terminated env vn)
unfolding terminated set_phase
terminated-IsDoomed env vn d = ground arith

pub drained-IsDoomed :
    (ttl : ℕ) (env : Env) (vn : VpsieNode)
    → IsDoomed vn
    → vn.status.phase ≡ terminating
    → IsDoomed (drained ttl env vn)
unfolding drained
drained-IsDoomed ttl env vn d p = ground (arith, handle_terminating ttl env vn p)

pub terminated-phase : (env : Env) (vn : VpsieNode) → (terminated env vn).status.phase ≡ terminating
unfolding terminated set_phase
terminated-phase env vn = refl

pub drained-phase :
    (ttl : ℕ) (env : Env) (vn : VpsieNode)
    → vn.status.phase ≡ terminating
    → (drained ttl env vn).status.phase ≡ deleting
unfolding drained
drained-phase ttl env vn p = (handle_terminating ttl env vn p).0
