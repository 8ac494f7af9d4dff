-- ===== src/Lifecycle/Deletion/Evidence.antt =====
-- What the VPSie API must have said for a machine to count as gone.
use vpsie_k8s_autoscaler.Prelude.{
  ℕ, zero, suc, ◌+◌, ◌≤◌, ◌≡◌, refl, ◌⊎◌, inl, inr, String, ◌=ₛ◌, text_eq_iff, ap, ◌∙◌, Bool, true,
  false, not, ◌&&◌, Option, none, some, length, length-append, Bool-cases, arith,
}
use vpsie_k8s_autoscaler.Lifecycle.Errors.{Failure, wrap, failure_about, is_not_found}
use vpsie_k8s_autoscaler.Lifecycle.Types.{VpsieNode}
use vpsie_k8s_autoscaler.Lifecycle.Env.{Env, Reply, reply, refused}
use vpsie_k8s_autoscaler.Lifecycle.Provisioner.{
  Deletion, deleted_now, already_gone, not_deleted, deletion_of, known_hostname, remove_k8s_node,
  remove_vm, delete_identified, after_look_up, look_up, delete,
}
use vpsie_k8s_autoscaler.Lifecycle.Terminator.{retry_delete, deleted}

-- An accepted deletion, or the answer that there is nothing to delete.
abbrev pub confirms : Option Failure → Bool
confirms none = true
confirms (some e) = is_not_found e

-- What the VPSie API said to one attempt: the host name is unknown to the cluster, or the deletion
-- of the cluster's node or of the machine was confirmed.
abbrev pub Evidence : Env → VpsieNode → ℕ → Type 0
Evidence env vn k =
    (env.find_identifier k vn.spec.resource_identifier (known_hostname vn) ≡ reply "")
    ⊎ ((identifier : String) × (confirms
            (env.delete_k8s_node k vn.spec.resource_identifier identifier)
          ≡ true))
    ⊎ (confirms (env.delete_vm k vn.spec.vpsie_instance_id) ≡ true)

abbrev pub is_gone : Deletion → Bool
is_gone deleted_now = true
is_gone already_gone = true
is_gone (not_deleted e) = is_not_found e

deletion_of-confirms :
    (context : String) (answer : Option Failure)
    → is_gone (deletion_of context answer) ≡ true
    → confirms answer ≡ true
unfolding wrap is_not_found
deletion_of-confirms context none h = refl
deletion_of-confirms context (some e) h = ground arith

remove_k8s_node-confirms :
    (env : Env) (k : ℕ) (identifier : String) (vn : VpsieNode)
    → is_gone (remove_k8s_node env k identifier vn).0 ≡ true
    → confirms (env.delete_k8s_node k vn.spec.resource_identifier identifier) ≡ true
unfolding remove_k8s_node
remove_k8s_node-confirms env k identifier vn h =
    deletion_of-confirms "failed to delete K8s node"
      (env.delete_k8s_node k vn.spec.resource_identifier identifier) h

not_found_about : (t detail : String) → is_not_found (failure_about t detail) ≡ false
unfolding failure_about is_not_found
not_found_about t detail = refl

remove_vm-confirms :
    (env : Env) (k : ℕ) (vn : VpsieNode)
    → is_gone (remove_vm env k vn).0 ≡ true
    → confirms (env.delete_vm k vn.spec.vpsie_instance_id) ≡ true
unfolding remove_vm
remove_vm-confirms env k vn h = ground (
  arith,
  not_found_about
      "cannot delete VPS: no VPSieInstanceID or VPSieNodeIdentifier available (hostname: "
      vn.status.hostname,
  deletion_of-confirms "failed to delete VPS" (env.delete_vm k vn.spec.vpsie_instance_id),
)

delete_identified-Evidence :
    (env : Env) (k : ℕ) (identifier : String) (vn : VpsieNode)
    → is_gone (delete_identified env k identifier vn).0 ≡ true
    → Evidence env vn k
unfolding delete_identified
delete_identified-Evidence env k identifier vn h =
    elim (Bool-cases (not (vn.spec.resource_identifier =ₛ "") && not (identifier =ₛ ""))) [
      | inl known ↦
          inr (inl (identifier, remove_k8s_node-confirms env k identifier vn (rw known at h)))
      | inr unknown ↦ inr (inr (remove_vm-confirms env k vn (rw unknown at h)))
    ]

after_look_up-Evidence :
    (env : Env) (k : ℕ) (vn : VpsieNode) (answer : Reply String)
    → env.find_identifier k vn.spec.resource_identifier (known_hostname vn) ≡ answer
    → is_gone (after_look_up env k vn answer).0 ≡ true
    → Evidence env vn k
unfolding after_look_up
after_look_up-Evidence env k vn (refused e) a h = delete_identified-Evidence env k "" vn h
after_look_up-Evidence env k vn (reply identifier) a h = elim (Bool-cases (identifier =ₛ "")) [
  | inl empty ↦ inl (a ∙ ap reply ((text_eq_iff identifier "").0 empty))
  | inr known ↦ delete_identified-Evidence env k identifier vn (rw known at h)
]

look_up-Evidence :
    (env : Env) (k : ℕ) (vn : VpsieNode) → is_gone (look_up env k vn).0 ≡ true → Evidence env vn k
unfolding look_up
look_up-Evidence env k vn h = elim (Bool-cases (known_hostname vn =ₛ "")) [
  | inl unnamed ↦ delete_identified-Evidence env k "" vn (rw unnamed at h)
  | inr named ↦
      after_look_up-Evidence env k vn
        (env.find_identifier k vn.spec.resource_identifier (known_hostname vn)) refl (rw named at h)
]

delete-Evidence :
    (env : Env) (k : ℕ) (vn : VpsieNode) → is_gone (delete env k vn).0 ≡ true → Evidence env vn k
unfolding delete
delete-Evidence env k vn h =
    elim (Bool-cases
      (not (vn.spec.resource_identifier =ₛ "") && vn.spec.vpsie_node_identifier =ₛ "")) [
        | inl search ↦ look_up-Evidence env k vn (rw search at h)
        | inr direct ↦
            delete_identified-Evidence env k vn.spec.vpsie_node_identifier vn (rw direct at h)
      ]

last_attempt-gone :
    (env : Env) (attempt : ℕ) (vn : VpsieNode)
    → (retry_delete env attempt zero vn).0 ≡ deleted
    → is_gone (delete env attempt vn).0 ≡ true
unfolding retry_delete
last_attempt-gone env attempt vn h = ground arith

earlier_attempt-gone :
    (env : Env) (attempt left : ℕ) (vn : VpsieNode)
    → (retry_delete env attempt (suc left) vn).0 ≡ deleted
    → (is_gone (delete env attempt vn).0 ≡ true)
      ⊎ ((retry_delete env (suc attempt) left vn).0 ≡ deleted)
unfolding retry_delete
earlier_attempt-gone env attempt left vn h = ground arith

-- If the loop of attempts ends with the machine deleted, one of its attempts has the evidence.
pub retry_delete-Evidence :
    (env : Env) (attempt left : ℕ) (vn : VpsieNode)
    → (retry_delete env attempt left vn).0 ≡ deleted
    → (k : ℕ) × (attempt ≤ k) × (k ≤ attempt + left) × Evidence env vn k
retry_delete-Evidence env attempt zero vn h = (
  attempt,
  omega arith,
  omega arith,
  delete-Evidence env attempt vn (last_attempt-gone env attempt vn h),
)
retry_delete-Evidence env attempt (suc left) vn h =
    elim (earlier_attempt-gone env attempt left vn h) [
      | inl gone ↦ (attempt, omega arith, omega arith, delete-Evidence env attempt vn gone)
      | inr later ↦
          let (k, from, to, evidence) = retry_delete-Evidence env (suc attempt) left vn later in
          (k, omega arith, omega arith, evidence)
    ]

delete-calls : (env : Env) (k : ℕ) (vn : VpsieNode) → length (delete env k vn).1 ≤ 1
unfolding delete look_up after_look_up delete_identified remove_k8s_node remove_vm
delete-calls env k vn = ground arith

-- The loop makes at most one deletion call for each attempt.
pub retry_delete-calls :
    (env : Env) (attempt left : ℕ) (vn : VpsieNode)
    → length (retry_delete env attempt left vn).1 ≤ suc left
unfolding retry_delete
retry_delete-calls env attempt zero vn = delete-calls env attempt vn
retry_delete-calls env attempt (suc left) vn = ground (
  arith,
  delete-calls env attempt vn,
  retry_delete-calls env (suc attempt) left vn,
  length-append (delete env attempt vn).1 (retry_delete env (suc attempt) left vn).1,
)
