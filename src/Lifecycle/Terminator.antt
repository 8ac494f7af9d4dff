-- ===== src/Lifecycle/Terminator.antt =====
-- pkg/controller/vpsienode/terminator.go. The outcome of a drain is an answer of the environment.
use vpsie_k8s_autoscaler.Prelude.{
  ℕ, zero, suc, String, ◌=ₛ◌, Bool, not, ◌&&◌, ◌||◌, ◌++◌, Option, none, some, List, [], ◌∷◌, ◌==◌,
  if◌then◌else◌,
}
use vpsie_k8s_autoscaler.Lifecycle.Errors.{Failure, wrap, failure, is_not_found}
use vpsie_k8s_autoscaler.Lifecycle.Types.{failed, deleting, VpsieNode, set_phase, record_error}
use vpsie_k8s_autoscaler.Lifecycle.Env.{
  Env, ApiCall, drained_node, removed_node, Outcome, no_requeue, at_once, after, done, fails,
  having_called, default_requeue_after,
}
use vpsie_k8s_autoscaler.Lifecycle.Provisioner.{
  or_text, known_hostname, deleted_now, already_gone, not_deleted, delete,
}

-- `if err != nil { RecordError(…) }`: the error does not stop the termination.
unfoldable pub note_failure : ℕ → String → String → Option Failure → VpsieNode → VpsieNode
unfolding record_error
note_failure now reason context none vn = vn
note_failure now reason context (some e) vn = record_error now reason (wrap context e).text vn

unfoldable pub drain_and_delete : Env → VpsieNode → Outcome
unfolding set_phase note_failure
drain_and_delete env vn =
    let name = or_text vn.status.node_name vn.spec.node_name in
    if name =ₛ ""
    then done (set_phase env.now deleting vn) at_once
    else (let drained =
          note_failure env.now "DrainFailed" "Failed to drain node" (env.drain_node name) vn in
        let removed =
          note_failure env.now "NodeDeleteFailed" "Failed to delete Node" (env.delete_node name)
            drained in
        having_called (drained_node name ∷ removed_node name ∷ [])
          (done (set_phase env.now deleting removed) at_once))

abbrev pub max_retries : ℕ
max_retries = 3

pub data Retried : Type 0 where
  deleted : Retried
  exhausted : Failure → Retried
  interrupted : Retried

-- The loop of `DeleteVPS`: `left` attempts remain after this one. The wait between two attempts
-- ends early if the context is cancelled.
unfoldable pub retry_delete : Env → ℕ → ℕ → VpsieNode → Retried × List ApiCall
retry_delete env attempt zero vn =
    let (outcome, calls) = delete env attempt vn in
    (
      elim outcome [
        | deleted_now ↦ deleted
        | already_gone ↦ deleted
        | not_deleted e ↦ if is_not_found e then deleted else exhausted e
      ],
      calls,
    )
retry_delete env attempt (suc left) vn =
    let (rest, later) = retry_delete env (suc attempt) left vn in
    let (outcome, calls) = delete env attempt vn in
    elim outcome [
      | deleted_now ↦ (deleted, calls)
      | already_gone ↦ (deleted, calls)
      | not_deleted e ↦
          if is_not_found e
          then (deleted, calls)
          else if env.cancelled attempt
          then (interrupted, calls)
          else (rest, calls ++ later)
    ]

unfoldable pub mark_deleted : ℕ → VpsieNode → VpsieNode
mark_deleted now vn = record vn { status = record (vn.status) { deleted_at = some now } }

unfoldable pub mark_undeletable : ℕ → Failure → VpsieNode → VpsieNode
unfolding set_phase record_error
mark_undeletable now e vn =
    set_phase now failed
      (record_error now "VPSDeleteFailed" (wrap "Failed to delete VPS after 3 retries" e).text vn)

unfoldable pub finish_deletion : Env → Retried → VpsieNode → Outcome
unfolding mark_deleted mark_undeletable
finish_deletion env deleted vn = done (mark_deleted env.now vn) no_requeue
finish_deletion env interrupted vn = fails vn no_requeue (failure "context canceled")
finish_deletion env (exhausted e) vn =
    fails (mark_undeletable env.now e vn) (after default_requeue_after)
      (wrap "failed to delete VPS" e)

unfoldable pub can_delete : VpsieNode → Bool
unfolding known_hostname
can_delete vn =
    (not (vn.spec.resource_identifier =ₛ "") && not (known_hostname vn =ₛ ""))
    || not (vn.spec.vpsie_instance_id == 0)

unfoldable pub delete_vps : Env → VpsieNode → Outcome
unfolding mark_deleted
delete_vps env vn =
    if can_delete vn
    then (let (outcome, calls) = retry_delete env 1 2 vn in
        having_called calls (finish_deletion env outcome vn))
    else done (mark_deleted env.now vn) no_requeue
