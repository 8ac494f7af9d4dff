-- ===== src/Lifecycle/Phases.antt =====
-- pkg/controller/vpsienode/phases.go: a handler for each phase, and their dispatch.
use vpsie_k8s_autoscaler.Prelude.{
  ℕ, ◌+◌, ◌-◌, String, codes, Bool, false, Option, none, some, [], ◌∷◌, ltb, ◌==◌, if◌then◌else◌,
}
use vpsie_k8s_autoscaler.Lifecycle.Errors.{failure, is_terminal_error}
use vpsie_k8s_autoscaler.Lifecycle.Types.{
  Phase, unset, pending, provisioning, provisioned, joining, ready, terminating, deleting, failed,
  vps_ready, node_joined, error, VpsieNode, get_condition, set_phase, set_condition_to,
  record_error,
}
use vpsie_k8s_autoscaler.Lifecycle.Env.{
  Env, removed_object, Outcome, no_requeue, at_once, after, done, fails, having_called,
  default_requeue_after, fast_requeue_after,
}
use vpsie_k8s_autoscaler.Lifecycle.Provisioner.{provision}
use vpsie_k8s_autoscaler.Lifecycle.Joiner.{check_join_status, monitor_node}
use vpsie_k8s_autoscaler.Lifecycle.Terminator.{drain_and_delete, delete_vps}

abbrev pub provisioning_timeout : ℕ
provisioning_timeout = 600000000000

abbrev pub joining_timeout : ℕ
joining_timeout = 900000000000

-- `t != nil && time.Since(t) > limit`
abbrev pub overdue : ℕ → ℕ → Option ℕ → Bool
overdue now limit none = false
overdue now limit (some t) = ltb (t + limit) now

unfoldable pub handle_pending : Env → VpsieNode → Outcome
unfolding set_phase set_condition_to
handle_pending env vn =
    done
      (set_condition_to vps_ready env.now false "Provisioning" (codes "VPS provisioning started")
        (set_phase env.now provisioning vn))
      at_once

-- The messages of the two timeouts leave out the elapsed time that the source prints.
unfoldable pub fail_with : ℕ → String → String → VpsieNode → Outcome
unfolding set_phase record_error
fail_with now reason message vn =
    done (record_error now reason (codes message) (set_phase now failed vn)) no_requeue

-- What the Provisioning handler makes of an error of `Provision`.
unfoldable pub classify_provision : ℕ → Outcome → Outcome
unfolding set_phase record_error
classify_provision now o = elim o.error [
  | none ↦ o
  | some e ↦
      if is_terminal_error e
      then record o {
        node = record_error now "CapacityLimitReached" e.text (set_phase now failed o.node);
        result = no_requeue;
        error = none;
      }
      else record o { node = record_error now "VPSieAPIError" e.text o.node }
]

unfoldable pub handle_provisioning : Env → VpsieNode → Outcome
handle_provisioning env vn =
    if overdue env.now provisioning_timeout vn.status.created_at
    then fail_with env.now "ProvisioningTimeout" "Provisioning timeout exceeded" vn
    else classify_provision env.now (provision env vn)

-- `PrepareJoin` does nothing and returns nil.
unfoldable pub handle_provisioned : Env → VpsieNode → Outcome
unfolding set_phase set_condition_to
handle_provisioned env vn =
    done
      (set_condition_to node_joined env.now false "Joining" (codes "Node joining started")
        (set_phase env.now joining vn))
      (after fast_requeue_after)

unfoldable pub note_join_error : ℕ → Outcome → Outcome
unfolding record_error
note_join_error now o = elim o.error [
  | none ↦ o
  | some e ↦ record o { node = record_error now "Failed" e.text o.node }
]

unfoldable pub handle_joining : Env → VpsieNode → Outcome
handle_joining env vn =
    if overdue env.now joining_timeout vn.status.provisioned_at
    then fail_with env.now "JoiningTimeout" "Node joining timeout exceeded" vn
    else note_join_error env.now (check_join_status env vn)

-- When the node failed: the transition of its Error condition, or else its creation.
unfoldable pub failed_at : VpsieNode → ℕ
unfolding get_condition
failed_at vn = elim (get_condition vn error) [
  | none ↦ vn.creation_timestamp
  | some c ↦ if c.last_transition_time == 0 then vn.creation_timestamp else c.last_transition_time
]

unfoldable pub handle_failed : ℕ → Env → VpsieNode → Outcome
unfolding failed_at
handle_failed ttl env vn =
    if ttl == 0
    then done vn no_requeue
    else if ltb env.now (failed_at vn + ttl)
    then done vn (after (failed_at vn + ttl - env.now))
    else having_called (removed_object ∷ []) (elim env.delete_object [
      | none ↦ done vn no_requeue
      | some e ↦ fails vn (after default_requeue_after) e
    ])

unfoldable pub dispatch : Phase → ℕ → Env → VpsieNode → Outcome
dispatch unset ttl env vn = fails vn no_requeue (failure "no handler for phase ")
dispatch pending ttl env vn = handle_pending env vn
dispatch provisioning ttl env vn = handle_provisioning env vn
dispatch provisioned ttl env vn = handle_provisioned env vn
dispatch joining ttl env vn = handle_joining env vn
dispatch ready ttl env vn = monitor_node env vn
dispatch terminating ttl env vn = drain_and_delete env vn
dispatch deleting ttl env vn = delete_vps env vn
dispatch failed ttl env vn = handle_failed ttl env vn

-- `ttl` is the failed-node TTL with which the state machine was built; 0 turns it off.
unfoldable pub handle : ℕ → Env → VpsieNode → Outcome
handle ttl env vn = dispatch vn.status.phase ttl env vn
