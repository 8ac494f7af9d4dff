-- ===== src/Lifecycle/Failures.antt =====
-- pkg/controller/vpsienode/phases.go: what makes a node fail, and what becomes of a failed one.
use vpsie_k8s_autoscaler.Prelude.{
  ℕ, ◌+◌, ◌≤◌, ◌<◌, ◌≡◌, ◌↔◌, true, false, none, some, [], ◌∷◌, arith,
}
use vpsie_k8s_autoscaler.Lifecycle.Errors.{Failure, is_terminal_error}
use vpsie_k8s_autoscaler.Lifecycle.Types.{failed, VpsieNode}
use vpsie_k8s_autoscaler.Lifecycle.Env.{Env, removed_object, no_requeue}
use vpsie_k8s_autoscaler.Lifecycle.Provisioner.{provision}
use vpsie_k8s_autoscaler.Lifecycle.Phases.{
  overdue, provisioning_timeout, classify_provision, handle_provisioning, handle_failed, failed_at,
}

-- A provisioning error that the API will repeat fails the node for good, and is not returned, so
-- that nothing tries again; any other one leaves the phase, and is returned for a retry. Both stay
-- on record in the status.
pub handle_provisioning-errors :
    (env : Env) (vn : VpsieNode) (e : Failure)
    → overdue env.now provisioning_timeout vn.status.created_at ≡ false
    → (provision env vn).error ≡ some e
    → (is_terminal_error e ≡ true
        → ((handle_provisioning env vn).node.status.phase ≡ failed)
          × ((handle_provisioning env vn).error ≡ none)
          × ((handle_provisioning env vn).result ≡ no_requeue))
      × (is_terminal_error e ≡ false
          → ((handle_provisioning env vn).node.status.phase ≡ (provision env vn).node.status.phase)
            × ((handle_provisioning env vn).error ≡ some e)
            × ((handle_provisioning env vn).result ≡ (provision env vn).result))
      × ((handle_provisioning env vn).node.status.last_error ≡ e.text)
unfolding handle_provisioning classify_provision
handle_provisioning-errors env vn e t p = ground arith

-- A failed node is kept for the time to live that follows its failure: its object is deleted exactly
-- when that time, which must be set, has passed, and until then the next pass comes at that moment.
pub handle_failed_iff :
    (ttl : ℕ) (env : Env) (vn : VpsieNode)
    → (((handle_failed ttl env vn).calls ≡ removed_object ∷ [])
        ↔ ((0 < ttl) × (failed_at vn + ttl ≤ env.now)))
      × (0 < ttl
          → env.now < failed_at vn + ttl
          → env.now + (handle_failed ttl env vn).result.requeue_after ≡ failed_at vn + ttl)
unfolding handle_failed
handle_failed_iff ttl env vn = ground (arith)
