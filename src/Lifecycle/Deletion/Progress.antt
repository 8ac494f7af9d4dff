-- ===== src/Lifecycle/Deletion/Progress.antt =====
-- The three passes of a deletion, one by one, with API servers that take what they are given.
use vpsie_k8s_autoscaler.Prelude.{
  ℕ, ◌≡◌, refl, ap, true, false, none, some, List, [], ◌∷◌, is_some, inl, inr, Bool-cases, arith,
}
use vpsie_k8s_autoscaler.Lifecycle.Types.{Phase, terminating, deleting, VpsieNode, set_phase}
use vpsie_k8s_autoscaler.Lifecycle.Env.{Env, ApiCall}
use vpsie_k8s_autoscaler.Lifecycle.Terminator.{
  retry_delete, finish_deletion, delete_vps, can_delete, Retried, deleted, exhausted, interrupted,
}
use vpsie_k8s_autoscaler.Lifecycle.Phases.{dispatch, handle}
use vpsie_k8s_autoscaler.Lifecycle.Reconciler.{
  Writes, patched, store_object, observe, store_status, patch_status, drop_finalizer,
  after_deletion_patch, persist_deletion, reconcile_delete, reconcile_object, reconcile,
  finalizer_name, contains_string, remove_string, in_deletion,
}
use vpsie_k8s_autoscaler.Lifecycle.Deletion.Metadata.{handle-same}
use vpsie_k8s_autoscaler.Lifecycle.Deletion.Release.{drain_and_delete-deleted}
use vpsie_k8s_autoscaler.Lifecycle.Edges.{drain_and_delete-phase}

-- The API server takes what it is given.
pub record IsWilling (w : Writes) : Type 0 where
  pub read : w.fetch ≡ none
  pub updated : w.update ≡ none
  pub status_patched : w.patch ≡ patched

pub record IsDoomed (vn : VpsieNode) : Type 0 where
  pub marked : is_some vn.deletion_timestamp ≡ true
  pub only_finalizer : vn.finalizers ≡ finalizer_name ∷ []
  pub undeleted : vn.status.deleted_at ≡ none

pub handle_at :
    (p : Phase) (ttl : ℕ) (env : Env) (vn : VpsieNode)
    → vn.status.phase ≡ p
    → handle ttl env vn ≡ dispatch p ttl env vn
unfolding handle
handle_at p ttl env vn e = ap (λ q. dispatch q ttl env vn) e

guarded : (vn : VpsieNode) → IsDoomed vn → contains_string vn.finalizers finalizer_name ≡ true
unfolding contains_string
guarded vn d = rw (d.only_finalizer)

-- The pass that turns the object to the Terminating phase.
pub pass_terminating :
    (ttl : ℕ) (env : Env) (w : Writes) (vn : VpsieNode)
    → IsWilling w
    → IsDoomed vn
    → in_deletion vn.status.phase ≡ false
    → (reconcile ttl env w (some vn)).stored
      ≡ some (store_status (set_phase env.now terminating vn) vn)
unfolding reconcile reconcile_object reconcile_delete patch_status
pass_terminating ttl env w vn a d p = ground (arith, guarded vn d)

pub handle_terminating :
    (ttl : ℕ) (env : Env) (vn : VpsieNode)
    → vn.status.phase ≡ terminating
    → ((handle ttl env vn).node.status.phase ≡ deleting)
      × ((handle ttl env vn).node.status.deleted_at ≡ vn.status.deleted_at)
unfolding dispatch
handle_terminating ttl env vn p =
    rw (handle_at terminating ttl env vn p)
      (drain_and_delete-phase env vn, drain_and_delete-deleted env vn)

-- The pass that drains the node.
pub pass_deleting :
    (ttl : ℕ) (env : Env) (w : Writes) (vn : VpsieNode)
    → IsWilling w
    → IsDoomed vn
    → vn.status.phase ≡ terminating
    → (reconcile ttl env w (some vn)).stored
      ≡ some (store_status (observe (handle ttl env vn).node) vn)
unfolding reconcile reconcile_object reconcile_delete persist_deletion after_deletion_patch
pass_deleting ttl env w vn a d p = ground (arith, guarded vn d, handle_terminating ttl env vn p)

deleted_at_finish :
    (env : Env) (r : Retried) (vn : VpsieNode)
    → r ≡ deleted
    → is_some (finish_deletion env r vn).node.status.deleted_at ≡ true
unfolding finish_deletion
deleted_at_finish env deleted vn g = refl
deleted_at_finish env (exhausted e) vn g = cc
deleted_at_finish env interrupted vn g = cc

delete_vps-done :
    (env : Env) (vn : VpsieNode)
    → (can_delete vn ≡ true → (retry_delete env 1 2 vn).0 ≡ deleted)
    → is_some (delete_vps env vn).node.status.deleted_at ≡ true
unfolding delete_vps
delete_vps-done env vn gone = elim (Bool-cases (can_delete vn)) [
  | inl nameable ↦
      rw nameable (deleted_at_finish env (retry_delete env 1 2 vn).0 vn (gone nameable))
  | inr unnamed ↦ rw unnamed refl
]

handle_deleting :
    (ttl : ℕ) (env : Env) (vn : VpsieNode)
    → vn.status.phase ≡ deleting
    → (can_delete vn ≡ true → (retry_delete env 1 2 vn).0 ≡ deleted)
    → is_some (handle ttl env vn).node.status.deleted_at ≡ true
unfolding dispatch
handle_deleting ttl env vn p gone =
    rw (handle_at deleting ttl env vn p) (delete_vps-done env vn gone)

nothing_left :
    (vn : VpsieNode)
    → vn.finalizers ≡ finalizer_name ∷ []
    → remove_string vn.finalizers finalizer_name ≡ []
unfolding remove_string
nothing_left vn f = rw f refl

drop_finalizer-removes :
    (w : Writes) (vn stored : VpsieNode) (cs : List ApiCall)
    → w.update ≡ none
    → is_some vn.deletion_timestamp ≡ true
    → vn.finalizers ≡ finalizer_name ∷ []
    → (drop_finalizer w vn stored cs).stored ≡ none
unfolding drop_finalizer store_object
drop_finalizer-removes w vn stored cs up m f = rw up (rw (nothing_left vn f) (rw m refl))

-- The pass that deletes the machine and lets the object go.
pub pass_removing :
    (ttl : ℕ) (env : Env) (w : Writes) (vn : VpsieNode)
    → IsWilling w
    → IsDoomed vn
    → vn.status.phase ≡ deleting
    → (can_delete vn ≡ true → (retry_delete env 1 2 vn).0 ≡ deleted)
    → (reconcile ttl env w (some vn)).stored ≡ none
unfolding reconcile reconcile_object reconcile_delete persist_deletion after_deletion_patch
pass_removing ttl env w vn a d p gone = ground (
  arith,
  guarded vn d,
  handle_deleting ttl env vn p gone,
  handle-same ttl env vn,
  drop_finalizer-removes w (handle ttl env vn).node
      (store_status (observe (handle ttl env vn).node) vn) (handle ttl env vn).calls,
)
