-- ===== src/Lifecycle/Deletion/Release.antt =====
-- The finalizer is let go only once the machine is known to be gone.
use vpsie_k8s_autoscaler.Prelude.{
  ◌≡◌, ◌⊎◌, Bool, true, false, not, Option, none, some, is_some, arith,
}
use vpsie_k8s_autoscaler.Lifecycle.Types.{deleting, VpsieNode}
use vpsie_k8s_autoscaler.Lifecycle.Env.{Env}
use vpsie_k8s_autoscaler.Lifecycle.Terminator.{retry_delete, drain_and_delete, can_delete, deleted}
use vpsie_k8s_autoscaler.Lifecycle.Reconciler.{finalizer_name, contains_string}
use vpsie_k8s_autoscaler.Lifecycle.Deletion.Evidence.{Evidence}

-- The object is gone, or no longer waits for its controller.
abbrev pub released : Option VpsieNode → Bool
released none = true
released (some vn) = not (contains_string vn.finalizers finalizer_name)

-- The machine cannot be named, or a deletion was confirmed.
abbrev pub Gone : Env → VpsieNode → Type 0
Gone env vn = (can_delete vn ≡ false) ⊎ ((retry_delete env 1 2 vn).0 ≡ deleted)

abbrev Confirmed : Env → VpsieNode → Type 0
Confirmed env vn =
    (is_some vn.status.deleted_at ≡ true) ⊎ ((vn.status.phase ≡ deleting) × Gone env vn)

pub drain_and_delete-deleted :
    (env : Env) (vn : VpsieNode)
    → (drain_and_delete env vn).node.status.deleted_at ≡ vn.status.deleted_at
unfolding drain_and_delete
drain_and_delete-deleted env vn = ground arith
