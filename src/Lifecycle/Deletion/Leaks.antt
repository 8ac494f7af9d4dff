-- ===== src/Lifecycle/Deletion/Leaks.antt =====
-- pkg/controller/vpsienode: a machine that was asked for, has no identifier yet, and is deleted.
use vpsie_k8s_autoscaler.Prelude.{ℕ, ◌≡◌, refl, false, none, some, List, [], ◌∷◌, ◌++◌}
use vpsie_k8s_autoscaler.Lifecycle.Types.{provisioning, VpsieNode, clear_error}
use vpsie_k8s_autoscaler.Lifecycle.Env.{Env, Vps, reply, ApiCall, added_slave}
use vpsie_k8s_autoscaler.Lifecycle.Provisioner.{mark_requested}
use vpsie_k8s_autoscaler.Lifecycle.Reconciler.{
  Writes, observe, reconcile, finalizer_name, in_deletion,
}
use vpsie_k8s_autoscaler.Lifecycle.Creation.Runs.{Event, pass, deletion_requested}
use vpsie_k8s_autoscaler.Lifecycle.Creation.Forgotten.{IsWaiting}
use vpsie_k8s_autoscaler.Lifecycle.Deletion.Progress.{IsWilling, IsDoomed}
use vpsie_k8s_autoscaler.Lifecycle.Deletion.Unnamed.{IsUnnamed, trace, trace_unnamed}
use vpsie_k8s_autoscaler.Lifecycle.Deletion.Requested.{IsAnswered, pass_requested}

mark_requested-IsUnnamed :
    (now : ℕ) (machine : Vps) (vn : VpsieNode)
    → IsUnnamed vn
    → IsUnnamed (mark_requested now machine vn)
unfolding mark_requested
mark_requested-IsUnnamed now machine vn u = record {
  no_instance = u.no_instance;
  no_name = u.no_name;
  no_hostname = u.no_hostname;
  no_node = u.no_node;
}

-- The stored object, once it is marked for deletion.
abbrev condemned : Env → Vps → ℕ → VpsieNode → VpsieNode
condemned env machine t vn =
    record (observe (mark_requested env.now machine (clear_error env.now vn))) {
      deletion_timestamp = some t;
    }

condemned-IsDoomed :
    (env : Env) (machine : Vps) (t : ℕ) (vn : VpsieNode)
    → vn.finalizers ≡ finalizer_name ∷ []
    → vn.status.deleted_at ≡ none
    → IsDoomed (condemned env machine t vn)
unfolding mark_requested clear_error
condemned-IsDoomed env machine t vn f d = record {
  marked = refl;
  only_finalizer = f;
  undeleted = d;
}

condemned-IsUnnamed :
    (env : Env) (machine : Vps) (t : ℕ) (vn : VpsieNode)
    → IsUnnamed vn
    → IsUnnamed (condemned env machine t vn)
unfolding mark_requested clear_error
condemned-IsUnnamed env machine t vn u = record {
  no_instance = u.no_instance;
  no_name = u.no_name;
  no_hostname = u.no_hostname;
  no_node = u.no_node;
}

condemned-in_deletion :
    (env : Env) (machine : Vps) (t : ℕ) (vn : VpsieNode)
    → vn.status.phase ≡ provisioning
    → in_deletion (condemned env machine t vn).status.phase ≡ false
unfolding mark_requested clear_error
condemned-in_deletion env machine t vn p = rw p refl

trace-quiet_end :
    (ttl : ℕ) (env : Env) (w : Writes) (t : ℕ) (es : List Event) (vn stored : VpsieNode)
    (cs : List ApiCall)
    → (reconcile ttl env w (some vn)).stored ≡ some stored
    → (reconcile ttl env w (some vn)).calls ≡ cs
    → trace ttl es (some (record stored { deletion_timestamp = some t })) ≡ (none, [])
    → trace ttl (pass env w ∷ deletion_requested t ∷ es) (some vn) ≡ (none, cs ++ [])
unfolding trace
trace-quiet_end ttl env w t es vn stored cs s c e = rw s (rw c (rw e refl))

-- A machine that was asked for and has no identifier yet, whose object is then marked for deletion:
-- if the object has no host name, three passes remove it, and the creation is the only call of an
-- API from first to last. The machine stays, though the object may hold its node identifier.
pub trace_leaks :
    (ttl : ℕ) (env first second third : Env) (w a b c : Writes) (machine : Vps) (t : ℕ)
    (vn : VpsieNode)
    → IsWaiting vn
    → IsAnswered env machine vn
    → IsUnnamed vn
    → vn.finalizers ≡ finalizer_name ∷ []
    → vn.status.deleted_at ≡ none
    → IsWilling w
    → IsWilling a
    → IsWilling b
    → IsWilling c
    → trace ttl
        (pass env w ∷ deletion_requested t ∷ pass first a ∷ pass second b ∷ pass third c ∷ [])
        (some vn)
      ≡ (none, added_slave vn.spec.resource_identifier vn.spec.vpsie_group_id (reply machine) ∷ [])
trace_leaks ttl env first second third w a b c machine t vn i y u f d will will_a will_b will_c =
    let (stored, calls) = pass_requested ttl env w machine vn i y will in
    trace-quiet_end ttl env w t (pass first a ∷ pass second b ∷ pass third c ∷ []) vn
      (observe (mark_requested env.now machine (clear_error env.now vn)))
      (added_slave vn.spec.resource_identifier vn.spec.vpsie_group_id (reply machine) ∷ []) stored
      calls
      (trace_unnamed ttl first second third a b c (condemned env machine t vn) will_a will_b will_c
        (condemned-IsDoomed env machine t vn f d) (condemned-IsUnnamed env machine t vn u)
        (condemned-in_deletion env machine t vn i.in_phase))
