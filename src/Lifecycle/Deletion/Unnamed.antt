-- ===== src/Lifecycle/Deletion/Unnamed.antt =====
-- pkg/controller/vpsienode: the deletion of an object that does not name its machine.
use vpsie_k8s_autoscaler.Prelude.{
  ℕ, ◌≡◌, refl, sym, ◌∙◌, String, true, false, Option, none, some, List, [], ◌∷◌, ◌++◌, ◌⊎◌, inl,
  inr, arith,
}
use vpsie_k8s_autoscaler.Lifecycle.Types.{terminating, deleting, VpsieNode, set_phase}
use vpsie_k8s_autoscaler.Lifecycle.Env.{Env, Outcome, ApiCall}
use vpsie_k8s_autoscaler.Lifecycle.Provisioner.{or_text, known_hostname}
use vpsie_k8s_autoscaler.Lifecycle.Terminator.{can_delete, drain_and_delete, delete_vps}
use vpsie_k8s_autoscaler.Lifecycle.Phases.{dispatch, handle}
use vpsie_k8s_autoscaler.Lifecycle.Reconciler.{
  Writes, store_status, observe, reconcile_object, drop_finalizer, after_deletion_patch,
  persist_deletion, reconcile_delete, patch_status, reconcile, in_deletion,
}
use vpsie_k8s_autoscaler.Lifecycle.Creation.Runs.{
  Event, pass, deletion_requested, mark_for_deletion,
}
use vpsie_k8s_autoscaler.Lifecycle.Deletion.Progress.{
  IsWilling, IsDoomed, handle_at, pass_terminating, pass_deleting, pass_removing,
}
use vpsie_k8s_autoscaler.Lifecycle.Deletion.Completion.{
  terminated, drained, terminated-IsDoomed, drained-IsDoomed, terminated-phase, drained-phase,
}

-- Nothing in the object names its machine but the identifier that the VPSie API gave it.
pub record IsUnnamed (vn : VpsieNode) : Type 0 where
  pub no_instance : vn.spec.vpsie_instance_id ≡ 0
  pub no_name : vn.spec.node_name ≡ ""
  pub no_hostname : vn.status.hostname ≡ ""
  pub no_node : vn.status.node_name ≡ ""

pub IsUnnamed-cannot_delete : (vn : VpsieNode) → IsUnnamed vn → can_delete vn ≡ false
unfolding can_delete known_hostname
IsUnnamed-cannot_delete vn u =
    rw (u.no_instance) (rw (u.no_hostname) (rw (u.no_name) (rw (u.no_node) (ground arith))))

pub terminated-IsUnnamed :
    (env : Env) (vn : VpsieNode) → IsUnnamed vn → IsUnnamed (terminated env vn)
unfolding terminated set_phase
terminated-IsUnnamed env vn u = record {
  no_instance = u.no_instance;
  no_name = u.no_name;
  no_hostname = u.no_hostname;
  no_node = u.no_node;
}

no_text : (a b : String) → a ≡ "" → b ≡ "" → or_text a b ≡ ""
no_text a b e f = rw e f

quiet_drain :
    (env : Env) (vn : VpsieNode)
    → IsUnnamed vn
    → ((drain_and_delete env vn).node ≡ set_phase env.now deleting vn)
      × ((drain_and_delete env vn).calls ≡ [])
unfolding drain_and_delete
quiet_drain env vn u =
    rw (no_text vn.status.node_name vn.spec.node_name u.no_node u.no_name) (refl, refl)

pub handle_terminating-quiet :
    (ttl : ℕ) (env : Env) (vn : VpsieNode)
    → IsUnnamed vn
    → vn.status.phase ≡ terminating
    → ((handle ttl env vn).node ≡ set_phase env.now deleting vn) × ((handle ttl env vn).calls ≡ [])
unfolding dispatch
handle_terminating-quiet ttl env vn u p =
    rw (handle_at terminating ttl env vn p) (quiet_drain env vn u)

pub drained-IsUnnamed :
    (ttl : ℕ) (env : Env) (vn : VpsieNode)
    → IsUnnamed vn
    → vn.status.phase ≡ terminating
    → IsUnnamed (drained ttl env vn)
unfolding drained set_phase
drained-IsUnnamed ttl env vn u p = rw ((handle_terminating-quiet ttl env vn u p).0) (record {
  no_instance = u.no_instance;
  no_name = u.no_name;
  no_hostname = u.no_hostname;
  no_node = u.no_node;
})

pub handle_deleting-quiet :
    (ttl : ℕ) (env : Env) (vn : VpsieNode)
    → IsUnnamed vn
    → vn.status.phase ≡ deleting
    → (handle ttl env vn).calls ≡ []
unfolding dispatch delete_vps
handle_deleting-quiet ttl env vn u p =
    rw (handle_at deleting ttl env vn p) (rw (IsUnnamed-cannot_delete vn u) refl)

pub drop_finalizer-calls :
    (w : Writes) (vn stored : VpsieNode) (cs : List ApiCall)
    → (drop_finalizer w vn stored cs).calls ≡ cs
unfolding drop_finalizer
drop_finalizer-calls w vn stored cs = ground arith

pub persist_deletion-calls :
    (w : Writes) (o : Outcome) (vn : VpsieNode) → (persist_deletion w o vn).calls ≡ o.calls
unfolding persist_deletion after_deletion_patch
persist_deletion-calls w o vn = ground (
  arith,
  drop_finalizer-calls w o.node (store_status (observe o.node) vn) o.calls,
  drop_finalizer-calls w o.node vn o.calls,
)

pub reconcile_marked-calls :
    (ttl : ℕ) (env : Env) (w : Writes) (vn : VpsieNode)
    → IsDoomed vn
    → ((handle ttl env vn).calls ≡ []) ⊎ (in_deletion vn.status.phase ≡ false)
    → (reconcile ttl env w (some vn)).calls ≡ []
unfolding reconcile reconcile_object reconcile_delete patch_status
reconcile_marked-calls ttl env w vn d q =
    ground (arith, persist_deletion-calls w (handle ttl env vn) vn)

-- The stored object after the events, and every API call on the way.
unfoldable pub trace : ℕ → List Event → Option VpsieNode → Option VpsieNode × List ApiCall
trace ttl [] s = (s, [])
trace ttl (pass env w ∷ es) s =
    let r = reconcile ttl env w s in
    let (last, calls) = trace ttl es r.stored in (last, r.calls ++ calls)
trace ttl (deletion_requested t ∷ es) s = trace ttl es (mark_for_deletion t s)

differ : true ≡ false → ⊥
differ h = cc

-- Three passes remove an object that does not name its machine, and call no API.
pub trace_unnamed :
    (ttl : ℕ) (first second third : Env) (a b c : Writes) (vn : VpsieNode)
    → IsWilling a
    → IsWilling b
    → IsWilling c
    → IsDoomed vn
    → IsUnnamed vn
    → in_deletion vn.status.phase ≡ false
    → trace ttl (pass first a ∷ pass second b ∷ pass third c ∷ []) (some vn) ≡ (none, [])
unfolding trace terminated drained
trace_unnamed ttl first second third a b c vn will_a will_b will_c d u p =
    let one = terminated first vn in
    let two = drained ttl second one in
    let doomed = terminated-IsDoomed first vn d in
    let unnamed = terminated-IsUnnamed first vn u in
    let terminates = terminated-phase first vn in
    let doomed_too = drained-IsDoomed ttl second one doomed terminates in
    let unnamed_too = drained-IsUnnamed ttl second one unnamed terminates in
    let deletes = drained-phase ttl second one terminates in
    rw (reconcile_marked-calls ttl first a vn d (inr p)) (
      rw (pass_terminating ttl first a vn will_a d p) (
        rw
          (reconcile_marked-calls ttl second b one doomed
            (inl ((handle_terminating-quiet ttl second one unnamed terminates).1)))
          (rw (pass_deleting ttl second b one will_b doomed terminates) (
            rw
              (reconcile_marked-calls ttl third c two doomed_too
                (inl (handle_deleting-quiet ttl third two unnamed_too deletes)))
              (rw
                (pass_removing ttl third c two will_c doomed_too deletes (λ nameable.
                  absurd (differ (sym nameable ∙ IsUnnamed-cannot_delete two unnamed_too))))
                refl)))))
