-- ===== src/Lifecycle/Creation/Passes.antt =====
-- The count of creations through one reconciliation, against the object that is stored after it.
use vpsie_k8s_autoscaler.Prelude.{
  ℕ, ◌+◌, ◌≤◌, ◌≡◌, refl, false, Option, none, some, List, [], arith,
}
use vpsie_k8s_autoscaler.Lifecycle.Types.{VpsieNode, clear_error, set_phase, terminating}
use vpsie_k8s_autoscaler.Lifecycle.Env.{Env, Outcome, ApiCall, Requeue, at_once}
use vpsie_k8s_autoscaler.Lifecycle.Phases.{handle}
use vpsie_k8s_autoscaler.Lifecycle.Reconciler.{
  Writes, PatchAnswer, patched, conflict, rejected, Reconciled, store_object, store_status, observe,
  object_changed, finish_status, persist, add_finalizer, initialize_phase, patch_status,
  drop_finalizer, after_deletion_patch, persist_deletion, reconcile_delete, reconcile_phase,
  reconcile_object, reconcile,
}
use vpsie_k8s_autoscaler.Lifecycle.Creation.Requests.{accepted, remembered, Accounts}
use vpsie_k8s_autoscaler.Lifecycle.Creation.Handlers.{handle-Accounts, handle_deletion-quiet}

-- An object that is gone asks for nothing more.
abbrev pub memory : Option VpsieNode → ℕ
memory none = 1
memory (some vn) = remembered vn

abbrev Keeps : VpsieNode → Reconciled → Type 0
Keeps vn r = accepted r.calls + remembered vn ≤ memory r.stored

pub remembered-le : (vn : VpsieNode) → remembered vn ≤ 1
unfolding remembered
remembered-le vn = ground arith

store_object-memory : (vn stored : VpsieNode) → remembered vn ≤ memory (store_object vn stored)
unfolding store_object remembered
store_object-memory vn stored = ground arith

pub finish_status-memory :
    (w : Writes) (o : Outcome) (s : Option VpsieNode)
    → (memory (finish_status w o s).stored ≡ memory s) × ((finish_status w o s).calls ≡ o.calls)
unfolding finish_status remembered
finish_status-memory w o none = (refl, refl)
finish_status-memory w o (some vn) = ground arith

pub object_unchanged-remembered :
    (vn was : VpsieNode) → object_changed vn was ≡ false → remembered vn ≡ remembered was
unfolding object_changed remembered
object_unchanged-remembered vn was h = ground arith

persist-Keeps :
    (w : Writes) (o : Outcome) (vn : VpsieNode)
    → w.update ≡ none
    → Accounts vn o
    → Keeps vn (persist w o vn)
unfolding persist
persist-Keeps w o vn up a = ground (
  arith,
  object_unchanged-remembered o.node vn,
  finish_status-memory w o (some vn),
  finish_status-memory w o (store_object o.node vn),
  store_object-memory o.node vn,
)

patch_status-Keeps :
    (a : PatchAnswer) (vn stored : VpsieNode) (r : Requeue)
    → Keeps stored (patch_status a vn stored r [])
unfolding patch_status remembered
patch_status-Keeps patched vn stored r = omega arith
patch_status-Keeps conflict vn stored r = omega arith
patch_status-Keeps (rejected e) vn stored r = omega arith

add_finalizer-Keeps : (w : Writes) (vn : VpsieNode) → Keeps vn (add_finalizer w vn)
unfolding add_finalizer store_object remembered
add_finalizer-Keeps w vn = ground arith

drop_finalizer-Keeps :
    (w : Writes) (vn stored : VpsieNode) (cs : List ApiCall)
    → w.update ≡ none
    → accepted cs + remembered stored ≤ remembered vn
    → Keeps stored (drop_finalizer w vn stored cs)
unfolding drop_finalizer store_object remembered
drop_finalizer-Keeps w vn stored cs up h = ground arith

clear_error-remembered :
    (now : ℕ) (vn : VpsieNode) → remembered (clear_error now vn) ≡ remembered vn
unfolding clear_error remembered
clear_error-remembered now vn = refl

pub reconcile_phase-Accounts :
    (ttl : ℕ) (env : Env) (vn : VpsieNode) → Accounts vn (reconcile_phase ttl env vn)
unfolding reconcile_phase
reconcile_phase-Accounts ttl env vn = ground (
  arith,
  handle-Accounts ttl env vn,
  handle-Accounts ttl env (clear_error env.now vn),
  clear_error-remembered env.now vn,
)

-- The handlers of the deletion phases create nothing: their calls leave no room.
after_deletion_patch-Keeps :
    (w : Writes) (o : Outcome) (vn stored : VpsieNode)
    → w.update ≡ none
    → accepted o.calls + remembered vn ≤ remembered o.node
    → remembered stored ≡ remembered vn
    → accepted o.calls ≡ 0
    → Keeps vn (after_deletion_patch w o stored)
unfolding after_deletion_patch
after_deletion_patch-Keeps w o vn stored up a same quiet =
    ground (arith, drop_finalizer-Keeps w o.node stored o.calls)

persist_deletion-Keeps :
    (w : Writes) (o : Outcome) (vn : VpsieNode)
    → w.update ≡ none
    → Accounts vn o
    → accepted o.calls ≡ 0
    → Keeps vn (persist_deletion w o vn)
unfolding persist_deletion remembered
persist_deletion-Keeps w o vn up a quiet = ground (
  arith,
  after_deletion_patch-Keeps w o vn vn up a,
  after_deletion_patch-Keeps w o vn (store_status (observe o.node) vn) up a,
)

reconcile_delete-Keeps :
    (ttl : ℕ) (env : Env) (w : Writes) (vn : VpsieNode)
    → w.update ≡ none
    → Keeps vn (reconcile_delete ttl env w vn)
unfolding reconcile_delete
reconcile_delete-Keeps ttl env w vn up = ground (
  arith,
  drop_finalizer-Keeps w vn vn [] up,
  persist_deletion-Keeps w (handle ttl env vn) vn up (handle-Accounts ttl env vn),
  handle_deletion-quiet ttl env vn,
  patch_status-Keeps w.patch (set_phase env.now terminating vn) vn at_once,
)

initialize_phase-Keeps : (w : Writes) (vn : VpsieNode) → Keeps vn (initialize_phase w vn)
unfolding initialize_phase
initialize_phase-Keeps w vn = patch_status-Keeps w.patch _ vn at_once

reconcile_object-Keeps :
    (ttl : ℕ) (env : Env) (w : Writes) (vn : VpsieNode)
    → w.update ≡ none
    → Keeps vn (reconcile_object ttl env w vn)
unfolding reconcile_object
reconcile_object-Keeps ttl env w vn up = ground (
  arith,
  reconcile_delete-Keeps ttl env w vn up,
  add_finalizer-Keeps w vn,
  initialize_phase-Keeps w vn,
  persist-Keeps w (reconcile_phase ttl env vn) vn up (reconcile_phase-Accounts ttl env vn),
)

pub reconcile-Keeps :
    (ttl : ℕ) (env : Env) (w : Writes) (s : Option VpsieNode)
    → w.update ≡ none
    → accepted (reconcile ttl env w s).calls + memory s ≤ memory (reconcile ttl env w s).stored
unfolding reconcile
reconcile-Keeps ttl env w none up = omega arith
reconcile-Keeps ttl env w (some vn) up = ground (arith, reconcile_object-Keeps ttl env w vn up)
