-- ===== src/Lifecycle/Reconciler.antt =====
-- pkg/controller/vpsienode/controller.go, with the object that the API server stores. A write that
-- the server accepts changes the stored object; a refused one does not. The stored object does not
-- change between the read and the writes of one reconciliation: such a change shows as a conflict.
use vpsie_k8s_autoscaler.Prelude.{
  ℕ, String, ◌=ₛ◌, codes, Bool, true, false, not, ◌&&◌, ◌||◌, Option, none, some, List, [], ◌∷◌,
  ◌++◌, ◌==◌, is_some, if◌then◌else◌,
}
use vpsie_k8s_autoscaler.Lifecycle.Errors.{Failure}
use vpsie_k8s_autoscaler.Lifecycle.Types.{
  Phase, unset, pending, terminating, deleting, failed, VpsieNode, set_phase, clear_error,
}
use vpsie_k8s_autoscaler.Lifecycle.Env.{Env, ApiCall, Requeue, Outcome, no_requeue, at_once}
use vpsie_k8s_autoscaler.Lifecycle.Provisioner.{creation_requested}
use vpsie_k8s_autoscaler.Lifecycle.Phases.{handle}

pub data PatchAnswer : Type 0 where
  patched conflict : PatchAnswer
  rejected : Failure → PatchAnswer

-- The answers of the API server to `Get` (an error other than not found, which is the absent object),
-- `Update` and `Status().Patch`.
pub record Writes : Type 0 where
  pub fetch : Option Failure
  pub update : Option Failure
  pub patch : PatchAnswer

pub record Reconciled : Type 0 where
  pub stored : Option VpsieNode
  pub result : Requeue
  pub error : Option Failure
  pub calls : List ApiCall

abbrev pub finalizer_name : String
finalizer_name = "vpsienode.autoscaler.vpsie.com/finalizer"

unfoldable pub contains_string : List String → String → Bool
contains_string [] s = false
contains_string (x ∷ xs) s = x =ₛ s || contains_string xs s

unfoldable pub remove_string : List String → String → List String
remove_string [] s = []
remove_string (x ∷ xs) s = if x =ₛ s then remove_string xs s else x ∷ remove_string xs s

abbrev pub is_empty {ℓ} : {A : Type ℓ} → List A → Bool
is_empty [] = true
is_empty (x ∷ xs) = false

-- An accepted `Update` stores all but the status, and removes the object if it is being deleted and
-- has no finalizer left.
unfoldable pub store_object : VpsieNode → VpsieNode → Option VpsieNode
store_object vn stored =
    if is_some vn.deletion_timestamp && is_empty vn.finalizers
    then none
    else some (record vn { status = stored.status })

-- An accepted status patch stores the status.
abbrev pub store_status : VpsieNode → VpsieNode → VpsieNode
store_status vn stored = record stored { status = vn.status }

abbrev pub stop : Option VpsieNode → Requeue → Option Failure → List ApiCall → Reconciled
stop stored r e cs = record { stored = stored; result = r; error = e; calls = cs }

-- Two errors at once: the first is wrapped, the second printed.
unfoldable pub join_errors : String → Failure → Failure → Failure
join_errors context e f = record e {
  text = codes "reconcile error: " ++ e.text ++ codes context ++ f.text;
}

abbrev pub observe : VpsieNode → VpsieNode
observe vn = record vn { status = record (vn.status) { observed_generation = vn.generation } }

unfoldable pub add_finalizer : Writes → VpsieNode → Reconciled
add_finalizer w vn = elim w.update [
  | some e ↦ stop (some vn) no_requeue (some e) []
  | none ↦
      stop (store_object (record vn { finalizers = vn.finalizers ++ finalizer_name ∷ [] }) vn)
        at_once none []
]

-- `Status().Patch` where nothing has failed before.
unfoldable pub patch_status :
    PatchAnswer → VpsieNode → VpsieNode → Requeue → List ApiCall → Reconciled
patch_status patched vn stored r cs = stop (some (store_status vn stored)) r none cs
patch_status conflict vn stored r cs = stop (some stored) at_once none cs
patch_status (rejected e) vn stored r cs = stop (some stored) no_requeue (some e) cs

unfoldable pub initialize_phase : Writes → VpsieNode → Reconciled
initialize_phase w vn =
    patch_status w.patch (observe (record vn { status = record (vn.status) { phase = pending } }))
      vn at_once []

abbrev pub is_failed : Phase → Bool
is_failed failed = true
is_failed _ = false

-- The private `reconcile`: errors are cleared unless the node has failed, then its phase is handled.
unfoldable pub reconcile_phase : ℕ → Env → VpsieNode → Outcome
reconcile_phase ttl env vn =
    handle ttl env (if is_failed vn.status.phase then vn else clear_error env.now vn)

unfoldable pub object_changed : VpsieNode → VpsieNode → Bool
object_changed vn was =
    not (vn.spec.vpsie_instance_id == was.spec.vpsie_instance_id)
    || not (vn.spec.node_name =ₛ was.spec.node_name)
    || not (vn.spec.ip_address =ₛ was.spec.ip_address)
    || not (if creation_requested vn then creation_requested was else not (creation_requested was))

-- The status patch at the end of `Reconcile`, after the object was updated where it had changed.
unfoldable pub finish_status : Writes → Outcome → Option VpsieNode → Reconciled
finish_status w o none = stop none o.result o.error o.calls
finish_status w o (some stored) = elim w.patch [
  | patched ↦ stop (some (store_status (observe o.node) stored)) o.result o.error o.calls
  | conflict ↦ stop (some stored) at_once none o.calls
  | rejected f ↦ elim o.error [
    | none ↦ stop (some stored) no_requeue (some f) o.calls
    | some e ↦
        stop (some stored) o.result (some (join_errors ", status update error: " e f)) o.calls
  ]
]

unfoldable pub persist : Writes → Outcome → VpsieNode → Reconciled
persist w o stored =
    if object_changed o.node stored
    then elim w.update [
      | some f ↦ elim o.error [
        | none ↦ stop (some stored) no_requeue (some f) o.calls
        | some e ↦
            stop (some stored) o.result (some (join_errors ", object update error: " e f)) o.calls
      ]
      | none ↦ finish_status w o (store_object o.node stored)
    ]
    else finish_status w o (some stored)

unfoldable pub drop_finalizer : Writes → VpsieNode → VpsieNode → List ApiCall → Reconciled
drop_finalizer w vn stored cs = elim w.update [
  | some e ↦ stop (some stored) no_requeue (some e) cs
  | none ↦
      stop
        (store_object (record vn { finalizers = remove_string vn.finalizers finalizer_name })
          stored)
        no_requeue none cs
]

-- After the handler of a deletion phase and its status patch.
unfoldable pub after_deletion_patch : Writes → Outcome → VpsieNode → Reconciled
after_deletion_patch w o stored =
    if is_some o.node.status.deleted_at
    then drop_finalizer w o.node stored o.calls
    else stop (some stored) o.result o.error o.calls

unfoldable pub persist_deletion : Writes → Outcome → VpsieNode → Reconciled
persist_deletion w o stored = elim w.patch [
  | patched ↦ after_deletion_patch w o (store_status (observe o.node) stored)
  | conflict ↦ stop (some stored) at_once none o.calls
  | rejected f ↦ elim o.error [
    | none ↦ stop (some stored) no_requeue (some f) o.calls
    | some e ↦ after_deletion_patch w o stored
  ]
]

abbrev pub in_deletion : Phase → Bool
in_deletion terminating = true
in_deletion deleting = true
in_deletion _ = false

unfoldable pub reconcile_delete : ℕ → Env → Writes → VpsieNode → Reconciled
reconcile_delete ttl env w vn =
    if contains_string vn.finalizers finalizer_name
    then (if in_deletion vn.status.phase
        then (if is_some vn.status.deleted_at
            then drop_finalizer w vn vn []
            else persist_deletion w (handle ttl env vn) vn)
        else patch_status w.patch (set_phase env.now terminating vn) vn at_once [])
    else stop (some vn) no_requeue none []

abbrev pub is_unset : Phase → Bool
is_unset unset = true
is_unset _ = false

-- `Reconcile` once the object was read.
unfoldable pub reconcile_object : ℕ → Env → Writes → VpsieNode → Reconciled
reconcile_object ttl env w vn =
    if is_some vn.deletion_timestamp
    then reconcile_delete ttl env w vn
    else if not (contains_string vn.finalizers finalizer_name)
    then add_finalizer w vn
    else if is_unset vn.status.phase
    then initialize_phase w vn
    else persist w (reconcile_phase ttl env vn) vn

unfoldable pub reconcile : ℕ → Env → Writes → Option VpsieNode → Reconciled
reconcile ttl env w none = stop none no_requeue none []
reconcile ttl env w (some vn) = elim w.fetch [
  | some e ↦ stop (some vn) no_requeue (some e) []
  | none ↦ reconcile_object ttl env w vn
]
