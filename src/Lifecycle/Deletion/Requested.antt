-- ===== src/Lifecycle/Deletion/Requested.antt =====
-- pkg/controller/vpsienode: a pass that asks for a machine and is answered without an identifier.
use vpsie_k8s_autoscaler.Prelude.{
  ℕ, ◌≡◌, refl, ap, ◌∙◌, true, false, none, some, [], ◌∷◌, inl, inr, Bool-cases, arith,
}
use vpsie_k8s_autoscaler.Lifecycle.Types.{provisioning, VpsieNode, clear_error}
use vpsie_k8s_autoscaler.Lifecycle.Env.{Env, Vps, reply, Outcome, added_slave}
use vpsie_k8s_autoscaler.Lifecycle.Provisioner.{
  mark_requested, settle_slave, request_slave, create_vps, provision,
}
use vpsie_k8s_autoscaler.Lifecycle.Phases.{
  overdue, provisioning_timeout, classify_provision, handle_provisioning, dispatch, handle,
}
use vpsie_k8s_autoscaler.Lifecycle.Reconciler.{
  Writes, patched, store_object, store_status, observe, object_changed, finish_status, persist,
  reconcile_phase, reconcile_object, reconcile,
}
use vpsie_k8s_autoscaler.Lifecycle.Creation.Forgotten.{
  IsWaiting, clear_error-IsWaiting, waiting-remembered,
}
use vpsie_k8s_autoscaler.Lifecycle.Creation.Passes.{object_unchanged-remembered}
use vpsie_k8s_autoscaler.Lifecycle.Creation.Requests.{remembered-mark_requested}
use vpsie_k8s_autoscaler.Lifecycle.Deletion.Progress.{IsWilling, handle_at}

-- The request comes in time, and is accepted with no identifier for the machine yet.
pub record IsAnswered (env : Env) (machine : Vps) (vn : VpsieNode) : Type 0 where
  pub in_time : overdue env.now provisioning_timeout vn.status.created_at ≡ false
  pub nameless : machine.id ≡ 0
  pub answered : env.add_slave vn.spec.resource_identifier vn.spec.vpsie_group_id ≡ reply machine

clear_error-IsAnswered :
    (env : Env) (machine : Vps) (vn : VpsieNode)
    → IsAnswered env machine vn
    → IsAnswered env machine (clear_error env.now vn)
unfolding clear_error
clear_error-IsAnswered env machine vn c = record {
  in_time = c.in_time;
  nameless = c.nameless;
  answered = c.answered;
}

-- An outcome of the request: the object is marked, nothing failed, and nothing else was called.
record IsRequest (env : Env) (machine : Vps) (vn : VpsieNode) (o : Outcome) : Type 0 where
  marked : o.node ≡ mark_requested env.now machine vn
  unfailing : o.error ≡ none
  asked :
      o.calls ≡ added_slave vn.spec.resource_identifier vn.spec.vpsie_group_id (reply machine) ∷ []

request_slave-requested :
    (env : Env) (machine : Vps) (vn : VpsieNode)
    → machine.id ≡ 0
    → env.add_slave vn.spec.resource_identifier vn.spec.vpsie_group_id ≡ reply machine
    → IsRequest env machine vn (request_slave env vn)
unfolding request_slave settle_slave
request_slave-requested env machine vn z a =
    rw a (rw z (record { marked = refl; unfailing = refl; asked = refl }))

provision-requested :
    (env : Env) (machine : Vps) (vn : VpsieNode)
    → IsWaiting vn
    → IsAnswered env machine vn
    → IsRequest env machine vn (provision env vn)
unfolding provision create_vps
provision-requested env machine vn i c =
    let r = request_slave-requested env machine vn c.nameless c.answered in
    ground (arith, r.marked, r.unfailing, r.asked)

handle_provisioning-requested :
    (env : Env) (machine : Vps) (vn : VpsieNode)
    → IsWaiting vn
    → IsAnswered env machine vn
    → IsRequest env machine vn (handle_provisioning env vn)
unfolding handle_provisioning classify_provision
handle_provisioning-requested env machine vn i c =
    let r = provision-requested env machine vn i c in
    ground (arith, r.marked, r.unfailing, r.asked, c.in_time)

handle-requested :
    (ttl : ℕ) (env : Env) (machine : Vps) (vn : VpsieNode)
    → IsWaiting vn
    → IsAnswered env machine vn
    → IsRequest env machine vn (handle ttl env vn)
unfolding dispatch
handle-requested ttl env machine vn i c =
    rw (handle_at provisioning ttl env vn i.in_phase)
      (handle_provisioning-requested env machine vn i c)

reconcile_phase-requested :
    (ttl : ℕ) (env : Env) (machine : Vps) (vn : VpsieNode)
    → IsWaiting vn
    → IsAnswered env machine vn
    → IsRequest env machine (clear_error env.now vn) (reconcile_phase ttl env vn)
unfolding reconcile_phase
reconcile_phase-requested ttl env machine vn i c = ground (
  arith,
  i.in_phase,
  handle-requested ttl env machine (clear_error env.now vn) (clear_error-IsWaiting env.now vn i)
      (clear_error-IsAnswered env machine vn c),
)

store_object-unmarked :
    (vn stored : VpsieNode)
    → vn.deletion_timestamp ≡ none
    → store_object vn stored ≡ some (record vn { status = stored.status })
unfolding store_object
store_object-unmarked vn stored h = rw h refl

finish_status-stored :
    (w : Writes) (o : Outcome) (vn : VpsieNode)
    → w.patch ≡ patched
    → ((finish_status w o (some vn)).stored ≡ some (store_status (observe o.node) vn))
      × ((finish_status w o (some vn)).calls ≡ o.calls)
unfolding finish_status
finish_status-stored w o vn h = rw h (refl, refl)

persist-changed :
    (w : Writes) (o : Outcome) (vn : VpsieNode)
    → IsWilling w
    → o.node.deletion_timestamp ≡ none
    → object_changed o.node vn ≡ true
    → ((persist w o vn).stored ≡ some (observe o.node)) × ((persist w o vn).calls ≡ o.calls)
unfolding persist
persist-changed w o vn a d ch = rw ch (
    rw (a.updated) (
      rw (store_object-unmarked o.node vn d)
        (finish_status-stored w o (record (o.node) { status = vn.status }) a.status_patched)))

requested_changes :
    (now n : ℕ) (machine : Vps) (vn : VpsieNode)
    → IsWaiting vn
    → object_changed (mark_requested now machine (clear_error n vn)) vn ≡ true
requested_changes now n machine vn i =
    elim (Bool-cases (object_changed (mark_requested now machine (clear_error n vn)) vn)) [
      | inl changed ↦ changed
      | inr same ↦ absurd (
          ground (
            arith,
            object_unchanged-remembered (mark_requested now machine (clear_error n vn)) vn same,
            remembered-mark_requested now machine (clear_error n vn),
            waiting-remembered vn i,
          ))
    ]

persist-requested :
    (w : Writes) (o : Outcome) (env : Env) (machine : Vps) (vn : VpsieNode)
    → IsWilling w
    → IsWaiting vn
    → IsRequest env machine (clear_error env.now vn) o
    → ((persist w o vn).stored
        ≡ some (observe (mark_requested env.now machine (clear_error env.now vn))))
      × ((persist w o vn).calls ≡ o.calls)
unfolding mark_requested clear_error
persist-requested w o env machine vn a i r =
    let (stored, calls) =
      persist-changed w o vn a (rw (r.marked) (i.kept))
        (rw (r.marked) (requested_changes env.now env.now machine vn i)) in
    (stored ∙ ap (λ n. some (observe n)) r.marked, calls)

reconcile_waiting :
    (ttl : ℕ) (env : Env) (w : Writes) (vn : VpsieNode)
    → w.fetch ≡ none
    → IsWaiting vn
    → reconcile ttl env w (some vn) ≡ persist w (reconcile_phase ttl env vn) vn
unfolding reconcile reconcile_object
reconcile_waiting ttl env w vn f i = ground (arith)

pub pass_requested :
    (ttl : ℕ) (env : Env) (w : Writes) (machine : Vps) (vn : VpsieNode)
    → IsWaiting vn
    → IsAnswered env machine vn
    → IsWilling w
    → ((reconcile ttl env w (some vn)).stored
        ≡ some (observe (mark_requested env.now machine (clear_error env.now vn))))
      × ((reconcile ttl env w (some vn)).calls
          ≡ added_slave vn.spec.resource_identifier vn.spec.vpsie_group_id (reply machine) ∷ [])
unfolding clear_error
pass_requested ttl env w machine vn i c a =
    let r = reconcile_phase-requested ttl env machine vn i c in
    let (stored, calls) = persist-requested w (reconcile_phase ttl env vn) env machine vn a i r in
    rw (reconcile_waiting ttl env w vn a.read i) (stored, calls ∙ r.asked)
