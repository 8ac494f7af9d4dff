-- ===== src/Lifecycle/Creation/Forgotten.antt =====
-- A creation that is accepted while the update of the object is refused.
use vpsie_k8s_autoscaler.Prelude.{ℕ, ◌≡◌, ap, ◌∙◌, true, false, none, some, [], ◌∷◌, ◌==◌, arith}
use vpsie_k8s_autoscaler.Lifecycle.Errors.{Failure}
use vpsie_k8s_autoscaler.Lifecycle.Types.{VpsieNode, provisioning, clear_error}
use vpsie_k8s_autoscaler.Lifecycle.Env.{Env, Outcome, Reply, reply, Vps}
use vpsie_k8s_autoscaler.Lifecycle.Phases.{handle}
use vpsie_k8s_autoscaler.Lifecycle.Reconciler.{
  Writes, store_object, object_changed, persist, reconcile_phase, reconcile_object, reconcile,
  finalizer_name, contains_string,
}
use vpsie_k8s_autoscaler.Lifecycle.Creation.Requests.{accepted, remembered}
use vpsie_k8s_autoscaler.Lifecycle.Provisioner.{
  asks_creation, settle_slave, request_slave, create_vps, provision,
}
use vpsie_k8s_autoscaler.Lifecycle.Phases.{
  overdue, provisioning_timeout, classify_provision, handle_provisioning, dispatch,
}
use vpsie_k8s_autoscaler.Lifecycle.Creation.Passes.{
  finish_status-memory, object_unchanged-remembered, reconcile_phase-Accounts,
}
use vpsie_k8s_autoscaler.Lifecycle.Creation.Runs.{pass, run}

-- A pass over the object that reads it, asks for a machine and is answered.
pub record IsCreating (env : Env) (w : Writes) (vn : VpsieNode) : Type 0 where
  pub read : w.fetch ≡ none
  pub in_time : overdue env.now provisioning_timeout vn.status.created_at ≡ false
  pub machine : Vps
  pub answered : env.add_slave vn.spec.resource_identifier vn.spec.vpsie_group_id ≡ reply machine

-- An object that waits for its machine and has not asked for one.
pub record IsWaiting (vn : VpsieNode) : Type 0 where
  pub kept : vn.deletion_timestamp ≡ none
  pub guarded : contains_string vn.finalizers finalizer_name ≡ true
  pub in_phase : vn.status.phase ≡ provisioning
  pub unrequested : asks_creation vn.annotations ≡ false
  pub unidentified : vn.spec.vpsie_instance_id ≡ 0
  pub grouped : (vn.spec.vpsie_group_id == 0) ≡ false

settle_slave-calls :
    (now : ℕ) (vn : VpsieNode) (answer : Reply Vps) → (settle_slave now vn answer).calls ≡ []
unfolding settle_slave
settle_slave-calls now vn answer = ground arith

provision-creates :
    (env : Env) (w : Writes) (vn : VpsieNode)
    → IsWaiting vn
    → IsCreating env w vn
    → accepted (provision env vn).calls ≡ 1
unfolding provision create_vps request_slave
provision-creates env w vn i c = ground (
  arith,
  settle_slave-calls env.now vn (env.add_slave vn.spec.resource_identifier vn.spec.vpsie_group_id),
)

classify_provision-calls : (now : ℕ) (o : Outcome) → (classify_provision now o).calls ≡ o.calls
unfolding classify_provision
classify_provision-calls now o = ground arith

dispatch-creates :
    (ttl : ℕ) (env : Env) (w : Writes) (vn : VpsieNode)
    → IsWaiting vn
    → IsCreating env w vn
    → accepted (dispatch provisioning ttl env vn).calls ≡ 1
unfolding dispatch handle_provisioning
dispatch-creates ttl env w vn i c =
    ground
      (arith, provision-creates env w vn i c, classify_provision-calls env.now (provision env vn))

handle-creates :
    (ttl : ℕ) (env : Env) (w : Writes) (vn : VpsieNode)
    → IsWaiting vn
    → IsCreating env w vn
    → accepted (handle ttl env vn).calls ≡ 1
unfolding handle
handle-creates ttl env w vn i c =
    ap (λ p. accepted (dispatch p ttl env vn).calls) i.in_phase ∙ dispatch-creates ttl env w vn i c

-- Clearing the error changes nothing that creation reads.
pub clear_error-IsWaiting :
    (now : ℕ) (vn : VpsieNode) → IsWaiting vn → IsWaiting (clear_error now vn)
unfolding clear_error
clear_error-IsWaiting now vn i = record {
  kept = i.kept;
  guarded = i.guarded;
  in_phase = i.in_phase;
  unrequested = i.unrequested;
  unidentified = i.unidentified;
  grouped = i.grouped;
}

pub clear_error-IsCreating :
    (env : Env) (w : Writes) (vn : VpsieNode)
    → IsCreating env w vn
    → IsCreating env w (clear_error env.now vn)
unfolding clear_error
clear_error-IsCreating env w vn c = record {
  read = c.read;
  in_time = c.in_time;
  machine = c.machine;
  answered = c.answered;
}

reconcile_phase-creates :
    (ttl : ℕ) (env : Env) (w : Writes) (vn : VpsieNode)
    → IsWaiting vn
    → IsCreating env w vn
    → accepted (reconcile_phase ttl env vn).calls ≡ 1
unfolding reconcile_phase
reconcile_phase-creates ttl env w vn i c = ground (
  arith,
  handle-creates ttl env w (clear_error env.now vn) (clear_error-IsWaiting env.now vn i)
      (clear_error-IsCreating env w vn c),
)

pub waiting-remembered : (vn : VpsieNode) → IsWaiting vn → remembered vn ≡ 0
unfolding remembered
waiting-remembered vn i = ground arith

persist-calls : (w : Writes) (o : Outcome) (vn : VpsieNode) → (persist w o vn).calls ≡ o.calls
unfolding persist
persist-calls w o vn =
    ground
      (arith, finish_status-memory w o (some vn), finish_status-memory w o (store_object o.node vn))

persist_refused :
    (w : Writes) (f : Failure) (o : Outcome) (vn : VpsieNode)
    → w.update ≡ some f
    → object_changed o.node vn ≡ true
    → (persist w o vn).stored ≡ some vn
unfolding persist
persist_refused w f o vn up ch = ground arith

reconcile-creates :
    (ttl : ℕ) (env : Env) (w : Writes) (vn : VpsieNode)
    → IsWaiting vn
    → IsCreating env w vn
    → accepted (reconcile ttl env w (some vn)).calls ≡ 1
unfolding reconcile reconcile_object
reconcile-creates ttl env w vn i c = ground (
  arith,
  reconcile_phase-creates ttl env w vn i c,
  persist-calls w (reconcile_phase ttl env vn) vn,
)

reconcile-forgets :
    (ttl : ℕ) (env : Env) (w : Writes) (f : Failure) (vn : VpsieNode)
    → IsWaiting vn
    → IsCreating env w vn
    → w.update ≡ some f
    → (reconcile ttl env w (some vn)).stored ≡ some vn
unfolding reconcile reconcile_object
reconcile-forgets ttl env w f vn i c up = ground (
  arith,
  reconcile_phase-creates ttl env w vn i c,
  reconcile_phase-Accounts ttl env vn,
  waiting-remembered vn i,
  object_unchanged-remembered (reconcile_phase ttl env vn).node vn,
  persist_refused w f (reconcile_phase ttl env vn) vn up,
)

-- If the update of the object is refused after its machine was created, the creation is forgotten
-- altogether, and the next pass that is answered creates a second machine.
pub run_creates_twice :
    (ttl : ℕ) (env env' : Env) (w w' : Writes) (f : Failure) (vn : VpsieNode)
    → IsWaiting vn
    → IsCreating env w vn
    → w.update ≡ some f
    → IsCreating env' w' vn
    → (run ttl (pass env w ∷ pass env' w' ∷ []) (some vn)).1 ≡ 2
unfolding run
run_creates_twice ttl env env' w w' f vn i c up c' =
    rw (reconcile-forgets ttl env w f vn i c up)
      (omega (arith, reconcile-creates ttl env w vn i c, reconcile-creates ttl env' w' vn i c'))
