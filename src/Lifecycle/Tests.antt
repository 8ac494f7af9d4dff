-- ===== src/Lifecycle/Tests.antt =====
-- The life of a node run at concrete inputs: one object, and APIs that answer as written here.
use vpsie_k8s_autoscaler.Prelude.{◌≡◌, ◌≤◌, refl, codes, true, false, [], ◌∷◌, none, some, pos}
use vpsie_k8s_autoscaler.Cluster.{Node, get_text}
use vpsie_k8s_autoscaler.Lifecycle.Errors.{
  Failure, wrap, lower, to_lower, is_prefix, contains, contains_ignore_case, terminal_patterns,
  is_terminal_error,
}
use vpsie_k8s_autoscaler.Lifecycle.Types.{
  Phase, provisioning, failed, VpsieNode, get_condition, find_condition,
}
use vpsie_k8s_autoscaler.Lifecycle.Env.{Env, Vps, reply, refused, no_discoverer, added_slave}
use vpsie_k8s_autoscaler.Lifecycle.Provisioner.{
  provision, asks_creation, settle_slave, request_slave, create_vps,
}
use vpsie_k8s_autoscaler.Lifecycle.Phases.{handle, failed_at}
use vpsie_k8s_autoscaler.Lifecycle.Reconciler.{Writes, patched, finalizer_name, contains_string}
use vpsie_k8s_autoscaler.Lifecycle.Edges.{Moves, handle-Moves}
use vpsie_k8s_autoscaler.Lifecycle.Creation.Requests.{remembered}
use vpsie_k8s_autoscaler.Lifecycle.Creation.Runs.{pass, deletion_requested, run, run_creates_once}
use vpsie_k8s_autoscaler.Lifecycle.Creation.Forgotten.{IsCreating, IsWaiting, run_creates_twice}
use vpsie_k8s_autoscaler.Lifecycle.Deletion.Evidence.{Evidence}
use vpsie_k8s_autoscaler.Lifecycle.Deletion.Unnamed.{trace}
use vpsie_k8s_autoscaler.Lifecycle.Deletion.Leaks.{trace_leaks}
use vpsie_k8s_autoscaler.Lifecycle.Deletion.Progress.{IsWilling}

abbrev machine : Vps
machine = record {
  id = 7;
  identifier = "vm-7";
  hostname = "worker-1";
  ip_address = "10.0.0.7";
  ipv6_address = "";
  vps_status = "running";
  cpu = 2;
  ram = 4096;
  disk = 80;
}

abbrev env : Env
env = record {
  now = 1000;
  discovery = no_discoverer;
  add_slave = λ cluster group. reply machine;
  get_vm = λ i. reply machine;
  find_identifier = λ k cluster hostname. reply "vm-7";
  delete_k8s_node = λ k cluster identifier. none;
  delete_vm = λ k i. none;
  cancelled = λ k. false;
  nodes = reply [];
  get_node = λ name. refused (record { status = some 404; text = codes "not found" });
  update_node = λ n. none;
  drain_node = λ name. none;
  delete_node = λ name. none;
  delete_object = none;
}

abbrev willing : Writes
willing = record { fetch = none; update = none; patch = patched }

abbrev refusing : Writes
refusing = record {
  fetch = none;
  update = some (record { status = none; text = codes "conflict" });
  patch = patched;
}

abbrev waiting : VpsieNode
waiting = record {
  name = "node-1";
  annotations = none;
  finalizers = finalizer_name ∷ [];
  deletion_timestamp = none;
  creation_timestamp = 900;
  generation = 1;
  spec = record {
    vpsie_instance_id = 0;
    node_group_name = "workers";
    datacenter_id = "dc-1";
    resource_identifier = "cluster-1";
    node_name = "";
    ip_address = "";
    ipv6_address = "";
    vpsie_group_id = 5;
    vpsie_node_identifier = "";
  };
  status = record {
    phase = provisioning;
    node_name = "";
    vpsie_status = "";
    hostname = "worker-1";
    resources = record { cpu = 0; memory_mb = 0; disk_gb = 0 };
    created_at = some 950;
    provisioned_at = none;
    joined_at = none;
    ready_at = none;
    terminating_at = none;
    deleted_at = none;
    conditions = [];
    last_error = [];
    observed_generation = 0;
  };
}

abbrev in_phase : Phase → VpsieNode
in_phase p = record waiting {
  deletion_timestamp = some 990;
  status = record (waiting.status) { phase = p };
}

abbrev host : Node
host = record {
  name = "worker-1";
  labels = some (("team", "web") ∷ []);
  annotations = none;
  unschedulable = false;
  taints = [];
  conditions = [];
  addresses = [];
  capacity = record { cpu = pos 2000; memory = pos 4000 };
  allocatable = record { cpu = pos 2000; memory = pos 4000 };
}

waiting-IsWaiting : IsWaiting waiting
unfolding contains_string asks_creation get_text
waiting-IsWaiting = record {
  kept = refl;
  guarded = refl;
  in_phase = refl;
  unrequested = refl;
  unidentified = refl;
  grouped = refl;
}

creating : (w : Writes) → w.fetch ≡ none → IsCreating env w waiting
creating w r = record { read = r; in_time = refl; machine = machine; answered = refl }

handle-Moves_example : Moves provisioning (handle 0 env waiting).node.status.phase
handle-Moves_example = handle-Moves 0 env waiting

run_creates_once_example :
    ((run 0 (pass env willing ∷ deletion_requested 5 ∷ pass env willing ∷ []) (some waiting)).1 ≤ 1)
    × (remembered waiting ≡ 1
        → (run 0 (pass env willing ∷ deletion_requested 5 ∷ pass env willing ∷ []) (some waiting)).1
          ≡ 0)
run_creates_once_example =
    run_creates_once 0 (pass env willing ∷ deletion_requested 5 ∷ pass env willing ∷ []) waiting
      (refl, (tt, (refl, tt)))

run_creates_twice_example : (run 0 (pass env refusing ∷ pass env willing ∷ []) (some waiting)).1 ≡ 2
run_creates_twice_example =
    run_creates_twice 0 env env refusing willing (record { status = none; text = codes "conflict" })
      waiting waiting-IsWaiting (creating refusing refl) refl (creating willing refl)

willing-IsWilling : IsWilling willing
willing-IsWilling = record { read = refl; updated = refl; status_patched = refl }

-- The last update of the object that the quota error leaves.
abbrev over_quota : Env
over_quota = record env {
  add_slave =
      λ cluster group. refused (record { status = some 403; text = codes "Quota exceeded" });
}

abbrev quota_error : Failure
quota_error = record { status = some 403; text = codes "failed to create VPS: Quota exceeded" }

over_quota-fails : (provision over_quota waiting).error ≡ some quota_error
unfolding provision create_vps request_slave settle_slave asks_creation get_text wrap
over_quota-fails = refl

quota_error-IsTerminal : is_terminal_error quota_error ≡ true
unfolding is_terminal_error contains_ignore_case to_lower lower contains is_prefix terminal_patterns
quota_error-IsTerminal = refl

failed_since : failed_at (in_phase failed) ≡ 900
unfolding failed_at get_condition find_condition
failed_since = refl

abbrev nameless : VpsieNode
nameless = record waiting { status = record (waiting.status) { hostname = "" } }

-- The machine has a node identifier, and no instance identifier yet.
abbrev accepted_machine : Vps
accepted_machine = record machine { id = 0; hostname = "" }

abbrev accepting : Env
accepting = record env { add_slave = λ cluster group. reply accepted_machine }

nameless-IsWaiting : IsWaiting nameless
unfolding contains_string asks_creation get_text
nameless-IsWaiting = record {
  kept = refl;
  guarded = refl;
  in_phase = refl;
  unrequested = refl;
  unidentified = refl;
  grouped = refl;
}

trace_leaks_example :
    trace 0
      (pass accepting willing
        ∷ deletion_requested 5
        ∷ pass accepting willing
        ∷ pass accepting willing
        ∷ pass accepting willing
        ∷ [])
      (some nameless)
    ≡ (none, added_slave "cluster-1" 5 (reply accepted_machine) ∷ [])
trace_leaks_example =
    trace_leaks 0 accepting accepting accepting accepting willing willing willing willing
      accepted_machine 5 nameless nameless-IsWaiting
      (record { in_time = refl; nameless = refl; answered = refl })
      (record { no_instance = refl; no_name = refl; no_hostname = refl; no_node = refl }) refl refl
      willing-IsWilling willing-IsWilling willing-IsWilling willing-IsWilling
