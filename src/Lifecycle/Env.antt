-- ===== src/Lifecycle/Env.antt =====
-- What one reconciliation meets: the clock, the answers of the VPSie API (vpsie_interface.go) and of
-- the Kubernetes API. A call that can be repeated within one reconciliation answers by the attempt.
-- What a handler did is returned beside its result, as the list of its calls, in order.
use vpsie_k8s_autoscaler.Prelude.{ℕ, String, Bool, false, true, Option, none, some, List, [], ◌++◌}
use vpsie_k8s_autoscaler.Cluster.{Node}
use vpsie_k8s_autoscaler.Lifecycle.Errors.{Failure}
use vpsie_k8s_autoscaler.Lifecycle.Types.{VpsieNode}

pub data Reply (A : Type 0) : Type 0 where
  reply : A → Reply A
  refused : Failure → Reply A

pub record Vps : Type 0 where
  pub id : ℕ
  pub identifier : String
  pub hostname : String
  pub ip_address : String
  pub ipv6_address : String
  pub vps_status : String
  pub cpu : ℕ
  pub ram : ℕ
  pub disk : ℕ

-- The answer of `DiscoverVPSID`.
pub data Discovery : Type 0 where
  no_discoverer : Discovery
  discovery_failed : Failure → Discovery
  timed_out : Discovery
  discovered : Vps → Discovery
  nothing_found : Discovery

pub record Env : Type 0 where
  pub now : ℕ
  pub discovery : Discovery
  pub add_slave : String → ℕ → Reply Vps
  pub get_vm : ℕ → Reply Vps
  pub find_identifier : ℕ → String → String → Reply String
  pub delete_k8s_node : ℕ → String → String → Option Failure
  pub delete_vm : ℕ → ℕ → Option Failure
  pub cancelled : ℕ → Bool
  pub nodes : Reply (List Node)
  pub get_node : String → Reply Node
  pub update_node : Node → Option Failure
  pub drain_node : String → Option Failure
  pub delete_node : String → Option Failure
  pub delete_object : Option Failure

pub data ApiCall : Type 0 where
  added_slave : String → ℕ → Reply Vps → ApiCall
  removed_k8s_node : String → String → Option Failure → ApiCall
  removed_vm : ℕ → Option Failure → ApiCall
  labelled_node : Node → ApiCall
  drained_node : String → ApiCall
  removed_node : String → ApiCall
  removed_object : ApiCall

-- `ctrl.Result`.
pub record Requeue : Type 0 where
  pub requeue : Bool
  pub requeue_after : ℕ

abbrev pub no_requeue : Requeue
no_requeue = record { requeue = false; requeue_after = 0 }

abbrev pub at_once : Requeue
at_once = record { requeue = true; requeue_after = 0 }

abbrev pub after : ℕ → Requeue
after d = record { requeue = false; requeue_after = d }

pub record Outcome : Type 0 where
  pub node : VpsieNode
  pub result : Requeue
  pub error : Option Failure
  pub calls : List ApiCall

abbrev pub done : VpsieNode → Requeue → Outcome
done vn r = record { node = vn; result = r; error = none; calls = [] }

abbrev pub fails : VpsieNode → Requeue → Failure → Outcome
fails vn r e = record { node = vn; result = r; error = some e; calls = [] }

abbrev pub having_called : List ApiCall → Outcome → Outcome
having_called cs o = record o { calls = cs ++ o.calls }

abbrev pub default_requeue_after : ℕ
default_requeue_after = 30000000000

abbrev pub fast_requeue_after : ℕ
fast_requeue_after = 10000000000
