-- ===== src/Lifecycle/Discoverer/Tests.antt =====
-- Discovery at concrete lists.
use vpsie_k8s_autoscaler.Prelude.{◌≡◌, refl, pos, true, false, none, some, [], ◌∷◌}
use vpsie_k8s_autoscaler.Lifecycle.Errors.{is_prefix}
use vpsie_k8s_autoscaler.Lifecycle.Types.{VpsieNode, provisioning}
use vpsie_k8s_autoscaler.Lifecycle.Env.{reply}
use vpsie_k8s_autoscaler.Lifecycle.Discoverer.{
  Listing, Machine, JoinedNode, matches_hostname_pattern,
}

abbrev waiting : VpsieNode
waiting = record {
  name = "node-1";
  annotations = none;
  finalizers = [];
  deletion_timestamp = none;
  creation_timestamp = 900;
  generation = 1;
  spec = record {
    vpsie_instance_id = 0;
    node_group_name = "workers";
    datacenter_id = "dc-1";
    resource_identifier = "cluster-1";
    node_name = "";
    ip_address = "";
    ipv6_address = "";
    vpsie_group_id = 5;
    vpsie_node_identifier = "";
  };
  status = record {
    phase = provisioning;
    node_name = "";
    vpsie_status = "";
    hostname = "";
    resources = record { cpu = 0; memory_mb = 0; disk_gb = 0 };
    created_at = some 950;
    provisioned_at = none;
    joined_at = none;
    ready_at = none;
    terminating_at = none;
    deleted_at = none;
    conditions = [];
    last_error = [];
    observed_generation = 0;
  };
}

abbrev machine : Machine
machine = record {
  vps = record {
    id = 7;
    identifier = "vm-7";
    hostname = "k8s-worker-7";
    ip_address = "10.0.0.7";
    ipv6_address = "";
    vps_status = "running";
    cpu = 2;
    ram = 4096;
    disk = 80;
  };
  created_at = 970;
}

abbrev joined : JoinedNode
joined = record {
  node = record {
    name = "k8s-worker-7";
    labels = none;
    annotations = none;
    unschedulable = false;
    taints = [];
    conditions = [];
    addresses = record { address_type = "InternalIP"; address = "10.0.0.7" } ∷ [];
    capacity = record { cpu = pos 4000; memory = pos 8000 };
    allocatable = record { cpu = pos 4000; memory = pos 8000 };
  };
  created_at = 980;
}

-- Another object was given the node in between, so that the patch is refused.
abbrev listing : Listing
listing = record {
  now = 1000;
  machines = reply (machine ∷ []);
  nodes = reply (joined ∷ []);
  claims = λ n. false;
}

other_object : matches_hostname_pattern "workers-a" "workers-ab-k8s" ≡ true
unfolding matches_hostname_pattern is_prefix
other_object = refl
