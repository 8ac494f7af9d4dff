-- ===== src/Events/Creator/Repeated.antt =====
-- A template with labels, and pods that select no nodes.
use vpsie_k8s_autoscaler.Prelude.{◌≡◌, []}
use vpsie_k8s_autoscaler.Events.Offers.{PendingPod}

abbrev pub IsUnselective : PendingPod → Type 0
IsUnselective p = p.node_selector ≡ []
