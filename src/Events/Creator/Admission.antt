-- ===== src/Events/Creator/Admission.antt =====
-- What the webhook of pkg/webhook asks of a pod that a group is created for.
use vpsie_k8s_autoscaler.Prelude.{◌≡◌, ◌⊎◌, Bool, true, none}
use vpsie_k8s_autoscaler.Cluster.{Toleration}
use vpsie_k8s_autoscaler.Webhook.{create}
use vpsie_k8s_autoscaler.Webhook.Groups
use vpsie_k8s_autoscaler.Webhook.Groups.Accepted.{Accepted, TaintAccepted}
use vpsie_k8s_autoscaler.Events.Creator.{DynamicGroup, taint_of, is_system_toleration}

-- No taint is made of it, or one that the webhook admits.
abbrev pub IsAdmissible : Toleration → Type 0
IsAdmissible t = ((t.key ≡ "") ⊎ (is_system_toleration t.key ≡ true)) ⊎ TaintAccepted (taint_of t)

-- The API server asks the webhook before it accepts a group.
abbrev pub AsksWebhook : (DynamicGroup → Bool) → Type 0
AsksWebhook accepts = (g : DynamicGroup) → accepts g ≡ true → Groups.validate g.object create ≡ none
