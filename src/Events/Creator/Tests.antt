-- ===== src/Events/Creator/Tests.antt =====
-- Groups created for pods at concrete inputs. The tolerations work as the Kubernetes API documents it.
use vpsie_k8s_autoscaler.Prelude.{
  ℕ, ◌≡◌, ◌↔◌, inr, refl, pos, String, ◌=ₛ◌, text_eq_iff, lookup, Bool, true, false, ◌&&◌, ◌||◌,
  none, some, List, [], ◌∷◌, arith, is_some, not,
}
use vpsie_k8s_autoscaler.Cluster.{Taint, Toleration}
use vpsie_k8s_autoscaler.Webhook.{create}
use vpsie_k8s_autoscaler.Webhook.Groups
use vpsie_k8s_autoscaler.Webhook.Groups.Accepted.{Accepted}
use vpsie_k8s_autoscaler.Events.Offers.{
  PendingPod, K8sOffer, Template, selected, Api, calculate_pod_resources, sort_by_price,
  insert_by_price, select_sorted, select_optimal_kube_size_id, select_offered,
}
use vpsie_k8s_autoscaler.Events.Creator.{
  DynamicGroup, create_refused, extract_required_taints, is_system_toleration, overlay,
  build_node_group_spec, create_node_group_for_pod, create_sized, validate_template,
}
use vpsie_k8s_autoscaler.Events.Search.{pod_tolerates_taints, pod_matches_node_group}
use vpsie_k8s_autoscaler.Events.Creator.Matching.{IsDocumented, build_node_group_spec-matches_iff}

-- An operator that is not Exists reads as Equal.
abbrev tolerates : Toleration → Taint → Bool
tolerates t taint =
    (t.effect =ₛ "" || t.effect =ₛ taint.effect)
    && (t.key =ₛ "" || t.key =ₛ taint.key)
    && (t.operator =ₛ "Exists" || t.value =ₛ taint.value)

tolerates-IsDocumented : IsDocumented tolerates
tolerates-IsDocumented = (
  λ t value e.
      rw
        (
          (text_eq_iff t.operator "Exists").1 e,
          (text_eq_iff t.effect t.effect).1 refl,
          (text_eq_iff t.key t.key).1 refl,
        )
        (ground arith),
  λ t e.
      rw
        (
          (text_eq_iff t.value t.value).1 refl,
          (text_eq_iff t.effect t.effect).1 refl,
          (text_eq_iff t.key t.key).1 refl,
        )
        (ground arith),
)

abbrev gpu : (operator effect : String) → Toleration
gpu operator effect = record { key = "gpu"; operator = operator; value = "a100"; effect = effect }

abbrev pod : Toleration → List (String × String) → PendingPod
pod t selector = record {
  node_selector = selector;
  tolerations = t ∷ [];
  requests = record { cpu = 1500; memory = 1073741825 } ∷ record { cpu = 500; memory = 0 } ∷ [];
  init_requests = record { cpu = 2500; memory = 0 } ∷ [];
}

abbrev offer : (id cpu ram price : ℕ) → K8sOffer
offer id cpu ram price = record { id = id; cpu = cpu; ram = ram; price = price }

abbrev offers : List K8sOffer
offers = offer 3 8 16384 80 ∷ offer 2 4 4096 40 ∷ offer 1 1 1024 10 ∷ []

abbrev template : List (String × String) → Template
template labels = record {
  namespace = "default";
  min_nodes = pos 1;
  max_nodes = pos 10;
  default_offering_ids = "s" ∷ [];
  default_datacenter_id = "d-1";
  resource_identifier = "cluster-1";
  os_image_id = "";
  kubernetes_version = "v1.28.0";
  kube_size_id = 0;
  labels = labels;
  taints = [];
  ssh_key_ids = [];
  scale_up_policy = none;
  scale_down_policy = none;
}

abbrev zones : List (String × String)
zones = ("zone", "a") ∷ []

abbrev teams : List (String × String)
teams = ("team", "x") ∷ []

abbrev api : Api
api = record { offers = some offers; sizes = some [] }

-- The init container needs more of the processor than the containers together.
needs :
    calculate_pod_resources (pod (gpu "Equal" "NoSchedule") [])
    ≡ record { cpu = 2500; memory = 1073741825 }
unfolding calculate_pod_resources
needs = refl

cheapest_that_fits :
    select_optimal_kube_size_id (template []) (pod (gpu "Equal" "NoSchedule") []) (some api)
    ≡ selected 2
unfolding select_optimal_kube_size_id select_offered select_sorted calculate_pod_resources
    sort_by_price insert_by_price
cheapest_that_fits = refl

-- The two sizes that would fit are in use.
too_small :
    select_optimal_kube_size_id
      (template [])
      (pod (gpu "Equal" "NoSchedule") [])
      (some (record { offers = some offers; sizes = some (2 ∷ 3 ∷ []) }))
    ≡ selected 1
unfolding select_optimal_kube_size_id select_offered select_sorted calculate_pod_resources
    sort_by_price insert_by_price
too_small = refl

-- One byte more than the offer has.
too_much_memory :
    select_sorted [] (record { cpu = 1; memory = 1073741825 }) (offer 1 1 1024 10 ∷ []) ≡ selected 1
unfolding select_sorted
too_much_memory = refl

build_node_group_spec-matches_iff_example :
    (pod_matches_node_group tolerates (pod (gpu "Equal" "NoSchedule") zones) (
        build_node_group_spec
          (template teams)
          "auto-d-1-7"
          "kube-system"
          (pod (gpu "Equal" "NoSchedule") zones))
      ≡ true)
    ↔ ((zones ≡ [] → teams ≡ [])
        × (pod_tolerates_taints tolerates (gpu "Equal" "NoSchedule" ∷ []) [] ≡ true))
unfolding lookup
build_node_group_spec-matches_iff_example =
    build_node_group_spec-matches_iff tolerates (template teams) "auto-d-1-7" "kube-system"
      (pod (gpu "Equal" "NoSchedule") zones) tolerates-IsDocumented (refl, tt) (inr refl, tt)

-- Without an operator, which means Equal, the taint loses its value.
loses_value :
    pod_matches_node_group tolerates (pod (gpu "" "NoSchedule") []) (
      build_node_group_spec (template []) "auto-d-1-7" "kube-system" (pod (gpu "" "NoSchedule") []))
    ≡ false
unfolding pod_matches_node_group pod_tolerates_taints build_node_group_spec overlay
    extract_required_taints is_system_toleration
loses_value = refl

abbrev asks : DynamicGroup → Bool
asks g = not (is_some (Groups.validate g.object create))

abbrev made : DynamicGroup
made = record {
  object =
      build_node_group_spec (template []) "auto-d-1-7" "kube-system"
        (pod (gpu "Equal" "NoSchedule") []);
  managed = true;
  resource_identifier = "cluster-1";
  kube_size_id = 2;
}

-- A toleration of every effect becomes a taint without one.
refused_without_effect :
    create_node_group_for_pod asks
      (template [])
      "auto-d-1-7"
      "kube-system"
      (some api)
      (pod (gpu "Exists" "") [])
    ≡ create_refused
unfolding create_node_group_for_pod create_sized validate_template select_optimal_kube_size_id
    select_offered select_sorted calculate_pod_resources sort_by_price insert_by_price
    Groups.validate build_node_group_spec
refused_without_effect = refl

abbrev labelled : DynamicGroup
labelled = record made {
  object =
      build_node_group_spec (template teams) "auto-d-1-7" "kube-system"
        (pod (gpu "Equal" "NoSchedule") []);
}
