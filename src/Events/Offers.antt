-- ===== src/Events/Offers.antt =====
-- pkg/events/creator.go: the size of the nodes that are made for a pod, from the offers of the VPSie API.
pub mod Sizes
use vpsie_k8s_autoscaler.Prelude.{
  ℕ, ℤ, pos, ◌+◌, ◌*◌, ◌/◌, String, ◌=ₛ◌, insert, lookup, Bool, true, false, not, ◌&&◌, ◌||◌,
  Option, none, some, List, [], ◌∷◌, ◌++◌, any, all, leb, ltb, ◌==◌, if◌then◌else◌,
}
use vpsie_k8s_autoscaler.Cluster.{Taint, Toleration}
use vpsie_k8s_autoscaler.Webhook.{NodeGroup, Policy}

-- Milli-CPU and bytes; a request that is missing is zero.
pub record Request : Type 0 where
  pub cpu : ℕ
  pub memory : ℕ

pub record PendingPod : Type 0 where
  pub node_selector : List (String × String)
  pub tolerations : List Toleration
  pub requests : List Request
  pub init_requests : List Request

-- The price is a multiple of the smallest positive float, so that its order is exact.
pub record K8sOffer : Type 0 where
  pub id : ℕ
  pub cpu : ℕ
  pub ram : ℕ
  pub price : ℕ

pub record Template : Type 0 where
  pub namespace : String
  pub min_nodes : ℤ
  pub max_nodes : ℤ
  pub default_offering_ids : List String
  pub default_datacenter_id : String
  pub resource_identifier : String
  pub os_image_id : String
  pub kubernetes_version : String
  pub kube_size_id : ℕ
  pub labels : List (String × String)
  pub taints : List Taint
  pub ssh_key_ids : List String
  pub scale_up_policy : Option Policy
  pub scale_down_policy : Option Policy

abbrev pub smallest : ℕ → ℕ → ℕ
smallest default x = if x == 0 then default else x

abbrev pub larger_of : ℕ → List ℕ → ℕ
larger_of x [] = x
larger_of x (y ∷ ys) = larger_of (if ltb x y then y else x) ys

abbrev pub sum_from : ℕ → List ℕ → ℕ
sum_from x [] = x
sum_from x (y ∷ ys) = sum_from (x + y) ys

abbrev pub cpus : List Request → List ℕ
cpus [] = []
cpus (r ∷ rs) = r.cpu ∷ cpus rs

abbrev pub memories : List Request → List ℕ
memories [] = []
memories (r ∷ rs) = r.memory ∷ memories rs

unfoldable pub calculate_pod_resources : PendingPod → Request
calculate_pod_resources p = record {
  cpu = smallest 500 (larger_of (sum_from 0 (cpus p.requests)) (cpus p.init_requests));
  memory =
      smallest 268435456 (larger_of (sum_from 0 (memories p.requests)) (memories p.init_requests));
}

-- Insertion before the first that costs more, which keeps the order of equal prices; the library's sort
-- keeps it for at most twelve offers.
unfoldable pub insert_by_price : K8sOffer → List K8sOffer → List K8sOffer
insert_by_price o [] = o ∷ []
insert_by_price o (p ∷ ps) = if ltb p.price o.price then p ∷ insert_by_price o ps else o ∷ p ∷ ps

unfoldable pub sort_by_price : List K8sOffer → List K8sOffer
unfolding insert_by_price
sort_by_price [] = []
sort_by_price (o ∷ os) = insert_by_price o (sort_by_price os)

abbrev pub is_used : List ℕ → K8sOffer → Bool
is_used used o = any (λ id. id == o.id) used

abbrev pub fits : Request → K8sOffer → Bool
fits r o = leb r.cpu (o.cpu * 1000) && leb (r.memory / 1048576) o.ram

abbrev pub first_with : (K8sOffer → Bool) → List K8sOffer → Option ℕ
first_with p [] = none
first_with p (o ∷ os) = if p o then some o.id else first_with p os

pub data Selection : Type 0 where
  selected : ℕ → Selection
  no_client offers_failed no_offers all_in_use : Selection

unfoldable pub select_sorted : (used : List ℕ) → Request → (sorted : List K8sOffer) → Selection
select_sorted used r sorted = elim (first_with (λ o. not (is_used used o) && fits r o) sorted) [
  | some id ↦ selected id
  | none ↦ elim (first_with (λ o. not (is_used used o)) sorted) [
    | some id ↦ selected id
    | none ↦ all_in_use
  ]
]

-- The answers of the VPSie API, where there is a client: the offers, and the sizes of the node groups.
pub record Api : Type 0 where
  pub offers : Option (List K8sOffer)
  pub sizes : Option (List ℕ)

abbrev pub static_size : Template → Selection → Selection
static_size t refusal = if ltb 0 t.kube_size_id then selected t.kube_size_id else refusal

abbrev pub used_sizes : Template → Option (List ℕ) → List ℕ
used_sizes t none = []
used_sizes t (some ids) = if t.resource_identifier =ₛ "" then [] else ids

unfoldable pub select_offered :
    Template → PendingPod → (sizes : Option (List ℕ)) → Option (List K8sOffer) → Selection
unfolding select_sorted calculate_pod_resources sort_by_price
select_offered t p sizes none = static_size t offers_failed
select_offered t p sizes (some []) = no_offers
select_offered t p sizes (some (o ∷ os)) =
    select_sorted (used_sizes t sizes) (calculate_pod_resources p) (sort_by_price (o ∷ os))

unfoldable pub select_optimal_kube_size_id : Template → PendingPod → Option Api → Selection
unfolding select_offered
select_optimal_kube_size_id t p none = static_size t no_client
select_optimal_kube_size_id t p (some api) = select_offered t p api.sizes api.offers
