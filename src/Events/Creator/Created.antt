-- ===== src/Events/Creator/Created.antt =====
-- What a group is that was created.
use vpsie_k8s_autoscaler.Prelude.{
  ◌≡◌, inl, inr, refl, subst, String, ◌=ₛ◌, Bool, true, Option, Bool-cases, if◌then◌else◌,
}
use vpsie_k8s_autoscaler.Events.Offers.{
  PendingPod, Template, Api, Selection, selected, no_client, offers_failed, no_offers, all_in_use,
  select_optimal_kube_size_id,
}
use vpsie_k8s_autoscaler.Events.Creator.{
  DynamicGroup, Creation, created, build_node_group_spec, validate_template, create_sized,
  create_node_group_for_pod,
}

-- Built for the pod, accepted and managed.
abbrev pub IsBuilt :
    (DynamicGroup → Bool) → Template → (name : String) → PendingPod → DynamicGroup → Type 0
IsBuilt accepts t name p g =
    ((namespace : String) × (g.object ≡ build_node_group_spec t name namespace p))
    × (accepts g ≡ true)
    × (g.managed ≡ true)

module _ (accepts : DynamicGroup → Bool) (t : Template) (name namespace : String)
    (p : PendingPod) where
  abbrev EachBuilt : Creation → Type 0
  EachBuilt c = (g : DynamicGroup) → c ≡ created g → IsBuilt accepts t name p g

  create_sized-IsBuilt : (s : Selection) → EachBuilt (create_sized accepts t name namespace p s)
  unfolding create_sized
  create_sized-IsBuilt (selected size) =
      let space = if namespace =ₛ "" then t.namespace else namespace in
      let group : DynamicGroup = record {
        object = build_node_group_spec t name space p;
        managed = true;
        resource_identifier = t.resource_identifier;
        kube_size_id = size;
      } in
      elim (Bool-cases (accepts group)) [
        | inl a ↦ rw a (λ g e.
            (let same : group ≡ g = cc in
              subst (IsBuilt accepts t name p) same ((space, refl), a, refl)))
        | inr a ↦ rw a (λ g e. cc)
      ]
  create_sized-IsBuilt no_client = λ g e. cc
  create_sized-IsBuilt offers_failed = λ g e. cc
  create_sized-IsBuilt no_offers = λ g e. cc
  create_sized-IsBuilt all_in_use = λ g e. cc

  pub create_node_group_for_pod-IsBuilt :
      (api : Option Api) → EachBuilt (create_node_group_for_pod accepts t name namespace api p)
  unfolding create_node_group_for_pod
  create_node_group_for_pod-IsBuilt api = elim (Bool-cases (validate_template t)) [
    | inl e ↦ rw e (create_sized-IsBuilt (select_optimal_kube_size_id t p api))
    | inr e ↦ rw e (λ g f. cc)
  ]
