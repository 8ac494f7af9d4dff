-- ===== src/Groups/ScaleUp/Repeated.antt =====
-- Passes over a group that come before the new objects have a phase.
use vpsie_k8s_autoscaler.Prelude.{
  append_assoc, All-append, ◌+◌, ◌≤◌, ◌≡◌, refl, sym, ◌∙◌, ap, true, Bool, some, List, [], ◌∷◌,
  ◌++◌, All, map, length, append_empty, length-append, if◌then◌else◌, arith,
}
use vpsie_k8s_autoscaler.Lifecycle.Types.{VpsieNode}
use vpsie_k8s_autoscaler.Groups.{calculate_desired_nodes}
use vpsie_k8s_autoscaler.Groups.ScaleUp.{
  Group, build_vpsie_node, Answers, update_node_group_status, with_counts, reconcile_group,
  listed_after, run_passes,
}
use vpsie_k8s_autoscaler.Groups.ScaleUp.Sequential.{Settled, Unlimited, reconcile_group-created}

-- Every object is created.
abbrev pub Accepting : Answers → Type 0
Accepting env = (env.owns ≡ true) × (env.creates ≡ true)

-- The group once a pass is over.
abbrev next : Bool → Group → List VpsieNode → Group
next saves g vns = if saves then with_counts g vns else g

with_counts-desired :
    (b : Bool) (g : Group) (vns later : List VpsieNode)
    → (with_counts (next b g vns) later).size.desired ≡ (with_counts g vns).size.desired
unfolding with_counts update_node_group_status calculate_desired_nodes
with_counts-desired b g vns later = ground arith

build_vpsie_node-next :
    (b : Bool) (g : Group) (vns : List VpsieNode)
    → build_vpsie_node (next b g vns) ≡ build_vpsie_node g
unfolding with_counts build_vpsie_node
build_vpsie_node-next true g vns = refl
build_vpsie_node-next Bool.false g vns = refl

new-Settled : (g : Group) (env : Answers) → Settled (build_vpsie_node g env.name ∷ [])
unfolding build_vpsie_node
new-Settled g env = (refl, tt)

new-Unlimited : (g : Group) (env : Answers) → Unlimited (build_vpsie_node g env.name ∷ [])
unfolding build_vpsie_node
new-Unlimited g env = (refl, tt)

-- A pass that creates an object, and the passes that follow it.
run_passes-created :
    (env : Answers) (envs : List Answers) (g : Group) (vns : List VpsieNode) (vn : VpsieNode)
    → (reconcile_group env g vns).1.created ≡ some vn
    → run_passes (env ∷ envs) g vns ≡ run_passes envs (next env.saves g vns) (vns ++ (vn ∷ []))
unfolding run_passes reconcile_group listed_after
run_passes-created env envs g vns vn h =
    ap (λ o. run_passes envs (next env.saves g vns) (listed_after o vns)) h

-- If a group has room for that many, no object failed for the capacity limit and none is on its way to
-- be ready, then passes that come one after the other, before the new objects are given a phase, create
-- one object each, and do not wait for the first of them to be ready.
pub run_passes_create_each :
    (envs : List Answers) (g : Group) (vns : List VpsieNode)
    → All Accepting envs
    → Settled vns
    → Unlimited vns
    → length vns + length envs ≤ (with_counts g vns).size.desired
    → run_passes envs g vns ≡ vns ++ map (λ env. build_vpsie_node g env.name) envs
unfolding run_passes
run_passes_create_each [] g vns accepting settled unlimited room = sym (append_empty vns)
run_passes_create_each (env ∷ envs) g vns accepting settled unlimited room =
    let vn = build_vpsie_node g env.name in
    let created =
      (reconcile_group-created env g vns vn).1
        (omega arith, unlimited, settled, accepting.0.0, accepting.0.1, refl) in
    let later = vns ++ (vn ∷ []) in
    let rest =
      run_passes_create_each envs (next env.saves g vns) later accepting.1
        (All-append _ vns (vn ∷ []) settled (new-Settled g env))
        (All-append _ vns (vn ∷ []) unlimited (new-Unlimited g env))
        (omega (arith, with_counts-desired env.saves g vns later, length-append vns (vn ∷ []))) in
    run_passes-created env envs g vns vn created
    ∙ rest
    ∙ ap (λ build. later ++ map (λ env. build env.name) envs)
        (build_vpsie_node-next env.saves g vns)
    ∙ append_assoc vns (vn ∷ []) (map (λ env. build_vpsie_node g env.name) envs)
