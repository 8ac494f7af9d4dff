-- ===== src/Groups/ScaleUp/Bounds.antt =====
-- How many objects a group can come to have, in any order of what the controllers do.
use vpsie_k8s_autoscaler.Prelude.{
  ℕ, ◌≤◌, ◌≡◌, refl, List, [], ◌∷◌, ◌++◌, length, length-append, Option-cases, inl, inr, ap, ◌∙◌,
  arith,
}
use vpsie_k8s_autoscaler.Lifecycle.Types.{VpsieNode}
use vpsie_k8s_autoscaler.Groups.ScaleUp.{
  Group, Answers, update_node_group_status, with_counts, reconcile_group, listed_after,
}
use vpsie_k8s_autoscaler.Groups.ScaleUp.Sequential.{
  reconcile_group-created, calculate_desired_nodes-le,
}

pub record World : Type 0 where
  pub group : Group
  pub objects : List VpsieNode

-- A pass over the group; another controller's write of the status of the objects or of the desired
-- count; the end of an object.
pub data Step (w : World) : World → Type 0 where
  passes :
      (env : Answers)
      → Step w record {
        group = (reconcile_group env w.group w.objects).0;
        objects = listed_after (reconcile_group env w.group w.objects).1.created w.objects;
      }
  rewrites :
      (vns : List VpsieNode) → length vns ≡ length w.objects → Step w (record w { objects = vns })
  desires :
      (n : ℕ)
      → Step w
          (record w { group = record (w.group) { size = record (w.group.size) { desired = n } } })
  ends :
      (before after : List VpsieNode) (vn : VpsieNode)
      → w.objects ≡ before ++ (vn ∷ after)
      → Step w (record w { objects = before ++ after })

pub data Reach (w : World) : World → Type 0 where
  here : Reach w w
  next : {u v : World} → Reach w u → Step u v → Reach w v

with_counts-bounded :
    (g : Group) (vns : List VpsieNode) → (with_counts g vns).size.desired ≤ g.size.max_nodes
unfolding with_counts update_node_group_status
with_counts-bounded g vns = calculate_desired_nodes-le (update_node_group_status g.size vns)

reconcile_group-max_nodes :
    (env : Answers) (g : Group) (vns : List VpsieNode)
    → (reconcile_group env g vns).0.size.max_nodes ≡ g.size.max_nodes
unfolding reconcile_group with_counts update_node_group_status
reconcile_group-max_nodes env g vns = ground arith

listed_after-bounded :
    (env : Answers) (g : Group) (vns : List VpsieNode)
    → length vns ≤ g.size.max_nodes
    → length (listed_after (reconcile_group env g vns).1.created vns) ≤ g.size.max_nodes
unfolding listed_after
listed_after-bounded env g vns h = elim (Option-cases (reconcile_group env g vns).1.created) [
  | inl e ↦ rw e h
  | inr (vn, e) ↦ rw e (
      omega (
        arith,
        length-append vns (vn ∷ []),
        ((reconcile_group-created env g vns vn).0 e).0,
        with_counts-bounded g vns,
      ))
]

abbrev Bounded : World → Type 0
Bounded w = length w.objects ≤ w.group.size.max_nodes

Step-Bounded :
    {w u : World}
    → Step w u
    → Bounded w
    → (u.group.size.max_nodes ≡ w.group.size.max_nodes) × Bounded u
Step-Bounded {w} (passes env) h = (
  reconcile_group-max_nodes env w.group w.objects,
  rw (reconcile_group-max_nodes env w.group w.objects)
      (listed_after-bounded env w.group w.objects h),
)
Step-Bounded (rewrites vns same) h = (refl, omega arith)
Step-Bounded (desires n) h = (refl, h)
Step-Bounded (ends before after vn e) h = (
  refl,
  omega (arith, length-append before after, length-append before (vn ∷ after), ap length e),
)

-- From any number of objects within the maximum of a group, no order of passes, of writes by the other
-- controllers and of removals leads above the maximum, however the API server answers.
pub Reach-bounded :
    {w u : World}
    → Reach w u
    → length w.objects ≤ w.group.size.max_nodes
    → (u.group.size.max_nodes ≡ w.group.size.max_nodes)
      × (length u.objects ≤ u.group.size.max_nodes)
Reach-bounded here h = (refl, h)
Reach-bounded (next reached step) h =
    let (same, bounded) = Reach-bounded reached h in
    let (still, ok) = Step-Bounded step bounded in (still ∙ same, ok)
