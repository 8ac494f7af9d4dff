-- ===== src/Events/Creator/Matching.antt =====
-- Whether the group that is created for a pod matches it, and whether the webhook admits that group.
use vpsie_k8s_autoscaler.Prelude.{
  ◌≡◌, ◌↔◌, ◌⊎◌, inl, inr, refl, ◌∙◌, String, ◌=ₛ◌, insert, lookup, lookup-insert, text_eq_iff,
  Bool, true, false, ◌&&◌, ◌||◌, Option, none, some, List, [], ◌∷◌, ◌++◌, All, All-mono, any,
  Bool-cases,
}
use vpsie_k8s_autoscaler.Cluster.{Taint, Toleration}
use vpsie_k8s_autoscaler.Events.Offers.{PendingPod, Template}
use vpsie_k8s_autoscaler.Events.Creator.{
  taint_of, is_system_toleration, extract_required_taints, overlay, build_node_group_spec,
}
use vpsie_k8s_autoscaler.Events.Search.{
  selects, matches_labels, pod_tolerates_taints, pod_matches_node_group,
}

abbrev or_else : Option String → Option String → Option String
or_else (some v) o = some v
or_else none o = o

lookup-overlay :
    (key : String) (labels selector : List (String × String))
    → lookup key (overlay labels selector) ≡ or_else (lookup key selector) (lookup key labels)
unfolding overlay lookup
lookup-overlay key labels [] = refl
lookup-overlay key labels ((k, v) ∷ rest) =
    rw (lookup-insert k key v (overlay labels rest)) (elim (Bool-cases (k =ₛ key)) [
      | inl e ↦ rw e refl
      | inr e ↦ rw e (lookup-overlay key labels rest)
    ])

-- The list of a map: each entry is the one that its key has.
abbrev pub IsMap : List (String × String) → Type 0
IsMap entries = All (λ (key, value). lookup key entries ≡ some value) entries

selects-overlay :
    (labels whole entries : List (String × String))
    → All (λ (key, value). lookup key whole ≡ some value) entries
    → selects entries (overlay labels whole) ≡ true
unfolding selects
selects-overlay labels whole [] h = refl
selects-overlay labels whole ((key, value) ∷ rest) (found, h) =
    rw (lookup-overlay key labels whole, found, (text_eq_iff value value).1 refl)
      (selects-overlay labels whole rest h)

matches_labels-insert :
    (s : String × String) (ss ls : List (String × String)) (key value : String)
    → matches_labels (s ∷ ss) (insert key value ls) ≡ selects (s ∷ ss) (insert key value ls)
unfolding insert
matches_labels-insert s ss [] key value = refl
matches_labels-insert s ss ((k, v) ∷ ls) key value = elim (Bool-cases (k =ₛ key)) [
  | inl e ↦ rw e refl
  | inr e ↦ rw e refl
]

-- The labels of a group that is made for a pod match it exactly if they are not the template's alone.
matches_labels-overlay :
    (labels selector : List (String × String))
    → IsMap selector
    → (matches_labels selector (overlay labels selector) ≡ true) ↔ (selector ≡ [] → labels ≡ [])
unfolding overlay
matches_labels-overlay [] [] h = (λ e f. refl, λ f. refl)
matches_labels-overlay (l ∷ ls) [] h = (λ e f. cc, λ f. (let clash : l ∷ ls ≡ [] = f refl in cc))
matches_labels-overlay labels ((key, value) ∷ rest) h = (
  λ e f. cc,
  λ f.
      matches_labels-insert (key, value) rest (overlay labels rest) key value
      ∙ selects-overlay labels ((key, value) ∷ rest) ((key, value) ∷ rest) h,
)

-- A toleration that names its operator.
abbrev pub IsExplicit : Toleration → Type 0
IsExplicit t = (t.operator ≡ "Exists") ⊎ (t.operator ≡ "Equal")

-- A toleration with the operator Exists tolerates every taint with its key and effect, and one with Equal
-- those that have its value too.
abbrev pub IsDocumented : (Toleration → Taint → Bool) → Type 0
IsDocumented tolerates =
    ((t : Toleration) (value : String)
      → t.operator ≡ "Exists"
      → tolerates t (record { key = t.key; value = value; effect = t.effect }) ≡ true)
    × ((t : Toleration)
        → t.operator ≡ "Equal"
        → tolerates t (record { key = t.key; value = t.value; effect = t.effect }) ≡ true)

tolerates-taint_of :
    (tolerates : Toleration → Taint → Bool) (t : Toleration)
    → IsDocumented tolerates
    → IsExplicit t
    → tolerates t (taint_of t) ≡ true
tolerates-taint_of tolerates t law (inl e) = law.0 t (taint_of t).value e
tolerates-taint_of tolerates t law (inr e) = rw ((text_eq_iff t.operator "Equal").1 e) (law.1 t e)

module _ (tolerates : Toleration → Taint → Bool) where
  abbrev Own : List Toleration → Toleration → Type 0
  Own whole t = any (λ u. tolerates u (taint_of t)) whole ≡ true

  All-Own : (ts : List Toleration) → All (λ t. tolerates t (taint_of t) ≡ true) ts → All (Own ts) ts
  All-Own [] h = tt
  All-Own (t ∷ ts) (e, h) = (
    rw e refl,
    All-mono (Own ts) (Own (t ∷ ts)) ts
        (λ u f. elim (Bool-cases (tolerates t (taint_of u))) [ inl g ↦ rw g refl | inr g ↦ rw g f ])
        (All-Own ts h),
  )

  tolerates-extracted :
      (whole ts : List Toleration)
      → All (Own whole) ts
      → pod_tolerates_taints tolerates whole (extract_required_taints ts) ≡ true
  unfolding pod_tolerates_taints extract_required_taints
  tolerates-extracted whole [] h = refl
  tolerates-extracted whole (t ∷ ts) (e, h) =
      elim (Bool-cases (t.key =ₛ "" || is_system_toleration t.key)) [
        | inl f ↦ rw f (tolerates-extracted whole ts h)
        | inr f ↦ rw (f, e) (tolerates-extracted whole ts h)
      ]

  tolerates-append :
      (ts : List Toleration) (xs ys : List Taint)
      → pod_tolerates_taints tolerates ts (xs ++ ys)
        ≡ (pod_tolerates_taints tolerates ts xs && pod_tolerates_taints tolerates ts ys)
  unfolding pod_tolerates_taints
  tolerates-append ts [] ys = refl
  tolerates-append ts (x ∷ xs) ys = elim (Bool-cases (any (λ t. tolerates t x) ts)) [
    | inl e ↦ rw e (tolerates-append ts xs ys)
    | inr e ↦ rw e refl
  ]

both_iff :
    {Q : Type 0} (b c : Bool)
    → (b ≡ true → Q)
    → (Q → b ≡ true)
    → ((b && (c && true)) ≡ true) ↔ (Q × (c ≡ true))
both_iff true true fro to = (λ h. (fro refl, refl), λ h. refl)
both_iff true false fro to = (λ h. cc, λ h. h.1)
both_iff false c fro to = (λ h. cc, λ h. to h.0)

-- If tolerations work as documented and those of a pod name their operators, the group that is made for
-- the pod matches it exactly if the pod selects nodes or the template has no labels, and the pod tolerates
-- the taints of the template.
pub build_node_group_spec-matches_iff :
    (tolerates : Toleration → Taint → Bool) (t : Template) (name namespace : String)
    (p : PendingPod)
    → IsDocumented tolerates
    → IsMap p.node_selector
    → All IsExplicit p.tolerations
    → (pod_matches_node_group tolerates p (build_node_group_spec t name namespace p) ≡ true) ↔ (
        (p.node_selector ≡ [] → t.labels ≡ [])
        × (pod_tolerates_taints tolerates p.tolerations t.taints ≡ true))
unfolding pod_matches_node_group build_node_group_spec
build_node_group_spec-matches_iff tolerates t name namespace p law map explicit =
    let own =
      All-mono IsExplicit (λ u. tolerates u (taint_of u) ≡ true) p.tolerations
        (λ u. tolerates-taint_of tolerates u law) explicit in
    let extracted =
      tolerates-extracted tolerates p.tolerations p.tolerations
        (All-Own tolerates p.tolerations own) in
    let (fro, to) = matches_labels-overlay t.labels p.node_selector map in
    rw
      (
        tolerates-append tolerates p.tolerations t.taints (extract_required_taints p.tolerations),
        extracted,
      )
      (both_iff _ _ fro to)
