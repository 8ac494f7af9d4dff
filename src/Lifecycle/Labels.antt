-- ===== src/Lifecycle/Labels.antt =====
-- pkg/controller/vpsienode/joiner.go: the labels that a joined node gets.
use vpsie_k8s_autoscaler.Prelude.{
  ◌≡◌, refl, ◌∙◌, String, ◌=ₛ◌, lookup, lookup-insert, text_eq_iff, Bool, true, false, Option, none,
  some, List, [], ◌∷◌, all, if◌then◌else◌, arith,
}
use vpsie_k8s_autoscaler.Cluster.{StringMap, Node, get, get_text}
use vpsie_k8s_autoscaler.Lifecycle.Types.{VpsieNode}
use vpsie_k8s_autoscaler.Lifecycle.Env.{Env}
use vpsie_k8s_autoscaler.Lifecycle.Joiner.{
  required_labels, has_label, add_labels, label_node, apply_node_configuration,
}

-- What a label of the configured node reads, from a list of labels that overrides the old ones.
abbrev overridden : List (String × String) → Option String → String → Option String
overridden [] old key = old
overridden ((k, v) ∷ ls) old key = if k =ₛ key then some v else overridden ls old key

get-add_labels :
    (ls : List (String × String)) (m : StringMap) (key : String)
    → get key (some (add_labels ls m)) ≡ overridden ls (get key m) key
unfolding get lookup add_labels
get-add_labels [] none key = refl
get-add_labels [] (some m) key = refl
get-add_labels ((k, v) ∷ ls) m key =
    rw (lookup-insert k key v (add_labels ls m)) (rw (get-add_labels ls m key) refl)

has_label_after :
    (vn : VpsieNode) (n : Node) (key value : String)
    → overridden (required_labels vn) (get key n.labels) key ≡ some value
    → has_label (label_node vn n) (key, value) ≡ true
unfolding has_label label_node get_text
has_label_after vn n key value e =
    ground (arith, get-add_labels (required_labels vn) n.labels key, text_eq_iff value value)

label_node_complete :
    (vn : VpsieNode) (n : Node) → all (has_label (label_node vn n)) (required_labels vn) ≡ true
unfolding required_labels
label_node_complete vn n = ground (
  arith,
  has_label_after vn n "autoscaler.vpsie.com/managed" "true" refl,
  has_label_after vn n "autoscaler.vpsie.com/nodegroup" vn.spec.node_group_name refl,
  has_label_after vn n "autoscaler.vpsie.com/vpsienode" vn.name refl,
  has_label_after vn n "autoscaler.vpsie.com/datacenter" vn.spec.datacenter_id refl,
)

abbrev pub is_required : List (String × String) → String → Bool
is_required [] key = false
is_required ((k, v) ∷ ls) key = if k =ₛ key then true else is_required ls key

overridden-other :
    (ls : List (String × String)) (old : Option String) (key : String)
    → is_required ls key ≡ false
    → overridden ls old key ≡ old
overridden-other [] old key h = refl
overridden-other ((k, v) ∷ ls) old key h = ground (arith, overridden-other ls old key)

-- Applying the configuration settles it: the labelled node asks for no further update, every label
-- that is not one of the required four reads as before, and nothing else of the node is changed.
pub apply_node_configuration-settles :
    (env : Env) (vn : VpsieNode) (n : Node)
    → (apply_node_configuration env vn (label_node vn n) ≡ ([], none))
      × ((key : String)
          → is_required (required_labels vn) key ≡ false
          → get key (label_node vn n).labels ≡ get key n.labels)
      × (record (label_node vn n) { labels = n.labels } ≡ n)
unfolding apply_node_configuration label_node
apply_node_configuration-settles env vn n = (
  rw (label_node_complete vn n) refl,
  λ key other.
      get-add_labels (required_labels vn) n.labels key
      ∙ overridden-other (required_labels vn) (get key n.labels) key other,
  refl,
)
