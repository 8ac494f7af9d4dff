-- ===== src/Webhook/Server/Allowed.antt =====
-- Which requests the server allows.
use vpsie_k8s_autoscaler.Prelude.{
  ◌≡◌, ◌≢◌, ◌↔◌, subst, sym, lookup-insert, ◌⊎◌, inl, inr, refl, String, ◌=ₛ◌, text_eq_iff, Bool,
  true, false, Option, none, some, if◌then◌else◌, arith,
}
use vpsie_k8s_autoscaler.Cluster.{StringMap, get, Node}
use vpsie_k8s_autoscaler.Lifecycle.Types as Lifecycle
use vpsie_k8s_autoscaler.Lifecycle.Joiner.{label_node, add_labels, required_labels}
use vpsie_k8s_autoscaler.Webhook.{Operation, create, update, delete, connect}
use vpsie_k8s_autoscaler.Webhook.Server.{
  Raw, absent, garbled, decoded, allowed, denied, validate_delete, validate_node_deletion,
  deletion_verdict,
}

validate_delete_iff :
    (labels : StringMap)
    → (validate_delete labels ≡ true) ↔ (get "autoscaler.vpsie.com/managed" labels ≡ some "true")
unfolding validate_delete
validate_delete_iff none = (λ h. cc, λ h. cc)
validate_delete_iff (some labels) = value_iff (get "autoscaler.vpsie.com/managed" (some labels))
  where
    value_iff :
        (o : Option String)
        → ((elim o [ none ↦ false | some value ↦ value =ₛ "true" ]) ≡ true) ↔ (o ≡ some "true")
    value_iff none = (λ h. cc, λ h. cc)
    value_iff (some value) = ground (arith, text_eq_iff value "true")

deletion_iff :
    (b : Bool) (labels : StringMap)
    → (b ≡ true) ↔ (get "autoscaler.vpsie.com/managed" labels ≡ some "true")
    → ((if b then allowed else denied 403) ≡ allowed) ↔ (
        (delete ≢ delete)
        ⊎ ((ls : StringMap) × (decoded labels ≡ decoded ls)
            × (get "autoscaler.vpsie.com/managed" ls ≡ some "true")))
deletion_iff true labels (fro, to) = (λ h. inr (labels, refl, fro refl), λ h. refl)
deletion_iff false labels (fro, to) = (
  λ h. cc,
  λ h. elim h [
    | inl other ↦ absurd (other refl)
    | inr (ls, e, l) ↦
        let same : labels ≡ ls = cc in
        (let clash : false ≡ true =
            to (subst (λ m. get "autoscaler.vpsie.com/managed" m ≡ some "true") (sym same) l) in
          cc)
  ],
)

-- The deletion of a node is allowed exactly if its object is decoded and has the label that the autoscaler
-- sets, with the value that it sets; each other operation on a node is allowed.
pub validate_node_deletion_iff :
    (op : Operation) (old : Raw StringMap)
    → (validate_node_deletion op old ≡ allowed) ↔ (
        (op ≢ delete)
        ⊎ ((labels : StringMap) × (old ≡ decoded labels)
            × (get "autoscaler.vpsie.com/managed" labels ≡ some "true")))
unfolding validate_node_deletion deletion_verdict
validate_node_deletion_iff create old = (λ h. inl (λ e. cc), λ h. refl)
validate_node_deletion_iff update old = (λ h. inl (λ e. cc), λ h. refl)
validate_node_deletion_iff connect old = (λ h. inl (λ e. cc), λ h. refl)
validate_node_deletion_iff delete absent =
    (λ h. cc, λ h. elim h [ inl other ↦ absurd (other refl) | inr (labels, e, l) ↦ cc ])
validate_node_deletion_iff delete garbled =
    (λ h. cc, λ h. elim h [ inl other ↦ absurd (other refl) | inr (labels, e, l) ↦ cc ])
validate_node_deletion_iff delete (decoded labels) =
    deletion_iff (validate_delete labels) labels (validate_delete_iff labels)

label_node-managed :
    (vn : Lifecycle.VpsieNode) (n : Node)
    → get "autoscaler.vpsie.com/managed" (label_node vn n).labels ≡ some "true"
unfolding label_node add_labels required_labels get
label_node-managed vn n =
    lookup-insert "autoscaler.vpsie.com/managed" "autoscaler.vpsie.com/managed" "true" _

-- A node that the joiner has labelled may be deleted.
pub label_node_deletable :
    (vn : Lifecycle.VpsieNode) (n : Node)
    → validate_node_deletion delete (decoded (label_node vn n).labels) ≡ allowed
label_node_deletable vn n =
    (validate_node_deletion_iff delete (decoded (label_node vn n).labels)).1
      (inr ((label_node vn n).labels, refl, label_node-managed vn n))
