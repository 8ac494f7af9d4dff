-- ===== src/Webhook/Fields/Accepted.antt =====
-- What the shared checks accept.
use vpsie_k8s_autoscaler.Prelude.{
  ℕ, suc, ◌≡◌, ◌≢◌, ◌↔◌, ◌⊎◌, inl, inr, refl, sym, subst, ◌∙◌, String, ◌=ₛ◌, text_eq_iff, codes,
  Bool, true, false, Option, none, some, List, [], ◌∷◌, All, All-of, any, Bool-cases, if◌then◌else◌,
  arith,
}
use vpsie_k8s_autoscaler.Webhook.{Refusal}
use vpsie_k8s_autoscaler.Webhook.Regex.{Regex, nullable}
use vpsie_k8s_autoscaler.Webhook.Regex.Meaning.{Matches, matches_iff, nullable_iff}
use vpsie_k8s_autoscaler.Webhook.Fields.{
  first_refusal, validate_namespace, validate_optional, validate_required, validate_items,
  validate_distinct, validate_ids,
}

-- No two are the same.
abbrev pub Distinct : List String → Type 0
Distinct [] = Unit
Distinct (v ∷ vs) = All (λ o. v ≢ o) vs × Distinct vs

pub first_refusal_iff :
    (checks : List (Option Refusal)) → (first_refusal checks ≡ none) ↔ All (λ c. c ≡ none) checks
first_refusal_iff [] = (λ h. tt, λ h. refl)
first_refusal_iff (none ∷ checks) =
    let (fro, to) = first_refusal_iff checks in (λ h. (refl, fro h), λ h. to h.1)
first_refusal_iff (some r ∷ checks) = (λ h. cc, λ h. (let clash : some r ≡ none = h.0 in cc))

pub three_iff :
    {P Q R : Type 0} {a b c : Option Refusal}
    → (a ≡ none) ↔ P
    → (b ≡ none) ↔ Q
    → (c ≡ none) ↔ R
    → (first_refusal (a ∷ b ∷ c ∷ []) ≡ none) ↔ (P × Q × R)
three_iff {a = a} {b = b} {c = c} p q r =
    let all = first_refusal_iff (a ∷ b ∷ c ∷ []) in
    (
      λ h. let (x, (y, (z, done))) = all.0 h in (p.0 x, q.0 y, r.0 z),
      λ (x, y, z). all.1 (p.1 x, (q.1 y, (r.1 z, tt))),
    )

pub four_iff :
    {P Q R S : Type 0} {a b c d : Option Refusal}
    → (a ≡ none) ↔ P
    → (b ≡ none) ↔ Q
    → (c ≡ none) ↔ R
    → (d ≡ none) ↔ S
    → (first_refusal (a ∷ b ∷ c ∷ d ∷ []) ≡ none) ↔ (P × Q × R × S)
four_iff {a = a} {b = b} {c = c} {d = d} p q r s =
    let all = first_refusal_iff (a ∷ b ∷ c ∷ d ∷ []) in
    (
      λ h. let (x, (y, (z, (w, done)))) = all.0 h in (p.0 x, q.0 y, r.0 z, s.0 w),
      λ (x, y, z, w). all.1 (p.1 x, (q.1 y, (r.1 z, (s.1 w, tt)))),
    )

pub validate_namespace_iff :
    (namespace : String) → (validate_namespace namespace ≡ none) ↔ (namespace ≡ "kube-system")
unfolding validate_namespace
validate_namespace_iff namespace = ground (arith, text_eq_iff namespace "kube-system")

not_empty :
    (r : Regex) (value : String)
    → nullable r ≡ false
    → Matches r (codes value)
    → (value =ₛ "") ≡ false
not_empty r value h m = elim (Bool-cases (value =ₛ "")) [
  | inl e ↦
      let same : value ≡ "" = (text_eq_iff value "").0 e in
      let empties : nullable r ≡ true =
        (nullable_iff r).1 (subst (λ v. Matches r (codes v)) same m) in
      (let clash : true ≡ false = sym empties ∙ h in cc)
  | inr e ↦ e
]

pub validate_required_iff :
    (r : Regex) (field value : String)
    → nullable r ≡ false
    → (validate_required r field value ≡ none) ↔ Matches r (codes value)
unfolding validate_required
validate_required_iff r field value h = (
  λ e. (matches_iff r (codes value)).0 (ground arith),
  λ m. rw (not_empty r value h m, (matches_iff r (codes value)).1 m) refl,
)

pub validate_optional_iff :
    (r : Regex) (field value : String)
    → (validate_optional r field value ≡ none) ↔ ((value ≡ "") ⊎ Matches r (codes value))
unfolding validate_optional
validate_optional_iff r field value =
    ground (arith, text_eq_iff value "", matches_iff r (codes value))

validate_items_iff :
    (r : Regex) (field : String) (index : ℕ) (values : List String)
    → nullable r ≡ false
    → (validate_items r field index values ≡ none) ↔ All (λ v. Matches r (codes v)) values
unfolding validate_items
validate_items_iff r field index [] h = (λ e. tt, λ e. refl)
validate_items_iff r field index (value ∷ values) h =
    let (fro, to) = validate_items_iff r field (suc index) values h in
    (
      λ e. ((matches_iff r (codes value)).0 (ground arith), fro (ground arith)),
      λ m. rw (not_empty r value h m.0, (matches_iff r (codes value)).1 m.0) (to m.1),
    )

unseen_iff :
    (value : String) (seen : List String)
    → (any (λ other. other =ₛ value) seen ≡ false) ↔ All (λ o. o ≢ value) seen
unseen_iff value [] = (λ h. tt, λ h. refl)
unseen_iff value (other ∷ seen) = ground (arith, text_eq_iff other value, unseen_iff value seen)

All-both :
    (P Q : String → Type 0) (vs : List String) → All (λ v. P v × Q v) vs ↔ (All P vs × All Q vs)
All-both P Q [] = (λ h. (tt, tt), λ h. tt)
All-both P Q (v ∷ vs) =
    let (fro, to) = All-both P Q vs in
    (
      λ h. let (p, q) = fro h.1 in ((h.0.0, p), (h.0.1, q)),
      λ h. ((h.0.0, h.1.0), to (h.0.1, h.1.1)),
    )

validate_distinct_iff :
    (field : String) (index : ℕ) (seen values : List String)
    → (validate_distinct field index seen values ≡ none)
      ↔ (All (λ v. All (λ o. o ≢ v) seen) values × Distinct values)
unfolding validate_distinct
validate_distinct_iff field index seen [] = (λ h. (tt, tt), λ h. refl)
validate_distinct_iff field index seen (value ∷ values) =
    let (fro, to) = validate_distinct_iff field (suc index) (value ∷ seen) values in
    let (apart, together) = All-both (λ v. value ≢ v) (λ v. All (λ o. o ≢ v) seen) values in
    let here = unseen_iff value seen in
    (
      λ h.
          let (fresh, distinct) = fro (ground arith) in
          let (differ, unseen) = apart fresh in
          ((here.0 (ground arith), unseen), (differ, distinct)),
      λ h. let later = to (together (h.1.0, h.0.1), h.1.1) in rw (here.1 h.0.0) later,
    )

pub validate_ids_iff :
    (r : Regex) (field : String) (values : List String)
    → nullable r ≡ false
    → (validate_ids r field values ≡ none)
      ↔ (All (λ v. Matches r (codes v)) values × Distinct values)
unfolding validate_ids
validate_ids_iff r field values h =
    let items = validate_items_iff r field 0 values h in
    let distinct = validate_distinct_iff field 0 [] values in
    let (fro, to) =
      first_refusal_iff
        (validate_items r field 0 values ∷ validate_distinct field 0 [] values ∷ []) in
    (
      λ e. let (one, (two, done)) = fro e in (items.0 one, (distinct.0 two).1),
      λ (m, d). to (items.1 m, (distinct.1 (All-of _ (λ v. tt) values, d), tt)),
    )

pub checked_iff :
    {P : Type 0} (checked : Bool) (c : Option Refusal)
    → (c ≡ none) ↔ P
    → ((if checked then c else none) ≡ none) ↔ ((checked ≡ false) ⊎ P)
checked_iff true c p = (λ h. inr (p.0 h), λ h. elim h [ inl never ↦ cc | inr a ↦ p.1 a ])
checked_iff false c p = (λ h. inl refl, λ h. refl)
