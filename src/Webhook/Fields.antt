-- ===== src/Webhook/Fields.antt =====
-- pkg/webhook: the checks that the two validators share, and the order of checks.
pub mod Accepted
use vpsie_k8s_autoscaler.Prelude.{
  ℕ, suc, String, ◌=ₛ◌, codes, Bool, true, false, not, ◌||◌, Option, none, some, List, [], ◌∷◌, any,
  if◌then◌else◌,
}
use vpsie_k8s_autoscaler.Webhook.{
  Refusal, missing, malformed, missing_item, malformed_item, duplicated_item, wrong_namespace,
}
use vpsie_k8s_autoscaler.Webhook.Regex.{Regex, matches}

-- The checks in their order, up to the first that refuses.
abbrev pub first_refusal : List (Option Refusal) → Option Refusal
first_refusal [] = none
first_refusal (none ∷ checks) = first_refusal checks
first_refusal (some r ∷ checks) = some r

unfoldable pub validate_namespace : String → Option Refusal
validate_namespace namespace = if namespace =ₛ "kube-system" then none else some wrong_namespace

-- A field that may be empty.
unfoldable pub validate_optional : Regex → (field value : String) → Option Refusal
unfolding matches
validate_optional r field value =
    if value =ₛ "" || matches r (codes value) then none else some (malformed field)

unfoldable pub validate_required : Regex → (field value : String) → Option Refusal
unfolding matches
validate_required r field value =
    if value =ₛ ""
    then some (missing field)
    else if matches r (codes value)
    then none
    else some (malformed field)

-- The first loop over a list of identifiers, from this index on.
unfoldable pub validate_items : Regex → (field : String) → ℕ → List String → Option Refusal
unfolding matches
validate_items r field index [] = none
validate_items r field index (value ∷ values) =
    let rest = validate_items r field (suc index) values in
    if value =ₛ ""
    then some (missing_item field index)
    else if matches r (codes value)
    then rest
    else some (malformed_item field index)

-- The second loop, with those that were seen.
unfoldable pub validate_distinct :
    (field : String) → ℕ → (seen : List String) → List String → Option Refusal
validate_distinct field index seen [] = none
validate_distinct field index seen (value ∷ values) =
    let rest = validate_distinct field (suc index) (value ∷ seen) values in
    if any (λ other. other =ₛ value) seen then some (duplicated_item field index) else rest

unfoldable pub validate_ids : Regex → (field : String) → List String → Option Refusal
unfolding validate_items validate_distinct
validate_ids r field values =
    first_refusal (validate_items r field 0 values ∷ validate_distinct field 0 [] values ∷ [])
