-- ===== src/Prelude/Texts.antt =====
-- Texts and dictionaries with text keys: Go's `string` and `map[string]V`.
use Prim.Native.String.{String}
use Prim.Native.Nat.{ℕ}
use Prim.Native.Char.{code}
use mathlib.Core.Path.{◌≡◌, refl}
use mathlib.Core.Bool.{Bool, true}
use mathlib.Core.Option.{Option, none, some}
use mathlib.Core.List.{List, [], ◌∷◌}
use native.Mathlib.Omega.{arith}
use text.Mathlib.Text.{◌==◌ as text_eq}
use text.Mathlib.TextEquality.{eq_iff}
use vpsie_k8s_autoscaler.Prelude.Tests.{if◌then◌else◌}

infix 50 ◌=ₛ◌
abbrev pub ◌=ₛ◌ : String → String → Bool
a =ₛ b = text_eq a b

pub text_eq_iff : (a b : String) → ((a =ₛ b) ≡ true → a ≡ b) × (a ≡ b → (a =ₛ b) ≡ true)
text_eq_iff a b = eq_iff a b

-- A Go string as the list of its bytes, where every character is an ASCII one.
abbrev pub codes : String → List ℕ
codes String.[] = []
codes (String.◌∷◌ letter rest) = code letter ∷ codes rest

-- `map[string]V`: the pairs of a dictionary, each key once.
module _ {ℓ} {V : Type ℓ} where
  -- `m[key] = new`
  unfoldable pub insert : (key : String) (new : V) → List (String × V) → List (String × V)
  insert key new [] = (key, new) ∷ []
  insert key new ((other, old) ∷ pairs) =
      if other =ₛ key then (key, new) ∷ pairs else (other, old) ∷ insert key new pairs

  -- `v, ok := m[key]`
  unfoldable pub lookup : (key : String) → List (String × V) → Option V
  lookup key [] = none
  lookup key ((other, old) ∷ pairs) = if other =ₛ key then some old else lookup key pairs

  pub lookup-insert :
      (key asked : String) (new : V) (pairs : List (String × V))
      → lookup asked (insert key new pairs)
        ≡ (if key =ₛ asked then some new else lookup asked pairs)
  unfolding insert lookup
  lookup-insert key asked new [] = refl
  lookup-insert key asked new ((other, old) ∷ pairs) = ground (
    arith,
    text_eq_iff other key,
    text_eq_iff other asked,
    text_eq_iff key asked,
    lookup-insert key asked new pairs,
  )
