-- ===== src/Lifecycle/Errors.antt =====
-- Errors of the VPSie API and their classification: pkg/vpsie/client/errors.go.
-- An error is what the program asks of it: the status of the API error that it wraps, if any, and
-- its text, in bytes.
pub mod Search
use vpsie_k8s_autoscaler.Prelude.{
  ℕ, zero, ◌+◌, ◌≡◌, refl, String, codes, Bool, true, false, ◌&&◌, ◌||◌, Option, none, some, List,
  [], ◌∷◌, ◌++◌, map, any, leb, ◌==◌, if◌then◌else◌, arith,
}

pub record Failure : Type 0 where
  pub status : Option ℕ
  pub text : List ℕ

-- `fmt.Errorf("context: %w", err)`.
unfoldable pub wrap : String → Failure → Failure
wrap context e = record e { text = codes context ++ codes ": " ++ e.text }

-- `fmt.Errorf("text")`.
unfoldable pub failure : String → Failure
failure t = record { status = none; text = codes t }

-- `fmt.Errorf("text%s)", detail)`, for a text that ends in an open parenthesis.
unfoldable pub failure_about : String → String → Failure
failure_about t detail = record { status = none; text = codes t ++ codes detail ++ codes ")" }

unfoldable pub is_not_found : Failure → Bool
is_not_found e = elim e.status [ none ↦ false | some s ↦ s == 404 ]

-- `if c >= 'A' && c <= 'Z' { c += 'a' - 'A' }`
unfoldable pub lower : ℕ → ℕ
lower c = if leb b'A' c && leb c b'Z' then c + 32 else c

unfoldable pub to_lower : List ℕ → List ℕ
unfolding lower
to_lower = map lower

unfoldable pub is_prefix : List ℕ → List ℕ → Bool
is_prefix [] s = true
is_prefix (p ∷ ps) [] = false
is_prefix (p ∷ ps) (c ∷ s) = p == c && is_prefix ps s

-- The loop over the start positions that leave room for `substr`.
unfoldable pub contains : List ℕ → List ℕ → Bool
unfolding is_prefix
contains [] substr = is_prefix substr []
contains (c ∷ s) substr = is_prefix substr (c ∷ s) || contains s substr

unfoldable pub contains_ignore_case : List ℕ → List ℕ → Bool
unfolding contains to_lower
contains_ignore_case s substr = contains (to_lower s) (to_lower substr)

unfoldable pub terminal_patterns : List String
terminal_patterns =
    "exceeds the allowed limit" ∷ "quota exceeded" ∷ "plan does not allow" ∷ "maximum number of"
    ∷ "limit reached" ∷ "subscription does not allow" ∷ []

unfoldable pub is_terminal_error : Failure → Bool
is_terminal_error e = any (λ p. contains_ignore_case e.text (codes p)) terminal_patterns
