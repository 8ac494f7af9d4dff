-- ===== src/Webhook/Regex.antt =====
-- What pkg/webhook uses of Go's regexp: a pattern that is anchored at both ends, on ASCII texts.
pub mod Meaning
use vpsie_k8s_autoscaler.Prelude.{
  ℕ, Bool, true, false, ◌&&◌, ◌||◌, List, [], ◌∷◌, any, leb, if◌then◌else◌,
}

-- A range holds its two ends.
pub data Regex : Type 0 where
  never empty : Regex
  one_of : List (ℕ × ℕ) → Regex
  seq alt : Regex → Regex → Regex
  many : Regex → Regex

abbrev pub within : ℕ → List (ℕ × ℕ) → Bool
within c ranges = any (λ r. leb r.0 c && leb c r.1) ranges

-- Whether the empty text matches.
unfoldable pub nullable : Regex → Bool
nullable never = false
nullable empty = true
nullable (one_of ranges) = false
nullable (seq r q) = nullable r && nullable q
nullable (alt r q) = nullable r || nullable q
nullable (many r) = true

-- What is left to match once this character was read.
unfoldable pub derivative : ℕ → Regex → Regex
unfolding nullable
derivative c never = never
derivative c empty = never
derivative c (one_of ranges) = if within c ranges then empty else never
derivative c (seq r q) =
    let started = seq (derivative c r) q in
    let skipped = derivative c q in if nullable r then alt started skipped else started
derivative c (alt r q) = alt (derivative c r) (derivative c q)
derivative c (many r) = seq (derivative c r) (many r)

unfoldable pub matches : Regex → List ℕ → Bool
unfolding nullable derivative
matches r [] = nullable r
matches r (c ∷ s) = matches (derivative c r) s
