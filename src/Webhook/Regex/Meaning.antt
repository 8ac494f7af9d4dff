-- ===== src/Webhook/Regex/Meaning.antt =====
-- The language of a pattern, and that matching decides it.
use vpsie_k8s_autoscaler.Prelude.{
  ℕ, ◌≡◌, ◌↔◌, ◌⊎◌, inl, inr, refl, sym, ap, subst, ◌∙◌, true, false, List, [], ◌∷◌, ◌++◌, All,
  Bool-cases, arith,
}
use vpsie_k8s_autoscaler.Webhook.Regex.{
  Regex, never, empty, one_of, seq, alt, many, within, nullable, derivative, matches,
}

abbrev pub concat : List (List ℕ) → List ℕ
concat [] = []
concat (part ∷ parts) = part ++ concat parts

abbrev pub Matches : Regex → List ℕ → Type 0
Matches never s = ⊥
Matches empty s = s ≡ []
Matches (one_of ranges) s = (c : ℕ) × (s ≡ c ∷ []) × (within c ranges ≡ true)
Matches (seq r q) s = (a : List ℕ) × (b : List ℕ) × (s ≡ a ++ b) × Matches r a × Matches q b
Matches (alt r q) s = Matches r s ⊎ Matches q s
Matches (many r) s = (parts : List (List ℕ)) × (s ≡ concat parts) × All (Matches r) parts

empty-append : (a b : List ℕ) → [] ≡ a ++ b → (a ≡ []) × (b ≡ [])
empty-append [] b h = (refl, sym h)
empty-append (c ∷ a) b h = cc

pub nullable_iff : (r : Regex) → (nullable r ≡ true) ↔ Matches r []
unfolding nullable
nullable_iff never = (λ h. cc, λ h. absurd h)
nullable_iff empty = (λ h. refl, λ h. refl)
nullable_iff (one_of ranges) = (λ h. cc, λ (c, e, w). cc)
nullable_iff (seq r q) = (
  λ h. ([], [], refl, (nullable_iff r).0 (ground arith), (nullable_iff q).0 (ground arith)),
  λ (a, b, e, m, n).
      let (ea, eb) = empty-append a b e in
      rw ((nullable_iff r).1 (subst (Matches r) ea m), (nullable_iff q).1 (subst (Matches q) eb n))
        refl,
)
nullable_iff (alt r q) = ground (arith, nullable_iff r, nullable_iff q)
nullable_iff (many r) = (λ h. ([], refl, tt), λ h. refl)

-- A match of a concatenation that starts with this character.
seq_after :
    (r q : Regex) (c : ℕ) (s : List ℕ)
    → Matches (seq r q) (c ∷ s)
    → ((nullable r ≡ true) × Matches q (c ∷ s))
      ⊎ ((a : List ℕ) × (b : List ℕ) × (s ≡ a ++ b) × Matches r (c ∷ a) × Matches q b)
seq_after r q c s ([], b, e, m, n) = inl ((nullable_iff r).1 m, subst (Matches q) (sym e) n)
seq_after r q c s (d ∷ a, b, e, m, n) =
    let head : d ≡ c = cc in
    let tail : s ≡ a ++ b = cc in inr (a, b, tail, subst (λ x. Matches r (x ∷ a)) head m, n)

-- The first part of a repetition that is not empty starts with this character.
many_after :
    (r : Regex) (c : ℕ) (s : List ℕ) (parts : List (List ℕ))
    → c ∷ s ≡ concat parts
    → All (Matches r) parts
    → (a : List ℕ) × (b : List ℕ) × (s ≡ a ++ b) × Matches r (c ∷ a) × Matches (many r) b
many_after r c s [] e h = cc
many_after r c s ([] ∷ parts) e h = many_after r c s parts e h.1
many_after r c s ((d ∷ a) ∷ parts) e h =
    let head : d ≡ c = cc in
    let tail : s ≡ a ++ concat parts = cc in
    (a, concat parts, tail, subst (λ x. Matches r (x ∷ a)) head h.0, (parts, refl, h.1))

derivative_iff : (r : Regex) (c : ℕ) (s : List ℕ) → Matches (derivative c r) s ↔ Matches r (c ∷ s)
unfolding derivative
derivative_iff never c s = (λ h. absurd h, λ h. absurd h)
derivative_iff empty c s = (λ h. absurd h, λ h. cc)
derivative_iff (one_of ranges) c s = elim (Bool-cases (within c ranges)) [
  | inl inside ↦ rw inside (λ e. (c, ap (◌∷◌ c) e, inside), λ (d, e, w). cc)
  | inr outside ↦ rw outside (
    λ h. absurd h,
    λ (d, e, w).
        let head : d ≡ c = cc in
        let inside : within c ranges ≡ true = subst (λ x. within x ranges ≡ true) head w in
        (let clash : true ≡ false = sym inside ∙ outside in cc),
  )
]
derivative_iff (seq r q) c s =
    let started : Matches (seq (derivative c r) q) s → Matches (seq r q) (c ∷ s) =
      λ (a, b, e, m, n). (c ∷ a, b, ap (◌∷◌ c) e, (derivative_iff r c a).0 m, n) in
    elim (Bool-cases (nullable r)) [
      | inl skips ↦ rw skips (
        λ h. elim h [
          | inl m ↦ started m
          | inr n ↦ ([], c ∷ s, refl, (nullable_iff r).0 skips, (derivative_iff q c s).0 n)
        ],
        λ h. elim (seq_after r q c s h) [
          | inl (e, n) ↦ inr ((derivative_iff q c s).1 n)
          | inr (a, b, e, m, n) ↦ inl (a, b, e, (derivative_iff r c a).1 m, n)
        ],
      )
      | inr reads ↦ rw reads (
        started,
        λ h. elim (seq_after r q c s h) [
          | inl (e, n) ↦ (let clash : true ≡ false = sym e ∙ reads in cc)
          | inr (a, b, e, m, n) ↦ (a, b, e, (derivative_iff r c a).1 m, n)
        ],
      )
    ]
derivative_iff (alt r q) c s = ground (arith, derivative_iff r c s, derivative_iff q c s)
derivative_iff (many r) c s = (
  λ (a, b, e, m, (parts, f, h)).
      ((c ∷ a) ∷ parts, ap (◌∷◌ c) (e ∙ ap (λ x. a ++ x) f), ((derivative_iff r c a).0 m, h)),
  λ (parts, e, h).
      let (a, b, f, m, n) = many_after r c s parts e h in (a, b, f, (derivative_iff r c a).1 m, n),
)

-- A pattern matches a text exactly if the text is in its language.
pub matches_iff : (r : Regex) (s : List ℕ) → (matches r s ≡ true) ↔ Matches r s
unfolding matches
matches_iff r [] = nullable_iff r
matches_iff r (c ∷ s) =
    let here = matches_iff (derivative c r) s in
    let next = derivative_iff r c s in (λ h. next.0 (here.0 h), λ h. here.1 (next.1 h))
