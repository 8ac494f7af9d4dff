-- ===== src/Lifecycle/Errors/Search.antt =====
-- What the text search of errors.go decides, and that wrapping an error keeps its class.
use mathlib.Core.List.{map-append}
use vpsie_k8s_autoscaler.Prelude.{
  ℕ, ◌≡◌, refl, ap, inl, inr, ◌↔◌, String, codes, Bool, true, List, [], ◌∷◌, ◌++◌, map, any,
  Bool-cases, arith,
}
use vpsie_k8s_autoscaler.Lifecycle.Errors.{
  Failure, wrap, is_not_found, lower, is_prefix, contains, contains_ignore_case, terminal_patterns,
  is_terminal_error,
}

is_prefix-append : (p s : List ℕ) → is_prefix p (p ++ s) ≡ true
unfolding is_prefix
is_prefix-append [] s = refl
is_prefix-append (c ∷ p) s = ground (arith, is_prefix-append p s)

is_prefix_rest : (p s : List ℕ) → is_prefix p s ≡ true → (post : List ℕ) × (s ≡ p ++ post)
unfolding is_prefix
is_prefix_rest [] s h = (s, refl)
is_prefix_rest (c ∷ p) [] h = cc
is_prefix_rest (c ∷ p) (d ∷ s) h =
    let (post, e) = is_prefix_rest p s (ground arith) in (post, ground arith)

abbrev Occurs : List ℕ → List ℕ → Type 0
Occurs p s = (pre : List ℕ) × (post : List ℕ) × (s ≡ pre ++ (p ++ post))

contains_sound : (s p : List ℕ) → contains s p ≡ true → Occurs p s
unfolding contains
contains_sound [] p h = let (post, e) = is_prefix_rest p [] h in ([], post, e)
contains_sound (c ∷ s) p h = elim (Bool-cases (is_prefix p (c ∷ s))) [
  | inl here ↦ let (post, e) = is_prefix_rest p (c ∷ s) here in ([], post, e)
  | inr later ↦
      let (pre, post, e) = contains_sound s p (ground arith) in (c ∷ pre, post, ap (◌∷◌ c) e)
]

contains-prefix : (p s : List ℕ) → is_prefix p s ≡ true → contains s p ≡ true
unfolding contains
contains-prefix p [] h = h
contains-prefix p (c ∷ s) h = ground arith

contains-append : (pre s p : List ℕ) → contains s p ≡ true → contains (pre ++ s) p ≡ true
unfolding contains
contains-append [] s p h = h
contains-append (c ∷ pre) s p h = ground (arith, contains-append pre s p h)

-- The search decides whether the one text occurs in the other.
pub contains_iff :
    (s p : List ℕ)
    → (contains s p ≡ true) ↔ ((pre : List ℕ) × (post : List ℕ) × (s ≡ pre ++ (p ++ post)))
contains_iff s p = (
  contains_sound s p,
  λ occurs. rw (occurs.2) (
      contains-append occurs.0 (p ++ occurs.1) p
        (contains-prefix p (p ++ occurs.1) (is_prefix-append p occurs.1))),
)

any_mono :
    {A : Type 0} (f g : A → Bool) (xs : List A)
    → ((x : A) → f x ≡ true → g x ≡ true)
    → any f xs ≡ true
    → any g xs ≡ true
any_mono f g [] up h = h
any_mono f g (x ∷ xs) up h = ground (arith, up x, any_mono f g xs up)

contains_ignore_case-append :
    (pre s p : List ℕ) → contains_ignore_case s p ≡ true → contains_ignore_case (pre ++ s) p ≡ true
unfolding contains_ignore_case
contains_ignore_case-append pre s p h =
    rw (map-append lower pre s) (contains-append (map lower pre) (map lower s) (map lower p) h)

-- However often an error is wrapped on its way up, it stays a terminal one, and its API status
-- still tells whether the resource was missing.
pub wrap-classified :
    (context : String) (e : Failure)
    → (is_terminal_error e ≡ true → is_terminal_error (wrap context e) ≡ true)
      × (is_not_found (wrap context e) ≡ is_not_found e)
unfolding is_terminal_error wrap is_not_found
wrap-classified context e = (
  any_mono (λ p. contains_ignore_case e.text (codes p))
      (λ p. contains_ignore_case (codes context ++ codes ": " ++ e.text) (codes p))
      terminal_patterns
      (λ p. contains_ignore_case-append (codes context ++ codes ": ") e.text (codes p)),
  refl,
)
