-- ===== src/Lifecycle/Discoverer/Choice.antt =====
-- Which Kubernetes node discovery claims first, and what it takes for a match.
use vpsie_k8s_autoscaler.Prelude.{
  ℕ, ◌≤◌, ◌<◌, ◌≡◌, ◌⊎◌, inl, inr, refl, sym, subst, true, false, Option, none, some, List, [], ◌∷◌,
  All, Some, ltb, ltb→lt, ◌∙◌, Bool-cases, arith,
}
use vpsie_k8s_autoscaler.Lifecycle.Discoverer.{
  DiscovererConfig, JoinedNode, is_unclaimed, newest_unclaimed, find_unclaimed_k8s_node,
}

-- The newest of those that are unclaimed.
pub record Newest (c : DiscovererConfig) (now : ℕ) (js : List JoinedNode) (j : JoinedNode)
    : Type 0 where
  pub listed : Some (λ k. k ≡ j) js
  pub unclaimed : is_unclaimed c now j ≡ true
  pub newest : All (λ k. is_unclaimed c now k ≡ true → k.created_at ≤ j.created_at) js

-- So far, or in the rest.
abbrev Chosen :
    DiscovererConfig → ℕ → Option JoinedNode → List JoinedNode → Option JoinedNode → Type 0
Chosen c now none js none = All (λ k. is_unclaimed c now k ≡ false) js
Chosen c now (some s) js none = ⊥
Chosen c now none js (some j) = Newest c now js j
Chosen c now (some s) js (some j) =
    ((j ≡ s) ⊎ (Some (λ k. k ≡ j) js × (is_unclaimed c now j ≡ true)))
    × (s.created_at ≤ j.created_at)
    × All (λ k. is_unclaimed c now k ≡ true → k.created_at ≤ j.created_at) js

apart : true ≡ false → ⊥
apart clash = cc

module _ (c : DiscovererConfig) (now : ℕ) where
  start :
      (j : JoinedNode) (js : List JoinedNode) (r : Option JoinedNode)
      → is_unclaimed c now j ≡ true
      → Chosen c now (some j) js r
      → Chosen c now none (j ∷ js) r
  start j js none free h = absurd h
  start j js (some k) free (which, below, rest) = record {
    listed = elim which [ inl same ↦ inl (sym same) | inr (m, u) ↦ inr m ];
    unclaimed = elim which [
      | inl same ↦ subst (λ x. is_unclaimed c now x ≡ true) (sym same) free
      | inr (m, u) ↦ u
    ];
    newest = (λ u. below, rest);
  }

  pass :
      (j : JoinedNode) (js : List JoinedNode) (r : Option JoinedNode)
      → is_unclaimed c now j ≡ false
      → Chosen c now none js r
      → Chosen c now none (j ∷ js) r
  pass j js none taken h = (taken, h)
  pass j js (some k) taken h = record {
    listed = inr h.listed;
    unclaimed = h.unclaimed;
    newest = (λ u. absurd (apart (sym u ∙ taken)), h.newest);
  }

  replace :
      (s j : JoinedNode) (js : List JoinedNode) (r : Option JoinedNode)
      → is_unclaimed c now j ≡ true
      → s.created_at < j.created_at
      → Chosen c now (some j) js r
      → Chosen c now (some s) (j ∷ js) r
  replace s j js none free later h = absurd h
  replace s j js (some k) free later (which, below, rest) = (
    elim which [
      | inl same ↦ inr (inl (sym same), subst (λ x. is_unclaimed c now x ≡ true) (sym same) free)
      | inr (m, u) ↦ inr (inr m, u)
    ],
    omega arith,
    (λ u. below, rest),
  )

  keep :
      (s j : JoinedNode) (js : List JoinedNode) (r : Option JoinedNode)
      → (is_unclaimed c now j ≡ true → j.created_at ≤ s.created_at)
      → Chosen c now (some s) js r
      → Chosen c now (some s) (j ∷ js) r
  keep s j js none earlier h = absurd h
  keep s j js (some k) earlier (which, below, rest) = (
    elim which [ inl same ↦ inl same | inr (m, u) ↦ inr (inr m, u) ],
    below,
    (λ u. omega (arith, earlier u, below), rest),
  )

  newest_unclaimed-Chosen :
      (o : Option JoinedNode) (js : List JoinedNode)
      → Chosen c now o js (newest_unclaimed c now o js)
  unfolding newest_unclaimed
  newest_unclaimed-Chosen none [] = tt
  newest_unclaimed-Chosen (some s) [] = (inl refl, omega arith, tt)
  newest_unclaimed-Chosen none (j ∷ js) = elim (Bool-cases (is_unclaimed c now j)) [
    | inl e ↦ rw e (start j js _ e (newest_unclaimed-Chosen (some j) js))
    | inr e ↦ rw e (pass j js _ e (newest_unclaimed-Chosen none js))
  ]
  newest_unclaimed-Chosen (some s) (j ∷ js) = elim (Bool-cases (is_unclaimed c now j)) [
    | inl e ↦ elim (Bool-cases (ltb s.created_at j.created_at)) [
      | inl f ↦
          rw (e, f)
            (replace s j js _ e (ltb→lt s.created_at j.created_at f)
              (newest_unclaimed-Chosen (some j) js))
      | inr f ↦ rw (e, f) (keep s j js _ (λ u. ground arith) (newest_unclaimed-Chosen (some s) js))
    ]
    | inr e ↦
        rw e (keep s j js _ (λ u. absurd (apart (sym u ∙ e))) (newest_unclaimed-Chosen (some s) js))
  ]

  chosen :
      (js : List JoinedNode) (j : JoinedNode) (r : Option JoinedNode)
      → Chosen c now none js r
      → r ≡ some j
      → Newest c now js j
  chosen js j none h e = absurd (none_apart e)
    where
      none_apart : {A : Type 0} {a : A} → none ≡ some a → ⊥
      none_apart clash = cc
  chosen js j (some k) h e = let same : k ≡ j = cc in subst (Newest c now js) same h

  -- The node that is claimed first was listed and is unclaimed, which means neither of the control plane nor
  -- owned by an object nor too old, and no unclaimed one is newer.
  pub find_unclaimed_k8s_node-Newest :
      (js : List JoinedNode) (j : JoinedNode)
      → find_unclaimed_k8s_node c now js ≡ some j
      → Newest c now js j
  unfolding find_unclaimed_k8s_node
  find_unclaimed_k8s_node-Newest js j e =
      chosen js j (newest_unclaimed c now none js) (newest_unclaimed-Chosen none js) e
