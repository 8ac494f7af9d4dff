-- ===== src/Events/Offers/Sizes.antt =====
-- Which size is selected for the nodes of a new group.
use vpsie_k8s_autoscaler.Prelude.{
  ℕ, ◌≤◌, ◌≡◌, ◌⊎◌, inl, inr, Bool, true, false, not, ◌&&◌, Option, none, some, List, [], ◌∷◌, All,
  Some, ltb, Bool-cases,
}
use vpsie_k8s_autoscaler.Events.Offers.{
  K8sOffer, Request, Selection, selected, all_in_use, insert_by_price, sort_by_price, is_used, fits,
}

abbrev NoDearer : K8sOffer → List K8sOffer → Type 0
NoDearer o os = All (λ p. o.price ≤ p.price) os

abbrev Rising : List K8sOffer → Type 0
Rising [] = Unit
Rising (o ∷ os) = NoDearer o os × Rising os

-- The list has the same elements after the insertion and the sort.
insert_by_price-All :
    (Q : K8sOffer → Type 0) (o : K8sOffer) (os : List K8sOffer)
    → Q o × All Q os
    → All Q (insert_by_price o os)
unfolding insert_by_price
insert_by_price-All Q o [] h = h
insert_by_price-All Q o (p ∷ ps) (q, (r, h)) = elim (Bool-cases (ltb p.price o.price)) [
  | inl e ↦ rw e (r, insert_by_price-All Q o ps (q, h))
  | inr e ↦ rw e (q, (r, h))
]

sort_by_price-All :
    (Q : K8sOffer → Type 0) (os : List K8sOffer) → All Q os → All Q (sort_by_price os)
unfolding sort_by_price
sort_by_price-All Q [] h = tt
sort_by_price-All Q (o ∷ os) (q, h) =
    insert_by_price-All Q o (sort_by_price os) (q, sort_by_price-All Q os h)

-- An offer with this size passes the test, and none that passes it is cheaper.
abbrev pub Cheapest : (K8sOffer → Bool) → ℕ → List K8sOffer → Type 0
Cheapest test id os =
    Some (λ o. (o.id ≡ id) × (test o ≡ true) × All (λ q. test q ≡ true → o.price ≤ q.price) os) os

abbrev Found : (K8sOffer → Bool) → List K8sOffer → Option ℕ → Type 0
Found test os none = All (λ q. test q ≡ false) os
Found test os (some id) = Cheapest test id os

module _ (used : List ℕ) (r : Request) where
  abbrev pub is_unused : K8sOffer → Bool
  is_unused o = not (is_used used o)

  abbrev pub is_suitable : K8sOffer → Bool
  is_suitable o = not (is_used used o) && fits r o

  -- What a selection says of the offers.
  abbrev pub IsChoice : List K8sOffer → Selection → Type 0
  IsChoice os (selected id) =
      Cheapest is_suitable id os ⊎ (All (λ q. is_suitable q ≡ false) os × Cheapest is_unused id os)
  IsChoice os all_in_use = All (λ q. is_unused q ≡ false) os
  IsChoice os _ = ⊥
