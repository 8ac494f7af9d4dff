-- ===== src/Events/Matches/Order.antt =====
-- That the matches are sorted, and stay the same ones.
use vpsie_k8s_autoscaler.Prelude.{
  ℕ, zero, suc, ◌-◌, ◌≤◌, ◌≡◌, refl, ◌∙◌, subst, Bool, inl, inr, Bool-cases, List, [], ◌∷◌, All,
  drop, length, ltb, if◌then◌else◌, arith,
}
use vpsie_k8s_autoscaler.Events.Matches.{
  NodeGroupMatch, compare_neighbours, sort_rounds, sort_node_group_matches,
}

-- No score is above this one.
abbrev pub Below : ℕ → List NodeGroupMatch → Type 0
Below top ms = All (λ m. m.score ≤ top) ms

-- The scores fall or stay.
abbrev pub Falling : List NodeGroupMatch → Type 0
Falling [] = Unit
Falling (m ∷ ms) = Below m.score ms × Falling ms

abbrev pub count : (NodeGroupMatch → Bool) → List NodeGroupMatch → ℕ
count p [] = 0
count p (m ∷ ms) = let rest = count p ms in if p m then suc rest else rest

-- Behind the first n matches the scores fall, and none is above one of the first n.
abbrev SortedFrom : ℕ → List NodeGroupMatch → Type 0
SortedFrom zero ms = Falling ms
SortedFrom (suc n) [] = Unit
SortedFrom (suc n) (m ∷ ms) = Below m.score (drop n ms) × SortedFrom n ms

drop_empty-Below : (top n : ℕ) → Below top (drop n [])
drop_empty-Below top zero = tt
drop_empty-Below top (suc n) = tt

empty-SortedFrom : (n : ℕ) → SortedFrom n []
empty-SortedFrom zero = tt
empty-SortedFrom (suc n) = tt

compare_neighbours-Below :
    (top n : ℕ) (m : NodeGroupMatch) (ms : List NodeGroupMatch)
    → m.score ≤ top
    → Below top (drop n ms)
    → Below top (drop n (compare_neighbours n (m ∷ ms)))
unfolding compare_neighbours
compare_neighbours-Below top zero m ms h k = (h, k)
compare_neighbours-Below top (suc n) m [] h k = drop_empty-Below top n
compare_neighbours-Below top (suc n) m (b ∷ ms) h k =
    compare_neighbours-Below top n (if ltb m.score b.score then m else b) ms (ground arith) k

compare_neighbours-SortedFrom :
    (n : ℕ) (m : NodeGroupMatch) (ms : List NodeGroupMatch)
    → SortedFrom (suc n) (m ∷ ms)
    → SortedFrom n (compare_neighbours n (m ∷ ms))
unfolding compare_neighbours
compare_neighbours-SortedFrom zero m ms h = h
compare_neighbours-SortedFrom (suc n) m [] h = (drop_empty-Below m.score n, empty-SortedFrom n)
compare_neighbours-SortedFrom (suc n) m (b ∷ ms) (low, rest) =
    elim (Bool-cases (ltb m.score b.score)) [
      | inl e ↦ rw e (
        compare_neighbours-Below b.score n m ms (ground arith) rest.0,
        compare_neighbours-SortedFrom n m ms (low, rest.1),
      )
      | inr e ↦ rw e (
        compare_neighbours-Below m.score n b ms (ground arith) low,
        compare_neighbours-SortedFrom n b ms rest,
      )
    ]

compare_neighbours-count :
    (p : NodeGroupMatch → Bool) (n : ℕ) (ms : List NodeGroupMatch)
    → count p (compare_neighbours n ms) ≡ count p ms
unfolding compare_neighbours
compare_neighbours-count p zero ms = refl
compare_neighbours-count p (suc n) [] = refl
compare_neighbours-count p (suc n) (a ∷ []) = refl
compare_neighbours-count p (suc n) (a ∷ b ∷ ms) =
    ground (arith, compare_neighbours-count p n (a ∷ ms), compare_neighbours-count p n (b ∷ ms))

sort_rounds-Falling :
    (n : ℕ) (ms : List NodeGroupMatch) → SortedFrom (suc n) ms → Falling (sort_rounds n ms)
unfolding sort_rounds compare_neighbours
sort_rounds-Falling zero [] h = tt
sort_rounds-Falling zero (m ∷ ms) h = h
sort_rounds-Falling (suc n) [] h = sort_rounds-Falling n [] tt
sort_rounds-Falling (suc n) (m ∷ ms) h =
    sort_rounds-Falling n (compare_neighbours (suc n) (m ∷ ms))
      (compare_neighbours-SortedFrom (suc n) m ms h)

sort_rounds-count :
    (p : NodeGroupMatch → Bool) (n : ℕ) (ms : List NodeGroupMatch)
    → count p (sort_rounds n ms) ≡ count p ms
unfolding sort_rounds
sort_rounds-count p zero ms = refl
sort_rounds-count p (suc n) ms =
    sort_rounds-count p n (compare_neighbours (suc n) ms) ∙ compare_neighbours-count p (suc n) ms

nothing-Below : (top : ℕ) (ms : List NodeGroupMatch) → Below top (drop (length ms) ms)
nothing-Below top [] = tt
nothing-Below top (m ∷ ms) = nothing-Below top ms

all-SortedFrom : (ms : List NodeGroupMatch) → SortedFrom (length ms) ms
all-SortedFrom [] = tt
all-SortedFrom (m ∷ ms) = (nothing-Below m.score ms, all-SortedFrom ms)

rounds-SortedFrom : (ms : List NodeGroupMatch) → SortedFrom (suc (length ms - 1)) ms
rounds-SortedFrom [] = tt
rounds-SortedFrom (m ∷ ms) =
    subst (λ n. SortedFrom (suc n) (m ∷ ms)) (omega arith) (all-SortedFrom (m ∷ ms))

-- The sort puts no match behind one with a lower score, and keeps the matches of each kind in number.
pub sort_node_group_matches-Falling :
    (ms : List NodeGroupMatch)
    → Falling (sort_node_group_matches ms)
      × ((p : NodeGroupMatch → Bool) → count p (sort_node_group_matches ms) ≡ count p ms)
unfolding sort_node_group_matches
sort_node_group_matches-Falling ms = (
  sort_rounds-Falling (length ms - 1) ms (rounds-SortedFrom ms),
  λ p. sort_rounds-count p (length ms - 1) ms,
)
