-- ===== src/Events/Matches.antt =====
-- pkg/events/analyzer.go: the score of a match and the sort of the matches by it.
pub mod Order
use vpsie_k8s_autoscaler.Prelude.{
  ℕ, zero, suc, ◌+◌, ◌-◌, ◌*◌, String, ◌=ₛ◌, Bool, List, [], ◌∷◌, length, ltb, if◌then◌else◌,
}
use vpsie_k8s_autoscaler.Events.{ResourceDeficit, ScaledGroup}

pub record NodeGroupMatch : Type 0 where
  pub node_group : ScaledGroup
  pub matching_pods : ℕ
  pub deficit : ResourceDeficit
  pub score : ℕ

-- The last argument is the score of the cost.
unfoldable pub calculate_match_score : ScaledGroup → ℕ → ℕ → ℕ
calculate_match_score g matching_pods cost_score =
    matching_pods * 100
    + (if ltb g.desired g.max_nodes then (g.max_nodes - g.desired) * 50 else 0)
    + (if ltb g.desired g.max_nodes then 200 else 0)
    + (if g.preferred_instance_type =ₛ "" then 0 else 100)
    + cost_score

-- The inner loop: this many comparisons of neighbours from the front, the lower score moving back.
unfoldable pub compare_neighbours : ℕ → List NodeGroupMatch → List NodeGroupMatch
compare_neighbours zero ms = ms
compare_neighbours (suc n) [] = []
compare_neighbours (suc n) (a ∷ []) = a ∷ []
compare_neighbours (suc n) (a ∷ b ∷ ms) =
    let swaps = ltb a.score b.score in
    (if swaps then b else a) ∷ compare_neighbours n ((if swaps then a else b) ∷ ms)

-- The outer loop, whose rounds have one comparison less each time, down to one.
unfoldable pub sort_rounds : ℕ → List NodeGroupMatch → List NodeGroupMatch
unfolding compare_neighbours
sort_rounds zero ms = ms
sort_rounds (suc n) ms = sort_rounds n (compare_neighbours (suc n) ms)

unfoldable pub sort_node_group_matches : List NodeGroupMatch → List NodeGroupMatch
unfolding sort_rounds
sort_node_group_matches ms = sort_rounds (length ms - 1) ms
