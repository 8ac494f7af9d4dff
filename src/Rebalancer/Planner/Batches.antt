-- ===== src/Rebalancer/Planner/Batches.antt =====
-- The batches of a rolling replacement: that the loop ends, and what it makes of the candidates.
use vpsie_k8s_autoscaler.Prelude.{
  ℕ, zero, suc, ◌≤◌, ◌<◌, ◌≡◌, refl, Option, none, some, List, [], ◌∷◌, ◌++◌, length,
}
use vpsie_k8s_autoscaler.Rebalancer.{CandidateNode, NodeBatch}
use vpsie_k8s_autoscaler.Rebalancer.Planner.{PlannerConfig, previous, batch_from, batch_nodes}

abbrev pub nodes_of : List NodeBatch → List CandidateNode
nodes_of [] = []
nodes_of (b ∷ bs) = b.nodes ++ nodes_of bs

-- From a number on: each batch is numbered by its place, waits for the one before it, and holds at
-- least one node and at most the size.
abbrev pub Chain : (size number : ℕ) → List NodeBatch → Type 0
Chain size number [] = Unit
Chain size number (b ∷ bs) =
    ((b.batch_number ≡ number)
      × (b.depends_on ≡ previous number)
      × (0 < length b.nodes)
      × (length b.nodes ≤ size))
    × Chain size (suc number) bs

-- What the loop owes for these candidates.
abbrev pub Batched : (size number : ℕ) → List CandidateNode → Option (List NodeBatch) → Type 0
Batched size number ns none = ⊥
Batched size number ns (some bs) = (nodes_of bs ≡ ns) × Chain size number bs

-- If no size is set at all, the loop over a candidate never ends: no number of rounds is enough.
pub batch_nodes_endless :
    (c : PlannerConfig) (rounds : ℕ) (n : CandidateNode) (ns : List CandidateNode)
    → c.batch_size ≡ 0
    → batch_nodes c rounds 0 (n ∷ ns) ≡ none
unfolding batch_nodes
batch_nodes_endless c rounds n ns h = rw h (stuck 0 rounds)
  where
    stuck : (number k : ℕ) → batch_from c 0 number k (n ∷ ns) ≡ none
    stuck number zero = refl
    stuck number (suc k) = rw (stuck (suc number) k)
