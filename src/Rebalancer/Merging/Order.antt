-- ===== src/Rebalancer/Merging/Order.antt =====
-- What a merge keeps of the batches, and that it drops their order.
use vpsie_k8s_autoscaler.Prelude.{
  ℕ, suc, ◌+◌, ◌≤◌, ◌<◌, ◌≡◌, ◌⊎◌, inl, inr, refl, ap, ◌∙◌, true, some, lt→ltb, List, [], ◌∷◌, ◌++◌,
  ◌==◌, append_assoc, length, map, ltb, length-append, Bool-cases, arith,
}
use vpsie_k8s_autoscaler.Prelude.Floats.{Floats}
use vpsie_k8s_autoscaler.Rebalancer.{CandidateNode, NodeBatch, RebalancePlan}
use vpsie_k8s_autoscaler.Rebalancer.Planner.{PlannerConfig, can_execute_batch, get_batch_by_number}
use vpsie_k8s_autoscaler.Rebalancer.Planner.Batches.{nodes_of}
use vpsie_k8s_autoscaler.Rebalancer.Merging.{
  push_current, next_number, merge_from, merge_batches, adjusted, optimize_plan,
}

-- Numbered by place, waiting for nothing, and not above the limit or else as long as one batch before.
abbrev pub Merged : (limit number longest : ℕ) → List NodeBatch → Type 0
Merged limit number longest [] = Unit
Merged limit number longest (b ∷ bs) =
    ((b.batch_number ≡ number)
      × (b.depends_on ≡ [])
      × ((length b.nodes ≤ limit) ⊎ (length b.nodes ≤ longest)))
    × Merged limit (suc number) longest bs

-- No batch has more nodes.
abbrev pub Within : ℕ → List NodeBatch → Type 0
Within longest [] = Unit
Within longest (b ∷ bs) = (length b.nodes ≤ longest) × Within longest bs

push_current-Merged :
    (c : PlannerConfig) (limit number longest : ℕ) (current : List CandidateNode)
    (bs : List NodeBatch)
    → (length current ≤ limit) ⊎ (length current ≤ longest)
    → Merged limit (next_number number current) longest bs
    → Merged limit number longest (push_current c number current bs)
push_current-Merged c limit number longest [] bs fits h = h
push_current-Merged c limit number longest (n ∷ ns) bs fits h = ((refl, refl, fits), h)

merge_from-Merged :
    (c : PlannerConfig) (limit number longest : ℕ) (current : List CandidateNode)
    (bs : List NodeBatch)
    → (length current ≤ limit) ⊎ (length current ≤ longest)
    → Within longest bs
    → Merged limit number longest (merge_from c limit number current bs)
unfolding merge_from
merge_from-Merged c limit number longest current [] fits h =
    push_current-Merged c limit number longest current [] fits tt
merge_from-Merged c limit number longest current (b ∷ bs) fits (here, later) =
    elim (Bool-cases (ltb limit (length current + length b.nodes))) [
      | inl e ↦ rw e (
          push_current-Merged c limit number longest current _ fits (
            merge_from-Merged c limit (next_number number current) longest b.nodes bs (inr here)
              later))
      | inr e ↦ rw e (
          merge_from-Merged c limit number longest (current ++ b.nodes) bs
            (inl (ground (arith, length-append current b.nodes))) later)
    ]

nodes_of-push_current :
    (c : PlannerConfig) (number : ℕ) (current : List CandidateNode) (bs : List NodeBatch)
    → nodes_of (push_current c number current bs) ≡ current ++ nodes_of bs
nodes_of-push_current c number [] bs = refl
nodes_of-push_current c number (n ∷ ns) bs = refl

nodes_of-merge_from :
    (c : PlannerConfig) (limit number : ℕ) (current : List CandidateNode) (bs : List NodeBatch)
    → nodes_of (merge_from c limit number current bs) ≡ current ++ nodes_of bs
unfolding merge_from
nodes_of-merge_from c limit number current [] = nodes_of-push_current c number current []
nodes_of-merge_from c limit number current (b ∷ bs) =
    elim (Bool-cases (ltb limit (length current + length b.nodes))) [
      | inl e ↦ rw e (
          nodes_of-push_current c number current _
          ∙ ap (◌++◌ current) (nodes_of-merge_from c limit (next_number number current) b.nodes bs))
      | inr e ↦ rw e (
          nodes_of-merge_from c limit number (current ++ b.nodes) bs
          ∙ append_assoc current b.nodes (nodes_of bs))
    ]

-- The merge keeps the nodes and their order, numbers the batches from zero, and makes none that is above
-- the limit, but for one that was a batch already; and it drops what a batch waits for.
pub merge_batches-Merged :
    (c : PlannerConfig) (bs : List NodeBatch) (limit longest : ℕ)
    → Within longest bs
    → (nodes_of (merge_batches c bs limit) ≡ nodes_of bs)
      × Merged limit 0 longest (merge_batches c bs limit)
unfolding merge_batches
merge_batches-Merged c bs limit longest h = (
  nodes_of-merge_from c limit 0 [] bs,
  merge_from-Merged c limit 0 longest [] bs (inl (omega arith)) h,
)

get_batch_by_number-Merged :
    (limit from longest number : ℕ) (bs : List NodeBatch)
    → Merged limit from longest bs
    → from ≤ number
    → number < from + length bs
    → (b : NodeBatch) × (get_batch_by_number (map adjusted bs) number ≡ some b)
      × (b.depends_on ≡ [])
unfolding get_batch_by_number adjusted
get_batch_by_number-Merged limit from longest number [] h low high = absurd (omega arith)
get_batch_by_number-Merged limit from longest number (b ∷ bs) ((numbered, free, fits), later) low
      high =
    elim (Bool-cases (b.batch_number == number)) [
      | inl e ↦ rw e (adjusted b, refl, free)
      | inr e ↦ rw e (
          get_batch_by_number-Merged limit (suc from) longest number bs later (ground arith)
            (omega arith))
    ]

longest_of : List NodeBatch → ℕ
longest_of [] = 0
longest_of (b ∷ bs) = length b.nodes + longest_of bs

Within-mono : (n m : ℕ) (bs : List NodeBatch) → n ≤ m → Within n bs → Within m bs
Within-mono n m [] h k = tt
Within-mono n m (b ∷ bs) h k = (omega (arith, k.0), Within-mono n m bs h k.1)

longest_of-Within : (bs : List NodeBatch) → Within (longest_of bs) bs
unfolding longest_of
longest_of-Within [] = tt
longest_of-Within (b ∷ bs) =
    (omega arith, Within-mono (longest_of bs) _ bs (omega arith) (longest_of-Within bs))

length-map {ℓ κ} :
    {A : Type ℓ} {B : Type κ} (f : A → B) (xs : List A) → length (map f xs) ≡ length xs
length-map f [] = refl
length-map f (x ∷ xs) = ap suc (length-map f xs)

optimize_plan-batches :
    (F : Floats) (c : PlannerConfig) (p : RebalancePlan)
    → 1 < length p.batches
    → (optimize_plan F c p).optimized.batches
      ≡ map adjusted (merge_batches c p.batches c.max_concurrent)
unfolding optimize_plan
optimize_plan-batches F c p several = rw (lt→ltb 1 (length p.batches) several) refl

-- After the optimization of a plan of two batches or more, every batch may be executed at once, with
-- none completed, whatever it waited for before.
pub optimize_plan_unordered :
    (F : Floats) (c : PlannerConfig) (p : RebalancePlan) (number : ℕ)
    → 1 < length p.batches
    → number < length (optimize_plan F c p).optimized.batches
    → can_execute_batch (optimize_plan F c p).optimized number [] ≡ true
unfolding can_execute_batch
optimize_plan_unordered F c p number several within =
    let e = optimize_plan-batches F c p several in
    let merged = merge_batches c p.batches c.max_concurrent in
    let short : number < length merged = omega (arith, ap length e, length-map adjusted merged) in
    let (b, found, free) =
      get_batch_by_number-Merged c.max_concurrent 0 (longest_of p.batches) number merged
        ((merge_batches-Merged c p.batches c.max_concurrent (longest_of p.batches)
          (longest_of-Within p.batches)).1)
        (omega arith) (omega arith) in
    rw (e, found, free) refl
