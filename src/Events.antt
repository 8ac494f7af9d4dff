-- ===== src/Events.antt =====
-- pkg/events/scaleup.go with the cooldown of watcher.go and the estimates of analyzer.go: from what the
-- pending pods lack to one more desired node. Quantities are milli-CPU and bytes, which are never
-- negative in a request.
mod Estimate
mod Matches
mod Offers
mod Creator
mod Search
mod Decisions
mod Tests
use vpsie_k8s_autoscaler.Prelude.{
  ℕ, ◌+◌, ◌-◌, ◌*◌, ◌/◌, String, ◌=ₛ◌, Bool, true, false, not, ◌&&◌, Option, none, some, List, [],
  ◌∷◌, any, insert, lookup, leb, ltb, ◌==◌, if◌then◌else◌,
}

pub record ResourceDeficit : Type 0 where
  pub cpu : ℕ
  pub memory : ℕ
  pub pods : ℕ

pub record InstanceTypeInfo : Type 0 where
  pub cpu : ℕ
  pub memory_mb : ℕ

-- Go's division panics at zero, which no instance type reaches.
abbrev pub ceiling : ℕ → ℕ → ℕ
ceiling x d = (x + d - 1) / d

abbrev larger : ℕ → ℕ → ℕ
larger x y = if ltb x y then y else x

unfoldable pub estimate_nodes_needed : ResourceDeficit → InstanceTypeInfo → ℕ
estimate_nodes_needed d t =
    if d.pods == 0
    then 0
    else larger
        (larger
          (larger (ceiling d.cpu (t.cpu * 1000)) (ceiling d.memory (t.memory_mb * 1024 * 1024)))
          (ceiling d.pods 110))
        1

-- What the decision reads of a NodeGroup and what the execution writes to it.
pub record ScaledGroup : Type 0 where
  pub name : String
  pub max_nodes : ℕ
  pub desired : ℕ
  pub ready : ℕ
  pub preferred_instance_type : String
  pub offering_ids : List String
  pub last_scale_time : Option ℕ

abbrev first_offering : List String → Option String
first_offering [] = none
first_offering (o ∷ os) = some o

-- The offering that the calculator recommends, if there is a calculator and it answers.
abbrev cheapest_or_first : Option String → List String → Option String
cheapest_or_first (some o) (p ∷ os) = some o
cheapest_or_first _ os = first_offering os

unfoldable pub select_instance_type : Option String → ScaledGroup → Option String
select_instance_type cheapest g =
    if not (g.preferred_instance_type =ₛ "")
      && any (λ o. o =ₛ g.preferred_instance_type) g.offering_ids
    then some g.preferred_instance_type
    else cheapest_or_first cheapest g.offering_ids

pub record Watcher : Type 0 where
  pub last_scale_time : List (String × ℕ)
  pub stabilization_window : ℕ

abbrev is_past : Watcher → ℕ → Option ℕ → Bool
is_past w now none = true
is_past w now (some t) = leb w.stabilization_window (now - t)

unfoldable pub can_scale : Watcher → ℕ → String → Bool
unfolding lookup
can_scale w now name = is_past w now (lookup name w.last_scale_time)

unfoldable pub record_scale_event : ℕ → String → Watcher → Watcher
unfolding insert
record_scale_event now name w = record w { last_scale_time = insert name now w.last_scale_time }

pub record ScaleUpDecision : Type 0 where
  pub name : String
  pub current_nodes : ℕ
  pub desired_nodes : ℕ
  pub nodes_to_add : ℕ
  pub instance_type : String

pub data Decided : Type 0 where
  skipped no_instance_type : Decided
  decided : ScaleUpDecision → Decided

abbrev default_instance : InstanceTypeInfo
default_instance = record { cpu = 4; memory_mb = 8192 }

unfoldable pub decide_for : ScaledGroup → ResourceDeficit → Option String → Decided
unfolding estimate_nodes_needed
decide_for g d none = no_instance_type
decide_for g d (some instance_type) =
    if ltb 0 (g.desired - g.ready)
    then skipped
    else if estimate_nodes_needed d default_instance == 0
    then skipped
    else if leb g.max_nodes g.desired
    then skipped
    else decided record {
      name = g.name;
      current_nodes = g.desired;
      desired_nodes = g.desired + 1;
      nodes_to_add = 1;
      instance_type = instance_type;
    }

unfoldable pub make_scale_up_decision :
    Watcher → ℕ → Option String → ScaledGroup → ResourceDeficit → Decided
unfolding can_scale select_instance_type decide_for
make_scale_up_decision w now cheapest g d =
    if not (can_scale w now g.name)
    then skipped
    else if leb g.max_nodes g.desired
    then skipped
    else decide_for g d (select_instance_type cheapest g)

-- The watcher and the stored group after the execution, and whether an error is returned.
pub record Executed : Type 0 where
  pub watcher : Watcher
  pub stored : Option ScaledGroup
  pub failing : Bool

-- The stored group is `none` if it cannot be read; `saves` is whether the update is accepted.
unfoldable pub execute_scale_up :
    ℕ → Bool → ScaleUpDecision → Watcher → Option ScaledGroup → Executed
unfolding record_scale_event
execute_scale_up now saves d w none = record { watcher = w; stored = none; failing = true }
execute_scale_up now saves d w (some g) =
    let recorded = record_scale_event now d.name w in
    if leb d.desired_nodes g.desired
    then record { watcher = recorded; stored = some g; failing = false }
    else if saves
    then record {
      watcher = recorded;
      stored = some (record g { desired = d.desired_nodes; last_scale_time = some now });
      failing = false;
    }
    else record { watcher = w; stored = some g; failing = true }
