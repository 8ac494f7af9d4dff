-- ===== src/Events/Decisions.antt =====
-- What a decision needs, and what its execution does to the group and to the next decisions.
use vpsie_k8s_autoscaler.Prelude.{
  ℕ, ◌+◌, ◌-◌, ◌≤◌, ◌<◌, ◌≡◌, ◌↔◌, ◌⊎◌, inl, inr, Bool-cases, leb→le, String, ◌=ₛ◌, Bool, true,
  false, Option, none, some, lookup-insert, text_eq_iff, leb, if◌then◌else◌, refl, arith,
}
use vpsie_k8s_autoscaler.Events.{
  ResourceDeficit, InstanceTypeInfo, estimate_nodes_needed, ScaledGroup, select_instance_type,
  Watcher, can_scale, record_scale_event, ScaleUpDecision, decided, decide_for,
  make_scale_up_decision, Executed, execute_scale_up,
}

estimate_nodes_needed-zero :
    (d : ResourceDeficit) (t : InstanceTypeInfo) → (estimate_nodes_needed d t ≡ 0) ↔ (d.pods ≡ 0)
unfolding estimate_nodes_needed
estimate_nodes_needed-zero d t = ground arith

decide_for-decided :
    (g : ScaledGroup) (d : ResourceDeficit) (o : Option String) (made : ScaleUpDecision)
    → decide_for g d o ≡ decided made
    → (g.desired ≤ g.ready)
      × (0 < d.pods)
      × (g.desired < g.max_nodes)
      × (o ≡ some made.instance_type)
      × (made.name ≡ g.name)
      × (made.desired_nodes ≡ g.desired + 1)
unfolding decide_for
decide_for-decided g d none made h = ground arith
decide_for-decided g d (some o) made h = ground (arith, estimate_nodes_needed-zero d _)

-- A decision is made only for a group outside its cooldown, below its maximum, all of whose desired
-- nodes are ready, that pending pods match and that an instance type was found for; it asks for one
-- node more.
pub make_scale_up_decision-decided :
    (w : Watcher) (now : ℕ) (cheapest : Option String) (g : ScaledGroup) (d : ResourceDeficit)
    (made : ScaleUpDecision)
    → make_scale_up_decision w now cheapest g d ≡ decided made
    → (can_scale w now g.name ≡ true)
      × (g.desired ≤ g.ready)
      × (0 < d.pods)
      × (g.desired < g.max_nodes)
      × (select_instance_type cheapest g ≡ some made.instance_type)
      × (made.name ≡ g.name)
      × (made.desired_nodes ≡ g.desired + 1)
unfolding make_scale_up_decision
make_scale_up_decision-decided w now cheapest g d made h =
    ground (arith, decide_for-decided g d (select_instance_type cheapest g) made)

can_scale-recorded :
    (now later : ℕ) (name other : String) (w : Watcher)
    → can_scale (record_scale_event now name w) later other ≡ (
        if name =ₛ other then leb w.stabilization_window (later - now) else can_scale w later other)
unfolding can_scale record_scale_event
can_scale-recorded now later name other w =
    ground (arith, lookup-insert name other now w.last_scale_time)

recorded_in_cooldown :
    (now later : ℕ) (name : String) (w : Watcher)
    → later - now < w.stabilization_window
    → can_scale (record_scale_event now name w) later name ≡ false
recorded_in_cooldown now later name w h =
    rw (can_scale-recorded now later name name w, (text_eq_iff name name).1 refl) (ground arith)

-- What the execution on a stored group comes to.
abbrev Outcome : ℕ → ScaleUpDecision → Watcher → ScaledGroup → Executed → Type 0
Outcome now made w g e =
    (after : ScaledGroup) × (e.stored ≡ some after)
    × (g.desired ≤ after.desired)
    × ((after.desired ≤ g.desired) ⊎ (after.desired ≤ made.desired_nodes))
    × (e.failing ≡ false
        → (made.desired_nodes ≤ after.desired)
          × ((later : ℕ)
              → later - now < w.stabilization_window
              → can_scale e.watcher later made.name ≡ false))
    × (e.failing ≡ true → (after ≡ g) × (e.watcher ≡ w))

Outcome-enough :
    (now : ℕ) (made : ScaleUpDecision) (w : Watcher) (g : ScaledGroup)
    → made.desired_nodes ≤ g.desired
    → Outcome now made w g
        record { watcher = record_scale_event now made.name w; stored = some g; failing = false }
Outcome-enough now made w g enough = (
  g,
  refl,
  omega arith,
  inl (omega arith),
  λ h. (enough, λ later k. recorded_in_cooldown now later made.name w k),
  λ h. ground arith,
)

Outcome-saved :
    (now : ℕ) (saves : Bool) (made : ScaleUpDecision) (w : Watcher) (g : ScaledGroup)
    → g.desired ≤ made.desired_nodes
    → Outcome now made w g (
        if saves
        then record {
          watcher = record_scale_event now made.name w;
          stored = some (record g { desired = made.desired_nodes; last_scale_time = some now });
          failing = false;
        }
        else record { watcher = w; stored = some g; failing = true })
Outcome-saved now true made w g less = (
  record g { desired = made.desired_nodes; last_scale_time = some now },
  refl,
  less,
  inr (omega arith),
  λ h. (omega arith, λ later k. recorded_in_cooldown now later made.name w k),
  λ h. ground arith,
)
Outcome-saved now false made w g less =
    (g, refl, omega arith, inl (omega arith), λ h. ground arith, λ h. (refl, refl))

-- The execution never lowers the desired count of the stored group, nor raises it above both what it was
-- and what was decided. If it returns no error, at least the decided count is desired, and the group
-- is in its cooldown until the stabilization window has passed; if it returns one, nothing changed.
pub execute_scale_up-reached :
    (now : ℕ) (saves : Bool) (made : ScaleUpDecision) (w : Watcher) (g : ScaledGroup)
    → (after : ScaledGroup) × ((execute_scale_up now saves made w (some g)).stored ≡ some after)
      × (g.desired ≤ after.desired)
      × ((after.desired ≤ g.desired) ⊎ (after.desired ≤ made.desired_nodes))
      × ((execute_scale_up now saves made w (some g)).failing ≡ false
          → (made.desired_nodes ≤ after.desired)
            × ((later : ℕ)
                → later - now < w.stabilization_window
                → can_scale (execute_scale_up now saves made w (some g)).watcher later made.name
                  ≡ false))
      × ((execute_scale_up now saves made w (some g)).failing ≡ true
          → (after ≡ g) × ((execute_scale_up now saves made w (some g)).watcher ≡ w))
unfolding execute_scale_up
execute_scale_up-reached now saves made w g = elim (Bool-cases (leb made.desired_nodes g.desired)) [
  | inl e ↦ rw e (Outcome-enough now made w g (leb→le made.desired_nodes g.desired e))
  | inr e ↦ rw e (Outcome-saved now saves made w g (ground arith))
]
