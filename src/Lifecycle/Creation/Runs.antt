-- ===== src/Lifecycle/Creation/Runs.antt =====
-- Creations over any run of reconciliations of one object.
use vpsie_k8s_autoscaler.Prelude.{
  ℕ, ◌+◌, ◌≤◌, ◌≡◌, refl, Option, none, some, List, [], ◌∷◌, All, arith,
}
use vpsie_k8s_autoscaler.Lifecycle.Types.{VpsieNode}
use vpsie_k8s_autoscaler.Lifecycle.Env.{Env}
use vpsie_k8s_autoscaler.Lifecycle.Reconciler.{Writes, reconcile}
use vpsie_k8s_autoscaler.Lifecycle.Creation.Requests.{accepted, remembered}
use vpsie_k8s_autoscaler.Lifecycle.Creation.Passes.{memory, remembered-le, reconcile-Keeps}

-- What happens to one object: reconciliations, and at any time a request to delete it.
pub data Event : Type 0 where
  pass : Env → Writes → Event
  deletion_requested : ℕ → Event

abbrev pub mark_for_deletion : ℕ → Option VpsieNode → Option VpsieNode
mark_for_deletion t none = none
mark_for_deletion t (some vn) = some (record vn { deletion_timestamp = some t })

-- The stored object after the events, and the creations that the API accepted on the way.
unfoldable pub run : ℕ → List Event → Option VpsieNode → Option VpsieNode × ℕ
run ttl [] s = (s, 0)
run ttl (pass env w ∷ es) s =
    let r = reconcile ttl env w s in
    let (last, created) = run ttl es r.stored in (last, accepted r.calls + created)
run ttl (deletion_requested t ∷ es) s = run ttl es (mark_for_deletion t s)

abbrev pub UpdateAccepted : Event → Type 0
UpdateAccepted (pass env w) = w.update ≡ none
UpdateAccepted (deletion_requested t) = Unit {0}

memory-le : (s : Option VpsieNode) → memory s ≤ 1
memory-le none = omega arith
memory-le (some vn) = remembered-le vn

mark_for_deletion-memory :
    (t : ℕ) (s : Option VpsieNode) → memory (mark_for_deletion t s) ≡ memory s
unfolding remembered
mark_for_deletion-memory t none = refl
mark_for_deletion-memory t (some vn) = refl

run-memory :
    (ttl : ℕ) (es : List Event) (s : Option VpsieNode)
    → All UpdateAccepted es
    → (run ttl es s).1 + memory s ≤ 1
unfolding run
run-memory ttl [] s ok = omega (arith, memory-le s)
run-memory ttl (pass env w ∷ es) s ok =
    omega (
      arith,
      reconcile-Keeps ttl env w s ok.0,
      run-memory ttl es (reconcile ttl env w s).stored ok.1,
    )
run-memory ttl (deletion_requested t ∷ es) s ok =
    omega (arith, mark_for_deletion-memory t s, run-memory ttl es (mark_for_deletion t s) ok.1)

-- As long as the API server accepts the object updates, any number of reconciliations of one object,
-- with any answers of the VPSie API and requests to delete it in between, has at most one creation
-- accepted; and none if the object remembers one already.
pub run_creates_once :
    (ttl : ℕ) (es : List Event) (vn : VpsieNode)
    → All UpdateAccepted es
    → ((run ttl es (some vn)).1 ≤ 1) × (remembered vn ≡ 1 → (run ttl es (some vn)).1 ≡ 0)
run_creates_once ttl es vn ok = omega (arith, run-memory ttl es (some vn) ok)
