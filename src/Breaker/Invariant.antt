-- ===== src/Breaker/Invariant.antt =====
-- What holds of a circuit breaker between two critical sections.
use native.Mathlib.Nat.{mod-lt}
use vpsie_k8s_autoscaler.Prelude.{
  ℕ, ◌+◌, ◌≤◌, ◌<◌, ◌≡◌, pos, ◌≤ℤ◌, ◌+ℤ◌, ◌-ℤ◌, Bool, true, false, ◌&&◌, ltb, length, length-set,
  length-replicate, All, arith,
}
use vpsie_k8s_autoscaler.Prelude.Floats.{Floats}
use vpsie_k8s_autoscaler.Breaker.{
  CircuitState, closed, open_state, half_open, StateChange, Config, Breaker, new_circuit_breaker,
  before_call, record_result, settle, after_call, reset,
}

-- The state diagram: closed to open to half-open, and from there to either.
pub data IsEdge : StateChange → Type 0 where
  trip : IsEdge (record { old_state = closed; new_state = open_state })
  probe : IsEdge (record { old_state = open_state; new_state = half_open })
  relapse : IsEdge (record { old_state = half_open; new_state = open_state })
  recover : IsEdge (record { old_state = half_open; new_state = closed })

module _ (F : Floats) where
  -- The failure rate takes part in opening.
  abbrev pub rate_gated : Breaker F → Bool
  rate_gated b =
      F.lt (F.literal 0 1) b.config.failure_rate_threshold && ltb 0 (length b.sliding_window)

  pub record IsValid (b : Breaker F) : Type 0 where
    pub window_size : length b.sliding_window ≡ b.config.sliding_window_size
    pub index_in_range : 0 < length b.sliding_window → b.window_index < length b.sliding_window
    pub half_open_capped : b.half_open_requests ≤ℤ pos b.config.max_half_open_requests
    pub failures_consecutive : b.failure_count ≤ b.consecutive_failures
    pub successes_split : b.half_open_successes ≤ b.total_successes
    pub failures_split : b.half_open_failures ≤ b.total_failures
    pub attempts_split : b.half_open_attempts ≤ b.total_requests
    pub closed_below :
        b.state ≡ closed
        → 0 < b.config.failure_threshold
        → rate_gated b ≡ false
        → b.failure_count < b.config.failure_threshold
    pub half_open_below :
        b.state ≡ half_open
        → 0 < b.config.success_threshold
        → b.success_count < b.config.success_threshold
    pub edges : All IsEdge b.changes

  pub new_circuit_breaker-IsValid : (now : ℕ) (c : Config F) → IsValid (new_circuit_breaker F now c)
  unfolding new_circuit_breaker
  new_circuit_breaker-IsValid now c = ground (arith, length-replicate c.sliding_window_size true)

  pub before_call-IsValid :
      (now later : ℕ) (b : Breaker F) → IsValid b → IsValid (before_call F now later b).0
  unfolding before_call ◌+ℤ◌
  before_call-IsValid now later b v = ground (arith, probe)

  record_result-IsValid : (ok : Bool) (b : Breaker F) → IsValid b → IsValid (record_result F ok b)
  unfolding record_result
  record_result-IsValid ok b v = ground (
    arith,
    length-set b.sliding_window b.window_index ok,
    mod-lt (b.window_index + 1) {m = length b.sliding_window},
  )

  settle-IsValid :
      (s : CircuitState) (ok : Bool) (now later : ℕ) (b : Breaker F)
      → b.state ≡ s
      → IsValid b
      → IsValid (settle F s ok now later b)
  unfolding settle ◌-ℤ◌
  settle-IsValid closed true now later b e v = ground arith
  settle-IsValid closed false now later b e v = ground (arith, trip)
  settle-IsValid half_open true now later b e v = ground (arith, recover)
  settle-IsValid half_open false now later b e v = ground (arith, relapse)
  settle-IsValid open_state ok now later b e v = v

  pub after_call-IsValid :
      (ok : Bool) (now later : ℕ) (b : Breaker F)
      → IsValid b
      → IsValid (after_call F ok now later b)
  unfolding after_call
  after_call-IsValid ok now later b v =
      settle-IsValid b.state ok now later (record_result F ok b) (ground arith)
        (record_result-IsValid ok b v)

  pub reset-IsValid : (now : ℕ) (b : Breaker F) → IsValid b → IsValid (reset F now b)
  unfolding reset
  reset-IsValid now b v = ground arith
