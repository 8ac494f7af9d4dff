-- ===== src/Breaker/Opening.antt =====
-- When a closed breaker opens, and what an open or half-open one refuses.
use vpsie_k8s_autoscaler.Prelude.{
  ℕ, ◌+◌, ◌≤◌, ◌<◌, ◌≡◌, ◌↔◌, ◌⊎◌, Bool, false, List, [], ◌∷◌, length, length-set, some, pos, ◌≤ℤ◌,
  arith, ltb, if◌then◌else◌,
}
use vpsie_k8s_autoscaler.Prelude.Floats.{Floats}
use vpsie_k8s_autoscaler.Breaker.{closed, open_state, half_open, circuit_open, Breaker, call}
use vpsie_k8s_autoscaler.Breaker.Invariant.{rate_gated}

module _ (F : Floats) where
  -- Calls made one after another: each has its result and its two clock readings.
  unfoldable pub run_calls : List (Bool × ℕ × ℕ) → Breaker F → Breaker F
  run_calls [] b = b
  run_calls ((ok, now, later) ∷ cs) b = run_calls cs (call F ok now later b).0

  abbrev pub failing : List (ℕ × ℕ) → List (Bool × ℕ × ℕ)
  failing [] = []
  failing ((now, later) ∷ ts) = (false, now, later) ∷ failing ts

  call_failing-closed :
      (now later : ℕ) (b : Breaker F)
      → b.state ≡ closed
      → rate_gated F b ≡ false
      → b.failure_count + 1 < b.config.failure_threshold
      → ((call F false now later b).0.state ≡ closed)
        × (rate_gated F (call F false now later b).0 ≡ false)
        × ((call F false now later b).0.failure_count ≡ b.failure_count + 1)
        × ((call F false now later b).0.config ≡ b.config)
  unfolding call
  call_failing-closed now later b s g h =
      ground (arith, length-set b.sliding_window b.window_index false)

  call_failing-trips :
      (now later : ℕ) (b : Breaker F)
      → b.state ≡ closed
      → rate_gated F b ≡ false
      → b.failure_count + 1 ≡ b.config.failure_threshold
      → ((call F false now later b).0.state ≡ open_state)
        × ((call F false now later b).0.last_state_change ≡ later)
  unfolding call
  call_failing-trips now later b s g h =
      ground (arith, length-set b.sliding_window b.window_index false)

  -- With no failure rate configured, consecutive failures leave a closed breaker closed as long as
  -- they are fewer than the threshold, and the one that reaches it opens the breaker.
  pub run_calls-failing :
      (ts : List (ℕ × ℕ)) (b : Breaker F)
      → b.state ≡ closed
      → rate_gated F b ≡ false
      → b.failure_count < b.config.failure_threshold
      → b.failure_count + length ts ≤ b.config.failure_threshold
      → (run_calls (failing ts) b).state ≡ (
          if ltb (b.failure_count + length ts) b.config.failure_threshold
          then closed
          else open_state)
  unfolding run_calls
  run_calls-failing [] b s g h le = ground arith
  run_calls-failing ((now, later) ∷ []) b s g h le =
      ground (arith, call_failing-closed now later b, call_failing-trips now later b)
  run_calls-failing ((now, later) ∷ t ∷ ts) b s g h le = ground (
    arith,
    call_failing-closed now later b,
    run_calls-failing (t ∷ ts) (call F false now later b).0,
  )

  -- A call is refused exactly if the breaker is open and its timeout has not elapsed, or it is
  -- half-open with the limit of requests reached.
  pub call_refused_iff :
      (ok : Bool) (now later : ℕ) (b : Breaker F)
      → ((call F ok now later b).1 ≡ some circuit_open) ↔ (
          ((b.state ≡ open_state) × (now < b.last_state_change + b.config.timeout))
          ⊎ ((b.state ≡ half_open) × (pos b.config.max_half_open_requests ≤ℤ b.half_open_requests)))
  unfolding call
  call_refused_iff ok now later b = ground arith
