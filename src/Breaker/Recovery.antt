-- ===== src/Breaker/Recovery.antt =====
-- How an open breaker comes back.
use vpsie_k8s_autoscaler.Prelude.{
  ℕ, suc, ◌+◌, ◌≤◌, ◌<◌, ◌≡◌, Bool, true, false, List, [], ◌∷◌, length, none, some, negsuc, ◌+ℤ◌,
  ◌-ℤ◌, arith,
}
use vpsie_k8s_autoscaler.Prelude.Floats.{Floats}
use vpsie_k8s_autoscaler.Breaker.{closed, open_state, half_open, circuit_open, Breaker, call}
use vpsie_k8s_autoscaler.Breaker.Opening.{run_calls}

module _ (F : Floats) where
  abbrev pub succeeding : List (ℕ × ℕ) → List (Bool × ℕ × ℕ)
  succeeding [] = []
  succeeding ((now, later) ∷ ts) = (true, now, later) ∷ succeeding ts

  -- A half-open breaker with no call in flight: the first probe was not counted as begun.
  record IsProbing (b : Breaker F) (successes : ℕ) : Type 0 where
    half : b.state ≡ half_open
    requests : b.half_open_requests ≡ negsuc 0
    successes_so_far : b.success_count ≡ successes

  probe-first :
      (now later : ℕ) (b : Breaker F)
      → b.state ≡ open_state
      → b.last_state_change + b.config.timeout ≤ now
      → 1 < b.config.success_threshold
      → IsProbing (call F true now later b).0 1 × ((call F true now later b).0.config ≡ b.config)
  unfolding call ◌-ℤ◌
  probe-first now later b s e h = ground arith

  probe-next :
      (now later n : ℕ) (b : Breaker F)
      → IsProbing b n
      → suc n < b.config.success_threshold
      → IsProbing (call F true now later b).0 (suc n)
        × ((call F true now later b).0.config ≡ b.config)
  unfolding call ◌-ℤ◌ ◌+ℤ◌
  probe-next now later n b p h = ground arith

  probe-last :
      (now later n : ℕ) (b : Breaker F)
      → IsProbing b n
      → suc n ≡ b.config.success_threshold
      → (call F true now later b).0.state ≡ closed
  unfolding call ◌-ℤ◌ ◌+ℤ◌
  probe-last now later n b p h = ground arith

  probe-only :
      (now later : ℕ) (b : Breaker F)
      → b.state ≡ open_state
      → b.last_state_change + b.config.timeout ≤ now
      → 1 ≡ b.config.success_threshold
      → (call F true now later b).0.state ≡ closed
  unfolding call ◌-ℤ◌
  probe-only now later b s e h = ground arith

  probe_on :
      (ts : List (ℕ × ℕ)) (n : ℕ) (b : Breaker F)
      → IsProbing b n
      → 0 < length ts
      → n + length ts ≡ b.config.success_threshold
      → (run_calls F (succeeding ts) b).state ≡ closed
  unfolding run_calls
  probe_on [] n b p l h = elim l [ ]
  probe_on ((now, later) ∷ []) n b p l h = probe-last now later n b p (omega arith)
  probe_on ((now, later) ∷ t ∷ ts) n b p l h =
      let (on, same) = probe-next now later n b p (omega arith) in
      probe_on (t ∷ ts) (suc n) (call F true now later b).0 on (omega arith) (rw same (omega arith))

  -- Once the timeout has elapsed, as many successful calls as the success threshold asks for close
  -- an open breaker.
  pub run_calls_recover :
      (now later : ℕ) (ts : List (ℕ × ℕ)) (b : Breaker F)
      → b.state ≡ open_state
      → b.last_state_change + b.config.timeout ≤ now
      → suc (length ts) ≡ b.config.success_threshold
      → (run_calls F (succeeding ((now, later) ∷ ts)) b).state ≡ closed
  unfolding run_calls
  run_calls_recover now later [] b s e h = probe-only now later b s e h
  run_calls_recover now later (t ∷ ts) b s e h =
      let (on, same) = probe-first now later b s e (omega arith) in
      probe_on (t ∷ ts) 1 (call F true now later b).0 on (omega arith) (rw same (omega arith))

  -- A failure while the breaker is half-open opens it again, and the timeout starts anew: until it
  -- has elapsed every call is refused.
  pub half_open_relapse :
      (now later now' later' : ℕ) (ok : Bool) (b : Breaker F)
      → b.state ≡ half_open
      → (call F false now later b).1 ≡ none
      → now' < later + b.config.timeout
      → (call F ok now' later' (call F false now later b).0).1 ≡ some circuit_open
  unfolding call
  half_open_relapse now later now' later' ok b s a h = ground arith
