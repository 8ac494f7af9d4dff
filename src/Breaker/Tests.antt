-- ===== src/Breaker/Tests.antt =====
-- The circuit breaker run at concrete inputs, with the default configuration.
use vpsie_k8s_autoscaler.Prelude.{
  ℕ, ◌≡◌, refl, true, false, List, [], ◌∷◌, some, negsuc, ◌-ℤ◌, inl, arith,
}
use vpsie_k8s_autoscaler.Prelude.Floats.{ratios}
use vpsie_k8s_autoscaler.Breaker.{
  closed, open_state, circuit_open, Breaker, default_config, new_circuit_breaker, before_call,
  after_call, call,
}
use vpsie_k8s_autoscaler.Breaker.Opening.{run_calls, failing, run_calls-failing, call_refused_iff}
use vpsie_k8s_autoscaler.Breaker.Recovery.{succeeding, run_calls_recover}
use vpsie_k8s_autoscaler.Breaker.Interleaving.{
  Shared, IsAccounted, fresh, begin, finish, here, next, Reach-IsAccounted,
}

abbrev start : Breaker ratios
unfolding new_circuit_breaker default_config
start = new_circuit_breaker ratios 0 (default_config ratios)

abbrev five : List (ℕ × ℕ)
five = (1, 1) ∷ (2, 2) ∷ (3, 3) ∷ (4, 4) ∷ (5, 6) ∷ []

tripped : Breaker ratios
unfolding run_calls call start
tripped = run_calls ratios (failing ratios five) start

probing : Breaker ratios
unfolding tripped call ◌-ℤ◌
probing = (call ratios true 30000000006 30000000006 tripped).0

run_calls-failing_example : (run_calls ratios (failing ratios five) start).state ≡ open_state
unfolding start
run_calls-failing_example =
    run_calls-failing ratios five start refl refl (omega arith) (omega arith)

tripped_once : tripped.last_state_change ≡ 6
unfolding tripped
tripped_once = refl

probing_request : probing.half_open_requests ≡ negsuc 0
unfolding probing
probing_request = refl

call_refused_iff_example : (call ratios true 9 9 tripped).1 ≡ some circuit_open
unfolding tripped
call_refused_iff_example = (call_refused_iff ratios true 9 9 tripped).1 (inl (refl, omega arith))

refused : (call ratios true 9 9 tripped).1 ≡ some circuit_open
unfolding tripped call ◌-ℤ◌
refused = refl

run_calls_recover_example :
    (run_calls ratios
      (succeeding ratios ((30000000006, 30000000006) ∷ (30000000007, 30000000007) ∷ []))
      tripped).state
    ≡ closed
unfolding tripped
run_calls_recover_example =
    run_calls_recover ratios 30000000006 30000000006 ((30000000007, 30000000007) ∷ []) tripped refl
      (omega arith) refl

one_begun : Shared ratios
unfolding before_call start
one_begun = record { breaker = (before_call ratios 3 3 start).0; in_flight = 1 }

Reach-IsAccounted_example :
    IsAccounted ratios
      (record { breaker = after_call ratios false 5 5 one_begun.breaker; in_flight = 0 })
unfolding one_begun
Reach-IsAccounted_example = Reach-IsAccounted ratios 0 (default_config ratios) (
    next (next here (begin (fresh ratios 0 (default_config ratios)) 3 3 refl))
      (finish one_begun 0 false 5 5 refl))
