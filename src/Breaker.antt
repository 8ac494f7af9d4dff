-- ===== src/Breaker.antt =====
-- The circuit breaker of the API client: pkg/vpsie/client/circuitbreaker.go.
-- A method that locks the breaker is one step; a clock reading is an argument of the step that
-- takes it. Times and durations are nanoseconds; a counter is not bounded by its Go type.
pub mod Invariant
pub mod Opening
pub mod Recovery
pub mod Interleaving
mod Tests
use vpsie_k8s_autoscaler.Prelude.{
  ℕ, suc, ◌+◌, ◌%◌, ℤ, pos, ◌+ℤ◌, ◌-ℤ◌, sub_ℕ, lebℤ, ltb, leb, ◌==◌, if◌then◌else◌, Bool, true,
  false, not, ◌&&◌, Option, none, some, List, [], ◌∷◌, length, replicate, set,
}
use vpsie_k8s_autoscaler.Prelude.Floats.{Floats}

pub data CircuitState : Type 0 where
  closed open_state half_open : CircuitState

pub data CallError : Type 0 where
  circuit_open : CallError

-- `OnStateChange` is represented by the record of the changes that it is told of.
pub record StateChange : Type 0 where
  pub old_state : CircuitState
  pub new_state : CircuitState

abbrev pub same_state : CircuitState → CircuitState → Bool
same_state closed closed = true
same_state open_state open_state = true
same_state half_open half_open = true
same_state _ _ = false

module _ (F : Floats) where
  open F use {Float, of_int, literal, div, lt, le}

  pub record Config : Type 0 where
    pub failure_threshold : ℕ
    pub success_threshold : ℕ
    pub timeout : ℕ
    pub max_half_open_requests : ℕ
    pub failure_rate_threshold : Float
    pub sliding_window_size : ℕ

  unfoldable pub default_config : Config
  default_config = record {
    failure_threshold = 5;
    success_threshold = 2;
    timeout = 30000000000;
    max_half_open_requests = 1;
    failure_rate_threshold = literal 0 1;
    sliding_window_size = 0;
  }

  pub record Breaker : Type 0 where
    pub config : Config
    pub state : CircuitState
    pub failure_count : ℕ
    pub success_count : ℕ
    pub last_state_change : ℕ
    pub half_open_requests : ℤ
    pub total_requests : ℕ
    pub total_failures : ℕ
    pub total_successes : ℕ
    pub consecutive_failures : ℕ
    pub open_duration_total : ℤ
    pub half_open_duration_total : ℤ
    pub last_open_time : ℕ
    pub last_half_open_time : ℕ
    pub half_open_attempts : ℕ
    pub half_open_successes : ℕ
    pub half_open_failures : ℕ
    pub sliding_window : List Bool
    pub window_index : ℕ
    pub changes : List StateChange

  unfoldable pub new_circuit_breaker : ℕ → Config → Breaker
  new_circuit_breaker now c = record {
    config = c;
    state = closed;
    failure_count = 0;
    success_count = 0;
    last_state_change = now;
    half_open_requests = pos 0;
    total_requests = 0;
    total_failures = 0;
    total_successes = 0;
    consecutive_failures = 0;
    open_duration_total = pos 0;
    half_open_duration_total = pos 0;
    last_open_time = 0;
    last_half_open_time = 0;
    half_open_attempts = 0;
    half_open_successes = 0;
    half_open_failures = 0;
    sliding_window = replicate c.sliding_window_size true;
    window_index = 0;
    changes = [];
  }

  -- `later` is the second reading of the clock, which `transitionTo` takes itself.
  unfoldable pub transition_to : ℕ → CircuitState → Breaker → Breaker
  transition_to later new b = if same_state new b.state then b else record b {
    state = new;
    last_state_change = later;
    failure_count = 0;
    success_count = 0;
    half_open_requests = pos 0;
    changes = record { old_state = b.state; new_state = new } ∷ b.changes;
  }

  -- The switch of `beforeCall`, after `totalRequests` is raised.
  admit : CircuitState → ℕ → ℕ → Breaker → Breaker × Option CallError
  unfolding transition_to
  admit closed now later b = (b, none)
  admit open_state now later b =
      if leb (b.last_state_change + b.config.timeout) now
      then (
        record (transition_to later half_open (record b {
          open_duration_total = b.open_duration_total +ℤ sub_ℕ now b.last_open_time;
        })) { last_half_open_time = now },
        none,
      )
      else (b, some circuit_open)
  admit half_open now later b =
      if lebℤ (pos b.config.max_half_open_requests) b.half_open_requests
      then (b, some circuit_open)
      else (
        record b {
          half_open_requests = b.half_open_requests +ℤ pos 1;
          half_open_attempts = b.half_open_attempts + 1;
        },
        none,
      )

  unfoldable pub before_call : ℕ → ℕ → Breaker → Breaker × Option CallError
  unfolding admit
  before_call now later b =
      admit b.state now later (record b { total_requests = b.total_requests + 1 })

  count_failures : List Bool → ℕ
  count_failures [] = 0
  count_failures (true ∷ w) = count_failures w
  count_failures (false ∷ w) = suc (count_failures w)

  unfoldable pub calculate_failure_rate : Breaker → Float
  unfolding count_failures
  calculate_failure_rate b =
      if length b.sliding_window == 0
      then literal 0 1
      else div (of_int (pos (count_failures b.sliding_window)))
          (of_int (pos (length b.sliding_window)))

  record_result : Bool → Breaker → Breaker
  record_result ok b =
      if ltb 0 (length b.sliding_window)
      then record b {
        sliding_window = set b.sliding_window b.window_index ok;
        window_index = (b.window_index + 1) % length b.sliding_window;
      }
      else b

  -- Both ways to open from the closed state, with the failure rate tested where it is configured.
  should_open : Breaker → Bool
  unfolding calculate_failure_rate
  should_open b =
      if leb b.config.failure_threshold b.failure_count
      then (if lt (literal 0 1) b.config.failure_rate_threshold && ltb 0 (length b.sliding_window)
          then le b.config.failure_rate_threshold (calculate_failure_rate b)
          else true)
      else false

  -- The switch of `afterCall`; `ok` is `err == nil`.
  settle : CircuitState → Bool → ℕ → ℕ → Breaker → Breaker
  unfolding transition_to should_open
  settle closed false now later b =
      let counted = record b {
        failure_count = b.failure_count + 1;
        consecutive_failures = b.consecutive_failures + 1;
        success_count = 0;
        total_failures = b.total_failures + 1;
      } in
      if should_open counted
      then record (transition_to later open_state counted) { last_open_time = now }
      else counted
  settle closed true now later b = record b {
    failure_count = 0;
    consecutive_failures = 0;
    success_count = b.success_count + 1;
    total_successes = b.total_successes + 1;
  }
  settle half_open false now later b =
      record (transition_to later open_state (record b {
        half_open_requests = b.half_open_requests -ℤ pos 1;
        failure_count = b.failure_count + 1;
        consecutive_failures = b.consecutive_failures + 1;
        success_count = 0;
        total_failures = b.total_failures + 1;
        half_open_failures = b.half_open_failures + 1;
        half_open_duration_total = b.half_open_duration_total +ℤ sub_ℕ now b.last_half_open_time;
      })) { last_open_time = now }
  settle half_open true now later b =
      let counted = record b {
        half_open_requests = b.half_open_requests -ℤ pos 1;
        failure_count = 0;
        consecutive_failures = 0;
        success_count = b.success_count + 1;
        total_successes = b.total_successes + 1;
        half_open_successes = b.half_open_successes + 1;
      } in
      if leb b.config.success_threshold counted.success_count
      then transition_to later closed (record counted {
        half_open_duration_total = b.half_open_duration_total +ℤ sub_ℕ now b.last_half_open_time;
      })
      else counted
  settle open_state ok now later b = b

  unfoldable pub after_call : Bool → ℕ → ℕ → Breaker → Breaker
  unfolding settle record_result
  after_call ok now later b = settle b.state ok now later (record_result ok b)

  -- `Call`, when no other call runs meanwhile: the function's result is an argument.
  unfoldable pub call : Bool → ℕ → ℕ → Breaker → Breaker × Option CallError
  unfolding before_call after_call
  call ok now later b =
      let (admitted, refusal) = before_call now later b in
      elim refusal [ none ↦ (after_call ok now later admitted, none) | some e ↦ (admitted, some e) ]

  unfoldable pub reset : ℕ → Breaker → Breaker
  reset now b = record b {
    state = closed;
    failure_count = 0;
    success_count = 0;
    half_open_requests = pos 0;
    last_state_change = now;
  }
