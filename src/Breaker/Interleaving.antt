-- ===== src/Breaker/Interleaving.antt =====
-- Callers that share one breaker: critical sections of several calls in any order.
use vpsie_k8s_autoscaler.Prelude.{
  ℕ, suc, ◌+◌, ◌≤◌, ◌≡◌, refl, Bool, true, ◌&&◌, not, List, [], ◌∷◌, length, none, some, is_some,
  pos, ◌+ℤ◌, arith,
}
use vpsie_k8s_autoscaler.Prelude.Floats.{Floats}
use vpsie_k8s_autoscaler.Breaker.{
  open_state, half_open, CallError, Config, Breaker, new_circuit_breaker, before_call, after_call,
  reset,
}
use vpsie_k8s_autoscaler.Breaker.Invariant.{
  IsValid, new_circuit_breaker-IsValid, before_call-IsValid, after_call-IsValid, reset-IsValid,
}

module _ (F : Floats) where
  -- A breaker, and how many admitted calls have not come back.
  pub record Shared : Type 0 where
    pub breaker : Breaker F
    pub in_flight : ℕ

  pub data Step : Shared → Shared → Type 0 where
    begin :
        (s : Shared) (now later : ℕ)
        → (before_call F now later s.breaker).1 ≡ none
        → Step s (record {
          breaker = (before_call F now later s.breaker).0;
          in_flight = suc s.in_flight;
        })
    refuse :
        (s : Shared) (now later : ℕ) {e : CallError}
        → (before_call F now later s.breaker).1 ≡ some e
        → Step s (record s { breaker = (before_call F now later s.breaker).0 })
    finish :
        (s : Shared) (n : ℕ) (ok : Bool) (now later : ℕ)
        → s.in_flight ≡ suc n
        → Step s (record { breaker = after_call F ok now later s.breaker; in_flight = n })
    clear : (s : Shared) (now : ℕ) → Step s (record s { breaker = reset F now s.breaker })

  pub data Reach (s : Shared) : Shared → Type 0 where
    here : Reach s s
    next : {t u : Shared} → Reach s t → Step t u → Reach s u

  -- Results counted and results still to come are no more than the calls that were made.
  pub record IsAccounted (s : Shared) : Type 0 where
    pub valid : IsValid F s.breaker
    pub accounted :
        s.breaker.total_successes + s.breaker.total_failures + s.in_flight
        ≤ s.breaker.total_requests

  before_call-totals :
      (now later : ℕ) (b : Breaker F)
      → ((before_call F now later b).0.total_successes ≡ b.total_successes)
        × ((before_call F now later b).0.total_failures ≡ b.total_failures)
        × ((before_call F now later b).0.total_requests ≡ b.total_requests + 1)
  unfolding before_call
  before_call-totals now later b = ground arith

  after_call-totals :
      (ok : Bool) (now later : ℕ) (b : Breaker F)
      → ((after_call F ok now later b).total_successes
            + (after_call F ok now later b).total_failures
          ≤ b.total_successes + b.total_failures + 1)
        × ((after_call F ok now later b).total_requests ≡ b.total_requests)
  unfolding after_call
  after_call-totals ok now later b = ground arith

  reset-totals :
      (now : ℕ) (b : Breaker F)
      → ((reset F now b).total_successes ≡ b.total_successes)
        × ((reset F now b).total_failures ≡ b.total_failures)
        × ((reset F now b).total_requests ≡ b.total_requests)
  unfolding reset
  reset-totals now b = (refl, refl, refl)

  Step-IsAccounted : {s t : Shared} → Step s t → IsAccounted s → IsAccounted t
  Step-IsAccounted (begin s now later e) a = record {
    valid = before_call-IsValid F now later s.breaker a.valid;
    accounted = omega (arith, a.accounted, before_call-totals now later s.breaker);
  }
  Step-IsAccounted (refuse s now later e) a = record {
    valid = before_call-IsValid F now later s.breaker a.valid;
    accounted = omega (arith, a.accounted, before_call-totals now later s.breaker);
  }
  Step-IsAccounted (finish s n ok now later e) a = record {
    valid = after_call-IsValid F ok now later s.breaker a.valid;
    accounted = omega (arith, a.accounted, after_call-totals ok now later s.breaker);
  }
  Step-IsAccounted (clear s now) a = record {
    valid = reset-IsValid F now s.breaker a.valid;
    accounted = omega (arith, a.accounted, reset-totals now s.breaker);
  }

  Reach-keeps : {s t : Shared} → Reach s t → IsAccounted s → IsAccounted t
  Reach-keeps here a = a
  Reach-keeps (next r st) a = Step-IsAccounted st (Reach-keeps r a)

  abbrev pub fresh : ℕ → Config F → Shared
  fresh now c = record { breaker = new_circuit_breaker F now c; in_flight = 0 }

  fresh-IsAccounted : (now : ℕ) (c : Config F) → IsAccounted (fresh now c)
  unfolding new_circuit_breaker
  fresh-IsAccounted now c = record {
    valid = new_circuit_breaker-IsValid F now c;
    accounted = omega arith;
  }

  -- From a new breaker, after any interleaving of calls, results and resets, the invariant holds
  -- and the recorded results with the calls in flight are at most the requests counted.
  pub Reach-IsAccounted :
      (now : ℕ) (c : Config F) {t : Shared} → Reach (fresh now c) t → IsAccounted t
  Reach-IsAccounted now c r = Reach-keeps r (fresh-IsAccounted now c)

  -- Calls that start one after another with none coming back; the flag says that all are admitted.
  pub begin_all : List (ℕ × ℕ) → Breaker F → Breaker F × Bool
  begin_all [] b = (b, true)
  begin_all ((now, later) ∷ ts) b =
      let (b', refusal) = before_call F now later b in
      let (b'', rest) = begin_all ts b' in (b'', not (is_some refusal) && rest)

  probe_again :
      (ts : List (ℕ × ℕ)) (n : ℕ) (b : Breaker F)
      → b.state ≡ half_open
      → b.half_open_requests ≡ pos n
      → n + length ts ≤ b.config.max_half_open_requests
      → (begin_all ts b).1 ≡ true
  unfolding begin_all before_call ◌+ℤ◌
  probe_again [] n b s h le = refl
  probe_again ((now, later) ∷ ts) n b s h le = ground (
    arith,
    probe_again ts (n + 1) (record b {
      total_requests = b.total_requests + 1;
      half_open_requests = pos (n + 1);
      half_open_attempts = b.half_open_attempts + 1;
    }),
  )

  -- An open breaker whose timeout has elapsed admits `max_half_open_requests + 1` calls at once:
  -- the call that makes it half-open is not counted against the limit.
  pub begin_all_exceeds_cap :
      (now later : ℕ) (ts : List (ℕ × ℕ)) (b : Breaker F)
      → b.state ≡ open_state
      → b.last_state_change + b.config.timeout ≤ now
      → length ts ≡ b.config.max_half_open_requests
      → (begin_all ((now, later) ∷ ts) b).1 ≡ true
  unfolding begin_all before_call
  begin_all_exceeds_cap now later ts b s h e =
      ground (arith, probe_again ts 0 (before_call F now later b).0)
