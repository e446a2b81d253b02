-- ===== src/Extraction/CircuitBreaker/Invariant.antt =====
-- What holds of a circuit breaker between two calls.
use ai_internship_demo_task.Prelude.{ℕ, ◌≤◌, ◌<◌, true, List, [], ◌∷◌, ◌≡◌, arith}
use ai_internship_demo_task.Prelude.Result.{ok}
use ai_internship_demo_task.Extraction.CircuitBreaker.{
  closed, half_open, Breaker, init, Event, ask, success, failure, step, run,
}

-- A closed breaker is below its threshold, and HALF_OPEN stands exactly while its probe is out.
pub record IsValid (b : Breaker) : Type 0 where
  pub positive : 1 ≤ b.failure_threshold
  pub below : b.state ≡ closed → b.failures < b.failure_threshold
  pub probing : b.state ≡ half_open → b.half_open_probe ≡ true
  pub probe_only : b.half_open_probe ≡ true → b.state ≡ half_open

pub init-IsValid : (n t : ℕ) {b : Breaker} → init n t ≡ ok b → IsValid b
unfolding init
init-IsValid n t h = ground arith

step-IsValid : {b : Breaker} (e : Event) → IsValid b → IsValid (step b e)
unfolding step
step-IsValid (ask now) v = ground arith
step-IsValid success v = ground arith
step-IsValid (failure now now') v = ground arith

-- Every sequence of calls, at any clock readings, keeps a valid breaker valid.
pub run-IsValid : (es : List Event) {b : Breaker} → IsValid b → IsValid (run b es)
unfolding run
run-IsValid [] v = v
run-IsValid (e ∷ es) v = run-IsValid es (step-IsValid e v)

-- The two configured numbers never change.
pub step-config :
    (b : Breaker) (e : Event)
    → ((step b e).failure_threshold ≡ b.failure_threshold)
      × ((step b e).recovery_timeout ≡ b.recovery_timeout)
unfolding step
step-config b (ask now) = ground arith
step-config b success = ground arith
step-config b (failure now now') = ground arith
