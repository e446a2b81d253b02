-- ===== src/Extraction/CircuitBreaker.antt =====
-- `CircuitBreaker` of src/extraction/circuit_breaker.py. Times are natural numbers of a fixed tick;
-- each reading of the clock is an argument, in the order of the calls. A difference of times is
-- compared by a sum, so that a clock that runs backwards is covered too.
pub mod Invariant
pub mod Admission
pub mod History
use ai_internship_demo_task.Prelude.{
  ℕ, ◌+◌, Bool, true, false, ltb, leb, List, [], ◌∷◌, if◌then◌else◌,
}
use ai_internship_demo_task.Prelude.Result.{Result, ok, raise}

pub data State : Type 0 where
  closed open_state half_open : State

pub record Breaker : Type 0 where
  pub failure_threshold : ℕ
  pub recovery_timeout : ℕ
  pub state : State
  pub failures : ℕ
  pub last_failure : ℕ
  pub half_open_probe : Bool

pub data ConfigError : Type 0 where
  threshold_not_positive : ConfigError

-- A negative `recovery_timeout` cannot be written here, so its check has no branch.
unfoldable pub init : ℕ → ℕ → Result ConfigError Breaker
init threshold timeout =
    if ltb threshold 1
    then raise threshold_not_positive
    else ok (record {
      failure_threshold = threshold;
      recovery_timeout = timeout;
      state = closed;
      failures = 0;
      last_failure = 0;
      half_open_probe = false;
    })

unfoldable pub record_success : Breaker → Breaker
record_success b = record b {
  state = closed;
  failures = 0;
  last_failure = 0;
  half_open_probe = false;
}

unfoldable pub open_circuit : ℕ → Breaker → Breaker
open_circuit now b = record b { state = open_state; last_failure = now; half_open_probe = false }

-- The failure below the test on HALF_OPEN: `now` is the reading that is stored, `now'` that of `_open`.
unfoldable pub count_failure : ℕ → ℕ → Breaker → Breaker
unfolding open_circuit
count_failure now now' b =
    let b' : Breaker = record b { failures = b.failures + 1; last_failure = now } in
    if leb b'.failure_threshold b'.failures then open_circuit now' b' else b'

unfoldable pub record_failure_in : State → ℕ → ℕ → Breaker → Breaker
unfolding count_failure open_circuit
record_failure_in half_open now now' b = open_circuit now b
record_failure_in closed now now' b = count_failure now now' b
record_failure_in open_state now now' b = count_failure now now' b

unfoldable pub record_failure : ℕ → ℕ → Breaker → Breaker
unfolding record_failure_in
record_failure now now' b = record_failure_in b.state now now' b

-- The last test of `can_execute`, in HALF_OPEN.
unfoldable pub claim_probe : Breaker → Bool × Breaker
claim_probe b =
    if b.half_open_probe then (false, b) else (true, record b { half_open_probe = true })

unfoldable pub can_execute_in : State → ℕ → Breaker → Bool × Breaker
unfolding claim_probe
can_execute_in closed now b = (true, b)
can_execute_in open_state now b =
    if ltb now (b.last_failure + b.recovery_timeout)
    then (false, b)
    else claim_probe (record b { state = half_open; half_open_probe = false })
can_execute_in half_open now b = claim_probe b

-- `can_execute`: whether a call is let through, and the breaker after it.
unfoldable pub can_execute : ℕ → Breaker → Bool × Breaker
unfolding can_execute_in
can_execute now b = can_execute_in b.state now b

-- What the orchestrator does to a breaker, with the clock readings of each call.
pub data Event : Type 0 where
  ask : ℕ → Event
  success : Event
  failure : ℕ → ℕ → Event

unfoldable pub step : Breaker → Event → Breaker
unfolding can_execute record_success record_failure
step b (ask now) = (can_execute now b).1
step b success = record_success b
step b (failure now now') = record_failure now now' b

unfoldable pub run : Breaker → List Event → Breaker
unfolding step
run b [] = b
run b (e ∷ es) = run (step b e) es
