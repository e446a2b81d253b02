-- ===== src/Extraction/CircuitBreaker/Admission.antt =====
-- Which calls a circuit breaker lets through.
use ai_internship_demo_task.Prelude.{
  ℕ, ◌+◌, ◌≤◌, Bool, true, false, List, [], ◌∷◌, ◌≡◌, refl, ◌↔◌, ◌⊎◌, arith, All, length,
}
use ai_internship_demo_task.Extraction.CircuitBreaker.{
  closed, open_state, half_open, Breaker, can_execute,
}
use ai_internship_demo_task.Extraction.CircuitBreaker.Invariant.{IsValid}

-- A valid breaker lets a call through exactly when it is closed, or open with its recovery time gone.
pub can_execute_iff :
    (now : ℕ) {b : Breaker}
    → IsValid b
    → ((can_execute now b).0 ≡ true) ↔ (
        (b.state ≡ closed) ⊎ ((b.state ≡ open_state) × (b.last_failure + b.recovery_timeout ≤ now)))
unfolding can_execute
can_execute_iff now v = (λ h. ground arith, λ h. ground arith)

-- The answers to calls at the given times, with no report between them.
unfoldable pub answers : Breaker → List ℕ → List Bool
answers b [] = []
answers b (now ∷ nows) = (can_execute now b).0 ∷ answers (can_execute now b).1 nows

length-answers : (nows : List ℕ) (b : Breaker) → length (answers b nows) ≡ length nows
unfolding answers
length-answers [] b = refl
length-answers (now ∷ nows) b = omega (arith, length-answers nows (can_execute now b).1)

-- A half-open breaker whose probe is out turns a call away and stays as it is.
pub can_execute-half_open :
    (now : ℕ) (b : Breaker)
    → b.state ≡ half_open
    → b.half_open_probe ≡ true
    → can_execute now b ≡ (false, b)
unfolding can_execute
can_execute-half_open now b s p = ground arith

waits :
    (nows : List ℕ) (b : Breaker)
    → b.state ≡ half_open
    → b.half_open_probe ≡ true
    → All (λ a. a ≡ false) (answers b nows)
unfolding answers
waits [] b s p = tt
waits (now ∷ nows) b s p = rw (can_execute-half_open now b s p) (refl, waits nows b s p)

-- The breaker that has just let its probe through.
unfoldable pub probing : Breaker → Breaker
probing b = record b { state = half_open; half_open_probe = true }

pub can_execute-open_state :
    (now : ℕ) (b : Breaker)
    → b.state ≡ open_state
    → b.last_failure + b.recovery_timeout ≤ now
    → can_execute now b ≡ (true, probing b)
unfolding can_execute probing
can_execute-open_state now b s late = ground arith

-- When an open breaker's recovery time is gone it lets one probe through, and turns away every
-- later call until the probe is reported, whatever the clock says.
pub answers_one_probe :
    (now : ℕ) (nows : List ℕ) (b : Breaker)
    → b.state ≡ open_state
    → b.last_failure + b.recovery_timeout ≤ now
    → (rest : List Bool) × (answers b (now ∷ nows) ≡ true ∷ rest)
      × (length rest ≡ length nows)
      × All (λ a. a ≡ false) rest
unfolding answers probing
answers_one_probe now nows b s late = (
  answers (probing b) nows,
  rw (can_execute-open_state now b s late),
  length-answers nows (probing b),
  waits nows (probing b) refl refl,
)
