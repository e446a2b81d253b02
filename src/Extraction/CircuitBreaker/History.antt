-- ===== src/Extraction/CircuitBreaker/History.antt =====
-- The breaker against the history of what was reported to it.
use ai_internship_demo_task.Prelude.{
  ℕ, ◌+◌, ◌≤◌, List, [], ◌∷◌, ◌≡◌, arith, ◌∙◌, leb, if◌then◌else◌,
}
use ai_internship_demo_task.Prelude.Result.{ok}
use ai_internship_demo_task.Extraction.CircuitBreaker.{
  State, closed, open_state, Breaker, init, record_success, record_failure,
}

-- A report: `none` is a success, a failure has its two clock readings.
pub data Report : Type 0 where
  succeeded : Report
  failed : ℕ → ℕ → Report

unfoldable pub tell : Breaker → List Report → Breaker
tell b [] = b
tell b (succeeded ∷ rs) = tell (record_success b) rs
tell b (failed now now' ∷ rs) = tell (record_failure now now' b) rs

-- The failures since the last success, `n` of them before these reports.
unfoldable pub trailing_failures : ℕ → List Report → ℕ
trailing_failures n [] = n
trailing_failures n (succeeded ∷ rs) = trailing_failures 0 rs
trailing_failures n (failed _ _ ∷ rs) = trailing_failures (n + 1) rs

abbrev pub expected_state : ℕ → ℕ → State
expected_state threshold n = if leb threshold n then open_state else closed

success_step :
    (b : Breaker)
    → ((record_success b).failure_threshold ≡ b.failure_threshold)
      × ((record_success b).failures ≡ 0)
      × ((record_success b).state ≡ closed)
unfolding record_success
success_step b = ground arith

failure_step :
    (now now' : ℕ) (b : Breaker)
    → b.state ≡ expected_state b.failure_threshold b.failures
    → ((record_failure now now' b).failure_threshold ≡ b.failure_threshold)
      × ((record_failure now now' b).failures ≡ b.failures + 1)
      × ((record_failure now now' b).state ≡ expected_state b.failure_threshold (b.failures + 1))
unfolding record_failure
failure_step now now' b s = ground arith

tell-state :
    (rs : List Report) (th n : ℕ) (b : Breaker)
    → 1 ≤ th
    → b.failure_threshold ≡ th
    → b.failures ≡ n
    → b.state ≡ expected_state th n
    → ((tell b rs).state ≡ expected_state th (trailing_failures n rs))
      × ((tell b rs).failures ≡ trailing_failures n rs)
unfolding tell trailing_failures
tell-state [] th n b p t f s = (s, f)
tell-state (succeeded ∷ rs) th n b p t f s =
    let e = success_step b in tell-state rs th 0 (record_success b) p (e.0 ∙ t) e.1 (ground arith)
tell-state (failed now now' ∷ rs) th n b p t f s =
    let e = failure_step now now' b (rw (t, f) s) in
    tell-state rs th (n + 1) (record_failure now now' b) p (e.0 ∙ t) (rw (← f) e.1)
      (rw (← t, ← f) e.2)

-- Whatever is reported to a new breaker, it is open exactly when the failures since the last
-- success have reached the threshold, and it counts them.
pub tell-init :
    (threshold timeout : ℕ) (rs : List Report) (b : Breaker)
    → init threshold timeout ≡ ok b
    → ((tell b rs).state ≡ expected_state threshold (trailing_failures 0 rs))
      × ((tell b rs).failures ≡ trailing_failures 0 rs)
unfolding init
tell-init threshold timeout rs b h =
    tell-state rs threshold 0 b (ground arith) (ground arith) (ground arith) (ground arith)
