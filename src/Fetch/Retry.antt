-- ===== src/Fetch/Retry.antt =====
-- src/fetch/retry.py. Seconds are natural numbers of a fixed tick. What the library reads from a
-- `Retry-After` header is a parameter: `parse_float` and `seconds_until`, the time from now to a
-- date in the header, both signed. `draw n` is what `random.uniform(0, jitter_seconds)` gives before the
-- sleep after attempt `n`. The callback `on_retry` only logs.
pub mod Runs
pub mod Delays
use ai_internship_demo_task.Prelude.{
  ℕ, zero, suc, ◌+◌, ◌-◌, ◌*◌, ◌^◌, min, max, Bool, true, false, not, ◌||◌, Option, none, some,
  List, [], ◌∷◌, String, ltb, leb, if◌then◌else◌,
}
use ai_internship_demo_task.Prelude.Result.{Result, ok, raise}
use ai_internship_demo_task.Prelude.Eq.{same, string_eq}
use ai_internship_demo_task.Prelude.Int.{ℤ, pos, negsuc}

pub record RetryPolicy : Type 0 where
  pub max_attempts : ℕ
  pub base_delay_seconds : ℕ
  pub max_delay_seconds : ℕ
  pub jitter_seconds : ℕ

-- max(0.0, x)
unfoldable pub at_least_zero : ℤ → ℕ
at_least_zero (pos n) = n
at_least_zero (negsuc n) = 0

-- The arithmetic of `delay_for`: the exponential delay up to its limit, or what the header asks if
-- that is longer, and the jitter.
unfoldable pub pause_of : ℕ → ℕ → Option ℕ → ℕ → ℕ
pause_of limit wanted none draw = max (min limit wanted) 0 + draw
pause_of limit wanted (some asked) draw = max (min limit wanted) asked + draw

module _ (parse_float seconds_until : String → Option ℤ) where
  unfoldable pub parse_retry_after : Option String → Option ℕ
  unfolding at_least_zero
  parse_retry_after none = none
  parse_retry_after (some value) = if same value "" then none else elim (parse_float value) [
    | some x ↦ some (at_least_zero x)
    | none ↦ elim (seconds_until value) [ some x ↦ some (at_least_zero x) | none ↦ none ]
  ]

  -- `delay_for`, with the draw of the jitter.
  unfoldable pub delay_for : RetryPolicy → ℕ → Option String → ℕ → ℕ
  unfolding pause_of
  delay_for policy failed_attempt retry_after draw =
      pause_of policy.max_delay_seconds (policy.base_delay_seconds * 2 ^ (failed_attempt - 1))
        (parse_retry_after retry_after) draw

-- A raised exception: a `RetryableFailure` has its header, any other has its kind.
pub data Failure : Type 0 where
  retryable : Option String → Failure
  other : ℕ → Failure

unfoldable pub retry_after_of : Failure → Option String
retry_after_of (retryable header) = header
retry_after_of (other kind) = none

pub data Error : Type 0 where
  raised : Failure → Error
  bad_max_attempts : Error
  loop_exited : Error

module _ {A : Type 0} (operation : ℕ → Result Failure A) (should_retry : Failure → Bool)
    (delay : ℕ → Failure → ℕ) where
  -- The loop from `attempt` on, with `left` attempts left in its range: the result and the sleeps.
  unfoldable pub retry_from : ℕ → ℕ → ℕ → Result Error A × List ℕ
  retry_from max_attempts zero attempt = (raise loop_exited, [])
  retry_from max_attempts (suc left) attempt =
      let rest = retry_from max_attempts left (attempt + 1) in
      elim (operation attempt) [
        | ok a ↦ (ok a, [])
        | raise e ↦
            if leb max_attempts attempt || not (should_retry e)
            then (raise (raised e), [])
            else (rest.0, delay attempt e ∷ rest.1)
      ]

  unfoldable pub retry_async : ℕ → Result Error A × List ℕ
  retry_async max_attempts =
      if ltb max_attempts 1
      then (raise bad_max_attempts, [])
      else retry_from max_attempts max_attempts 1

-- The delay that `retry_async` computes for a failure.
unfoldable pub policy_delay :
    (String → Option ℤ) → (String → Option ℤ) → RetryPolicy → (ℕ → ℕ) → ℕ → Failure → ℕ
unfolding delay_for retry_after_of
policy_delay parse_float seconds_until policy draw attempt e =
    delay_for parse_float seconds_until policy attempt (retry_after_of e) (draw attempt)
