-- ===== src/Tests/Retrying.antt =====
-- A request that times out twice and is then answered.
use ai_internship_demo_task.Prelude.{
  ℕ, zero, suc, ◌+◌, ◌≤◌, ◌<◌, max, Bool, true, false, Option, none, some, [], ◌∷◌, ◌≡◌, refl,
  String, arith,
}
use ai_internship_demo_task.Prelude.Result.{Result, ok, raise}
use ai_internship_demo_task.Prelude.Int.{ℤ}
use ai_internship_demo_task.Fetch.Retry.{
  RetryPolicy, Failure, retryable, other, parse_retry_after, delay_for, retry_from, retry_async,
  policy_delay,
}
use ai_internship_demo_task.Fetch.Retry.Runs.{
  settles, outcome, pauses, retry_async-settled, retry_async-ends,
}
use ai_internship_demo_task.Fetch.Retry.Delays.{delay_for_bounds}

abbrev policy : RetryPolicy
policy = record {
  max_attempts = 4;
  base_delay_seconds = 10;
  max_delay_seconds = 100;
  jitter_seconds = 5;
}

operation : ℕ → Result Failure ℕ
operation (suc (suc (suc n))) = ok 7
operation n = raise (retryable none)

should_retry : Failure → Bool
should_retry (retryable h) = true
should_retry (other k) = false

abbrev unread : String → Option ℤ
unread s = none

abbrev delay : ℕ → Failure → ℕ
delay = policy_delay unread unread policy (λ n. 0)

answered_third : retry_async operation should_retry delay 4 ≡ (ok 7, 10 ∷ 20 ∷ [])
unfolding retry_async retry_from operation should_retry policy_delay parse_retry_after
answered_third = refl

failed_before :
    (i : ℕ) → 1 ≤ i → i < 3 → settles operation should_retry delay 4 i (operation i) ≡ false
unfolding settles operation should_retry
failed_before zero a b = absurd (omega arith)
failed_before (suc zero) a b = refl
failed_before (suc (suc zero)) a b = refl
failed_before (suc (suc (suc i))) a b = absurd (omega arith)

retry_async-settled_example :
    retry_async operation should_retry delay 4
    ≡ (outcome operation should_retry delay (operation 3), pauses operation should_retry delay 1 2)
unfolding settles operation
retry_async-settled_example =
    retry_async-settled operation should_retry delay 4 2 (omega arith) failed_before refl

retry_async-ends_example :
    (n : ℕ) × (last : ℕ) × (1 + n ≡ last)
    × (n < 4)
    × (retry_async operation should_retry delay 4 ≡ (
      outcome operation should_retry delay (operation last),
      pauses operation should_retry delay 1 n,
    ))
retry_async-ends_example = retry_async-ends operation should_retry delay 4 (omega arith)

delay_for_bounds_example :
    (parse_retry_after unread unread none ≡ none
      → delay_for unread unread policy 3 none 2 ≤ 100 + 5)
    × ((asked : ℕ)
        → parse_retry_after unread unread none ≡ some asked
        → (asked ≤ delay_for unread unread policy 3 none 2)
          × (delay_for unread unread policy 3 none 2 ≤ max 100 asked + 5))
delay_for_bounds_example = delay_for_bounds unread unread policy 3 none 2 (omega arith)
