-- ===== src/Fetch/Retry/Delays.antt =====
-- How long the pauses between attempts are.
use ai_internship_demo_task.Prelude.{ℕ, ◌+◌, ◌≤◌, max, Option, none, some, String, ◌≡◌, arith}
use ai_internship_demo_task.Prelude.Int.{ℤ}
use ai_internship_demo_task.Fetch.Retry.{RetryPolicy, parse_retry_after, delay_for, pause_of}

pause_plain :
    (limit wanted draw jitter : ℕ) (o : Option ℕ)
    → draw ≤ jitter
    → o ≡ none
    → pause_of limit wanted o draw ≤ limit + jitter
unfolding pause_of
pause_plain limit wanted draw jitter o h e = ground arith

pause_asked :
    (limit wanted draw jitter : ℕ) (o : Option ℕ)
    → draw ≤ jitter
    → (asked : ℕ) → o ≡ some asked
    → (asked ≤ pause_of limit wanted o draw)
      × (pause_of limit wanted o draw ≤ max limit asked + jitter)
unfolding pause_of
pause_asked limit wanted draw jitter o h asked e = ground arith

-- Without a usable `Retry-After` header a pause is at most the policy's maximum and the jitter. With
-- one it is as long as the header asks and at most the longer of the two and the jitter: the
-- maximum does not bound it.
pub delay_for_bounds :
    (parse_float seconds_until : String → Option ℤ) (policy : RetryPolicy) (n : ℕ)
    (header : Option String) (draw : ℕ)
    → draw ≤ policy.jitter_seconds
    → (parse_retry_after parse_float seconds_until header ≡ none
        → delay_for parse_float seconds_until policy n header draw
          ≤ policy.max_delay_seconds + policy.jitter_seconds)
      × ((asked : ℕ)
          → parse_retry_after parse_float seconds_until header ≡ some asked
          → (asked ≤ delay_for parse_float seconds_until policy n header draw)
            × (delay_for parse_float seconds_until policy n header draw
                ≤ max policy.max_delay_seconds asked + policy.jitter_seconds))
unfolding delay_for
delay_for_bounds parse_float seconds_until policy n header draw h = (
  pause_plain policy.max_delay_seconds _ draw policy.jitter_seconds _ h,
  pause_asked policy.max_delay_seconds _ draw policy.jitter_seconds _ h,
)
