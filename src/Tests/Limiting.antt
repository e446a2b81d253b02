-- ===== src/Tests/Limiting.antt =====
-- The rate limiter with a burst of three requests and a token in 500 ticks.
use ai_internship_demo_task.Prelude.{ℕ, ◌+◌, ◌*◌, ◌≤◌, some, [], ◌∷◌, ◌≡◌, refl, arith}
use ai_internship_demo_task.Prelude.Result.{ok}
use ai_internship_demo_task.Prelude.Dict.{lookup, insert}
use ai_internship_demo_task.Prelude.Eq.{string_eq}
use ai_internship_demo_task.Fetch.RateLimiter.{
  Bucket, Config, Limiter, refill, take_token, wait_for_token, acquire,
}
use ai_internship_demo_task.Fetch.RateLimiter.Bound.{grant_all, grant_all_bound}

abbrev config : Config
config = record { scale = 1000; rate = 2; burst = 3 }

abbrev sleep : ℕ → ℕ → ℕ
sleep now need = now + need

sleeps : (now need : ℕ) → now ≤ sleep now need
sleeps now need = omega arith

sleeps_enough : (now need : ℕ) → now * 2 + need ≤ sleep now need * 2
sleeps_enough now need = omega arith

abbrev full : Bucket
full = record { tokens = 3000; updated_at = 100 }

abbrev after_four : Bucket
after_four = record { tokens = 1000; updated_at = 1100 }

four_grants : grant_all sleep config 2 (0 ∷ 0 ∷ 0 ∷ 0 ∷ []) full ≡ some after_four
unfolding grant_all wait_for_token refill take_token
four_grants = refl

grant_all_bound_example : 1000 + 4 * 1000 + 100 * 2 ≤ 3000 + 1100 * 2
grant_all_bound_example =
    grant_all_bound sleep sleeps config 2 (0 ∷ 0 ∷ 0 ∷ 0 ∷ []) full four_grants

abbrev drained : Bucket
drained = record { tokens = 400; updated_at = 100 }

abbrev limiter : Limiter
limiter = record { config = config; buckets = ("b.org", drained) ∷ [] }

abbrev limiter' : Limiter
limiter' = record {
  config = config;
  buckets = ("b.org", drained) ∷ ("a.org", record { tokens = 2000; updated_at = 200 }) ∷ [];
}

acquires : acquire (λ h. h) sleep 2 "a.org" 200 200 limiter ≡ ok (some (limiter', 200))
unfolding acquire wait_for_token refill take_token lookup insert
acquires = refl
