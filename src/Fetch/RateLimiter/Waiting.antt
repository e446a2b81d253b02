-- ===== src/Fetch/RateLimiter/Waiting.antt =====
-- That a call of the limiter ends, and what it leaves alone.
use ai_internship_demo_task.Prelude.{
  ℕ, suc, ◌+◌, ◌-◌, ◌*◌, ◌≤◌, String, Option, none, some, ◌≡◌, ◌≢◌, refl, ◌⊎◌, arith, Bool-cases,
  Option-cases, inl, inr,
}
use ai_internship_demo_task.Prelude.Result.{ok, raise, ok-injective}
use ai_internship_demo_task.Prelude.Dict.{lookup, lookup-insert}
use ai_internship_demo_task.Prelude.Eq.{same, string_eq}
use ai_internship_demo_task.Fetch.RateLimiter.{
  Bucket, Config, Limiter, capacity, refill, take_token, wait_for_token, put_bucket, acquire,
  empty_host,
}
use ai_internship_demo_task.Fetch.RateLimiter.Bound.{gap_mul}

refill_grows :
    (c : Config) (now : ℕ) (b : Bucket) (need : ℕ)
    → c.scale ≤ capacity c
    → b.updated_at ≤ now
    → b.updated_at * c.rate + need ≤ now * c.rate
    → c.scale ≤ b.tokens + need
    → c.scale ≤ (refill c now b).tokens
unfolding refill
refill_grows c now b need room h slept enough = omega (arith, gap_mul b.updated_at now c.rate h)

take_token_full :
    (c : Config) (b : Bucket) → c.scale ≤ b.tokens → (b' : Bucket) × (take_token c b ≡ some b')
unfolding take_token
take_token_full c b h = (record b { tokens = b.tokens - c.scale }, ground arith)

burst_room : (c : Config) → 1 ≤ c.burst → c.scale ≤ capacity c
burst_room c h = grind arith

module _ (sleep : ℕ → ℕ → ℕ) (c : Config) (sleeps : (now need : ℕ) → now ≤ sleep now need)
    (sleeps_enough : (now need : ℕ) → now * c.rate + need ≤ sleep now need * c.rate) where
  after_sleep :
      (now : ℕ) (b : Bucket)
      → 1 ≤ c.burst
      → c.scale ≤ (refill c (sleep now (c.scale - (refill c now b).tokens)) (refill c now b)).tokens
  after_sleep now b burst =
      let b1 = refill c now b in
      let need = c.scale - b1.tokens in
      refill_grows c (sleep now need) b1 need (burst_room c burst)
        (unfold refill in sleeps now need) (unfold refill in sleeps_enough now need) (omega arith)

  -- Where the burst is at least one token and a sleep lasts as long as it is asked to, a call is let
  -- through, at once or after one sleep. Two rounds of the loop are enough.
  pub wait_for_token_total :
      (fuel now : ℕ) (b : Bucket)
      → 1 ≤ c.burst
      → (b' : Bucket) × (at : ℕ) × (wait_for_token sleep c (suc (suc fuel)) now b ≡ some (b', at))
        × ((at ≡ now) ⊎ (at ≡ sleep now (c.scale - (refill c now b).tokens)))
  unfolding wait_for_token
  wait_for_token_total fuel now b burst =
      let b1 = refill c now b in
      let later = sleep now (c.scale - b1.tokens) in
      elim (Option-cases (take_token c b1)) [
        | inr (b', p) ↦ (b', now, rw (p, wait_for_token), inl refl)
        | inl p ↦
            let (b', q) = take_token_full c (refill c later b1) (after_sleep now b burst) in
            (b', later, rw (p, wait_for_token, q), inr refl)
      ]

put_bucket_frame :
    (host other : String) (l : Limiter) (o : Option (Bucket × ℕ)) {l' : Limiter} {at : ℕ}
    → put_bucket host l o ≡ some (l', at)
    → host ≢ other
    → (lookup other l'.buckets ≡ lookup other l.buckets) × (l'.config ≡ l.config)
unfolding put_bucket
put_bucket_frame host other l none h ne = cc
put_bucket_frame host other l (some (b, t)) h ne =
    ground (arith, lookup-insert host other b l.buckets, (string_eq.beq_iff host other).0)

-- A call that is let through leaves the buckets of all other hosts, and the limiter's numbers, as
-- they are.
pub acquire_frame :
    (normalize : String → String) (sleep : ℕ → ℕ → ℕ) (fuel : ℕ) (host other : String)
    (start now : ℕ) (l : Limiter) {l' : Limiter} {at : ℕ}
    → acquire normalize sleep fuel host start now l ≡ ok (some (l', at))
    → normalize host ≢ other
    → (lookup other l'.buckets ≡ lookup other l.buckets) × (l'.config ≡ l.config)
unfolding acquire
acquire_frame normalize sleep fuel host other start now l {l'} {at} h ne =
    elim (Bool-cases (same (normalize host) "")) [
      | inl e ↦ let q : raise empty_host ≡ ok (some (l', at)) = rw (e, acquire) at h in cc
      | inr e ↦ put_bucket_frame (normalize host) other l _ (ok-injective (rw (e, acquire) at h)) ne
    ]
