-- ===== src/Fetch/RateLimiter/Bound.antt =====
-- How many requests the limiter lets through in a span of time.
use ai_internship_demo_task.Prelude.{
  ℕ, zero, suc, ◌+◌, ◌-◌, ◌*◌, ◌≤◌, Option, none, some, List, [], ◌∷◌, ◌≡◌, refl, ap, ◌∙◌, arith,
  length, Option-cases, inl, inr,
}
use ai_internship_demo_task.Fetch.RateLimiter.{
  Bucket, Config, capacity, refill, take_token, wait_for_token,
}

add_mul : (a d r : ℕ) → (a + d) * r ≡ a * r + d * r
add_mul a d r = omega arith

pub gap_mul : (a b r : ℕ) → a ≤ b → b * r ≡ a * r + (b - a) * r
gap_mul a b r h = ap (λ (t : ℕ). t * r) (omega arith) ∙ add_mul a (b - a) r

-- A refill adds at most what the time since the last one brings, and never overfills.
refill_bound :
    (c : Config) (now : ℕ) (b : Bucket)
    → b.updated_at ≤ now
    → ((refill c now b).tokens + b.updated_at * c.rate ≤ b.tokens + now * c.rate)
      × ((refill c now b).tokens ≤ capacity c)
      × ((refill c now b).updated_at ≡ now)
unfolding refill
refill_bound c now b h = (omega (arith, gap_mul b.updated_at now c.rate h), omega arith, refl)

take_bound :
    (c : Config) {b b' : Bucket}
    → take_token c b ≡ some b'
    → (b'.tokens + c.scale ≡ b.tokens) × (b'.updated_at ≡ b.updated_at)
unfolding take_token
take_bound c h = ground arith

module _ (sleep : ℕ → ℕ → ℕ) where
  -- The grants of calls that follow one another, each entering the loop so many ticks after the
  -- grant before it: the bucket after them and the number of them.
  unfoldable pub grant_all : Config → ℕ → List ℕ → Bucket → Option Bucket
  grant_all c fuel [] b = some b
  grant_all c fuel (gap ∷ gaps) b = elim (wait_for_token sleep c fuel (b.updated_at + gap) b) [
    | none ↦ none
    | some (b', at) ↦ grant_all c fuel gaps b'
  ]

module _ (sleep : ℕ → ℕ → ℕ) (sleeps : (now need : ℕ) → now ≤ sleep now need) where
  -- One grant costs a token, and only time pays it back.
  pub wait_bound :
      (c : Config) (fuel now : ℕ) (b : Bucket) {b' : Bucket} {at : ℕ}
      → b.updated_at ≤ now
      → wait_for_token sleep c fuel now b ≡ some (b', at)
      → (b'.tokens + c.scale + b.updated_at * c.rate ≤ b.tokens + at * c.rate)
        × (b'.tokens + c.scale ≤ capacity c)
        × (b'.updated_at ≡ at)
        × (now ≤ at)
  unfolding wait_for_token
  wait_bound c zero now b h e = cc
  wait_bound c (suc fuel) now b {b'} {at} h e =
      let b1 = refill c now b in
      let filled = refill_bound c now b h in
      let later = sleep now (c.scale - b1.tokens) in
      elim (Option-cases (take_token c b1)) [
        | inr (b2, p) ↦
            let q : some (b2, now) ≡ some (b', at) = rw (p, wait_for_token) at e in
            let taken = take_bound c p in ground arith
        | inl p ↦
            let q : wait_for_token sleep c fuel later b1 ≡ some (b', at) =
              rw (p, wait_for_token) at e in
            let rest =
              wait_bound c fuel later b1 (omega (arith, sleeps now (c.scale - b1.tokens))) q in
            let now_units : b1.updated_at * c.rate ≡ now * c.rate =
              ap (λ (t : ℕ). t * c.rate) filled.2 in
            omega (arith, sleeps now (c.scale - b1.tokens))
      ]

  -- Where no sleep ends before it began, the grants that follow one another from a bucket cost a token
  -- each, and only the bucket's tokens and the time from its last update to the last grant pay for them.
  pub grant_all_bound :
      (c : Config) (fuel : ℕ) (gaps : List ℕ) (b : Bucket) {b' : Bucket}
      → grant_all sleep c fuel gaps b ≡ some b'
      → b'.tokens + length gaps * c.scale + b.updated_at * c.rate
        ≤ b.tokens + b'.updated_at * c.rate
  unfolding grant_all
  grant_all_bound c fuel [] b e = ground arith
  grant_all_bound c fuel (gap ∷ gaps) b {b'} e =
      elim (Option-cases (wait_for_token sleep c fuel (b.updated_at + gap) b)) [
        | inr ((b1, at), p) ↦
            let q : grant_all sleep c fuel gaps b1 ≡ some b' = rw (p, grant_all) at e in
            let first = wait_bound c fuel (b.updated_at + gap) b (omega arith) p in
            let rest = grant_all_bound c fuel gaps b1 q in
            let same_time : b1.updated_at * c.rate ≡ at * c.rate =
              ap (λ (t : ℕ). t * c.rate) first.2 in
            omega arith
        | inl p ↦ ground arith
      ]
