-- ===== src/Fetch/RateLimiter.antt =====
-- `TokenBucketRateLimiter` of src/fetch/rate_limiter.py.
-- One token is `scale` units, and `rate` units come in per tick of the clock, so that no fraction is
-- left out; `burst` counts tokens. Waiting is a parameter, `sleep now need`: the clock reading after
-- a sleep of `need / rate` ticks that began at `now`.
pub mod Bound
pub mod Waiting
use ai_internship_demo_task.Prelude.{
  ℕ, zero, suc, ◌+◌, ◌-◌, ◌*◌, min, String, Bool, Option, none, some, List, [], ◌∷◌, ltb, leb,
  if◌then◌else◌,
}
use ai_internship_demo_task.Prelude.Result.{Result, ok, raise}
use ai_internship_demo_task.Prelude.Dict.{lookup, insert}
use ai_internship_demo_task.Prelude.Eq.{same, string_eq}

pub record Bucket : Type 0 where
  pub tokens : ℕ
  pub updated_at : ℕ

pub record Config : Type 0 where
  pub scale : ℕ
  pub rate : ℕ
  pub burst : ℕ

pub data LimiterError : Type 0 where
  rate_not_positive burst_not_positive empty_host : LimiterError

pub record Limiter : Type 0 where
  pub config : Config
  pub buckets : List (String × Bucket)

unfoldable pub init : Config → Result LimiterError Limiter
init c =
    if ltb 0 c.rate
    then if ltb c.burst 1
      then raise burst_not_positive
      else ok (record { config = c; buckets = [] })
    else raise rate_not_positive

-- `self._burst`, in units.
abbrev pub capacity : Config → ℕ
capacity c = c.burst * c.scale

-- The first three lines of the loop; `elapsed` is 0 where the clock ran backwards.
unfoldable pub refill : Config → ℕ → Bucket → Bucket
refill c now b = record {
  tokens = min (capacity c) (b.tokens + (now - b.updated_at) * c.rate);
  updated_at = now;
}

-- The test and the write below it: the bucket without one token, if it has one.
unfoldable pub take_token : Config → Bucket → Option Bucket
take_token c b =
    if leb c.scale b.tokens then some (record b { tokens = b.tokens - c.scale }) else none

module _ (sleep : ℕ → ℕ → ℕ) where
  -- The `while True` loop, on fuel, from a clock reading: the bucket and the time of the grant.
  unfoldable pub wait_for_token : Config → ℕ → ℕ → Bucket → Option (Bucket × ℕ)
  wait_for_token c zero now b = none
  wait_for_token c (suc fuel) now b =
      let b' = refill c now b in
      let again = wait_for_token c fuel (sleep now (c.scale - b'.tokens)) b' in
      elim (take_token c b') [ some b'' ↦ some (b'', now) | none ↦ again ]

-- `self._buckets.setdefault(host, _Bucket(...))`: a new host starts with a full bucket.
unfoldable pub bucket_for : String → ℕ → Limiter → Bucket
bucket_for host start l = elim (lookup host l.buckets) [
  | none ↦ record { tokens = capacity l.config; updated_at = start }
  | some b ↦ b
]

-- What the loop's result does to the limiter.
unfoldable pub put_bucket : String → Limiter → Option (Bucket × ℕ) → Option (Limiter × ℕ)
put_bucket host l none = none
put_bucket host l (some (b, at)) = some (record l { buckets = insert host b l.buckets }, at)

-- `normalize` is `host.strip().casefold()`.
module _ (normalize : String → String) (sleep : ℕ → ℕ → ℕ) where
  -- `acquire`, with the reading `start` for a new bucket and the first reading `now` of the loop. The
  -- host's lock is held from the first line to the grant, so no other call for it comes between.
  unfoldable pub acquire : ℕ → String → ℕ → ℕ → Limiter → Result LimiterError (Option (Limiter × ℕ))
  unfolding bucket_for put_bucket
  acquire fuel host start now l =
      let name = normalize host in
      if same name ""
      then raise empty_host
      else ok (put_bucket name l (wait_for_token sleep l.config fuel now (bucket_for name start l)))
