-- ===== src/Fetch/Retry/Runs.antt =====
-- What a run of `retry_async` does, from what its operation does at each attempt.
use ai_internship_demo_task.Prelude.{
  ℕ, zero, suc, ◌+◌, ◌≤◌, ◌<◌, Bool, true, false, not, ◌||◌, List, [], ◌∷◌, ◌≡◌, refl, sym, ◌∙◌,
  arith, le→ltb_false, leb, if◌then◌else◌, Bool-cases, inl, inr,
}
use mathlib.Core.Bool.{false≢true}
use ai_internship_demo_task.Prelude.Result.{Result, ok, raise}
use ai_internship_demo_task.Fetch.Retry.{Failure, Error, raised, retry_from, retry_async}

module _ {A : Type 0} (operation : ℕ → Result Failure A) (should_retry : Failure → Bool)
    (delay : ℕ → Failure → ℕ) where
  -- Whether the run ends with what an attempt did, and with what.
  unfoldable pub settles : ℕ → ℕ → Result Failure A → Bool
  settles max_attempts attempt (ok a) = true
  settles max_attempts attempt (raise e) = leb max_attempts attempt || not (should_retry e)

  unfoldable pub outcome : Result Failure A → Result Error A
  outcome (ok a) = ok a
  outcome (raise e) = raise (raised e)

  -- The pause after an attempt, if it failed.
  unfoldable pub pause : ℕ → Result Failure A → ℕ
  pause attempt (ok a) = 0
  pause attempt (raise e) = delay attempt e

  -- The pauses after `n` attempts from `attempt` on.
  unfoldable pub pauses : ℕ → ℕ → List ℕ
  pauses attempt zero = []
  pauses attempt (suc n) = pause attempt (operation attempt) ∷ pauses (attempt + 1) n

  retry_from-step :
      (max_attempts left attempt : ℕ) (r : Result Failure A)
      → operation attempt ≡ r
      → retry_from operation should_retry delay max_attempts (suc left) attempt ≡ (
          if settles max_attempts attempt r
          then (outcome r, [])
          else (let rest =
                retry_from operation should_retry delay max_attempts left (attempt + 1) in
              (rest.0, pause attempt r ∷ rest.1)))
  unfolding retry_from settles outcome pause
  retry_from-step max_attempts left attempt (ok a) e = rw (e, retry_from)
  retry_from-step max_attempts left attempt (raise f) e = rw (e, retry_from) (ground arith)

  retry_from-settled :
      (max_attempts n left attempt last : ℕ)
      → n < left
      → attempt + n ≡ last
      → ((i : ℕ) → attempt ≤ i → i < last → settles max_attempts i (operation i) ≡ false)
      → settles max_attempts last (operation last) ≡ true
      → retry_from operation should_retry delay max_attempts left attempt
        ≡ (outcome (operation last), pauses attempt n)
  retry_from-settled max_attempts n zero attempt last f q h e = absurd (omega arith)
  retry_from-settled max_attempts zero (suc left) attempt last f q h e =
      let here : attempt ≡ last = omega arith in
      rw (here, retry_from-step max_attempts left last (operation last) refl, e)
        (unfold pauses in refl)
  retry_from-settled max_attempts (suc n) (suc left) attempt last f q h e =
      rw
        (
          retry_from-step max_attempts left attempt (operation attempt) refl,
          h attempt (omega arith) (omega arith),
          retry_from-settled max_attempts n left (attempt + 1) last (omega arith) (omega arith)
              (λ i a b. h i (omega arith) b) e,
        )
        (unfold pauses in refl)

  -- If the attempts before `last` fail in a way that is retried, and attempt `last` returns, fails for
  -- good, or is the last that the policy allows, then the run ends with what attempt `last` did, after
  -- one pause for each failure, in order.
  pub retry_async-settled :
      (max_attempts n : ℕ)
      → n < max_attempts
      → ((i : ℕ) → 1 ≤ i → i < suc n → settles max_attempts i (operation i) ≡ false)
      → settles max_attempts (suc n) (operation (suc n)) ≡ true
      → retry_async operation should_retry delay max_attempts
        ≡ (outcome (operation (suc n)), pauses 1 n)
  unfolding retry_async
  retry_async-settled max_attempts n f h e =
      rw (le→ltb_false max_attempts 1 (omega arith))
        (retry_from-settled max_attempts n max_attempts 1 (suc n) f (omega arith) h e)

  settles-last :
      (max_attempts attempt : ℕ) (r : Result Failure A)
      → max_attempts ≤ attempt
      → settles max_attempts attempt r ≡ true
  unfolding settles
  settles-last max_attempts attempt (ok a) h = refl
  settles-last max_attempts attempt (raise e) h = ground arith

  not_settled :
      (max_attempts left attempt : ℕ)
      → attempt + suc left ≡ max_attempts + 1
      → settles max_attempts attempt (operation attempt) ≡ false
      → 1 ≤ left
  not_settled max_attempts (suc left) attempt q more = omega arith
  not_settled max_attempts zero attempt q more =
      absurd (
        false≢true (sym more ∙ settles-last max_attempts attempt (operation attempt) (omega arith)))

  ends_from :
      (max_attempts left attempt : ℕ)
      → 1 ≤ left
      → attempt + left ≡ max_attempts + 1
      → (n : ℕ) × (last : ℕ) × (attempt + n ≡ last)
        × (n < left)
        × (retry_from operation should_retry delay max_attempts left attempt
            ≡ (outcome (operation last), pauses attempt n))
  unfolding pauses
  ends_from max_attempts zero attempt f q = absurd (omega arith)
  ends_from max_attempts (suc left) attempt f q =
      elim (Bool-cases (settles max_attempts attempt (operation attempt))) [
        | inl done ↦ (
          0,
          attempt,
          omega arith,
          omega arith,
          rw (retry_from-step max_attempts left attempt (operation attempt) refl, done) refl,
        )
        | inr more ↦
            let (n, last, reached, short, run) =
              ends_from max_attempts left (attempt + 1)
                (not_settled max_attempts left attempt q more) (omega arith) in
            (
              suc n,
              last,
              omega arith,
              omega arith,
              rw (retry_from-step max_attempts left attempt (operation attempt) refl, more, run)
                  refl,
            )
      ]

  -- Every run with at least one attempt allowed ends, with what one of its attempts did, after fewer
  -- pauses than it has attempts.
  pub retry_async-ends :
      (max_attempts : ℕ)
      → 1 ≤ max_attempts
      → (n : ℕ) × (last : ℕ) × (1 + n ≡ last)
        × (n < max_attempts)
        × (retry_async operation should_retry delay max_attempts
            ≡ (outcome (operation last), pauses 1 n))
  unfolding retry_async
  retry_async-ends max_attempts f =
      rw (le→ltb_false max_attempts 1 f) (ends_from max_attempts max_attempts 1 f (omega arith))
