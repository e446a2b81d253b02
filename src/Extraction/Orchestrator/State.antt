-- ===== src/Extraction/Orchestrator/State.antt =====
-- The state of the orchestrator: a circuit breaker and a health record for each provider.
use ai_internship_demo_task.Prelude.{
  ℕ, ◌+◌, ◌*◌, Bool, true, false, Option, none, some, List, [], ◌∷◌, map, length, String, ltb, leb,
  ◌==◌, if◌then◌else◌,
}
use ai_internship_demo_task.Prelude.Result.{Result, ok, raise}
use ai_internship_demo_task.Prelude.Eq.{string_eq}
use ai_internship_demo_task.Prelude.Dict.{contains, lookup, insert}
use ai_internship_demo_task.Extraction.CircuitBreaker
use ai_internship_demo_task.Extraction.CircuitBreaker.{State, closed, Breaker}

-- `ProviderHealth`; its `state` mirrors that of the breaker.
pub record ProviderHealth : Type 0 where
  pub successes : ℕ
  pub failures : ℕ
  pub state : State

pub record Slot : Type 0 where
  pub breaker : Breaker
  pub health : ProviderHealth

pub record Orchestrator : Type 0 where
  pub provider_order : List String
  pub slots : List (String × Slot)
  pub chunk_target : ℕ
  pub max_attempts : ℕ
  pub calls : ℕ
  pub readings : ℕ

pub data ConfigError : Type 0 where
  no_providers names_not_unique attempts_not_positive bad_breaker : ConfigError

unfoldable pub has_duplicates : List String → Bool
has_duplicates [] = false
has_duplicates (n ∷ ns) = if contains ns n then true else has_duplicates ns

-- `LLMOrchestrator(providers, ...)`; the pauses are not modelled, so their check has no branch.
unfoldable pub init : List String → ℕ → ℕ → ℕ → ℕ → Result ConfigError Orchestrator
init names target attempts threshold cooldown =
    if length names == 0
    then raise no_providers
    else if has_duplicates names
    then raise names_not_unique
    else if ltb attempts 1
    then raise attempts_not_positive
    else elim (CircuitBreaker.init threshold cooldown) [
      | raise _ ↦ raise bad_breaker
      | ok breaker ↦
          let health : ProviderHealth = record { successes = 0; failures = 0; state = closed } in
          let slot : Slot = record { breaker = breaker; health = health } in
          ok (record {
            provider_order = names;
            slots = map (λ (n : String). (n, slot)) names;
            chunk_target = target;
            max_attempts = attempts;
            calls = 0;
            readings = 0;
          })
    ]

-- `failure_rate`, as a fraction with a positive denominator.
unfoldable pub rate_key : Option Slot → ℕ × ℕ
rate_key none = (0, 1)
rate_key (some slot) =
    let attempts = slot.health.successes + slot.health.failures in
    if attempts == 0 then (0, 1) else (slot.health.failures, attempts)

-- a / b <= c / d
abbrev pub rate_leb : ℕ × ℕ → ℕ × ℕ → Bool
rate_leb (a, b) (c, d) = leb (a * d) (c * b)

-- `sorted` by the failure rate; the index in the order breaks ties, so that it is stable.
unfoldable pub insert_by_rate : List (String × Slot) → String → List String → List String
insert_by_rate slots name [] = name ∷ []
insert_by_rate slots name (n ∷ ns) =
    if rate_leb (rate_key (lookup name slots)) (rate_key (lookup n slots))
    then name ∷ n ∷ ns
    else n ∷ insert_by_rate slots name ns

unfoldable pub sort_by_rate : List (String × Slot) → List String → List String
sort_by_rate slots [] = []
sort_by_rate slots (n ∷ ns) = insert_by_rate slots n (sort_by_rate slots ns)

-- `_fallback_order`
unfoldable pub order_by_rate : Orchestrator → List String
order_by_rate s = sort_by_rate s.slots s.provider_order

unfoldable pub put_slot : String → Slot → Orchestrator → Orchestrator
put_slot name slot s = record s { slots = insert name slot s.slots }

module _ (clock : ℕ → ℕ) where
  -- `_can_execute`; it takes one reading, which the breaker may not need.
  unfoldable pub ask_slot : String → Orchestrator → Option Slot → Bool × Orchestrator
  unfolding put_slot
  ask_slot name s none = (false, s)
  ask_slot name s (some slot) =
      let (allowed, breaker) = CircuitBreaker.can_execute (clock s.readings) slot.breaker in
      let health = record slot.health { state = breaker.state } in
      (
        allowed,
        put_slot name (record { breaker = breaker; health = health })
            (record s { readings = s.readings + 1 }),
      )

  unfoldable pub can_execute : String → Orchestrator → Bool × Orchestrator
  unfolding ask_slot
  can_execute name s = ask_slot name s (lookup name s.slots)

  -- `_record_failure`; it takes two readings.
  unfoldable pub fail_slot : String → Orchestrator → Option Slot → Orchestrator
  unfolding put_slot
  fail_slot name s none = s
  fail_slot name s (some slot) =
      let breaker =
        CircuitBreaker.record_failure (clock s.readings) (clock (s.readings + 1)) slot.breaker in
      let health = record slot.health {
        failures = slot.health.failures + 1;
        state = breaker.state;
      } in
      put_slot name (record { breaker = breaker; health = health })
        (record s { readings = s.readings + 2 })

  unfoldable pub record_failure : String → Orchestrator → Orchestrator
  unfolding fail_slot
  record_failure name s = fail_slot name s (lookup name s.slots)

-- `_record_success`
unfoldable pub succeed_slot : String → Orchestrator → Option Slot → Orchestrator
unfolding put_slot
succeed_slot name s none = s
succeed_slot name s (some slot) =
    let health = record slot.health { successes = slot.health.successes + 1; state = closed } in
    put_slot name (record { breaker = CircuitBreaker.record_success slot.breaker; health = health })
      s

unfoldable pub record_success : String → Orchestrator → Orchestrator
unfolding succeed_slot
record_success name s = succeed_slot name s (lookup name s.slots)
