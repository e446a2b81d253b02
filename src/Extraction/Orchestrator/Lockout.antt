-- ===== src/Extraction/Orchestrator/Lockout.antt =====
-- A probe that ends in an error which is not recorded locks its provider out.
use ai_internship_demo_task.Prelude.{
  ℕ, suc, ◌+◌, ◌≤◌, Bool, true, false, Option, some, List, ◌∷◌, ◌≡◌, refl, arith, String,
}
use ai_internship_demo_task.Prelude.Result.{Result, raise}
use ai_internship_demo_task.Prelude.Dict.{lookup, lookup-insert, same_refl}
use ai_internship_demo_task.Prelude.Eq.{string_eq}
use ai_internship_demo_task.Prelude.Text.{Text}
use ai_internship_demo_task.Prelude.Json.{Fields}
use ai_internship_demo_task.Extraction.Chunker.{Chunk}
use ai_internship_demo_task.Extraction.CircuitBreaker
use ai_internship_demo_task.Extraction.CircuitBreaker.{closed, open_state, half_open, Breaker}
use ai_internship_demo_task.Extraction.CircuitBreaker.Admission.{
  probing, can_execute-open_state, can_execute-half_open,
}
use ai_internship_demo_task.Extraction.Orchestrator.State.{
  Orchestrator, Slot, put_slot, can_execute,
}
use ai_internship_demo_task.Extraction.Orchestrator.{
  Failure, provider_error, ExtractionResult, failed, and_then, each_chunk, recover, attempt,
  after_answer, call, extract_chunk, extract_all_chunks, after_try, should_fallback, try_provider,
  try_all,
}

-- The slot and the state after the probe was let through.
probing_slot : Slot → Slot
probing_slot slot = record {
  breaker = probing slot.breaker;
  health = record slot.health { state = half_open };
}

asked : String → Slot → Orchestrator → Orchestrator
asked name slot s = put_slot name (probing_slot slot) (record s { readings = s.readings + 1 })

can_execute-asked :
    (clock : ℕ → ℕ) (name : String) (s : Orchestrator) (slot : Slot)
    → lookup name s.slots ≡ some slot
    → slot.breaker.state ≡ open_state
    → slot.breaker.last_failure + slot.breaker.recovery_timeout ≤ clock s.readings
    → can_execute clock name s ≡ (true, asked name slot s)
unfolding can_execute asked probing_slot probing
can_execute-asked clock name s slot found opened late =
    rw (found, can_execute-open_state (clock s.readings) slot.breaker opened late)

-- A chunk that cannot be cut is given up on status 413, with nothing recorded.
extract_chunk-413 :
    (reply : String → ℕ → Text → Result Failure ExtractionResult) (clock : ℕ → ℕ) (fuel m : ℕ)
    (retryable : Bool) (name : String) (chunk : Chunk) (s : Orchestrator)
    → s.max_attempts ≡ suc m
    → chunk.token_estimate ≤ 1
    → reply name s.calls chunk.text ≡ raise (provider_error (some 413) retryable)
    → extract_chunk reply clock (suc fuel) name chunk s
      ≡ (raise (failed (provider_error (some 413) retryable)), record s { calls = s.calls + 1 })
unfolding extract_chunk attempt call after_answer recover
extract_chunk-413 reply clock fuel m retryable name chunk s attempts small answer =
    rw (attempts, answer) (ground arith)

module _ (reply : String → ℕ → Text → Result Failure ExtractionResult) (clock : ℕ → ℕ) {V : Type 0}
    (validate : Fields → Option V) where
  try_provider-413 :
      (fuel m : ℕ) (retryable : Bool) (name : String) (chunk : Chunk) (chunks : List Chunk)
      (s : Orchestrator)
      → s.max_attempts ≡ suc m
      → chunk.token_estimate ≤ 1
      → reply name s.calls chunk.text ≡ raise (provider_error (some 413) retryable)
      → try_provider reply clock validate (suc fuel) name (chunk ∷ chunks) s
        ≡ (raise (failed (provider_error (some 413) retryable)), record s { calls = s.calls + 1 })
  unfolding try_provider extract_all_chunks each_chunk and_then
  try_provider-413 fuel m retryable name chunk chunks s attempts small answer =
      rw (extract_chunk-413 reply clock fuel m retryable name chunk s attempts small answer)

  -- Take an open provider whose recovery time is gone, whose answer to its probe is status 413 for a first
  -- chunk of one token. The run goes on with the providers after it, and nothing of the probe is
  -- recorded: the counts of successes and failures of its slot and the time of its last failure stay as they
  -- were. But the breaker that the providers after it find in that slot turns away every call to this one,
  -- whatever the clock says.
  pub try_all_locks_out :
      (fuel m : ℕ) (retryable : Bool) (name : String) (names : List String) (chunk : Chunk)
      (chunks : List Chunk) (s : Orchestrator) (slot : Slot)
      → lookup name s.slots ≡ some slot
      → slot.breaker.state ≡ open_state
      → slot.breaker.last_failure + slot.breaker.recovery_timeout ≤ clock s.readings
      → s.max_attempts ≡ suc m
      → chunk.token_estimate ≤ 1
      → reply name s.calls chunk.text ≡ raise (provider_error (some 413) retryable)
      → (after : Orchestrator) × (left : Slot) × (try_all reply clock validate
            (suc fuel)
            (chunk ∷ chunks)
            (name ∷ names)
            s
          ≡ try_all reply clock validate (suc fuel) (chunk ∷ chunks) names after)
        × (lookup name after.slots ≡ some left)
        × (left.health.successes ≡ slot.health.successes)
        × (left.health.failures ≡ slot.health.failures)
        × (left.breaker.failures ≡ slot.breaker.failures)
        × (left.breaker.last_failure ≡ slot.breaker.last_failure)
        × ((t : ℕ) → CircuitBreaker.can_execute t left.breaker ≡ (false, left.breaker))
  unfolding try_all after_try should_fallback asked probing_slot probing put_slot
  try_all_locks_out fuel m retryable name names chunk chunks s slot found opened late attempts small
        answer =
      let s1 = asked name slot s in
      let ran = try_provider-413 fuel m retryable name chunk chunks s1 attempts small answer in
      (
        record s1 { calls = s1.calls + 1 },
        probing_slot slot,
        rw (can_execute-asked clock name s slot found opened late, ran) (ground arith),
        rw (lookup-insert, same_refl),
        refl,
        refl,
        refl,
        refl,
        λ t. can_execute-half_open t (probing_slot slot).breaker refl refl,
      )
