-- ===== src/Tests/Orchestrating.antt =====
-- The orchestrator with one provider, whose answers are too large, and with two.
use ai_internship_demo_task.Prelude.{ℕ, ◌+◌, false, none, some, [], ◌∷◌, ◌≡◌, refl, String, arith}
use ai_internship_demo_task.Prelude.Result.{Result, raise}
use ai_internship_demo_task.Prelude.Dict.{lookup}
use ai_internship_demo_task.Prelude.Eq.{string_eq}
use ai_internship_demo_task.Prelude.Text.{Text, codes}
use ai_internship_demo_task.Extraction.Chunker.{Chunk}
use ai_internship_demo_task.Extraction.CircuitBreaker
use ai_internship_demo_task.Extraction.CircuitBreaker.{closed, open_state, half_open, Breaker}
use ai_internship_demo_task.Extraction.Orchestrator.State.{Orchestrator, Slot}
use ai_internship_demo_task.Extraction.Orchestrator.{
  Failure, provider_error, ExtractionResult, try_all, extract,
}
use ai_internship_demo_task.Extraction.Orchestrator.Recovery.{extract-Ends, Ends}
use ai_internship_demo_task.Extraction.Orchestrator.Lockout.{try_all_locks_out}
use ai_internship_demo_task.Tests.Breaker.{tripped}

abbrev slot : Slot
slot = record {
  breaker = tripped;
  health = record { successes = 0; failures = 2; state = open_state };
}

abbrev orchestrator : Orchestrator
orchestrator = record {
  provider_order = "gemini" ∷ [];
  slots = ("gemini", slot) ∷ [];
  chunk_target = 100;
  max_attempts = 2;
  calls = 0;
  readings = 0;
}

abbrev too_large : String → ℕ → Text → Result Failure ExtractionResult
too_large name n text = raise (provider_error (some 413) false)

abbrev clock : ℕ → ℕ
clock n = 1000 + n

abbrev chunk : Chunk
chunk = record {
  chunk_id = codes "doc:0";
  source_record_id = codes "doc";
  section = none;
  text = codes "Hi.";
  token_estimate = 1;
  sequence = 0;
}

found : lookup "gemini" orchestrator.slots ≡ some slot
unfolding lookup
found = refl

try_all_locks_out_example :
    (after : Orchestrator) × (left : Slot) × (try_all too_large clock some 5
        (chunk ∷ [])
        ("gemini" ∷ "groq" ∷ [])
        orchestrator
      ≡ try_all too_large clock some 5 (chunk ∷ []) ("groq" ∷ []) after)
    × (lookup "gemini" after.slots ≡ some left)
    × (left.health.successes ≡ slot.health.successes)
    × (left.health.failures ≡ slot.health.failures)
    × (left.breaker.failures ≡ slot.breaker.failures)
    × (left.breaker.last_failure ≡ slot.breaker.last_failure)
    × ((t : ℕ) → CircuitBreaker.can_execute t left.breaker ≡ (false, left.breaker))
try_all_locks_out_example =
    try_all_locks_out too_large clock some 4 1 false "gemini" ("groq" ∷ []) chunk [] orchestrator
      slot found refl (omega arith) refl (omega arith) refl

extract-Ends_example : Ends (
    extract too_large clock some 200 (codes "Acme AI offers a product.") (codes "doc") orchestrator)
extract-Ends_example =
    extract-Ends too_large clock some 200 (codes "Acme AI offers a product.") (codes "doc")
      orchestrator (omega arith)
