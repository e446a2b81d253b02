-- ===== src/Extraction/Orchestrator.antt =====
-- `LLMOrchestrator` of src/extraction/orchestrator.py, with `validate_extraction` of
-- src/extraction/validators.py on the merged dict.
-- The two dicts of breakers and of health records have the same keys and are one association list.
-- The providers, the schema and the clock are parameters: `reply name n chunk` is what the provider
-- answers to the `n`-th call of the run, `clock n` is the `n`-th reading of the clock, and
-- `validate` is the schema's check of a dict. The state holds both counters. A raise keeps the state
-- that was written before it. Pauses between attempts change no state that is modelled.
pub mod State
pub mod Recovery
pub mod Lockout
use ai_internship_demo_task.Prelude.{
  ℕ, zero, suc, ◌+◌, ◌*◌, ◌/◌, max, sum, Bool, true, false, not, ◌&&◌, ◌||◌, Option, none, some,
  List, [], ◌∷◌, ◌++◌, map, length, String, ltb, leb, ◌==◌, if◌then◌else◌,
}
use ai_internship_demo_task.Prelude.Result.{Result, ok, raise}
use ai_internship_demo_task.Prelude.Int.{ℤ}
use ai_internship_demo_task.Prelude.Text.{Text, is_empty}
use ai_internship_demo_task.Prelude.Json.{Value, obj, Fields}
use ai_internship_demo_task.Extraction.Chunker.{Chunk, ChunkError, chunk_document, estimate_tokens}
use ai_internship_demo_task.Extraction.Merge.{merge_extractions}
use ai_internship_demo_task.Extraction.Orchestrator.State.{
  Orchestrator, Slot, rate_key, order_by_rate, can_execute, record_failure, record_success,
}

-- What a provider's `extract` can raise: a `ProviderError`, a timeout, or anything else.
pub data Failure : Type 0 where
  provider_error : Option ℕ → Bool → Failure
  timeout : Failure
  other_error : Failure

pub record ExtractionResult : Type 0 where
  pub provider : String
  pub model : String
  -- `data`
  pub fields : Fields
  pub raw_text : Text
  pub input_tokens : Option ℤ
  pub output_tokens : Option ℤ

pub data Error : Type 0 where
  -- the provider's own error, passed on
  failed : Failure → Error
  -- `ExtractionValidationError`
  invalid_output : Error
  -- `RuntimeError("Provider extraction attempts exhausted")`
  attempts_exhausted : Error
  -- `RuntimeError("All providers exhausted")`
  providers_exhausted : Error
  -- `ValueError` on a document without chunks, or of the chunker
  empty_document : Error
  bad_target : Error
  -- `IndexError` of `results[0]`
  no_results : Error
  -- the model's fuel is used up
  out_of_fuel : Error

abbrev pub Exec : Type 0 → Type 0
Exec A = Orchestrator → Result Error A × Orchestrator

unfoldable pub and_then :
    {A B : Type 0} → Result Error A × Orchestrator → (A → Exec B) → Result Error B × Orchestrator
and_then (ok a, s) f = f a s
and_then (raise e, s) f = (raise e, s)

-- `_should_fallback`
unfoldable pub should_fallback : Error → Bool
should_fallback (failed (provider_error none retryable)) = retryable
should_fallback (failed (provider_error (some status) retryable)) =
    retryable || status == 413 || status == 429 || leb 500 status
should_fallback (failed timeout) = true
should_fallback _ = false

-- `for chunk in chunks: results.extend(await ...)`
unfoldable pub each_chunk :
    (Chunk → Exec (List ExtractionResult)) → List Chunk → Exec (List ExtractionResult)
each_chunk one [] s = (ok [], s)
each_chunk one (chunk ∷ chunks) s =
    and_then (one chunk s)
      λ results s'. and_then (each_chunk one chunks s') λ more s''. (ok (results ++ more), s'')

abbrev pub is_413 : Failure → Bool
is_413 (provider_error (some status) retryable) = status == 413
is_413 _ = false

-- The end of the branch of status 413, from what the chunker returns for the smaller target.
unfoldable pub cut :
    (Chunk → Exec (List ExtractionResult))
    → Failure
    → Chunk
    → ℕ
    → Orchestrator
    → Result ChunkError (List Chunk)
    → Result Error (List ExtractionResult) × Orchestrator
cut again error chunk smaller s (raise _) = (raise bad_target, s)
cut again error chunk smaller s (ok chunks) =
    if leb (length chunks) 1 && smaller == 1
    then (raise (failed error), s)
    else each_chunk again chunks s

-- The branch of status 413; `again` is the recursive call.
unfoldable pub recover :
    (Chunk → Exec (List ExtractionResult)) → Failure → Chunk → Exec (List ExtractionResult)
recover again error chunk s =
    let smaller = max 1 (chunk.token_estimate / 2) in
    if leb chunk.token_estimate smaller
    then (raise (failed error), s)
    else cut again error chunk smaller s (chunk_document chunk.text smaller chunk.source_record_id)

-- What the loop over the attempts does with an answer: `s'` is the state after the call, `s''` that
-- after a recorded failure, and `next` the rest of the loop.
unfoldable pub after_answer :
    (Chunk → Exec (List ExtractionResult))
    → Bool
    → Chunk
    → Orchestrator
    → Orchestrator
    → Result Error (List ExtractionResult) × Orchestrator
    → Result Failure ExtractionResult
    → Result Error (List ExtractionResult) × Orchestrator
after_answer again last chunk s' s'' next (ok result) = (ok (result ∷ []), s')
after_answer again last chunk s' s'' next (raise error) =
    if is_413 error
    then recover again error chunk s'
    else if last
    then (raise (failed error), s'')
    else next

module _ {V : Type 0} where
  -- `schema.model_validate` on a dict; what is no dict is refused before.
  unfoldable pub validate_extraction : (Fields → Option V) → Value → Result Error V
  validate_extraction validate (obj fields) = elim (validate fields) [
    | some v ↦ ok v
    | none ↦ raise invalid_output
  ]
  validate_extraction validate _ = raise invalid_output

  -- The last two lines of the `try` in `extract`, with the results beside the value.
  unfoldable pub validated :
      (Fields → Option V) → List ExtractionResult → Result Error (V × List ExtractionResult)
  validated validate results =
      elim (validate_extraction validate
        (merge_extractions (map (λ (r : ExtractionResult). obj r.fields) results))) [
          | ok v ↦ ok (v, results)
          | raise e ↦ raise e
        ]

  -- The end of `extract` for a provider that succeeded: `OrchestrationResult` without what the
  -- chunks alone decide.
  unfoldable pub finish : String → V × List ExtractionResult → Exec (V × String × String)
  finish name (v, []) s = (raise no_results, record_success name s)
  finish name (v, r ∷ rs) s = (ok (v, name, r.model), record_success name s)

  -- What the loop over the providers does with an outcome; `next` is the rest of the loop.
  unfoldable pub after_try :
      String
      → Orchestrator
      → Result Error (V × String × String) × Orchestrator
      → Result Error (V × List ExtractionResult)
      → Result Error (V × String × String) × Orchestrator
  after_try name s next (ok found) = finish name found s
  after_try name s next (raise e) = if should_fallback e then next else (raise e, s)

module _ (reply : String → ℕ → Text → Result Failure ExtractionResult) (clock : ℕ → ℕ) where
  -- The call of the provider; the prompt is a function of the chunk's text.
  unfoldable pub call :
      String → Chunk → Orchestrator → Result Failure ExtractionResult × Orchestrator
  call name chunk s = (reply name s.calls chunk.text, record s { calls = s.calls + 1 })

  -- The loop over the attempts that are left.
  unfoldable pub attempt :
      (Chunk → Exec (List ExtractionResult)) → String → ℕ → Chunk → Exec (List ExtractionResult)
  attempt again name zero chunk s = (raise attempts_exhausted, s)
  attempt again name (suc left) chunk s =
      let (answer, s') = call name chunk s in
      let s'' = record_failure clock name s' in
      let next = attempt again name left chunk s'' in
      after_answer again (left == 0) chunk s' s'' next answer

  -- `_extract_chunk`, on fuel for the depth of the recursion.
  unfoldable pub extract_chunk : ℕ → String → Chunk → Exec (List ExtractionResult)
  extract_chunk zero name chunk s = (raise out_of_fuel, s)
  extract_chunk (suc fuel) name chunk s =
      attempt (extract_chunk fuel name) name s.max_attempts chunk s

  -- `_extract_all_chunks`
  unfoldable pub extract_all_chunks : ℕ → String → List Chunk → Exec (List ExtractionResult)
  extract_all_chunks fuel name chunks s = each_chunk (extract_chunk fuel name) chunks s

  module _ {V : Type 0} (validate : Fields → Option V) where
    -- The body of the `try` in `extract`.
    unfoldable pub try_provider : ℕ → String → List Chunk → Exec (V × List ExtractionResult)
    try_provider fuel name chunks s =
        and_then (extract_all_chunks fuel name chunks s)
          λ results s'. (validated validate results, s')

    -- The loop over the providers.
    unfoldable pub try_all : ℕ → List Chunk → List String → Exec (V × String × String)
    try_all fuel chunks [] s = (raise providers_exhausted, s)
    try_all fuel chunks (name ∷ names) s =
        let (allowed, s1) = can_execute clock name s in
        let (outcome, s2) = try_provider fuel name chunks s1 in
        let skip = try_all fuel chunks names s1 in
        let next = try_all fuel chunks names s2 in
        if allowed then after_try name s2 next outcome else skip

    -- `extract` below the call of the chunker.
    unfoldable pub extract_chunks :
        ℕ
        → Orchestrator
        → Result ChunkError (List Chunk)
        → Result Error (V × String × String) × Orchestrator
    extract_chunks fuel s (raise _) = (raise bad_target, s)
    extract_chunks fuel s (ok chunks) =
        if is_empty chunks
        then (raise empty_document, s)
        else try_all fuel chunks (order_by_rate s) s

    -- `extract`
    unfoldable pub extract : ℕ → Text → Text → Exec (V × String × String)
    extract fuel text source s = extract_chunks fuel s (chunk_document text s.chunk_target source)
