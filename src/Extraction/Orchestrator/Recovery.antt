-- ===== src/Extraction/Orchestrator/Recovery.antt =====
-- The recursion on status 413 ends: each cut makes the estimates smaller.
use ai_internship_demo_task.Prelude.{
  ℕ, zero, suc, ◌*◌, ◌/◌, ◌≤◌, ◌<◌, max, Bool, ◌&&◌, Option, List, [], ◌∷◌, ◌≡◌, refl, arith, All,
  All-imp, length, map, String, leb, ◌==◌, Bool-cases, Option-cases, ◌⊎◌, inl, inr,
}
use ai_internship_demo_task.Prelude.Result.{Result, ok, raise}
use ai_internship_demo_task.Prelude.Text.{Text, is_empty}
use ai_internship_demo_task.Prelude.Json.{Value, obj, Fields}
use ai_internship_demo_task.Extraction.Merge.{merge_extractions}
use ai_internship_demo_task.Extraction.Chunker.{Chunk, ChunkError, chunk_document}
use ai_internship_demo_task.Extraction.Chunker.Numbering.{chunk_document_estimates}
use ai_internship_demo_task.Extraction.Chunker.Conservation.{chunk_document-eq-ok}
use ai_internship_demo_task.Extraction.Orchestrator.State.{
  Orchestrator, order_by_rate, can_execute, record_failure,
}
use ai_internship_demo_task.Extraction.Orchestrator.{
  Failure, ExtractionResult, Error, out_of_fuel, Exec, and_then, each_chunk, is_413, cut,
  after_answer, after_try, extract_chunks, recover, attempt, call, extract_chunk,
  extract_all_chunks, validated, try_provider, finish, try_all, extract, should_fallback,
  validate_extraction, invalid_output,
}

-- The run did not use up its fuel.
abbrev pub Ends : {A : Type 0} → Result Error A × Orchestrator → Type 0
Ends r = ¬ (r.0 ≡ raise out_of_fuel)

and_then-Ends :
    {A B : Type 0} (m : Result Error A × Orchestrator) (f : A → Exec B)
    → Ends m
    → ((a : A) (s : Orchestrator) → Ends (f a s))
    → Ends (and_then m f)
unfolding and_then
and_then-Ends (ok a, s) f h k = k a s
and_then-Ends (raise e, s) f h k = λ p. h (cc)

each_chunk-Ends :
    (one : Chunk → Exec (List ExtractionResult)) (chunks : List Chunk) (s : Orchestrator)
    → All (λ (c : Chunk). (s : Orchestrator) → Ends (one c s)) chunks
    → Ends (each_chunk one chunks s)
unfolding each_chunk
each_chunk-Ends one [] s h = λ p. cc
each_chunk-Ends one (c ∷ cs) s h = and_then-Ends (one c s) _ (h.0 s) λ results s'.
    and_then-Ends (each_chunk one cs s') _ (each_chunk-Ends one cs s' h.1) λ more s''. λ p. cc

-- The chunks of a cut in half are estimated lower than what was cut.
pub halving_shrinks :
    (text source : Text) (estimate : ℕ) {chunks : List Chunk}
    → max 1 (estimate / 2) < estimate
    → chunk_document text (max 1 (estimate / 2)) source ≡ ok chunks
    → All (λ (c : Chunk). c.token_estimate < estimate) chunks
halving_shrinks text source estimate {chunks} h e =
    All-imp (λ c b. omega arith) chunks
      (chunk_document_estimates text source (max 1 (estimate / 2)) e)

cut-Ends :
    (again : Chunk → Exec (List ExtractionResult)) (error : Failure) (chunk : Chunk)
    (s : Orchestrator) (r : Result ChunkError (List Chunk))
    → ((chunks : List Chunk)
        → r ≡ ok chunks
        → All (λ (c : Chunk). (s : Orchestrator) → Ends (again c s)) chunks)
    → Ends (cut again error chunk (max 1 (chunk.token_estimate / 2)) s r)
unfolding cut
cut-Ends again error chunk s (raise e) h = λ p. cc
cut-Ends again error chunk s (ok chunks) h =
    elim (Bool-cases (leb (length chunks) 1 && max 1 (chunk.token_estimate / 2) == 1)) [
      | inl stop ↦ rw stop (λ p. cc)
      | inr more ↦ rw more (each_chunk-Ends again chunks s (h chunks refl))
    ]

recover-Ends :
    (again : Chunk → Exec (List ExtractionResult)) (error : Failure) (chunk : Chunk)
    (s : Orchestrator)
    → ((c : Chunk) (s : Orchestrator) → c.token_estimate < chunk.token_estimate → Ends (again c s))
    → Ends (recover again error chunk s)
unfolding recover
recover-Ends again error chunk s h =
    let smaller = max 1 (chunk.token_estimate / 2) in
    elim (Bool-cases (leb chunk.token_estimate smaller)) [
      | inl stop ↦ rw stop (λ p. cc)
      | inr more ↦ rw more (
          cut-Ends again error chunk s (chunk_document chunk.text smaller chunk.source_record_id)
            (λ chunks e.
              All-imp (λ c less. λ s'. h c s' less) chunks
                (halving_shrinks chunk.text chunk.source_record_id chunk.token_estimate
                  (ground arith) e)))
    ]

after_answer-Ends :
    (again : Chunk → Exec (List ExtractionResult)) (last : Bool) (chunk : Chunk)
    (s' s'' : Orchestrator) (next : Result Error (List ExtractionResult) × Orchestrator)
    (answer : Result Failure ExtractionResult)
    → ((s : Orchestrator) (error : Failure) → Ends (recover again error chunk s))
    → Ends next
    → Ends (after_answer again last chunk s' s'' next answer)
unfolding after_answer
after_answer-Ends again last chunk s' s'' next (ok result) h k = λ p. cc
after_answer-Ends again last chunk s' s'' next (raise error) h k =
    elim (Bool-cases (is_413 error)) [
      | inl large ↦ rw large (h s' error)
      | inr other ↦ rw other (elim (Bool-cases last) [ inl e ↦ rw e (λ p. cc) | inr e ↦ rw e k ])
    ]

module _ {V : Type 0} where
  validate_extraction-cases :
      (validate : Fields → Option V) (v : Value)
      → (validate_extraction validate v ≡ raise invalid_output)
        ⊎ ((a : V) × (validate_extraction validate v ≡ ok a))
  unfolding validate_extraction
  validate_extraction-cases validate (obj fields) = elim (Option-cases (validate fields)) [
    | inl e ↦ inl (rw (e, validate_extraction))
    | inr (v, e) ↦ inr (v, rw (e, validate_extraction))
  ]
  validate_extraction-cases validate v = inl refl

  validated-Ends :
      (validate : Fields → Option V) (results : List ExtractionResult)
      → ¬ (validated validate results ≡ raise out_of_fuel)
  unfolding validated
  validated-Ends validate results =
      elim (validate_extraction-cases validate
        (merge_extractions (map (λ (r : ExtractionResult). obj r.fields) results))) [
          | inl e ↦ rw (e, validated) (λ p. cc)
          | inr (a, e) ↦ rw (e, validated) (λ p. cc)
        ]

  finish-Ends :
      (name : String) (found : V × List ExtractionResult) (s : Orchestrator)
      → Ends (finish name found s)
  unfolding finish
  finish-Ends name (v, []) s = λ p. cc
  finish-Ends name (v, r ∷ rs) s = λ p. cc

  after_try-Ends :
      (name : String) (s : Orchestrator) (next : Result Error (V × String × String) × Orchestrator)
      (outcome : Result Error (V × List ExtractionResult))
      → ¬ (outcome ≡ raise out_of_fuel)
      → Ends next
      → Ends (after_try name s next outcome)
  unfolding after_try
  after_try-Ends name s next (ok found) h k = finish-Ends name found s
  after_try-Ends name s next (raise e) h k = elim (Bool-cases (should_fallback e)) [
    | inl back ↦ rw back k
    | inr out ↦ rw out (λ p. h (cc))
  ]

module _ (reply : String → ℕ → Text → Result Failure ExtractionResult) (clock : ℕ → ℕ) where
  attempt-Ends :
      (again : Chunk → Exec (List ExtractionResult)) (name : String) (left : ℕ) (chunk : Chunk)
      (s : Orchestrator)
      → ((s : Orchestrator) (error : Failure) → Ends (recover again error chunk s))
      → Ends (attempt reply clock again name left chunk s)
  unfolding attempt
  attempt-Ends again name zero chunk s h = λ p. cc
  attempt-Ends again name (suc left) chunk s h =
      after_answer-Ends again (left == 0) chunk _ _ _ _ h (
        attempt-Ends again name left chunk
          (record_failure clock name (call reply clock name chunk s).1) h)

  -- A chunk is done with, or its error raised, on any fuel above its estimate: every cut on status
  -- 413 leaves chunks of a lower estimate.
  pub extract_chunk-Ends :
      (fuel : ℕ) (name : String) (chunk : Chunk) (s : Orchestrator)
      → chunk.token_estimate < fuel
      → Ends (extract_chunk reply clock fuel name chunk s)
  unfolding extract_chunk
  extract_chunk-Ends zero name chunk s h = absurd (omega arith)
  extract_chunk-Ends (suc fuel) name chunk s h =
      attempt-Ends (extract_chunk reply clock fuel name) name s.max_attempts chunk s λ s' error.
        recover-Ends (extract_chunk reply clock fuel name) error chunk s'
          λ c s'' less. extract_chunk-Ends fuel name c s'' (omega arith)

  extract_all_chunks-Ends :
      (fuel : ℕ) (name : String) (chunks : List Chunk) (s : Orchestrator)
      → All (λ (c : Chunk). c.token_estimate < fuel) chunks
      → Ends (extract_all_chunks reply clock fuel name chunks s)
  unfolding extract_all_chunks
  extract_all_chunks-Ends fuel name chunks s h =
      each_chunk-Ends (extract_chunk reply clock fuel name) chunks s
        (All-imp (λ c less. λ s'. extract_chunk-Ends fuel name c s' less) chunks h)

  module _ {V : Type 0} (validate : Fields → Option V) where
    try_provider-Ends :
        (fuel : ℕ) (name : String) (chunks : List Chunk) (s : Orchestrator)
        → All (λ (c : Chunk). c.token_estimate < fuel) chunks
        → Ends (try_provider reply clock validate fuel name chunks s)
    unfolding try_provider
    try_provider-Ends fuel name chunks s h =
        and_then-Ends (extract_all_chunks reply clock fuel name chunks s) _
          (extract_all_chunks-Ends fuel name chunks s h)
          (λ results s'. validated-Ends validate results)

    try_all-Ends :
        (fuel : ℕ) (chunks : List Chunk) (names : List String) (s : Orchestrator)
        → All (λ (c : Chunk). c.token_estimate < fuel) chunks
        → Ends (try_all reply clock validate fuel chunks names s)
    unfolding try_all
    try_all-Ends fuel chunks [] s h = λ p. cc
    try_all-Ends fuel chunks (name ∷ names) s h =
        let s1 = (can_execute clock name s).1 in
        let s2 = (try_provider reply clock validate fuel name chunks s1).1 in
        elim (Bool-cases (can_execute clock name s).0) [
          | inl yes_ ↦ rw yes_ (
              after_try-Ends name s2 _ _ (try_provider-Ends fuel name chunks s1 h)
                (try_all-Ends fuel chunks names s2 h))
          | inr no_ ↦ rw no_ (try_all-Ends fuel chunks names s1 h)
        ]

    extract_chunks-Ends :
        (fuel : ℕ) (s : Orchestrator) (r : Result ChunkError (List Chunk))
        → ((chunks : List Chunk)
            → r ≡ ok chunks
            → All (λ (c : Chunk). c.token_estimate < fuel) chunks)
        → Ends (extract_chunks reply clock validate fuel s r)
    unfolding extract_chunks
    extract_chunks-Ends fuel s (raise e) h = λ p. cc
    extract_chunks-Ends fuel s (ok chunks) h = elim (Bool-cases (is_empty chunks)) [
      | inl e ↦ rw e (λ p. cc)
      | inr e ↦ rw e (try_all-Ends fuel chunks (order_by_rate s) s (h chunks refl))
    ]

    -- `extract` comes to an end, with a value or an error of the program: fuel of twice the chunk
    -- target is enough for every document, provider and schema.
    pub extract-Ends :
        (fuel : ℕ) (text source : Text) (s : Orchestrator)
        → 2 * s.chunk_target ≤ fuel
        → Ends (extract reply clock validate fuel text source s)
    unfolding extract
    extract-Ends fuel text source s enough =
        extract_chunks-Ends fuel s (chunk_document text s.chunk_target source) λ chunks e.
          let positive = (chunk_document-eq-ok text source s.chunk_target e).0 in
          All-imp (λ c b. omega arith) chunks
            (chunk_document_estimates text source s.chunk_target e)
