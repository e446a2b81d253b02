-- ===== src/Jobs/Ingestion/Accounting.antt =====
-- The counters of a run.
use ai_internship_demo_task.Prelude.{
  ℕ, ◌+◌, Option, none, some, List, [], ◌∷◌, ◌≡◌, arith, Bool-cases, inl, inr,
}
use ai_internship_demo_task.Prelude.Result.{Result, ok, raise}
use ai_internship_demo_task.Prelude.Text.{Text}
use ai_internship_demo_task.Fetch.Client.{RawResponse}
use ai_internship_demo_task.Storage.Local.{
  Kind, Repository, PersistenceResult, duplicate_prevented, upsert,
}
use ai_internship_demo_task.Storage.Objects.{RawDocument, Files}
use ai_internship_demo_task.Jobs.Ingestion.{
  Summary, Refusal, candidate_rejected, not_caught, Error, prepare_failed, Mapping, Prepared,
  Library, Adapter, Run, Step, Done, store, skip, fail, then_step, count_result, persist,
  process_candidate, process_candidates, process_parsed, process_stored, process_response,
  process_urls, summary_of, run_job,
}

abbrev pub IsBalanced : {X : Type 0} → Run X → Type 0
IsBalanced s = s.parsed ≡ s.inserted + (s.duplicates + s.rejected)

-- The candidates that an exception left without an outcome.
abbrev pub in_doubt : Error → ℕ
in_doubt prepare_failed = 1
in_doubt _ = 0

-- The counters are in balance, but for the candidate whose preparation ended the run.
abbrev pub Balances : {X : Type 0} → Result Error Done × Run X → Type 0
Balances (ok _, s) = IsBalanced s
Balances (raise e, s) = s.parsed ≡ (s.inserted + (s.duplicates + s.rejected)) + in_doubt e

then_step-Balances :
    {X : Type 0} (r : Result Error Done × Run X) (f : Step X)
    → Balances r
    → ((s : Run X) → IsBalanced s → Balances (f s))
    → Balances (then_step r f)
unfolding then_step
then_step-Balances (ok _, s) f h g = g s h
then_step-Balances (raise e, s) f h g = h

count_result-Balances :
    {X : Type 0} (mappings : List Mapping) (result : PersistenceResult) (repository : Repository)
    (s : Run X)
    → s.parsed ≡ (s.inserted + (s.duplicates + s.rejected)) + 1
    → Balances (count_result mappings (result, repository) s)
unfolding count_result duplicate_prevented
count_result-Balances mappings result repository s h = elim (Bool-cases result.inserted) [
  | inl e ↦ rw e (omega (arith, h))
  | inr e ↦ rw e (omega (arith, h))
]

module _ {C X : Type 0} (lib : Library) (adapter : Adapter C) (kind : Kind)
    (prepare : C → RawDocument → X → Files → Result Refusal Prepared × X × Files) where
  persist-Balances :
      (outcome : Result Refusal Prepared) (s : Run X)
      → s.parsed ≡ (s.inserted + (s.duplicates + s.rejected)) + 1
      → Balances (persist lib adapter kind prepare outcome s)
  unfolding persist
  persist-Balances (raise candidate_rejected) s h = omega (arith, h)
  persist-Balances (raise not_caught) s h = h
  persist-Balances (ok p) s h =
      let answer = upsert lib.dumps lib.loads kind p.record_id p.payload s.repository in
      count_result-Balances p.mappings answer.0 answer.1 s h

  process_candidates-Balances :
      (raw : RawDocument) (cs : List C) (s : Run X)
      → IsBalanced s
      → Balances (process_candidates lib adapter kind prepare raw cs s)
  unfolding process_candidates process_candidate skip
  process_candidates-Balances raw [] s h = h
  process_candidates-Balances raw (c ∷ cs) s h =
      then_step-Balances (process_candidate lib adapter kind prepare raw c s)
        (process_candidates lib adapter kind prepare raw cs)
        (persist-Balances (prepare c raw s.rest s.files).0 _ (omega (arith, h)))
        (process_candidates-Balances raw cs)

  process_parsed-Balances :
      (raw : RawDocument) (found : Option (List C)) (s : Run X)
      → IsBalanced s
      → Balances (process_parsed lib adapter kind prepare raw found s)
  unfolding process_parsed fail
  process_parsed-Balances raw none s h = omega (arith, h)
  process_parsed-Balances raw (some cs) s h = process_candidates-Balances raw cs s h

  process_stored-Balances :
      (r : RawResponse) (found : Option (RawDocument × Files)) (s : Run X)
      → IsBalanced s
      → Balances (process_stored lib adapter kind prepare r found s)
  unfolding process_stored fail
  process_stored-Balances r none s h = omega (arith, h)
  process_stored-Balances r (some (raw, files)) s h =
      process_parsed-Balances raw (adapter.parse r) (record s { files = files }) h

  process_response-Balances :
      (found : Option RawResponse) (s : Run X)
      → IsBalanced s
      → Balances (process_response lib adapter kind prepare found s)
  unfolding process_response fail
  process_response-Balances none s h = omega (arith, h)
  process_response-Balances (some r) s h =
      process_stored-Balances r (store lib adapter.source_id r s.files) s h

  process_urls-Balances :
      (urls : List Text) (s : Run X)
      → IsBalanced s
      → Balances (process_urls lib adapter kind prepare urls s)
  unfolding process_urls skip
  process_urls-Balances [] s h = h
  process_urls-Balances (url ∷ urls) s h =
      then_step-Balances (process_response lib adapter kind prepare (adapter.fetch url) s)
        (process_urls lib adapter kind prepare urls)
        (process_response-Balances (adapter.fetch url) s h) (process_urls-Balances urls)

  -- A summary that adds up, or counters of a run that was ended.
  abbrev pub AddsUp : Result Error Summary × Run X → Type 0
  AddsUp (raise e, s) = s.parsed ≡ (s.inserted + (s.duplicates + s.rejected)) + in_doubt e
  AddsUp (ok summary, s) =
      summary.parsed_records
      ≡ summary.inserted_records + (summary.duplicates_prevented + summary.rejected_records)

  summary_of-AddsUp :
      (r : Result Error Done × Run X) → Balances r → AddsUp (summary_of lib adapter kind prepare r)
  unfolding summary_of
  summary_of-AddsUp (ok _, s) h = h
  summary_of-AddsUp (raise e, s) h = h

  -- In the summary of a run that returns one, the parsed records are those inserted, those that were
  -- duplicates and those rejected, whatever the job prepares and whatever is stored before. Of a run that
  -- an exception ends the counters say the same, but for the one candidate that was parsed and whose
  -- preparation raised, if it was that.
  pub run_job-AddsUp : (s : Run X) → AddsUp (run_job lib adapter kind prepare s)
  unfolding run_job
  run_job-AddsUp s =
      summary_of-AddsUp
        (process_urls lib adapter kind prepare adapter.discover
          (record s { parsed = 0; inserted = 0; duplicates = 0; rejected = 0 }))
        (process_urls-Balances adapter.discover
          (record s { parsed = 0; inserted = 0; duplicates = 0; rejected = 0 }) (omega arith))
