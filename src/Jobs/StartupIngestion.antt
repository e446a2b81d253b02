-- ===== src/Jobs/StartupIngestion.antt =====
-- `StartupIngestionJob` of src/jobs/startup_ingestion.py: what it prepares from a candidate. The loop is that
-- of Jobs.Ingestion. The matcher is that of Entities.Matcher, if there is one; the check of the data by the
-- pydantic class `StartupData`, that of a URL and the printing of a record are parameters.
pub mod Augmented
use ai_internship_demo_task.Prelude.{
  ℕ, ◌&&◌, Bool, true, false, not, leb, Option, none, some, List, [], ◌∷◌, length, String,
  if◌then◌else◌,
}
use ai_internship_demo_task.Prelude.Eq.{same, nat_eq, list_eq}
use ai_internship_demo_task.Prelude.Result.{Result, ok, raise}
use ai_internship_demo_task.Prelude.Text.{Text, codes, is_empty}
use ai_internship_demo_task.Prelude.Json.{Value, str, Elements, Fields}
use ai_internship_demo_task.Crawlers.Candidates.{StartupCandidate}
use ai_internship_demo_task.Schemas.Common.{CanonicalRecord, canonical_ok}
use ai_internship_demo_task.Storage.Objects.{RawDocument, Files}
use ai_internship_demo_task.Storage.Local.{startup}
use ai_internship_demo_task.Entities.Matcher.{MatchResult}
use ai_internship_demo_task.Extraction.Orchestrator.{Failure, ExtractionResult}
use ai_internship_demo_task.Extraction.Orchestrator.State.{Orchestrator}
use ai_internship_demo_task.Extraction.Enrichment.{LlmStartupExtraction, enrich_startup_with_llm}
use ai_internship_demo_task.Jobs.Ingestion
use ai_internship_demo_task.Jobs.Ingestion.{
  Refusal, candidate_rejected, Prepared, Library, Adapter, Run, Summary, Error, Mapping,
}
use ai_internship_demo_task.Jobs.Ingestion.Resolution.{
  resolved_data, resolved_name, set_default, base_of, append_mapping,
}

-- `StartupRecord` with its content.
pub record StartupRecord : Type 0 where
  pub base : CanonicalRecord
  pub entity_name : Text
  pub attributes : Fields

-- `_source_name`
unfoldable pub source_name : Text → Text
source_name source_id =
    if same source_id (codes "ycombinator") then codes "Y Combinator" else source_id

unfoldable pub resolve_candidate : Option (Text → MatchResult) → StartupCandidate → StartupCandidate
resolve_candidate none c = c
resolve_candidate (some match_name) c =
    let m = match_name c.entity_name in
    record c {
      entity_name = resolved_name m.status m.entity c.entity_name;
      attributes = resolved_data "rawEntityName" c.entity_name m c.attributes;
    }

module _ (is_http_url : Text → Bool) (data_ok : Fields → Bool) where
  -- The checks of `StartupRecord` and `StartupContent`.
  unfoldable pub record_ok : StartupRecord → Bool
  record_ok r =
      canonical_ok is_http_url r.base
      && not (is_empty r.entity_name)
      && leb (length r.entity_name) 500
      && data_ok r.attributes

  unfoldable pub checked : StartupRecord → Result Refusal StartupRecord
  checked r = if record_ok r then ok r else raise candidate_rejected

  module _ (record_id : Text → Text → Text) where
    -- `_build_record`
    unfoldable pub build_record :
        StartupCandidate → RawDocument → Bool → Result Refusal StartupRecord
    build_record c raw llm_used = checked (record {
      base =
          base_of (record_id raw.source_id c.canonical_url) (source_name raw.source_id)
            c.original_url c.canonical_url raw llm_used;
      entity_name = c.entity_name;
      attributes = set_default "rawEntityName" (str c.entity_name) c.attributes;
    })

    unfoldable pub prepare_record :
        Option (Text → MatchResult)
        → StartupCandidate
        → RawDocument
        → Bool
        → Result Refusal StartupRecord
    prepare_record matcher c raw llm_used = build_record (resolve_candidate matcher c) raw llm_used

unfoldable pub prepared_of :
    (StartupRecord → Value)
    → (Text → List Mapping)
    → Result Refusal StartupRecord
    → Result Refusal Prepared
prepared_of dump mappings (raise e) = raise e
prepared_of dump mappings (ok r) = ok (record {
  record_id = r.base.record_id;
  payload = dump r;
  mappings = mappings r.base.record_id;
})

-- What the job is given, and what it takes from outside.
pub record Services : Type 0 where
  pub matcher : Option (Text → MatchResult)
  pub has_mapping_store : Bool
  pub source_id : Text
  pub is_http_url : Text → Bool
  pub data_ok : Fields → Bool
  pub record_id : Text → Text → Text
  pub dump : StartupRecord → Value
  pub reply : String → ℕ → Text → Result Failure ExtractionResult
  pub clock : ℕ → ℕ
  pub repr : Elements → Text
  pub validate : Fields → Option LlmStartupExtraction

module _ (v : Services) where
  -- From the enriched candidate on.
  unfoldable pub prepare_enriched : StartupCandidate × Bool → RawDocument → Result Refusal Prepared
  prepare_enriched (c, llm_used) raw =
      prepared_of v.dump
        (λ record_id.
          append_mapping v.matcher v.has_mapping_store v.source_id record_id c.entity_name)
        (prepare_record v.is_http_url v.data_ok v.record_id v.matcher c raw llm_used)

  -- The body of the loop up to the record; the state is the orchestrator, if there is one.
  unfoldable pub prepare :
      StartupCandidate
      → RawDocument
      → Option Orchestrator
      → Files
      → Result Refusal Prepared × Option Orchestrator × Files
  prepare c raw s files =
      let (enriched, s') = enrich_startup_with_llm v.reply v.clock v.repr v.validate s c in
      (prepare_enriched enriched raw, s', files)

  -- `StartupIngestionJob.run`
  unfoldable pub run_job :
      Library
      → Adapter StartupCandidate
      → Run (Option Orchestrator)
      → Result Error Summary × Run (Option Orchestrator)
  run_job lib adapter s = Ingestion.run_job lib adapter startup prepare s
