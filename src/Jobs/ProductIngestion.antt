-- ===== src/Jobs/ProductIngestion.antt =====
-- `ProductIngestionJob` of src/jobs/product_ingestion.py: what it prepares from a candidate. The loop is that
-- of Jobs.Ingestion. The matcher is that of Entities.Matcher, if there is one; the check of the data by the
-- pydantic class `ProductContent`, that of a URL and the printing of a record are parameters.
use ai_internship_demo_task.Prelude.{
  ℕ, ◌&&◌, ◌||◌, Bool, true, false, not, leb, Option, none, some, List, length, String,
  if◌then◌else◌,
}
use ai_internship_demo_task.Prelude.Eq.{same, nat_eq, list_eq}
use ai_internship_demo_task.Prelude.Result.{Result, ok, raise}
use ai_internship_demo_task.Prelude.Text.{Text, codes, is_empty}
use ai_internship_demo_task.Prelude.Json.{Value, str, Elements, Fields, get}
use ai_internship_demo_task.Crawlers.Candidates.{ProductCandidate}
use ai_internship_demo_task.Schemas.Common.{CanonicalRecord, canonical_ok, source_ok, provenance_ok}
use ai_internship_demo_task.Storage.Objects.{RawDocument, Files}
use ai_internship_demo_task.Storage.Local.{product}
use ai_internship_demo_task.Entities.Matcher.{MatchResult}
use ai_internship_demo_task.Extraction.Orchestrator.{Failure, ExtractionResult}
use ai_internship_demo_task.Extraction.Orchestrator.State.{Orchestrator}
use ai_internship_demo_task.Extraction.Enrichment.{
  LlmProductExtraction, CallError, enrich_product_with_llm,
}
use ai_internship_demo_task.Jobs.Ingestion
use ai_internship_demo_task.Jobs.Ingestion.{
  Refusal, candidate_rejected, not_caught, Prepared, Library, Adapter, Run, Summary, Error, Mapping,
}
use ai_internship_demo_task.Jobs.Ingestion.Resolution.{
  resolved_data, resolved_name, set_default, base_of, append_mapping,
}

-- `ProductRecord` with its content.
pub record ProductRecord : Type 0 where
  pub base : CanonicalRecord
  pub product_name : Text
  pub startup_name : Text
  pub pricing_model : Text
  pub attributes : Fields

-- `_source_name`
unfoldable pub source_name : Text → Text
source_name source_id =
    if same source_id (codes "product_hunt") then codes "Product Hunt" else source_id

unfoldable pub resolve_candidate : Option (Text → MatchResult) → ProductCandidate → ProductCandidate
resolve_candidate none c = c
resolve_candidate (some match_name) c =
    let m = match_name c.startup_name in
    record c {
      startup_name = resolved_name m.status m.entity c.startup_name;
      attributes = resolved_data "rawStartupName" c.startup_name m c.attributes;
    }

-- `PricingModel`
unfoldable pub is_pricing_model : Text → Bool
is_pricing_model p =
    same p (codes "FREE")
    || same p (codes "FREEMIUM")
    || same p (codes "PAID")
    || same p (codes "ENTERPRISE")

unfoldable pub has_key : Option Value → Bool
has_key none = false
has_key (some v) = true

-- Whether the data has a keyword that the call of `ProductContent` gives already, a `TypeError`.
unfoldable pub repeats_keyword : Fields → Bool
repeats_keyword fs =
    has_key (get "productName" fs)
    || has_key (get "startupName" fs)
    || has_key (get "pricingModel" fs)

module _ (is_http_url : Text → Bool) (data_ok : Fields → Bool) where
  -- The checks of `ProductRecord` and `ProductContent`.
  unfoldable pub record_ok : ProductRecord → Bool
  record_ok r =
      canonical_ok is_http_url r.base
      && leb (length r.product_name) 500
      && not (is_empty r.startup_name)
      && leb (length r.startup_name) 500
      && is_pricing_model r.pricing_model
      && data_ok r.attributes

  unfoldable pub checked : ProductRecord → Result Refusal ProductRecord
  checked r = if record_ok r then ok r else raise candidate_rejected

  module _ (record_id : Text → Text → Text) where
    -- `_build_record`. The source and the provenance are built before the content is, so that what they refuse
    -- comes before the `TypeError`.
    unfoldable pub build_record :
        ProductCandidate → RawDocument → Bool → Result Refusal ProductRecord
    build_record c raw llm_used =
        let base =
          base_of (record_id raw.source_id c.canonical_url) (source_name raw.source_id)
            c.original_url c.canonical_url raw llm_used in
        let payload = set_default "rawStartupName" (str c.startup_name) c.attributes in
        let r : ProductRecord = record {
          base = base;
          product_name = c.product_name;
          startup_name = c.startup_name;
          pricing_model = c.pricing_model;
          attributes = payload;
        } in
        if source_ok is_http_url base.source
          && provenance_ok base.provenance
          && repeats_keyword payload
        then raise not_caught
        else checked r

    unfoldable pub prepare_record :
        Option (Text → MatchResult)
        → ProductCandidate
        → RawDocument
        → Bool
        → Result Refusal ProductRecord
    prepare_record matcher c raw llm_used = build_record (resolve_candidate matcher c) raw llm_used

unfoldable pub prepared_of :
    (ProductRecord → Value)
    → (Text → List Mapping)
    → Result Refusal ProductRecord
    → Result Refusal Prepared
prepared_of dump mappings (raise e) = raise e
prepared_of dump mappings (ok r) = ok (record {
  record_id = r.base.record_id;
  payload = dump r;
  mappings = mappings r.base.record_id;
})

-- What the job is given, and what it takes from outside.
pub record Services : Type 0 where
  pub matcher : Option (Text → MatchResult)
  pub has_mapping_store : Bool
  pub source_id : Text
  pub is_http_url : Text → Bool
  pub data_ok : Fields → Bool
  pub record_id : Text → Text → Text
  pub dump : ProductRecord → Value
  pub reply : String → ℕ → Text → Result Failure ExtractionResult
  pub clock : ℕ → ℕ
  pub repr : Elements → Text
  pub call_pricing : Text → Result CallError Text
  pub validate : Fields → Option LlmProductExtraction

module _ (v : Services) where
  -- From the enriched candidate on.
  unfoldable pub prepare_enriched : ProductCandidate × Bool → RawDocument → Result Refusal Prepared
  prepare_enriched (c, llm_used) raw =
      prepared_of v.dump
        (λ record_id.
          append_mapping v.matcher v.has_mapping_store v.source_id record_id c.startup_name)
        (prepare_record v.is_http_url v.data_ok v.record_id v.matcher c raw llm_used)

  -- The body of the loop up to the record; the state is the orchestrator, if there is one.
  unfoldable pub prepare :
      ProductCandidate
      → RawDocument
      → Option Orchestrator
      → Files
      → Result Refusal Prepared × Option Orchestrator × Files
  prepare c raw s files =
      let (enriched, s') =
        enrich_product_with_llm v.reply v.clock v.repr v.call_pricing v.validate s c in
      (prepare_enriched enriched raw, s', files)

  -- `ProductIngestionJob.run`
  unfoldable pub run_job :
      Library
      → Adapter ProductCandidate
      → Run (Option Orchestrator)
      → Result Error Summary × Run (Option Orchestrator)
  run_job lib adapter s = Ingestion.run_job lib adapter product prepare s
