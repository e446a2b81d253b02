-- ===== src/Jobs/FreshnessPersistence.antt =====
-- `FreshnessPersistenceSink` of src/jobs/freshness_persistence.py: the record that a call of `persist` gives
-- to the repository, or its `ValueError`. The checks that the records' classes make are those of
-- Schemas.Common and are not made here. Instants and confidences are those of Freshness.Policies.
pub mod Gated
use ai_internship_demo_task.Prelude.{ℕ, Bool, true, false, Option, none, some}
use ai_internship_demo_task.Prelude.Text.{Text, codes}
use ai_internship_demo_task.Prelude.Int.{ℤ, pos, negsuc}
use ai_internship_demo_task.Prelude.Result.{Result, ok, raise}
use ai_internship_demo_task.Crawlers.Candidates.{NewsCandidate, JobCandidate}
use ai_internship_demo_task.Schemas.Common.{SourceReference, Provenance, CanonicalRecord}
use ai_internship_demo_task.Storage.Objects.{RawDocument}
use ai_internship_demo_task.Prelude.Json.{
  Value, null, bool, num, str, arr, no_elements, element, field, end,
}
use ai_internship_demo_task.Freshness.Policies.{
  Source, json_ld, meta, time, source_specific, rss, visible, relative, FreshnessDecision, Status,
  accept, reject, quarantine,
}

pub data Candidate : Type 0 where
  news : NewsCandidate → Candidate
  job : JobCandidate → Candidate

-- `NewsContent` with `NewsFreshness`, and `JobContent`.
pub data Content : Type 0 where
  news_content : Text → ℕ → Option Text → Text → Text → ℕ → Option Source → ℕ → Content
  job_content : Text → ℕ → Bool → Option Text → Text → Text → Content

pub record Record : Type 0 where
  pub base : CanonicalRecord
  pub content : Content

-- The value of a date's source, one of the keys of `DATE_CONFIDENCE`.
unfoldable pub source_value : Option Source → Value
source_value none = null
source_value (some json_ld) = str (codes "json_ld")
source_value (some meta) = str (codes "meta")
source_value (some time) = str (codes "time")
source_value (some source_specific) = str (codes "source_specific")
source_value (some rss) = str (codes "rss")
source_value (some visible) = str (codes "visible")
source_value (some relative) = str (codes "relative")

unfoldable pub provenance_of : RawDocument → Option Source → ℕ → Provenance
provenance_of raw date_source date_confidence = record {
  retrieved_at = raw.retrieved_at;
  content_hash = raw.content_hash;
  raw_document_id = raw.raw_document_id;
  extraction_method = codes "deterministic";
  extraction_metadata =
      field "raw_document_ids" (arr (element (str raw.raw_document_id) no_elements)) (
        field "date_source" (source_value date_source) (
          field "date_confidence" (num (pos date_confidence)) (field "llm_used" (bool false) end)));
  validation_status = codes "VALID";
}

-- `_source`, on the candidate's two URLs
unfoldable pub source_of : RawDocument → Text → Text → SourceReference
source_of raw original_url canonical_url = record {
  name = raw.source_id;
  url = original_url;
  canonical_url = canonical_url;
}

-- max(0.0, decision.age_hours or 0.0), in the unit of the decision
unfoldable pub age_of : Option ℤ → ℕ
age_of none = 0
age_of (some (pos n)) = n
age_of (some (negsuc n)) = 0

module _ (record_id : Text → Text → Text) where
  unfoldable pub news_record : Text → NewsCandidate → FreshnessDecision → ℕ → RawDocument → Record
  news_record source_id c decision published raw = record {
    base = record {
      record_id = record_id source_id c.canonical_url;
      schema_version = codes "1.0";
      source = source_of raw c.original_url c.canonical_url;
      collected_at = raw.retrieved_at;
      provenance = provenance_of raw c.date_source c.date_confidence;
    };
    content =
        news_content c.title published c.author c.body c.category (age_of decision.age)
          decision.source decision.confidence;
  }

  unfoldable pub job_record : Text → JobCandidate → FreshnessDecision → ℕ → RawDocument → Record
  job_record source_id c decision published raw = record {
    base = record {
      record_id = record_id source_id c.canonical_url;
      schema_version = codes "1.0";
      source = source_of raw c.original_url c.canonical_url;
      collected_at = raw.retrieved_at;
      provenance = provenance_of raw c.date_source c.date_confidence;
    };
    content = job_content c.company published c.is_remote c.role_family c.title c.description;
  }

  unfoldable pub record_of : Text → Candidate → FreshnessDecision → ℕ → RawDocument → Record
  record_of source_id (news c) decision published raw =
      news_record source_id c decision published raw
  record_of source_id (job c) decision published raw = job_record source_id c decision published raw

  -- `persist`, from the status and the date of the decision.
  unfoldable pub persist_at :
      Status → Option ℕ → Text → Candidate → FreshnessDecision → RawDocument → Result Status Record
  persist_at accept (some published) source_id c decision raw =
      ok (record_of source_id c decision published raw)
  persist_at accept none source_id c decision raw = raise accept
  persist_at reject date source_id c decision raw = raise reject
  persist_at quarantine date source_id c decision raw = raise quarantine

  -- `persist`; the error carries the status that was refused.
  unfoldable pub persist : Text → Candidate → FreshnessDecision → RawDocument → Result Status Record
  persist source_id c decision raw =
      persist_at decision.status decision.published_at source_id c decision raw
