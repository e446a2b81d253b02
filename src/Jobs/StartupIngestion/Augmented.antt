-- ===== src/Jobs/StartupIngestion/Augmented.antt =====
-- What becomes of a startup that a language model has enriched, and of a run without one.
use ai_internship_demo_task.Prelude.{Bool, true, false, Option, none, some, List, ◌≡◌, refl, arith}
use ai_internship_demo_task.Prelude.Eq.{nat_eq, list_eq}
use ai_internship_demo_task.Prelude.Result.{Result, raise}
use ai_internship_demo_task.Prelude.Text.{Text}
use ai_internship_demo_task.Prelude.Json.{Value, Fields}
use ai_internship_demo_task.Crawlers.Candidates.{StartupCandidate}
use ai_internship_demo_task.Schemas.Common.{canonical_ok, provenance_ok}
use ai_internship_demo_task.Storage.Objects.{RawDocument, Files}
use ai_internship_demo_task.Storage.Local.{startup}
use ai_internship_demo_task.Storage.Local.Upserts.{IsHeld}
use ai_internship_demo_task.Extraction.Orchestrator.State.{Orchestrator}
use ai_internship_demo_task.Extraction.Enrichment.{enrich_startup_with_llm}
use ai_internship_demo_task.Jobs.Ingestion.{
  Refusal, candidate_rejected, Library, Adapter, Run, Mapping,
}
use ai_internship_demo_task.Jobs.Ingestion.Replay.{run_job_twice}
use ai_internship_demo_task.Jobs.Ingestion.Resolution.{base_of, method_of}
use ai_internship_demo_task.Jobs.StartupIngestion.{
  Services, StartupRecord, record_ok, checked, build_record, prepare_record, prepared_of,
  prepare_enriched, prepare, run_job, resolve_candidate, source_name,
}

-- A record whose method is not `deterministic` does not pass.
base_of_augmented :
    (is_http_url : Text → Bool) (record_id name original_url canonical_url : Text)
    (raw : RawDocument)
    → canonical_ok is_http_url (base_of record_id name original_url canonical_url raw true) ≡ false
unfolding canonical_ok provenance_ok base_of method_of
base_of_augmented is_http_url record_id name original_url canonical_url raw = ground arith

checked_refused :
    (is_http_url : Text → Bool) (data_ok : Fields → Bool) (r : StartupRecord)
    → canonical_ok is_http_url r.base ≡ false
    → checked is_http_url data_ok r ≡ raise candidate_rejected
unfolding checked record_ok
checked_refused is_http_url data_ok r h = rw h refl

prepared_of-raise :
    (dump : StartupRecord → Value) (mappings : Text → List Mapping)
    (r : Result Refusal StartupRecord)
    → r ≡ raise candidate_rejected
    → prepared_of dump mappings r ≡ raise candidate_rejected
unfolding prepared_of
prepared_of-raise dump mappings r h = rw h refl

prepare_enriched_augmented :
    (v : Services) (enriched : StartupCandidate × Bool) (raw : RawDocument)
    → enriched.1 ≡ true
    → prepare_enriched v enriched raw ≡ raise candidate_rejected
unfolding prepare_enriched prepare_record build_record
prepare_enriched_augmented v (c, false) raw h = absurd (cc)
prepare_enriched_augmented v (c, true) raw h = prepared_of-raise v.dump _ _ (
    checked_refused v.is_http_url v.data_ok _ (
      base_of_augmented v.is_http_url
        (v.record_id raw.source_id (resolve_candidate v.matcher c).canonical_url)
        (source_name raw.source_id) (resolve_candidate v.matcher c).original_url
        (resolve_candidate v.matcher c).canonical_url raw))

-- A startup for which the enrichment says that a model was used is rejected, whatever the model gave, the
-- matcher finds and the checks of the data say: the method `llm_augmented` is none that the class of the
-- provenance takes.
pub prepare_augmented :
    (v : Services) (c : StartupCandidate) (raw : RawDocument) (s : Option Orchestrator)
    (files : Files)
    → (enrich_startup_with_llm v.reply v.clock v.repr v.validate s c).0.1 ≡ true
    → (prepare v c raw s files).0 ≡ raise candidate_rejected
unfolding prepare
prepare_augmented v c raw s files h =
    prepare_enriched_augmented v (enrich_startup_with_llm v.reply v.clock v.repr v.validate s c).0
      raw h

abbrev IsOff : Option Orchestrator → Type 0
IsOff s = s ≡ none

prepare-IsOff :
    (v : Services) (c : StartupCandidate) (raw : RawDocument) (s : Option Orchestrator)
    (files : Files)
    → IsOff s
    → IsOff (prepare v c raw s files).1
unfolding prepare enrich_startup_with_llm
prepare-IsOff v c raw none files h = refl
prepare-IsOff v c raw (some s) files h = absurd (cc)

prepare-steady :
    (v : Services) (c : StartupCandidate) (raw : RawDocument) (s t : Option Orchestrator)
    (files others : Files)
    → IsOff s
    → IsOff t
    → (prepare v c raw s files).0 ≡ (prepare v c raw t others).0
unfolding prepare
prepare-steady v c raw s t files others h k = rw (h, k) refl

-- Without a language model, a run of the job inserts nothing after another of the same job whose records are
-- still in the repository, if the adapter gives the same again; neither run needs to return a summary.
pub run_job-run_job :
    (v : Services) (lib : Library) (adapter : Adapter StartupCandidate)
    (s t : Run (Option Orchestrator))
    → s.rest ≡ none
    → t.rest ≡ none
    → ((record_id : Text)
        → IsHeld startup record_id (run_job v lib adapter s).1.repository
        → IsHeld startup record_id t.repository)
    → (run_job v lib adapter t).1.inserted ≡ 0
unfolding run_job
run_job-run_job v lib adapter s t h k seen =
    run_job_twice lib adapter startup (prepare v) IsOff (prepare-IsOff v) (prepare-steady v) s t h k
      seen
