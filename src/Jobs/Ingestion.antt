-- ===== src/Jobs/Ingestion.antt =====
-- The run that the jobs of src/jobs/startup_ingestion.py, product_ingestion.py and research_ingestion.py share:
-- each URL is fetched, its response is stored, each candidate of it is prepared and written to the
-- repository. What a job prepares is a parameter, with a state of its own (the orchestrator), and may write
-- to the raw store. An exception that the loop does not catch ends the run and keeps what was written.
pub mod Resolution
pub mod Accounting
pub mod Replay
use ai_internship_demo_task.Prelude.{
  ℕ, ◌+◌, Bool, true, false, Option, none, some, List, [], ◌∷◌, ◌++◌, length, if◌then◌else◌,
}
use ai_internship_demo_task.Prelude.Result.{Result, ok, raise}
use ai_internship_demo_task.Prelude.Text.{Text}
use ai_internship_demo_task.Prelude.Json.{Value}
use ai_internship_demo_task.Entities.Matcher.{MatchResult}
use ai_internship_demo_task.Fetch.Client.{RawResponse}
use ai_internship_demo_task.Storage.Local.{
  Kind, Repository, PersistenceResult, duplicate_prevented, upsert,
}
use ai_internship_demo_task.Storage.Objects.{RawDocument, Files, put}

pub record Summary : Type 0 where
  pub discovered_urls : ℕ
  pub parsed_records : ℕ
  pub inserted_records : ℕ
  pub duplicates_prevented : ℕ
  pub rejected_records : ℕ

-- Why a candidate gives no record: a `ValueError` that the loop catches, or another exception.
pub data Refusal : Type 0 where
  candidate_rejected not_caught : Refusal

-- Why a run ends early.
pub data Error : Type 0 where
  fetch_failed store_failed parse_failed prepare_failed : Error

-- An entry of the mapping log: the match, the source and the record.
pub record Mapping : Type 0 where
  pub result : MatchResult
  pub source : Text
  pub record_id : Text

-- A record with its identity, and the mappings that are appended after it is written.
pub record Prepared : Type 0 where
  pub record_id : Text
  pub payload : Value
  pub mappings : List Mapping

-- What the code takes from outside: hashes and forms of URLs, dates and media types, JSON.
pub record Library : Type 0 where
  pub sha256 : Text → Text
  pub canonicalize_url : Text → Option Text
  pub day_path : ℕ → Text
  pub media_type : Option Text → Text
  pub metadata : RawDocument → Text
  pub pid : Text
  pub dumps : Value → Text
  pub loads : Text → Option Value

pub record Adapter (C : Type 0) : Type 0 where
  pub source_id : Text
  pub discover : List Text
  pub fetch : Text → Option RawResponse
  pub parse : RawResponse → Option (List C)

pub record Run (X : Type 0) : Type 0 where
  pub parsed : ℕ
  pub inserted : ℕ
  pub duplicates : ℕ
  pub rejected : ℕ
  pub repository : Repository
  pub files : Files
  pub log : List Mapping
  -- what the preparation keeps
  pub rest : X

-- The value of a step that returns nothing.
pub data Done : Type 0 where
  done : Done

abbrev pub Step : Type 0 → Type 0
Step X = Run X → Result Error Done × Run X

-- `raw_store.put`
unfoldable pub store : Library → Text → RawResponse → Files → Option (RawDocument × Files)
store lib source_id r files =
    put lib.sha256 lib.canonicalize_url lib.day_path lib.media_type lib.metadata lib.pid source_id r
      files

abbrev pub to_number : Bool → ℕ
to_number true = 1
to_number false = 0

module _ {X : Type 0} where
  unfoldable pub skip : Step X
  skip s = (ok done, s)

  unfoldable pub fail : Error → Step X
  fail e s = (raise e, s)

  unfoldable pub then_step : Result Error Done × Run X → Step X → Result Error Done × Run X
  then_step (ok _, s) f = f s
  then_step (raise e, s) f = (raise e, s)

  -- The end of the loop's body, from the answer of the repository.
  unfoldable pub count_result : List Mapping → PersistenceResult × Repository → Step X
  count_result mappings (result, repository) s = (
    ok done,
    record s {
      repository = repository;
      log = s.log ++ mappings;
      inserted = s.inserted + to_number result.inserted;
      duplicates = s.duplicates + to_number (duplicate_prevented result);
    },
  )

  module _ {C : Type 0} (lib : Library) (adapter : Adapter C) (kind : Kind)
      (prepare : C → RawDocument → X → Files → Result Refusal Prepared × X × Files) where
    -- From what the preparation gives.
    unfoldable pub persist : Result Refusal Prepared → Step X
    persist (raise candidate_rejected) s = (ok done, record s { rejected = s.rejected + 1 })
    persist (raise not_caught) s = (raise prepare_failed, s)
    persist (ok p) s =
        count_result p.mappings (upsert lib.dumps lib.loads kind p.record_id p.payload s.repository)
          s

    -- The body of the inner loop.
    unfoldable pub process_candidate : RawDocument → C → Step X
    process_candidate raw c s =
        let (outcome, x, files) = prepare c raw s.rest s.files in
        persist outcome (record s { parsed = s.parsed + 1; rest = x; files = files })

    unfoldable pub process_candidates : RawDocument → List C → Step X
    process_candidates raw [] s = skip s
    process_candidates raw (c ∷ cs) s =
        then_step (process_candidate raw c s) (process_candidates raw cs)

    unfoldable pub process_parsed : RawDocument → Option (List C) → Step X
    process_parsed raw none s = fail parse_failed s
    process_parsed raw (some cs) s = process_candidates raw cs s

    unfoldable pub process_stored : RawResponse → Option (RawDocument × Files) → Step X
    process_stored r none s = fail store_failed s
    process_stored r (some (raw, files)) s =
        process_parsed raw (adapter.parse r) (record s { files = files })

    unfoldable pub process_response : Option RawResponse → Step X
    process_response none s = fail fetch_failed s
    process_response (some r) s = process_stored r (store lib adapter.source_id r s.files) s

    -- The outer loop.
    unfoldable pub process_urls : List Text → Step X
    process_urls [] s = skip s
    process_urls (url ∷ urls) s =
        then_step (process_response (adapter.fetch url) s) (process_urls urls)

    unfoldable pub summary_of : Result Error Done × Run X → Result Error Summary × Run X
    summary_of (raise e, s) = (raise e, s)
    summary_of (ok _, s) = (
      ok (record {
        discovered_urls = length adapter.discover;
        parsed_records = s.parsed;
        inserted_records = s.inserted;
        duplicates_prevented = s.duplicates;
        rejected_records = s.rejected;
      }),
      s,
    )

    -- `run`, on what is stored before it; the counters start at 0.
    unfoldable pub run_job : Run X → Result Error Summary × Run X
    run_job s = summary_of (
        process_urls adapter.discover
          (record s { parsed = 0; inserted = 0; duplicates = 0; rejected = 0 }))
