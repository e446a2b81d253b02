-- ===== src/Jobs/ResearchIngestion.antt =====
-- `ResearchIngestionJob` of src/jobs/research_ingestion.py: what it prepares from a candidate, with the metadata
-- of arXiv and of GitHub. The loop is that of Jobs.Ingestion; the two clients, the check of a URL, the form
-- of an instant and the printing of a record are parameters. An exception of a client is one of those that
-- the code names, or another.
pub mod Evidence
use ai_internship_demo_task.Prelude.{
  ℕ, ◌&&◌, ◌||◌, Bool, true, false, not, leb, Option, none, some, List, [], ◌∷◌, ◌++◌, map, length,
  String, if◌then◌else◌,
}
use ai_internship_demo_task.Prelude.Eq.{same, nat_eq, list_eq}
use ai_internship_demo_task.Prelude.Result.{Result, ok, raise}
use ai_internship_demo_task.Prelude.Text.{Text, codes, is_empty}
use ai_internship_demo_task.Prelude.Int.{ℤ, pos, negsuc}
use ai_internship_demo_task.Prelude.Json.{
  Value, null, bool, num, str, arr, obj, Elements, element, no_elements, Fields, get, put,
}
use ai_internship_demo_task.Fetch.Client.{RawResponse}
use ai_internship_demo_task.Crawlers.GitHub.{GitHubRepository}
use ai_internship_demo_task.Crawlers.Candidates.{
  ResearchPaperCandidate, needs_bibliographic_hydration,
}
use ai_internship_demo_task.Schemas.Common.{
  SourceReference, Provenance, CanonicalRecord, canonical_ok,
}
use ai_internship_demo_task.Storage.Objects.{RawDocument, Files}
use ai_internship_demo_task.Storage.Local.{research_paper}
use ai_internship_demo_task.Jobs.Ingestion
use ai_internship_demo_task.Jobs.Ingestion.{
  Refusal, candidate_rejected, not_caught, Prepared, Library, Adapter, Run, Summary, Error, store,
  Done, done,
}

-- `RetryableFailure`, `RuntimeError` or `ValueError`, and what is none of them.
pub data ClientError : Type 0 where
  named other_exception : ClientError

-- `ResearchPaperRecord` with its content.
pub record ResearchPaperRecord : Type 0 where
  pub base : CanonicalRecord
  pub title : Text
  pub authors : List Text
  pub paper_url : Text
  pub github_url : Option Text
  pub github_stars : Option ℤ
  pub published_date : ℕ
  pub abstract : Option Text

-- What the job is given, and what it takes from outside.
pub record Services : Type 0 where
  -- `fetch_by_id` and `get_repository`
  pub arxiv_metadata_client :
      Option (Text → Result ClientError (ResearchPaperCandidate × RawResponse))
  pub github_client : Option (Text → Result ClientError GitHubRepository)
  pub is_http_url : Text → Bool
  pub record_id : Text → Text → Text
  pub isoformat : ℕ → Text
  pub dump : ResearchPaperRecord → Value

-- A candidate on its way, with the raw documents that speak for it and the files of the raw store.
abbrev pub Evidence : Type 0
Evidence = ResearchPaperCandidate × List RawDocument × Files

abbrev pub refusal_of : ClientError → Refusal
refusal_of named = candidate_rejected
refusal_of other_exception = not_caught

-- `_source_name`
unfoldable pub source_name : Text → Text
source_name source_id =
    if same source_id (codes "arxiv")
    then codes "arXiv"
    else if same source_id (codes "papers_with_code")
    then codes "Papers with Code archive"
    else source_id

-- `isinstance(github_stars, int)`, which a bool is too
unfoldable pub as_int : Option Value → Option ℤ
as_int (some (num n)) = some n
as_int (some (bool true)) = some (pos 1)
as_int (some (bool false)) = some (pos 0)
as_int _ = none

unfoldable pub ids_of : List RawDocument → Elements
ids_of [] = no_elements
ids_of (d ∷ ds) = element (str d.raw_document_id) (ids_of ds)

module _ (lib : Library) (v : Services) where
  -- The end of `_hydrate_bibliography`, from the answer of the raw store.
  unfoldable pub hydrated :
      ResearchPaperCandidate
      → ResearchPaperCandidate
      → List RawDocument
      → Option (RawDocument × Files)
      → Result Refusal Evidence
  hydrated c found raws none = raise not_caught
  hydrated c found raws (some (raw, files)) = ok (
    record c {
      title = found.title;
      authors = found.authors;
      published_at = found.published_at;
      abstract = found.abstract;
      source_metadata = put "bibliographic_raw_document_id" (str raw.raw_document_id) (
          put "bibliographic_source_url" (str found.original_url)
            (put "bibliographic_parser" (str (codes "arxiv_atom_v1")) c.source_metadata));
    },
    raws ++ raw ∷ [],
    files,
  )

  -- From the answer of arXiv.
  unfoldable pub hydrate_from :
      Result ClientError (ResearchPaperCandidate × RawResponse)
      → ResearchPaperCandidate
      → List RawDocument
      → Files
      → Result Refusal Evidence
  hydrate_from (raise e) c raws files = raise (refusal_of e)
  hydrate_from (ok (found, r)) c raws files =
      if same found.paper_url c.paper_url
      then hydrated c found raws (store lib (codes "arxiv") r files)
      else raise candidate_rejected

  -- With the client, if there is one.
  unfoldable pub hydrate_by :
      Option (Text → Result ClientError (ResearchPaperCandidate × RawResponse))
      → Text
      → ResearchPaperCandidate
      → List RawDocument
      → Files
      → Result Refusal Evidence
  hydrate_by none arxiv_id c raws files = raise candidate_rejected
  hydrate_by (some fetch_by_id) arxiv_id c raws files =
      hydrate_from (fetch_by_id arxiv_id) c raws files

  -- From what the metadata has under `paper_arxiv_id`.
  unfoldable pub hydrate_with :
      Option Value → ResearchPaperCandidate → List RawDocument → Files → Result Refusal Evidence
  hydrate_with (some (str arxiv_id)) c raws files =
      if is_empty arxiv_id
      then raise candidate_rejected
      else hydrate_by v.arxiv_metadata_client arxiv_id c raws files
  hydrate_with _ c raws files = raise candidate_rejected

  unfoldable pub hydrate_bibliography :
      ResearchPaperCandidate → List RawDocument → Files → Result Refusal Evidence
  hydrate_bibliography c raws files =
      if needs_bibliographic_hydration c
      then hydrate_with (get "paper_arxiv_id" c.source_metadata) c raws files
      else ok (c, raws, files)

  -- The end of `_enrich_github`, from the answer of the raw store.
  unfoldable pub linked :
      ResearchPaperCandidate
      → GitHubRepository
      → List RawDocument
      → Option (RawDocument × Files)
      → Result Refusal Evidence
  linked c repository raws none = raise not_caught
  linked c repository raws (some (raw, files)) = ok (
    record c {
      github_url = some repository.normalized_url;
      source_metadata = put "github_stars" (num (pos repository.stars)) (
          put "github_api_retrieved_at" (str (v.isoformat repository.fetched_at)) (
            put "github_api_raw_document_id" (str raw.raw_document_id)
              (put "github_api_full_name" (str repository.full_name) c.source_metadata)));
    },
    raws ++ raw ∷ [],
    files,
  )

  -- From the answer of GitHub.
  unfoldable pub enrich_from :
      Result ClientError GitHubRepository
      → ResearchPaperCandidate
      → List RawDocument
      → Files
      → Result Refusal Evidence
  enrich_from (raise e) c raws files = raise (refusal_of e)
  enrich_from (ok repository) c raws files =
      linked c repository raws (store lib (codes "github") repository.raw_response files)

  unfoldable pub enrich_by :
      Option (Text → Result ClientError GitHubRepository)
      → Text
      → ResearchPaperCandidate
      → List RawDocument
      → Files
      → Result Refusal Evidence
  enrich_by none url c raws files = raise candidate_rejected
  enrich_by (some get_repository) url c raws files = enrich_from (get_repository url) c raws files

  unfoldable pub enrich_with :
      Option Text → ResearchPaperCandidate → List RawDocument → Files → Result Refusal Evidence
  enrich_with none c raws files = ok (c, raws, files)
  enrich_with (some url) c raws files = enrich_by v.github_client url c raws files

  unfoldable pub enrich_github : Evidence → Result Refusal Evidence
  enrich_github (c, raws, files) = enrich_with c.github_url c raws files

  -- The checks of `ResearchPaperRecord` and `ResearchPaperContent`; what fails them is an exception that the
  -- loop does not catch.
  unfoldable pub stars_ok : Option ℤ → Option Text → Bool
  stars_ok none url = true
  stars_ok (some n) none = false
  stars_ok (some (pos n)) (some url) = true
  stars_ok (some (negsuc n)) (some url) = false

  unfoldable pub url_ok : Option Text → Bool
  url_ok none = true
  url_ok (some url) = v.is_http_url url

  unfoldable pub abstract_ok : Option Text → Bool
  abstract_ok none = true
  abstract_ok (some s) = leb (length s) 100000

  unfoldable pub record_ok : ResearchPaperRecord → Bool
  record_ok r =
      canonical_ok v.is_http_url r.base
      && not (is_empty r.title)
      && leb (length r.title) 2000
      && v.is_http_url r.paper_url
      && url_ok r.github_url
      && stars_ok r.github_stars r.github_url
      && abstract_ok r.abstract

  unfoldable pub checked : ResearchPaperRecord → Result Refusal ResearchPaperRecord
  checked r = if record_ok r then ok r else raise not_caught

  -- The record of `_build_record`, with its date and its stars.
  unfoldable pub record_of :
      ResearchPaperCandidate → RawDocument → List RawDocument → ℕ → Option ℤ → ResearchPaperRecord
  record_of c raw raws published stars = record {
    base = record {
      record_id = v.record_id raw.source_id c.canonical_url;
      schema_version = codes "1.0";
      source = record {
        name = source_name raw.source_id;
        url = c.original_url;
        canonical_url = c.canonical_url;
      };
      collected_at = raw.retrieved_at;
      provenance = record {
        retrieved_at = raw.retrieved_at;
        content_hash = raw.content_hash;
        raw_document_id = raw.raw_document_id;
        extraction_method = codes "deterministic";
        extraction_metadata =
            put "llm_used" (bool false)
              (put "raw_document_ids" (arr (ids_of raws)) c.source_metadata);
        validation_status = codes "VALID";
      };
    };
    title = c.title;
    authors = c.authors;
    paper_url = c.paper_url;
    github_url = c.github_url;
    github_stars = stars;
    published_date = published;
    abstract = c.abstract;
  }

  -- Whether a paper with a GitHub URL has no stars.
  unfoldable pub lacks_stars : Option Text → Option ℤ → Bool
  lacks_stars none stars = false
  lacks_stars (some url) none = true
  lacks_stars (some url) (some n) = false

  -- `_build_record` from the date on.
  unfoldable pub build_dated :
      Option ℕ
      → ResearchPaperCandidate
      → RawDocument
      → List RawDocument
      → Result Refusal ResearchPaperRecord
  build_dated none c raw raws = raise candidate_rejected
  build_dated (some published) c raw raws =
      let stars = as_int (get "github_stars" c.source_metadata) in
      if lacks_stars c.github_url stars
      then raise candidate_rejected
      else checked (record_of c raw raws published stars)

  unfoldable pub build_record :
      ResearchPaperCandidate → RawDocument → List RawDocument → Result Refusal ResearchPaperRecord
  build_record c raw raws = build_dated c.published_at c raw raws

  -- `_prepare_record` from the second enrichment on; what was written to the raw store stays there.
  unfoldable pub after_github :
      Result Refusal Evidence → RawDocument → Files → Result Refusal ResearchPaperRecord × Files
  after_github (raise e) raw files = (raise e, files)
  after_github (ok (c, raws, files')) raw files = (build_record c raw raws, files')

  unfoldable pub after_hydration :
      Result Refusal Evidence → RawDocument → Files → Result Refusal ResearchPaperRecord × Files
  after_hydration (raise e) raw files = (raise e, files)
  after_hydration (ok (c, raws, files')) raw files =
      after_github (enrich_github (c, raws, files')) raw files'

  unfoldable pub prepare_record :
      ResearchPaperCandidate → RawDocument → Files → Result Refusal ResearchPaperRecord × Files
  prepare_record c raw files = after_hydration (hydrate_bibliography c (raw ∷ []) files) raw files

  unfoldable pub prepared_of : Result Refusal ResearchPaperRecord → Result Refusal Prepared
  prepared_of (raise e) = raise e
  prepared_of (ok r) =
      ok (record { record_id = r.base.record_id; payload = v.dump r; mappings = [] })

  -- The body of the loop up to the record; the job keeps no state of its own.
  unfoldable pub prepare :
      ResearchPaperCandidate → RawDocument → Done → Files → Result Refusal Prepared × Done × Files
  prepare c raw s files =
      let (outcome, files') = prepare_record c raw files in (prepared_of outcome, s, files')

  -- `ResearchIngestionJob.run`
  unfoldable pub run_job :
      Adapter ResearchPaperCandidate → Run Done → Result Error Summary × Run Done
  run_job adapter s = Ingestion.run_job lib adapter research_paper prepare s
