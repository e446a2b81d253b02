-- ===== src/Tests/Importing.antt =====
-- Runs of the startup job over two copies of a page, without and with a language model, and a paper with a
-- repository.
use ai_internship_demo_task.Prelude.{true, false, none, some, Option, [], ◌∷◌, ◌≡◌, refl}
use ai_internship_demo_task.Prelude.Result.{Result, ok, raise}
use ai_internship_demo_task.Prelude.Text.{Text, codes}
use ai_internship_demo_task.Prelude.Json.{Value, str, end}
use ai_internship_demo_task.Crawlers.Candidates.{StartupCandidate, ResearchPaperCandidate}
use ai_internship_demo_task.Storage.Local.{open_repository, startup}
use ai_internship_demo_task.Storage.Objects.{RawDocument}
use ai_internship_demo_task.Extraction.Orchestrator.State.{Orchestrator}
use ai_internship_demo_task.Extraction.Enrichment.{enrich_startup_with_llm}
use ai_internship_demo_task.Jobs.Ingestion.{
  Library, Adapter, Run, candidate_rejected, run_job as run_loop,
}
use ai_internship_demo_task.Jobs.Ingestion.Accounting.{AddsUp, run_job-AddsUp}
use ai_internship_demo_task.Jobs.StartupIngestion.{Services, prepare, run_job}
use ai_internship_demo_task.Jobs.StartupIngestion.Augmented.{prepare_augmented, run_job-run_job}
use ai_internship_demo_task.Jobs.ResearchIngestion
use ai_internship_demo_task.Crawlers.GitHub.{GitHubRepository}
use ai_internship_demo_task.Jobs.ResearchIngestion.{ClientError, prepare_record}
use ai_internship_demo_task.Jobs.ResearchIngestion.Evidence.{IsVerified, prepare_record-IsVerified}
use ai_internship_demo_task.Tests.Archiving.{canonicalize_url, day_path, media_type, metadata, page}
use ai_internship_demo_task.Tests.Enriching.{
  answers, clock, no_repr, orchestrator, acme, of_startup,
}
use ai_internship_demo_task.Extraction.Chunker.{
  estimate_tokens, heading, flush, blocks, split_oversized, emit, end_chunk, chunks_from, pieces_of,
  chunk_document,
}
use ai_internship_demo_task.Extraction.Orchestrator.{
  and_then, each_chunk, after_answer, validate_extraction, validated, finish, after_try, call,
  attempt, extract_chunk, extract_all_chunks, try_provider, try_all, extract_chunks, extract,
}
use ai_internship_demo_task.Extraction.Orchestrator.State.{
  insert_by_rate, sort_by_rate, order_by_rate, can_execute,
}
use ai_internship_demo_task.Extraction.CircuitBreaker.{run}
use ai_internship_demo_task.Extraction.Merge.{is_blank, merge_extractions, merge_fields}
use ai_internship_demo_task.Prelude.Text.{is_space, strip, splitlines, join}
use ai_internship_demo_task.Prelude.Dict.{lookup}
use ai_internship_demo_task.Prelude.Json.{get}
use ai_internship_demo_task.Extraction.Enrichment.{
  value_of, with_startup, description_of, ask, ask_if,
}

abbrev sixty_four : Text
sixty_four = codes "0123456789abcdef0123456789abcdef0123456789abcdef0123456789abcdef"

abbrev no_loads : Text → Option Value
no_loads t = none

abbrev library : Library
library = record {
  sha256 = λ t. sixty_four;
  canonicalize_url = canonicalize_url;
  day_path = day_path;
  media_type = media_type;
  metadata = metadata;
  pid = codes "7";
  dumps = λ v. codes "{}";
  loads = no_loads;
}

abbrev adapter : Adapter StartupCandidate
adapter = record {
  source_id = codes "ycombinator";
  discover = codes "u" ∷ codes "v" ∷ [];
  fetch = λ url. some page;
  parse = λ r. some (acme ∷ []);
}

abbrev services : Services
services = record {
  matcher = none;
  has_mapping_store = false;
  source_id = codes "ycombinator";
  is_http_url = λ t. true;
  data_ok = λ fs. true;
  record_id = λ source url. url;
  dump = λ r. str r.entity_name;
  reply = answers;
  clock = clock;
  repr = no_repr;
  validate = of_startup;
}

abbrev start : Run (Option Orchestrator)
start = record {
  parsed = 0;
  inserted = 0;
  duplicates = 0;
  rejected = 0;
  repository = open_repository (λ t. none);
  files = [];
  log = [];
  rest = none;
}

run_job-AddsUp_example :
    AddsUp library adapter startup
      (prepare services)
      (run_loop library adapter startup (prepare services) start)
run_job-AddsUp_example = run_job-AddsUp library adapter startup (prepare services) start

run_job-run_job_example :
    (run_job services library adapter (record start {
      repository = (run_job services library adapter start).1.repository;
    })).1.inserted
    ≡ 0
run_job-run_job_example =
    run_job-run_job services library adapter start
      (record start { repository = (run_job services library adapter start).1.repository }) refl
      refl (λ record_id held. held)

abbrev raw : RawDocument
raw = record {
  raw_document_id = sixty_four;
  source_id = codes "ycombinator";
  original_url = codes "u";
  canonical_url = codes "u";
  content_hash = sixty_four;
  retrieved_at = 17;
  status_code = 200;
  headers = [];
  storage_key = codes "k";
  content_type = none;
}

abbrev pub repository : GitHubRepository
repository = record {
  normalized_url = codes "https://github.com/acme/widget";
  full_name = codes "acme/widget";
  stars = 7;
  fetched_at = 17;
  raw_response = page;
}

abbrev get_repository : Text → Result ClientError GitHubRepository
get_repository url = ok repository

abbrev paper : ResearchPaperCandidate
paper = record {
  original_url = codes "https://papers.example/1";
  canonical_url = codes "https://papers.example/1";
  paper_url = codes "https://arxiv.org/abs/1";
  title = codes "Widgets";
  authors = [];
  published_at = some 5;
  abstract = none;
  github_url = some (codes "https://github.com/Acme/Widget");
  source_metadata = end;
}

abbrev research : ResearchIngestion.Services
research = record {
  arxiv_metadata_client = none;
  github_client = some get_repository;
  is_http_url = λ t. true;
  record_id = λ source url. url;
  isoformat = λ t. codes "2026-01-02";
  dump = λ r. str r.title;
}

prepare_record-IsVerified_example :
    IsVerified research (prepare_record library research paper raw []).0
prepare_record-IsVerified_example = prepare_record-IsVerified library research paper raw []

-- The language model answers, so that the enrichment says it was used.
used :
    (enrich_startup_with_llm answers clock no_repr of_startup (some orchestrator) acme).0.1 ≡ true
unfolding estimate_tokens heading flush blocks split_oversized emit end_chunk chunks_from pieces_of
    chunk_document and_then each_chunk after_answer validate_extraction validated finish after_try
    call attempt extract_chunk extract_all_chunks try_provider try_all extract_chunks extract
    insert_by_rate sort_by_rate order_by_rate can_execute run is_blank merge_extractions
    merge_fields is_space strip splitlines join lookup get value_of with_startup description_of ask
    ask_if enrich_startup_with_llm
used = refl

prepare_augmented_example :
    (prepare (record services { matcher = none }) acme raw (some orchestrator) []).0
    ≡ raise candidate_rejected
prepare_augmented_example = prepare_augmented services acme raw (some orchestrator) [] used
