-- ===== src/Lib.antt =====
-- The core of the AI intelligence ingestion pipeline: extraction by language models, fetching under
-- limits, the queue of jobs, the freshness gate, local storage, entity resolution and export.
--
-- The program gathers records from sources over HTTP, keeps the raw evidence, and enriches records by
-- language models. Ten parts of it are modelled.
--
-- Extraction (src/extraction). A document is cut into chunks (chunker.py, in Extraction.Chunker), each
-- chunk is sent to a provider by the orchestrator (orchestrator.py, in Extraction.Orchestrator), the dicts
-- that come back are merged (merge.py, in Extraction.Merge) and checked against a schema
-- (validators.py). Each provider has a circuit breaker (circuit_breaker.py, in
-- Extraction.CircuitBreaker) and a health record; providers are tried in the order of their failure
-- rates. A payload that is too large (status 413) is cut again, recursively. A function of the model
-- has the name of the function of the code, without a leading underscore; a loop of the code is a
-- function of its own, with the loop's variables as arguments (chunks_from for the loops of
-- chunk_document, try_all for the loop over the providers in extract). Extraction.Providers is what the
-- providers (providers/groq.py, deepseek.py and gemini.py) make of a response, and Extraction.Enrichment the
-- four enrichments of candidates in pipeline_extractor.py, over extract.
--
-- Fetching (src/fetch). Fetch.Retry is retry.py: bounded attempts with exponential pauses. Fetch.RateLimiter
-- is rate_limiter.py: a token bucket for each host. Fetch.Client is the fetch of http_client.py over the
-- retries, and the test for the browser fallback of playwright_client.py.
--
-- Parsing (src/parsing). Parsing.FullText is the extractor of full_text.py as a state machine on the calls of
-- HTMLParser, with its reading of JSON-LD in Parsing.FullText.Json and extract_full_text in
-- Parsing.FullText.Content.
--
-- Crawlers and schemas (src/crawlers, src/schemas). Crawlers.Candidates has the candidates that the adapters
-- give. Crawlers.GitHub is the client of research/github.py, with the callers of get_repository as steps in
-- any order, Crawlers.PapersWithCode the adapter of research/papers_with_code.py, and Crawlers.YCombinator
-- the parse of startup/ycombinator.py. Schemas.Common has the fields that all records share, with their
-- checks.
--
-- Jobs (src/jobs). Jobs.Queue is the in-memory queue of queue.py, Jobs.Worker the worker of workers.py
-- with the registry of tasks.py, and Jobs.FreshnessIngestion the gated
-- ingestion of freshness_ingestion.py with the sink of freshness_persistence.py in Jobs.FreshnessPersistence.
-- Jobs.Ingestion is the run that startup_ingestion.py, product_ingestion.py and research_ingestion.py share,
-- with the preparation of a candidate as a parameter; Jobs.StartupIngestion, Jobs.ProductIngestion and
-- Jobs.ResearchIngestion are what each prepares, and Jobs.Ingestion.Resolution what the first two share.
-- A run fetches a page, puts it into the raw store, enriches and resolves each candidate, builds its record,
-- checks it and gives it to the repository.
--
-- Freshness (src/freshness). Freshness.Policies is evaluate_freshness of policies.py, Freshness.Dates the
-- reading of dates with the handlers of its markup parser, Freshness.Watermark is watermark.py and
-- Freshness.Dedupe dedupe.py, with the local and the Redis index.
--
-- Storage (src/storage). Storage.Local is the local repository of local.py: a dict in memory and a file of
-- JSON lines for each tab. Storage.Objects is the raw store of object_store.py: a map of files, with the
-- temporary file of a write.
--
-- Entities (src/entities). Entities.Normalizer is normalizer.py, Entities.Aliases the table of aliases.py and
-- Entities.Matcher matcher.py. Entities.MappingStore is the log of mapping_store.py.
--
-- Export (src/export). Export.Tables has the headers and the matrix of csv.py and sheets.py.
--
-- Prelude holds what these share: tests on numbers, lists, dictionaries, results that may be
-- exceptions, Python's str as lists of code points, and JSON values. Tests holds runs on small inputs.
--
-- Modelling choices. Seconds and token fractions are natural numbers of a fixed unit; rounding of
-- floats is left out. A clock is an explicit argument or a stream of readings, so that nothing rests on a
-- clock that never runs backwards unless a hypothesis says so. HTTP answers, the calls of HTMLParser, JSON,
-- SHA-256, canonicalize_url, the checks of pydantic on free data, handlers, sleeps, random jitter and the
-- number and date parsers of the standard library are parameters. State that the
-- code mutates is passed on; a raise keeps what was written before it.
--
-- Fuel. extract_chunk takes fuel for the depth of its recursion, and any fuel above the chunk's estimate is
-- enough; extract needs at most twice the chunk target. The loop of the rate limiter needs two rounds. The
-- rounds of the worker are counted by the tries that the queue has left, or by another weight of the jobs
-- that wait, where handlers enqueue jobs. The batches of an archive take fuel of
-- the maximal number of records, since a batch has at least one.
--
-- Not modelled: the browsers, the parsers of the other crawlers, the requests of the providers, SQL, the calls of
-- the export, settings and the command line, which call libraries outside the repository; and
-- build_pipeline_orchestrator, which no configuration with a key gets through. Concurrent calls of extract are not modelled: its
-- lock makes each update of a breaker atomic, and the model runs one extraction at a time.
pub mod Prelude
pub mod Fetch
pub mod Crawlers
pub mod Schemas
pub mod Extraction
pub mod Freshness
pub mod Jobs
pub mod Storage
pub mod Entities
pub mod Export
mod Tests
pub mod Parsing
