-- ===== src/Jobs/FreshnessIngestion.antt =====
-- `FreshnessIngestionJob` of src/jobs/freshness_ingestion.py, with the sink of
-- src/jobs/freshness_persistence.py as the place where it gives its records.
-- The adapter, the raw store, the enrichments and the sink are parameters, each of which may raise: what
-- the `try` catches is counted, any other exception ends the run. An index is any state with a claim that
-- may raise. The state holds what the run changes. The list of discovered URLs is given.
pub mod Accounting
pub mod Reasons
pub mod Returning
use ai_internship_demo_task.Prelude.{
  ℕ, zero, suc, ◌+◌, Bool, true, false, Option, none, some, List, [], ◌∷◌, ◌++◌, String, length,
  if◌then◌else◌,
}
use ai_internship_demo_task.Prelude.Result.{Result, ok, raise}
use ai_internship_demo_task.Prelude.Eq.{string_eq}
use ai_internship_demo_task.Prelude.Dict.{lookup, insert}
use ai_internship_demo_task.Prelude.Text.{Text}
use ai_internship_demo_task.Freshness.Policies.{
  DateEvidence, FreshnessDecision, Status, accept, reject, quarantine, Reason, date_unresolved,
  low_confidence_date, future_date, stale_date, fresh, evaluate_freshness,
}
use ai_internship_demo_task.Freshness.Watermark.{WatermarkStore, advance}

pub record FreshnessSummary : Type 0 where
  pub discovered_urls : ℕ
  pub parsed_records : ℕ
  pub accepted_records : ℕ
  pub rejected_records : ℕ
  pub quarantined_records : ℕ
  pub duplicates_prevented : ℕ
  pub reasons : List (String × ℕ)

unfoldable pub reason_name : Reason → String
reason_name date_unresolved = "date_unresolved"
reason_name low_confidence_date = "low_confidence_date"
reason_name future_date = "future_date"
reason_name stale_date = "stale_date"
reason_name fresh = "fresh"

pub data Error : Type 0 where
  -- `ValueError` of `canonicalize_url` in the index
  bad_url : Error
  -- `RuntimeError` for a sink without a raw store
  raw_store_required : Error
  -- what `fetch`, `put` and `parse` raise and the `try` does not catch
  page_failed : Error
  watermark_failed : Error
  -- the adapter's `enrich`, the raw store or the LLM enrichment
  enrich_failed : Error
  sink_failed : Error

-- How the body of the `try` may raise: `RetryableFailure`, `RuntimeError` or `ValueError`, or anything else.
pub data PageError : Type 0 where
  caught : PageError
  uncaught : PageError

-- What one source, one index and the services around the run are.
pub record Services (C I R : Type 0) : Type 1 where
  pub source_id : String
  -- the body of the `try`
  pub fetch_and_parse : String → Result PageError (Option R × List C)
  pub evidence : C → DateEvidence
  pub claim : C → I → Option (Bool × I)
  -- where `advance` to this time raises: the watermarks that it leaves
  pub advance_failure : WatermarkStore → ℕ → Option WatermarkStore
  -- the candidate after both enrichments, and the raw document of the page, if one was stored
  pub enrich : C → Option (C × Option R)
  pub has_sink : Bool
  -- whether the sink returns, after all that it was given before
  pub persist : List (C × FreshnessDecision × R) → C → FreshnessDecision → R → Bool
  pub isoformat : ℕ → String

-- The counters of the loop, the index, the watermarks and what the sink was given.
pub record Run (C I R : Type 0) : Type 0 where
  pub parsed : ℕ
  pub accepted : ℕ
  pub rejected : ℕ
  pub quarantined : ℕ
  pub duplicates : ℕ
  pub reasons : List (String × ℕ)
  pub index : I
  pub watermarks : WatermarkStore
  pub persisted : List (C × FreshnessDecision × R)
  -- how often the clock was read
  pub readings : ℕ

-- reasons[name] = reasons.get(name, 0) + 1
unfoldable pub count : String → List (String × ℕ) → List (String × ℕ)
count name reasons = elim (lookup name reasons) [
  | none ↦ insert name 1 reasons
  | some n ↦ insert name (n + 1) reasons
]

module _ {C I R : Type 0} (v : Services C I R) (now : ℕ → ℕ) where
  unfoldable pub decide : C → ℕ → FreshnessDecision
  decide c reading = evaluate_freshness (now reading) 24 75 (v.evidence c)

  -- The watermarks after `advance`, and whether it returns.
  unfoldable pub advance_to : Option ℕ → WatermarkStore → Bool × WatermarkStore
  advance_to none w = (true, w)
  advance_to (some published) w = elim (v.advance_failure w published) [
    | none ↦ (true, advance v.isoformat v.source_id published w)
    | some left ↦ (false, left)
  ]

  -- The raw document that goes to the sink: that of the enrichment, if there is one.
  unfoldable pub latest_raw : Option R → Option R → Option R
  latest_raw raw none = raw
  latest_raw raw (some r) = some r

  -- The call of the sink, if there is one; the raw document is kept for the later candidates.
  unfoldable pub give :
      Bool → C → FreshnessDecision → Option R → Run C I R → Result Error (Option R) × Run C I R
  give false c decision raw s = (ok raw, s)
  give true c decision none s = (raise raw_store_required, s)
  give true c decision (some r) s =
      if v.persist s.persisted c decision r
      then (ok (some r), record s { persisted = s.persisted ++ (c, decision, r) ∷ [] })
      else (raise sink_failed, s)

  -- From the answer of the enrichments on.
  unfoldable pub after_enrich :
      Option (C × Option R)
      → FreshnessDecision
      → Option R
      → Run C I R
      → Result Error (Option R) × Run C I R
  after_enrich none decision raw s = (raise enrich_failed, s)
  after_enrich (some (c, found)) decision raw s =
      give v.has_sink c decision (latest_raw raw found) s

  -- The end of the loop's body for a candidate that was claimed.
  unfoldable pub accept_candidate :
      C → FreshnessDecision → Option R → Run C I R → Result Error (Option R) × Run C I R
  accept_candidate c decision raw s =
      let (advanced, w) = advance_to decision.published_at s.watermarks in
      let s' = record s { accepted = s.accepted + 1; watermarks = w } in
      if advanced then after_enrich (v.enrich c) decision raw s' else (raise watermark_failed, s')

  -- From the answer of the index on.
  unfoldable pub after_claim :
      C
      → FreshnessDecision
      → Option R
      → Run C I R
      → Option (Bool × I)
      → Result Error (Option R) × Run C I R
  after_claim c decision raw s none = (raise bad_url, s)
  after_claim c decision raw s (some (false, i)) =
      (ok raw, record s { index = i; duplicates = s.duplicates + 1 })
  after_claim c decision raw s (some (true, i)) =
      accept_candidate c decision raw (record s { index = i })

  -- From the status of the decision on.
  unfoldable pub gate :
      C → FreshnessDecision → Option R → Run C I R → Status → Result Error (Option R) × Run C I R
  gate c decision raw s quarantine = (ok raw, record s { quarantined = s.quarantined + 1 })
  gate c decision raw s reject = (ok raw, record s { rejected = s.rejected + 1 })
  gate c decision raw s accept = after_claim c decision raw s (v.claim c s.index)

  -- The body of the inner loop.
  unfoldable pub process_candidate : C → Option R → Run C I R → Result Error (Option R) × Run C I R
  process_candidate c raw s =
      let decision = decide c s.readings in
      let s' = record s {
        parsed = s.parsed + 1;
        readings = s.readings + 1;
        reasons = count (reason_name decision.reason) s.reasons;
      } in
      gate c decision raw s' decision.status

  unfoldable pub process_candidates :
      List C → Result Error (Option R) × Run C I R → Result Error (Option R) × Run C I R
  process_candidates cs (raise e, s) = (raise e, s)
  process_candidates [] (ok raw, s) = (ok raw, s)
  process_candidates (c ∷ cs) (ok raw, s) = process_candidates cs (process_candidate c raw s)

  -- The body of the outer loop, from the outcome of the `try`.
  unfoldable pub process_page :
      Result PageError (Option R × List C) → Run C I R → Result Error (Option R) × Run C I R
  process_page (raise caught) s = (ok none, record s { reasons = count "source_failure" s.reasons })
  process_page (raise uncaught) s = (raise page_failed, s)
  process_page (ok (raw, cs)) s = process_candidates cs (ok raw, s)

  unfoldable pub process_urls :
      List String → Result Error (Option R) × Run C I R → Result Error (Option R) × Run C I R
  process_urls urls (raise e, s) = (raise e, s)
  process_urls [] (ok raw, s) = (ok raw, s)
  process_urls (url ∷ urls) (ok raw, s) = process_urls urls (process_page (v.fetch_and_parse url) s)

  unfoldable pub start : I → WatermarkStore → Run C I R
  start i w = record {
    parsed = 0;
    accepted = 0;
    rejected = 0;
    quarantined = 0;
    duplicates = 0;
    reasons = [];
    index = i;
    watermarks = w;
    persisted = [];
    readings = 0;
  }

  -- The return of `run`.
  unfoldable pub summary_of :
      ℕ → Result Error (Option R) × Run C I R → Result Error FreshnessSummary × Run C I R
  summary_of discovered (raise e, s) = (raise e, s)
  summary_of discovered (ok raw, s) = (
    ok (record {
      discovered_urls = discovered;
      parsed_records = s.parsed;
      accepted_records = s.accepted;
      rejected_records = s.rejected;
      quarantined_records = s.quarantined;
      duplicates_prevented = s.duplicates;
      reasons = s.reasons;
    }),
    s,
  )

  -- `run`, on the URLs that the adapter discovers.
  unfoldable pub run_job :
      List String → I → WatermarkStore → Result Error FreshnessSummary × Run C I R
  run_job urls i w = summary_of (length urls) (process_urls urls (ok none, start i w))
