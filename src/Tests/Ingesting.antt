-- ===== src/Tests/Ingesting.antt =====
-- A run of the freshness job over two URLs, of which the second one fails: a fresh record, a copy of it, a stale one and one without a
-- date.
use ai_internship_demo_task.Prelude.{
  ℕ, ◌+◌, true, false, Option, none, some, List, [], ◌∷◌, ◌≡◌, String, refl, if◌then◌else◌,
  Bool-cases, inl, inr,
}
use ai_internship_demo_task.Prelude.Eq.{same, string_eq}
use ai_internship_demo_task.Prelude.Result.{Result, ok, raise}
use ai_internship_demo_task.Prelude.Text.{Text, codes}
use ai_internship_demo_task.Freshness.Policies.{DateEvidence, meta}
use ai_internship_demo_task.Freshness.Watermark
use ai_internship_demo_task.Freshness.Dedupe.{DedupeIndex, claim}
use ai_internship_demo_task.Jobs.FreshnessIngestion.{
  PageError, caught, uncaught, Services, FreshnessSummary, run_job,
}
use ai_internship_demo_task.Jobs.FreshnessIngestion.Accounting.{Settled, run_job-Settled}
use ai_internship_demo_task.Jobs.FreshnessIngestion.Reasons.{
  total_counts, failed_pages, failures_of,
}
use ai_internship_demo_task.Jobs.FreshnessIngestion.Returning.{run_job-Returns}

abbrev Candidate : Type 0
Candidate = Text × DateEvidence

abbrev dated : ℕ → DateEvidence
dated t = record { published_at = some t; source = some meta; confidence = 95 }

abbrev undated : DateEvidence
undated = record { published_at = none; source = none; confidence = 0 }

abbrev candidates : List Candidate
candidates =
    (codes "a", dated 90000000000)
    ∷ (codes "a", dated 90000000000)
    ∷ (codes "b", dated 1000)
    ∷ (codes "c", undated)
    ∷ []

abbrev services : Services Candidate DedupeIndex ℕ
services = record {
  source_id = "news";
  fetch_and_parse = λ url. if same url "v" then raise caught else ok (some 7, candidates);
  evidence = λ c. c.1;
  claim = λ c i. some (claim c.0 c.0 i);
  advance_failure = λ w t. none;
  enrich = λ c. some (c, none);
  has_sink = true;
  persist = λ given c decision r. true;
  isoformat = λ t. "";
}

abbrev index : DedupeIndex
index = record { source_ids_by_url = []; content_hashes = []; has_path = false; file = none }

run_job-Settled_example :
    Settled services (run_job services (λ n. 100000000000) ("u" ∷ "v" ∷ []) index Watermark.empty)
run_job-Settled_example =
    run_job-Settled services (λ n. 100000000000) ("u" ∷ "v" ∷ []) index Watermark.empty

abbrev Page : Type 0
Page = Result PageError (Option ℕ × List Candidate)

caught-uncaught : ¬ (◌≡◌ {A = Page} (raise caught) (raise uncaught))
caught-uncaught e = cc

ok-uncaught : ¬ (◌≡◌ {A = Page} (ok (some 7, candidates)) (raise uncaught))
ok-uncaught e = cc

raised-stored : (cs : List Candidate) → ¬ (◌≡◌ {A = Page} (raise caught) (ok (none, cs)))
raised-stored cs e = cc

some-stored : (cs : List Candidate) → ¬ (◌≡◌ {A = Page} (ok (some 7, candidates)) (ok (none, cs)))
some-stored cs e = cc

page_is_caught : (url : String) → ¬ (services.fetch_and_parse url ≡ raise uncaught)
page_is_caught url e = elim (Bool-cases (same url "v")) [
  | inl h ↦ absurd (caught-uncaught (rw h at e))
  | inr h ↦ absurd (ok-uncaught (rw h at e))
]

page_is_stored :
    (url : String) (cs : List Candidate) → ¬ (services.fetch_and_parse url ≡ ok (none, cs))
page_is_stored url cs e = elim (Bool-cases (same url "v")) [
  | inl h ↦ absurd (raised-stored cs (rw h at e))
  | inr h ↦ absurd (some-stored cs (rw h at e))
]

run_job-Returns_example :
    (summary : FreshnessSummary) × ((run_job services
        (λ n. 100000000000)
        ("u" ∷ "v" ∷ [])
        index
        Watermark.empty).0
      ≡ ok summary)
    × (summary.discovered_urls ≡ 2)
    × (total_counts summary.reasons ≡ summary.parsed_records + 1)
unfolding failed_pages failures_of
run_job-Returns_example =
    run_job-Returns services (λ n. 100000000000) (λ c i h. absurd (cc)) page_is_caught
      page_is_stored (λ w t. refl) (λ c h. absurd (cc)) (λ given c decision r. refl)
      ("u" ∷ "v" ∷ []) index Watermark.empty
