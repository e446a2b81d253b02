-- ===== src/Jobs/FreshnessIngestion/Returning.antt =====
-- When a run returns a summary.
use ai_internship_demo_task.Prelude.{
  ℕ, ◌+◌, Bool, true, false, Option, none, some, List, [], ◌∷◌, String, length, ◌≡◌, refl, subst,
  arith,
}
use ai_internship_demo_task.Prelude.Result.{Result, ok, raise}
use ai_internship_demo_task.Freshness.Policies.{
  FreshnessDecision, Status, accept, reject, quarantine,
}
use ai_internship_demo_task.Freshness.Watermark.{WatermarkStore}
use ai_internship_demo_task.Jobs.FreshnessIngestion.Reasons.{
  total_counts, failed_pages, IsTallied, process_urls-IsTallied,
}
use ai_internship_demo_task.Jobs.FreshnessIngestion.{
  Services, Run, FreshnessSummary, Error, PageError, caught, uncaught, advance_to, after_enrich,
  give, accept_candidate, after_claim, gate, process_candidate, process_candidates, process_page,
  process_urls, start, summary_of, run_job, latest_raw, decide,
}

module _ {C I R : Type 0} (v : Services C I R) (now : ℕ → ℕ)
    (claims : (c : C) (i : I) → ¬ (v.claim c i ≡ none))
    (fetches : (url : String) → ¬ (v.fetch_and_parse url ≡ raise uncaught))
    (stores : (url : String) (cs : List C) → ¬ (v.fetch_and_parse url ≡ ok (none, cs)))
    (advances : (w : WatermarkStore) (t : ℕ) → v.advance_failure w t ≡ none)
    (enriches : (c : C) → ¬ (v.enrich c ≡ none))
    (persists : (given : List (C × FreshnessDecision × R)) (c : C) (decision : FreshnessDecision)
        (r : R)
      → v.persist given c decision r ≡ true) where
  -- No exception, and a raw document at hand.
  abbrev Stored : Result Error (Option R) × Run C I R → Type 0
  Stored m = (r : R) × (m.0 ≡ ok (some r))

  give-Stored :
      (b : Bool) (c : C) (decision : FreshnessDecision) (raw : Option R) (r : R) (s : Run C I R)
      → raw ≡ some r
      → Stored (give v now b c decision raw s)
  unfolding give
  give-Stored false c decision raw r s e = (r, cc)
  give-Stored true c decision none r s e = absurd (cc)
  give-Stored true c decision (some r') r s e = (r', rw (persists s.persisted c decision r') refl)

  latest_raw-some : (r : R) (o : Option R) → (r' : R) × (latest_raw v now (some r) o ≡ some r')
  unfolding latest_raw
  latest_raw-some r none = (r, refl)
  latest_raw-some r (some r') = (r', refl)

  after_enrich-Stored :
      (answer : Option (C × Option R)) (decision : FreshnessDecision) (r : R) (s : Run C I R)
      → ¬ (answer ≡ none)
      → Stored (after_enrich v now answer decision (some r) s)
  unfolding after_enrich
  after_enrich-Stored none decision r s h = absurd (h refl)
  after_enrich-Stored (some (c, found)) decision r s h =
      let (r', e) = latest_raw-some r found in
      give-Stored v.has_sink c decision (latest_raw v now (some r) found) r' s e

  advance_to-returns : (t : Option ℕ) (w : WatermarkStore) → (advance_to v now t w).0 ≡ true
  unfolding advance_to
  advance_to-returns none w = refl
  advance_to-returns (some t) w = rw (advance_to, advances w t) refl

  after_claim-Stored :
      (c : C) (decision : FreshnessDecision) (r : R) (s : Run C I R) (answer : Option (Bool × I))
      → ¬ (answer ≡ none)
      → Stored (after_claim v now c decision (some r) s answer)
  unfolding after_claim accept_candidate
  after_claim-Stored c decision r s none h = absurd (h refl)
  after_claim-Stored c decision r s (some (false, i)) h = (r, refl)
  after_claim-Stored c decision r s (some (true, i)) h =
      rw (advance_to-returns decision.published_at s.watermarks)
        (after_enrich-Stored (v.enrich c) decision r _ (enriches c))

  gate-Stored :
      (c : C) (decision : FreshnessDecision) (r : R) (s : Run C I R) (status : Status)
      → Stored (gate v now c decision (some r) s status)
  unfolding gate
  gate-Stored c decision r s quarantine = (r, refl)
  gate-Stored c decision r s reject = (r, refl)
  gate-Stored c decision r s accept =
      after_claim-Stored c decision r s (v.claim c s.index) (claims c s.index)

  process_candidates-Stored :
      (cs : List C) (m : Result Error (Option R) × Run C I R)
      → Stored m
      → Stored (process_candidates v now cs m)
  unfolding process_candidates process_candidate
  process_candidates-Stored cs (raise e, s) h = absurd (cc)
  process_candidates-Stored [] (ok raw, s) h = h
  process_candidates-Stored (c ∷ cs) (ok none, s) h = absurd (cc)
  process_candidates-Stored (c ∷ cs) (ok (some r), s) h =
      process_candidates-Stored cs (process_candidate v now c (some r) s)
        (gate-Stored c (decide v now c s.readings) r _ (decide v now c s.readings).status)

  -- No exception.
  abbrev Returned : {A : Type 0} → Result Error A × Run C I R → Type 0
  Returned {A = A} m = (a : A) × (m.0 ≡ ok a)

  process_page-Returned :
      (page : Result PageError (Option R × List C)) (s : Run C I R)
      → ¬ (page ≡ raise uncaught)
      → ((cs : List C) → ¬ (page ≡ ok (none, cs)))
      → Returned (process_page v now page s)
  unfolding process_page
  process_page-Returned (raise caught) s k h = (none, refl)
  process_page-Returned (raise uncaught) s k h = absurd (k refl)
  process_page-Returned (ok (none, cs)) s k h = absurd (h cs refl)
  process_page-Returned (ok (some r, cs)) s k h =
      let (r', e) = process_candidates-Stored cs (ok (some r), s) (r, refl) in (some r', e)

  process_urls-Returned :
      (urls : List String) (m : Result Error (Option R) × Run C I R)
      → Returned m
      → Returned (process_urls v now urls m)
  unfolding process_urls
  process_urls-Returned urls (raise e, s) h = absurd (cc)
  process_urls-Returned [] (ok raw, s) h = h
  process_urls-Returned (url ∷ urls) (ok raw, s) h =
      process_urls-Returned urls (process_page v now (v.fetch_and_parse url) s)
        (process_page-Returned (v.fetch_and_parse url) s (fetches url) (stores url))

  summary_of-Returned :
      (discovered k : ℕ) (m : Result Error (Option R) × Run C I R)
      → Returned m
      → IsTallied v now k m
      → (summary : FreshnessSummary) × ((summary_of v now discovered m).0 ≡ ok summary)
        × (summary.discovered_urls ≡ discovered)
        × (total_counts summary.reasons ≡ summary.parsed_records + k)
  unfolding summary_of
  summary_of-Returned discovered k (raise e, s) h t = absurd (cc)
  summary_of-Returned discovered k (ok raw, s) h t = (_, refl, refl, t)

  -- If the claims of the index, the watermarks, the enrichments and the sink never raise, what a page raises
  -- is one of the errors that are caught, and each page that is fetched is stored, then a run returns a
  -- summary: pages that fail do not end it, nor is the sink ever without a raw document. The summary has the
  -- number of the URLs that were discovered, and its reasons count each record that was parsed and each
  -- page that failed once.
  pub run_job-Returns :
      (urls : List String) (i : I) (w : WatermarkStore)
      → (summary : FreshnessSummary) × ((run_job v now urls i w).0 ≡ ok summary)
        × (summary.discovered_urls ≡ length urls)
        × (total_counts summary.reasons ≡ summary.parsed_records + failed_pages v now urls)
  unfolding run_job start total_counts
  run_job-Returns urls i w =
      summary_of-Returned (length urls) (failed_pages v now urls)
        (process_urls v now urls (ok none, start v now i w))
        (process_urls-Returned urls (ok none, start v now i w) (none, refl))
        (subst (λ (k : ℕ). IsTallied v now k (process_urls v now urls (ok none, start v now i w)))
          (omega arith)
          (process_urls-IsTallied v now 0 urls (ok none, start v now i w) (omega arith)))
