-- ===== src/Jobs/FreshnessIngestion/Accounting.antt =====
-- The counters of a run, and what the sink is given.
use ai_internship_demo_task.Prelude.{
  ℕ, ◌+◌, Bool, true, false, Option, none, some, List, [], ◌∷◌, String, length, ◌≡◌, refl, arith,
  ◌++◌, if◌then◌else◌, All, All-append, length-append,
}
use ai_internship_demo_task.Prelude.Result.{Result, ok, raise}
use ai_internship_demo_task.Freshness.Policies.{
  FreshnessDecision, Status, accept, reject, quarantine,
}
use ai_internship_demo_task.Freshness.Watermark.{WatermarkStore}
use ai_internship_demo_task.Jobs.FreshnessIngestion.{
  Services, Run, Error, sink_failed, watermark_failed, PageError, caught, uncaught, give,
  after_enrich, accept_candidate, after_claim, gate, process_candidate, process_candidates,
  process_page, process_urls, start, summary_of, run_job, advance_to, latest_raw, decide,
}

-- Each parsed record is counted once; a sink was given each accepted record, and no other, with an
-- accepting decision.
pub record Balanced {C I R : Type 0} (v : Services C I R) (s : Run C I R) : Type 0 where
  pub counted : s.parsed ≡ s.accepted + s.rejected + s.quarantined + s.duplicates
  pub given : v.has_sink ≡ true → length s.persisted ≡ s.accepted
  pub gated : All (λ (p : C × FreshnessDecision × R). p.1.status ≡ accept) s.persisted

-- The same where one record that is parsed is not counted yet.
pub record Pending {C I R : Type 0} (v : Services C I R) (s : Run C I R) : Type 0 where
  pub counted : s.parsed ≡ s.accepted + s.rejected + s.quarantined + s.duplicates + 1
  pub given : v.has_sink ≡ true → length s.persisted ≡ s.accepted
  pub gated : All (λ (p : C × FreshnessDecision × R). p.1.status ≡ accept) s.persisted

-- A run that did not raise is balanced.
abbrev pub Settled :
    {C I R : Type 0} {A : Type 0} → Services C I R → Result Error A × Run C I R → Type 0
Settled v (raise e, s) = Unit
Settled v (ok a, s) = Balanced v s

module _ {C I R : Type 0} (v : Services C I R) (now : ℕ → ℕ) where
  -- Where the other branch raises.
  if-Settled :
      (b : Bool) (m : Result Error (Option R) × Run C I R) (e : Error) (s : Run C I R)
      → Settled v m
      → Settled v (if b then m else (raise e, s))
  if-Settled true m e s h = h
  if-Settled false m e s h = tt

  give-Settled :
      (b : Bool) (c : C) (decision : FreshnessDecision) (raw : Option R) (s : Run C I R)
      → v.has_sink ≡ b
      → decision.status ≡ accept
      → s.parsed ≡ s.accepted + s.rejected + s.quarantined + s.duplicates
      → (v.has_sink ≡ true → length s.persisted + 1 ≡ s.accepted)
      → All (λ (p : C × FreshnessDecision × R). p.1.status ≡ accept) s.persisted
      → Settled v (give v now b c decision raw s)
  unfolding give
  give-Settled false c decision raw s e d h g a = record {
    counted = h;
    given = λ k. absurd (cc);
    gated = a;
  }
  give-Settled true c decision none s e d h g a = tt
  give-Settled true c decision (some r) s e d h g a =
      if-Settled (v.persist s.persisted c decision r)
        (ok (some r), record s { persisted = s.persisted ++ (c, decision, r) ∷ [] }) sink_failed s
        (record {
          counted = h;
          given = λ k. omega (arith, g k, length-append s.persisted ((c, decision, r) ∷ []));
          gated =
              All-append (λ (p : C × FreshnessDecision × R). p.1.status ≡ accept) s.persisted
                ((c, decision, r) ∷ []) a (d, tt);
        })

  after_enrich-Settled :
      (answer : Option (C × Option R)) (decision : FreshnessDecision) (raw : Option R)
      (s : Run C I R)
      → decision.status ≡ accept
      → s.parsed ≡ s.accepted + s.rejected + s.quarantined + s.duplicates
      → (v.has_sink ≡ true → length s.persisted + 1 ≡ s.accepted)
      → All (λ (p : C × FreshnessDecision × R). p.1.status ≡ accept) s.persisted
      → Settled v (after_enrich v now answer decision raw s)
  unfolding after_enrich
  after_enrich-Settled none decision raw s d h g a = tt
  after_enrich-Settled (some (c, found)) decision raw s d h g a =
      give-Settled v.has_sink c decision (latest_raw v now raw found) s refl d h g a

  after_claim-Settled :
      (c : C) (decision : FreshnessDecision) (raw : Option R) (s : Run C I R)
      (answer : Option (Bool × I))
      → decision.status ≡ accept
      → Pending v s
      → Settled v (after_claim v now c decision raw s answer)
  unfolding after_claim accept_candidate
  after_claim-Settled c decision raw s none d p = tt
  after_claim-Settled c decision raw s (some (false, i)) d p = record {
    counted = omega (arith, p.counted);
    given = p.given;
    gated = p.gated;
  }
  after_claim-Settled c decision raw s (some (true, i)) d p =
      let (advanced, w) = advance_to v now decision.published_at s.watermarks in
      let s' : Run C I R = record s { index = i; accepted = s.accepted + 1; watermarks = w } in
      if-Settled advanced (after_enrich v now (v.enrich c) decision raw s') watermark_failed s' (
        after_enrich-Settled (v.enrich c) decision raw s' d (omega (arith, p.counted))
          (λ k. omega (arith, p.given k)) p.gated)

  gate-Settled :
      (c : C) (decision : FreshnessDecision) (raw : Option R) (s : Run C I R) (status : Status)
      → decision.status ≡ status
      → Pending v s
      → Settled v (gate v now c decision raw s status)
  unfolding gate
  gate-Settled c decision raw s quarantine d p = record {
    counted = omega (arith, p.counted);
    given = p.given;
    gated = p.gated;
  }
  gate-Settled c decision raw s reject d p = record {
    counted = omega (arith, p.counted);
    given = p.given;
    gated = p.gated;
  }
  gate-Settled c decision raw s accept d p =
      after_claim-Settled c decision raw s (v.claim c s.index) d p

  process_candidate-Settled :
      (c : C) (raw : Option R) (s : Run C I R)
      → Balanced v s
      → Settled v (process_candidate v now c raw s)
  unfolding process_candidate
  process_candidate-Settled c raw s b =
      let decision = decide v now c s.readings in
      gate-Settled c decision raw _ decision.status refl
        (record { counted = omega (arith, b.counted); given = b.given; gated = b.gated })

  process_candidates-Settled :
      (cs : List C) (r : Result Error (Option R) × Run C I R)
      → Settled v r
      → Settled v (process_candidates v now cs r)
  unfolding process_candidates
  process_candidates-Settled cs (raise e, s) h = tt
  process_candidates-Settled [] (ok raw, s) h = h
  process_candidates-Settled (c ∷ cs) (ok raw, s) h =
      process_candidates-Settled cs (process_candidate v now c raw s)
        (process_candidate-Settled c raw s h)

  process_page-Settled :
      (page : Result PageError (Option R × List C)) (s : Run C I R)
      → Balanced v s
      → Settled v (process_page v now page s)
  unfolding process_page
  process_page-Settled (raise caught) s b = record {
    counted = b.counted;
    given = b.given;
    gated = b.gated;
  }
  process_page-Settled (raise uncaught) s b = tt
  process_page-Settled (ok (raw, cs)) s b = process_candidates-Settled cs (ok raw, s) b

  process_urls-Settled :
      (urls : List String) (r : Result Error (Option R) × Run C I R)
      → Settled v r
      → Settled v (process_urls v now urls r)
  unfolding process_urls
  process_urls-Settled urls (raise e, s) h = tt
  process_urls-Settled [] (ok raw, s) h = h
  process_urls-Settled (url ∷ urls) (ok raw, s) h =
      process_urls-Settled urls (process_page v now (v.fetch_and_parse url) s)
        (process_page-Settled (v.fetch_and_parse url) s h)

  summary_of-Settled :
      (discovered : ℕ) (r : Result Error (Option R) × Run C I R)
      → Settled v r
      → Settled v (summary_of v now discovered r)
  unfolding summary_of
  summary_of-Settled discovered (raise e, s) h = tt
  summary_of-Settled discovered (ok raw, s) h = h

  -- A run that does not raise counts each parsed record once, as accepted, rejected, quarantined or a
  -- duplicate, and gives a sink, if there is one, as many records as it accepts, each with an
  -- accepting decision.
  pub run_job-Settled :
      (urls : List String) (i : I) (w : WatermarkStore) → Settled v (run_job v now urls i w)
  unfolding run_job start
  run_job-Settled urls i w =
      summary_of-Settled (length urls) (process_urls v now urls (ok none, start v now i w)) (
        process_urls-Settled urls (ok none, start v now i w)
          (record { counted = omega arith; given = λ k. omega arith; gated = tt }))
