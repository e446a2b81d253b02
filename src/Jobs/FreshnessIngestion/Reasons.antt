-- ===== src/Jobs/FreshnessIngestion/Reasons.antt =====
-- The counts of the reasons of a run.
use ai_internship_demo_task.Prelude.{
  ℕ, ◌+◌, Bool, true, false, Option, none, some, List, [], ◌∷◌, String, ◌≡◌, refl, arith,
  Bool-cases, Option-cases, inl, inr,
}
use ai_internship_demo_task.Prelude.Result.{Result, ok, raise}
use ai_internship_demo_task.Prelude.Eq.{same, string_eq}
use ai_internship_demo_task.Prelude.Dict.{lookup, insert}
use ai_internship_demo_task.Freshness.Policies.{
  FreshnessDecision, Status, accept, reject, quarantine,
}
use ai_internship_demo_task.Jobs.FreshnessIngestion.{
  Services, Run, Error, PageError, caught, uncaught, give, after_enrich, accept_candidate,
  after_claim, gate, process_candidate, process_candidates, process_page, process_urls, count,
  advance_to, latest_raw, decide, reason_name,
}

-- All counts of a dict of reasons.
unfoldable pub total_counts : List (String × ℕ) → ℕ
total_counts [] = 0
total_counts ((name, n) ∷ reasons) = n + total_counts reasons

total_counts-new :
    (name : String) (reasons : List (String × ℕ))
    → lookup name reasons ≡ none
    → total_counts (insert name 1 reasons) ≡ total_counts reasons + 1
unfolding total_counts lookup insert
total_counts-new name [] e = refl
total_counts-new name ((k, n) ∷ reasons) e = elim (Bool-cases (same k name)) [
  | inl f ↦ absurd (ground (arith, e, f))
  | inr f ↦ rw f (omega (arith, total_counts-new name reasons (rw f at e)))
]

total_counts-known :
    (name : String) (m : ℕ) (reasons : List (String × ℕ))
    → lookup name reasons ≡ some m
    → total_counts (insert name (m + 1) reasons) ≡ total_counts reasons + 1
unfolding total_counts lookup insert
total_counts-known name m [] e = absurd (cc)
total_counts-known name m ((k, n) ∷ reasons) e = elim (Bool-cases (same k name)) [
  | inl f ↦
      let p : ◌≡◌ {A = Option ℕ} (some n) (some m) = rw f at e in
      let q : n ≡ m = cc in rw f (omega (arith, q))
  | inr f ↦ rw f (omega (arith, total_counts-known name m reasons (rw f at e)))
]

total_counts-count :
    (name : String) (reasons : List (String × ℕ))
    → total_counts (count name reasons) ≡ total_counts reasons + 1
unfolding count
total_counts-count name reasons = elim (Option-cases (lookup name reasons)) [
  | inl e ↦ rw (count, e) (total_counts-new name reasons e)
  | inr (n, e) ↦ rw (count, e) (total_counts-known name n reasons e)
]

-- One for each reason that is counted for a page: none for its candidates, one if it failed.
unfoldable pub failures_of : {A : Type 0} → Result PageError A → ℕ
failures_of (ok a) = 0
failures_of (raise e) = 1

module _ {C I R : Type 0} (v : Services C I R) (now : ℕ → ℕ) where
  -- The pages that fail.
  unfoldable pub failed_pages : List String → ℕ
  failed_pages [] = 0
  failed_pages (url ∷ urls) = failures_of (v.fetch_and_parse url) + failed_pages urls

  -- What a run has parsed and counted.
  abbrev tally : {A : Type 0} → Result Error A × Run C I R → ℕ × List (String × ℕ)
  tally m = (m.1.parsed, m.1.reasons)

  give-tally :
      (b : Bool) (c : C) (decision : FreshnessDecision) (raw : Option R) (s : Run C I R)
      → tally (give v now b c decision raw s) ≡ (s.parsed, s.reasons)
  unfolding give
  give-tally false c decision raw s = refl
  give-tally true c decision none s = refl
  give-tally true c decision (some r) s = elim (Bool-cases (v.persist s.persisted c decision r)) [
    | inl e ↦ rw e refl
    | inr e ↦ rw e refl
  ]

  after_enrich-tally :
      (answer : Option (C × Option R)) (decision : FreshnessDecision) (raw : Option R)
      (s : Run C I R)
      → tally (after_enrich v now answer decision raw s) ≡ (s.parsed, s.reasons)
  unfolding after_enrich
  after_enrich-tally none decision raw s = refl
  after_enrich-tally (some (c, found)) decision raw s =
      give-tally v.has_sink c decision (latest_raw v now raw found) s

  accept_candidate-tally :
      (c : C) (decision : FreshnessDecision) (raw : Option R) (s : Run C I R)
      → tally (accept_candidate v now c decision raw s) ≡ (s.parsed, s.reasons)
  unfolding accept_candidate
  accept_candidate-tally c decision raw s =
      elim (Bool-cases (advance_to v now decision.published_at s.watermarks).0) [
        | inl e ↦ rw e (after_enrich-tally (v.enrich c) decision raw _)
        | inr e ↦ rw e refl
      ]

  after_claim-tally :
      (c : C) (decision : FreshnessDecision) (raw : Option R) (s : Run C I R)
      (answer : Option (Bool × I))
      → tally (after_claim v now c decision raw s answer) ≡ (s.parsed, s.reasons)
  unfolding after_claim
  after_claim-tally c decision raw s none = refl
  after_claim-tally c decision raw s (some (false, i)) = refl
  after_claim-tally c decision raw s (some (true, i)) =
      accept_candidate-tally c decision raw (record s { index = i })

  gate-tally :
      (c : C) (decision : FreshnessDecision) (raw : Option R) (s : Run C I R) (status : Status)
      → tally (gate v now c decision raw s status) ≡ (s.parsed, s.reasons)
  unfolding gate
  gate-tally c decision raw s quarantine = refl
  gate-tally c decision raw s reject = refl
  gate-tally c decision raw s accept = after_claim-tally c decision raw s (v.claim c s.index)

  -- Each parsed record and each failed page has one reason.
  abbrev pub IsTallied : {A : Type 0} → ℕ → Result Error A × Run C I R → Type 0
  IsTallied k (raise e, s) = Unit
  IsTallied k (ok a, s) = total_counts s.reasons ≡ s.parsed + k

  tally-IsTallied :
      (k : ℕ) (m : Result Error (Option R) × Run C I R)
      → total_counts (tally m).1 ≡ (tally m).0 + k
      → IsTallied k m
  tally-IsTallied k (raise e, s) h = tt
  tally-IsTallied k (ok a, s) h = h

  process_candidate-IsTallied :
      (k : ℕ) (c : C) (raw : Option R) (s : Run C I R)
      → total_counts s.reasons ≡ s.parsed + k
      → IsTallied k (process_candidate v now c raw s)
  unfolding process_candidate
  process_candidate-IsTallied k c raw s h =
      let decision = decide v now c s.readings in
      let name = reason_name decision.reason in
      tally-IsTallied k _ (
        rw (gate-tally c decision raw _ decision.status)
          (omega (arith, h, total_counts-count name s.reasons)))

  process_candidates-IsTallied :
      (k : ℕ) (cs : List C) (m : Result Error (Option R) × Run C I R)
      → IsTallied k m
      → IsTallied k (process_candidates v now cs m)
  unfolding process_candidates
  process_candidates-IsTallied k cs (raise e, s) h = tt
  process_candidates-IsTallied k [] (ok raw, s) h = h
  process_candidates-IsTallied k (c ∷ cs) (ok raw, s) h =
      process_candidates-IsTallied k cs (process_candidate v now c raw s)
        (process_candidate-IsTallied k c raw s h)

  process_page-IsTallied :
      (k : ℕ) (page : Result PageError (Option R × List C)) (s : Run C I R)
      → total_counts s.reasons ≡ s.parsed + k
      → IsTallied (k + failures_of page) (process_page v now page s)
  unfolding process_page failures_of
  process_page-IsTallied k (raise caught) s h =
      omega (arith, h, total_counts-count "source_failure" s.reasons)
  process_page-IsTallied k (raise uncaught) s h = tt
  process_page-IsTallied k (ok (raw, cs)) s h =
      process_candidates-IsTallied (k + 0) cs (ok raw, s) (omega (arith, h))

  pub process_urls-IsTallied :
      (k : ℕ) (urls : List String) (m : Result Error (Option R) × Run C I R)
      → IsTallied k m
      → IsTallied (k + failed_pages urls) (process_urls v now urls m)
  unfolding process_urls failed_pages
  process_urls-IsTallied k urls (raise e, s) h = tt
  process_urls-IsTallied k [] (ok raw, s) h = omega (arith, h)
  process_urls-IsTallied k (url ∷ urls) (ok raw, s) h =
      let page = v.fetch_and_parse url in
      let e : k + (failures_of page + failed_pages urls)
          ≡ k + failures_of page + failed_pages urls =
        omega arith in
      rw e (
        process_urls-IsTallied (k + failures_of page) urls (process_page v now page s)
          (process_page-IsTallied k page s h))
