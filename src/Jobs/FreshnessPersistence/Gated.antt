-- ===== src/Jobs/FreshnessPersistence/Gated.antt =====
-- What the sink does with the decisions of the policy.
use ai_internship_demo_task.Prelude.{ℕ, Option, none, some, ◌≡◌, refl, ◌∙◌, arith}
use ai_internship_demo_task.Prelude.Text.{Text}
use ai_internship_demo_task.Storage.Objects.{RawDocument}
use ai_internship_demo_task.Prelude.Result.{ok}
use ai_internship_demo_task.Freshness.Policies.{
  DateEvidence, FreshnessDecision, accept, evaluate_freshness, evaluate_at, evaluate_resolved,
}
use ai_internship_demo_task.Jobs.FreshnessPersistence.{Candidate, record_of, persist_at, persist}

evaluate_at-date :
    (now max_age_hours minimum : ℕ) (evidence : DateEvidence) (date : Option ℕ)
    → (evaluate_at now max_age_hours minimum evidence date).status ≡ accept
    → (evaluate_at now max_age_hours minimum evidence date).published_at ≡ date
unfolding evaluate_at evaluate_resolved
evaluate_at-date now max_age_hours minimum evidence none h = refl
evaluate_at-date now max_age_hours minimum evidence (some published) h = ground arith

persist_at-date :
    (record_id : Text → Text → Text) (date : Option ℕ) (source_id : Text) (c : Candidate)
    (decision : FreshnessDecision) (raw : RawDocument) (published : ℕ)
    → date ≡ some published
    → persist_at record_id accept date source_id c decision raw
      ≡ ok (record_of record_id source_id c decision published raw)
unfolding persist_at
persist_at-date record_id none source_id c decision raw published e = absurd (cc)
persist_at-date record_id (some other) source_id c decision raw published e =
    let p : other ≡ published = cc in rw p refl

-- The sink gives the repository the record of a candidate with the date of its evidence, without an error,
-- if the policy accepts the evidence.
pub persist-accepted :
    (record_id : Text → Text → Text) (now max_age_hours minimum : ℕ) (evidence : DateEvidence)
    (published : ℕ) (source_id : Text) (c : Candidate) (raw : RawDocument)
    → evidence.published_at ≡ some published
    → (evaluate_freshness now max_age_hours minimum evidence).status ≡ accept
    → persist record_id source_id c (evaluate_freshness now max_age_hours minimum evidence) raw
      ≡ ok (
          record_of record_id source_id c
            (evaluate_freshness now max_age_hours minimum evidence)
            published
            raw)
unfolding persist evaluate_freshness
persist-accepted record_id now max_age_hours minimum evidence published source_id c raw e h =
    let decision = evaluate_at now max_age_hours minimum evidence evidence.published_at in
    rw h (
      persist_at-date record_id decision.published_at source_id c decision raw published
        (evaluate_at-date now max_age_hours minimum evidence evidence.published_at h ∙ e))
