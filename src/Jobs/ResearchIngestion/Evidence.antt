-- ===== src/Jobs/ResearchIngestion/Evidence.antt =====
-- The evidence for the repository of a research paper.
use ai_internship_demo_task.Prelude.{
  ℕ, true, Option, none, some, List, [], ◌∷◌, ◌≡◌, refl, sym, ap, ◌∙◌, arith, Bool-cases, subst,
  inl, inr,
}
use ai_internship_demo_task.Prelude.Eq.{nat_eq, list_eq}
use ai_internship_demo_task.Prelude.Result.{Result, ok, raise}
use ai_internship_demo_task.Prelude.Text.{Text}
use ai_internship_demo_task.Prelude.Int.{ℤ, pos}
use ai_internship_demo_task.Prelude.Json.{Value, num, get, get-put}
use ai_internship_demo_task.Crawlers.Candidates.{ResearchPaperCandidate}
use ai_internship_demo_task.Storage.Objects.{RawDocument, Files}
use ai_internship_demo_task.Jobs.Ingestion.{Refusal, Library}
use ai_internship_demo_task.Crawlers.GitHub.{GitHubRepository}
use ai_internship_demo_task.Jobs.ResearchIngestion.{
  ClientError, ResearchPaperRecord, Services, Evidence, as_int, linked, enrich_from, enrich_by,
  enrich_with, enrich_github, hydrate_bibliography, stars_ok, record_ok, checked, record_of,
  lacks_stars, build_dated, build_record, after_github, after_hydration, prepare_record,
}

-- GitHub answered with a repository of this URL and this number of stars.
abbrev pub IsAnswered : Services → Text → ℕ → Type 0
IsAnswered v url stars =
    (get_repository : Text → Result ClientError GitHubRepository) × (asked : Text)
    × (repository : GitHubRepository) × (v.github_client ≡ some get_repository)
    × (get_repository asked ≡ ok repository)
    × (repository.normalized_url ≡ url)
    × (repository.stars ≡ stars)

-- A record has stars just if it has a repository, and then GitHub gave both.
abbrev pub IsVerifiedAs : Services → Option Text → Option ℤ → Type 0
IsVerifiedAs v none stars = stars ≡ none
IsVerifiedAs v (some url) stars = (n : ℕ) × (stars ≡ some (pos n)) × IsAnswered v url n

abbrev pub IsVerified : Services → Result Refusal ResearchPaperRecord → Type 0
IsVerified v (raise e) = Unit
IsVerified v (ok r) = IsVerifiedAs v r.github_url r.github_stars

-- The same of a candidate's metadata.
abbrev IsLinkedAs : Services → Option Text → Option Value → Type 0
IsLinkedAs v none found = Unit
IsLinkedAs v (some url) found = (n : ℕ) × (found ≡ some (num (pos n))) × IsAnswered v url n

abbrev IsLinked : Services → ResearchPaperCandidate → Type 0
IsLinked v c = IsLinkedAs v c.github_url (get "github_stars" c.source_metadata)

module _ (lib : Library) (v : Services) where
  checked-IsVerified :
      (r : ResearchPaperRecord)
      → (record_ok lib v r ≡ true → IsVerifiedAs v r.github_url r.github_stars)
      → IsVerified v (checked lib v r)
  unfolding checked
  checked-IsVerified r h = elim (Bool-cases (record_ok lib v r)) [
    | inl e ↦ rw e (h e)
    | inr e ↦ rw e tt
  ]

  stars_ok-none : (stars : Option ℤ) → stars_ok lib v stars none ≡ true → stars ≡ none
  unfolding stars_ok
  stars_ok-none none h = refl
  stars_ok-none (some n) h = absurd (cc)

  record_ok-stars :
      (r : ResearchPaperRecord)
      → record_ok lib v r ≡ true
      → stars_ok lib v r.github_stars r.github_url ≡ true
  unfolding record_ok
  record_ok-stars r h = ground (arith, h)

  stars-IsVerifiedAs :
      (url : Option Text) (found : Option Value) (stars : Option ℤ)
      → IsLinkedAs v url found
      → stars ≡ as_int found
      → stars_ok lib v stars url ≡ true
      → IsVerifiedAs v url stars
  unfolding as_int
  stars-IsVerifiedAs none found stars l e h = stars_ok-none stars h
  stars-IsVerifiedAs (some url) found stars (n, f, answered) e h = (n, e ∙ ap as_int f, answered)

  build_dated-IsVerified :
      (published : Option ℕ) (c : ResearchPaperCandidate) (raw : RawDocument)
      (raws : List RawDocument)
      → IsLinked v c
      → IsVerified v (build_dated lib v published c raw raws)
  unfolding build_dated record_of
  build_dated-IsVerified none c raw raws l = tt
  build_dated-IsVerified (some published) c raw raws l =
      let stars = as_int (get "github_stars" c.source_metadata) in
      let r = record_of lib v c raw raws published stars in
      elim (Bool-cases (lacks_stars lib v c.github_url stars)) [
        | inl e ↦ rw e tt
        | inr e ↦ rw e (
            checked-IsVerified r λ h.
              stars-IsVerifiedAs c.github_url (get "github_stars" c.source_metadata) stars l refl
                (record_ok-stars r h))
      ]

  -- What the second enrichment gives.
  abbrev Links : Result Refusal Evidence → Type 0
  Links (raise e) = Unit
  Links (ok (c, raws, files)) = IsLinked v c

  linked-Links :
      (c : ResearchPaperCandidate) (repository : GitHubRepository) (raws : List RawDocument)
      (found : Option (RawDocument × Files))
      → IsAnswered v repository.normalized_url repository.stars
      → Links (linked lib v c repository raws found)
  unfolding linked
  linked-Links c repository raws none h = tt
  linked-Links c repository raws (some (raw, files)) h =
      (repository.stars, get-put "github_stars" "github_stars" _ _, h)

  enrich_from-Links :
      (answer : Result ClientError GitHubRepository) (c : ResearchPaperCandidate)
      (raws : List RawDocument) (files : Files)
      → ((repository : GitHubRepository)
          → answer ≡ ok repository
          → IsAnswered v repository.normalized_url repository.stars)
      → Links (enrich_from lib v answer c raws files)
  unfolding enrich_from
  enrich_from-Links (raise e) c raws files h = tt
  enrich_from-Links (ok repository) c raws files h =
      linked-Links c repository raws _ (h repository refl)

  enrich_by-Links :
      (client : Option (Text → Result ClientError GitHubRepository)) (url : Text)
      (c : ResearchPaperCandidate) (raws : List RawDocument) (files : Files)
      → v.github_client ≡ client
      → Links (enrich_by lib v client url c raws files)
  unfolding enrich_by
  enrich_by-Links none url c raws files e = tt
  enrich_by-Links (some get_repository) url c raws files e =
      enrich_from-Links (get_repository url) c raws files
        λ repository h. (get_repository, url, repository, e, h, refl, refl)

  enrich_with-Links :
      (url : Option Text) (c : ResearchPaperCandidate) (raws : List RawDocument) (files : Files)
      → c.github_url ≡ url
      → Links (enrich_with lib v url c raws files)
  unfolding enrich_with
  enrich_with-Links none c raws files e =
      subst (λ (u : Option Text). IsLinkedAs v u (get "github_stars" c.source_metadata)) (sym e) tt
  enrich_with-Links (some url) c raws files e =
      enrich_by-Links v.github_client url c raws files refl

  after_github-IsVerified :
      (found : Result Refusal Evidence) (raw : RawDocument) (files : Files)
      → Links found
      → IsVerified v (after_github lib v found raw files).0
  unfolding after_github build_record
  after_github-IsVerified (raise e) raw files l = tt
  after_github-IsVerified (ok (c, raws, files')) raw files l =
      build_dated-IsVerified c.published_at c raw raws l

  after_hydration-IsVerified :
      (found : Result Refusal Evidence) (raw : RawDocument) (files : Files)
      → IsVerified v (after_hydration lib v found raw files).0
  unfolding after_hydration enrich_github
  after_hydration-IsVerified (raise e) raw files = tt
  after_hydration-IsVerified (ok (c, raws, files')) raw files =
      after_github-IsVerified (enrich_with lib v c.github_url c raws files') raw files'
        (enrich_with-Links c.github_url c raws files' refl)

  -- If a candidate becomes a record, the record has a number of stars only if it has the URL of a repository,
  -- and then GitHub answered the job with a repository of just this URL and this number of stars;
  -- whatever the candidate's own metadata says.
  pub prepare_record-IsVerified :
      (c : ResearchPaperCandidate) (raw : RawDocument) (files : Files)
      → IsVerified v (prepare_record lib v c raw files).0
  unfolding prepare_record
  prepare_record-IsVerified c raw files =
      after_hydration-IsVerified (hydrate_bibliography lib v c (raw ∷ []) files) raw files
