-- ===== src/Freshness/Dates/Priority.antt =====
-- Which of the dates of a page is selected.
use ai_internship_demo_task.Prelude.{
  ℕ, ◌≤◌, Option, none, some, List, [], ◌∷◌, ◌≡◌, refl, ap, subst, arith,
}
use ai_internship_demo_task.Prelude.Result.{Result, ok, raise, ok-injective}
use ai_internship_demo_task.Freshness.Policies.{
  Source, meta, time, rss, DateEvidence, date_confidence,
}
use ai_internship_demo_task.Freshness.Dates.{
  Readers, DateValue, DateError, select_from, choose, parse_date, value_of,
}
use ai_internship_demo_task.Prelude.Text.{Text}
use ai_internship_demo_task.Freshness.Dates.Tags.{
  last_said, said_or, meta_says, time_says, feed-tag_dates,
}
use ai_internship_demo_task.Freshness.Dates.Markup.{
  Patterns, Call, candidates, feed, empty, select_date,
}

-- The evidence is at least as sure as every date of the list that can be read.
abbrev pub AtLeast : Readers → ℕ → ℕ → List (Source × DateValue) → Type 0
AtLeast r reference confidence [] = Unit
AtLeast r reference confidence ((source, value) ∷ rest) =
    ((t : ℕ) → parse_date r reference value ≡ ok (some t) → date_confidence source ≤ confidence)
    × AtLeast r reference confidence rest

-- The sources are listed by falling confidence.
abbrev pub Falling : ℕ → List (Source × DateValue) → Type 0
Falling bound [] = Unit
Falling bound ((source, value) ∷ rest) =
    (date_confidence source ≤ bound) × Falling (date_confidence source) rest

Falling-AtLeast :
    (r : Readers) (reference bound confidence : ℕ) (values : List (Source × DateValue))
    → Falling bound values
    → bound ≤ confidence
    → AtLeast r reference confidence values
Falling-AtLeast r reference bound confidence [] f h = tt
Falling-AtLeast r reference bound confidence ((source, value) ∷ rest) f h = (
  λ t e. omega (arith, f.0, h),
  Falling-AtLeast r reference (date_confidence source) confidence rest f.1 (omega (arith, f.0, h)),
)

choose-AtLeast :
    (r : Readers) (reference : ℕ) (source : Source) (value : DateValue)
    (rest : List (Source × DateValue)) (found : DateEvidence) (next : Result DateError DateEvidence)
    (parsed : Result DateError (Option ℕ))
    → parse_date r reference value ≡ parsed
    → Falling (date_confidence source) rest
    → (next ≡ ok found → AtLeast r reference found.confidence rest)
    → choose r reference source next parsed ≡ ok found
    → AtLeast r reference found.confidence ((source, value) ∷ rest)
unfolding choose
choose-AtLeast r reference source value rest found next (raise x) p f h k = absurd (cc)
choose-AtLeast r reference source value rest found next (ok none) p f h k =
    (λ t q. ground (arith, p, q), h k)
choose-AtLeast r reference source value rest found next (ok (some t)) p f h k =
    let e : date_confidence source ≡ found.confidence =
      ap (λ (x : DateEvidence). x.confidence) (ok-injective k) in
    (
      λ u q. omega (arith, e),
      Falling-AtLeast r reference (date_confidence source) found.confidence rest f
          (omega (arith, e)),
    )

select_from-AtLeast :
    (r : Readers) (reference bound : ℕ) (values : List (Source × DateValue)) (found : DateEvidence)
    → Falling bound values
    → select_from r reference values ≡ ok found
    → AtLeast r reference found.confidence values
unfolding select_from
select_from-AtLeast r reference bound [] found f e = tt
select_from-AtLeast r reference bound ((source, value) ∷ rest) found f e =
    choose-AtLeast r reference source value rest found (select_from r reference rest)
      (parse_date r reference value) refl f.1
      (select_from-AtLeast r reference (date_confidence source) rest found f.1) e

-- The dates that a page and the feed give by the tags alone, read off the calls.
unfoldable pub tagged : Patterns → List Call → DateValue → List (Source × DateValue)
tagged p calls rss_date =
    (meta, value_of (said_or (last_said (meta_says p) calls) none))
    ∷ (time, value_of (said_or (last_said time_says calls) none))
    ∷ (rss, rss_date)
    ∷ []

-- The evidence that `select_date` returns is at least as sure as each date of the page and of the feed that
-- the parser is left with and that can be read. In particular it is at least as sure as the content of
-- the last `meta` tag of the page with a key of a date, as the `datetime` of its last `time` tag and as the
-- date of the feed, where these can be read. Dates of earlier tags of the same kind do not count.
pub select_date-AtLeast :
    (r : Readers) (p : Patterns) (calls : List Call) (rss_date : DateValue) (reference : ℕ)
    (found : DateEvidence)
    → select_date r p calls rss_date reference ≡ ok found
    → AtLeast r reference found.confidence (candidates (feed p calls empty) rss_date)
      × AtLeast r reference found.confidence (tagged p calls rss_date)
unfolding select_date candidates date_confidence tagged
select_date-AtLeast r p calls rss_date reference found e =
    let all =
      select_from-AtLeast r reference 99 (candidates (feed p calls empty) rss_date) found
        (
          omega arith,
          (
            omega arith,
            (omega arith, (omega arith, (omega arith, (omega arith, (omega arith, tt))))),
          ),
        )
        e in
    let tags = feed-tag_dates p calls empty in
    (
      all,
      (
        subst
            (λ (d : Option Text × Option Text).
              (t : ℕ) → parse_date r reference (value_of d.0) ≡ ok (some t) → 95 ≤ found.confidence)
            tags all.1.0,
        (
          subst
              (λ (d : Option Text × Option Text).
                (t : ℕ)
                → parse_date r reference (value_of d.1) ≡ ok (some t)
                → 90 ≤ found.confidence)
              tags all.1.1.0,
          (all.1.1.1.1.0, tt),
        ),
      ),
    )
