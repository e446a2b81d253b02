-- ===== src/Parsing/FullText/Content.antt =====
-- `extract_full_text` of src/parsing/full_text.py with its readers of dates, on instants as in
-- Freshness.Policies. What the standard library and the regular expression read from a text is a parameter.
use ai_internship_demo_task.Prelude.{
  ℕ, ◌&&◌, ◌==◌, not, Option, none, some, List, [], ◌∷◌, ltb, length, take, map, if◌then◌else◌,
}
use ai_internship_demo_task.Prelude.Result.{Result, ok, raise}
use ai_internship_demo_task.Prelude.Text.{Text, codes, strip, is_empty}
use ai_internship_demo_task.Prelude.Json.{Value}
use ai_internship_demo_task.Freshness.Policies.{Source, json_ld, meta, time, relative}
use ai_internship_demo_task.Freshness.Dates.{TimeUnit, DateError, timedelta, before}
use ai_internship_demo_task.Parsing.FullText.{
  Call, Extractor, new_extractor, feed, get_body_text, is_missing,
}

pub record ExtractedContent : Type 0 where
  pub title : Option Text
  pub body : Text
  pub published_date : Option ℕ
  pub date_source : Option Source
  pub date_confidence : ℕ
  pub author : Option Text

pub data Format : Type 0 where
  iso_with_zone iso_with_space iso_day email_with_zone short_month long_month : Format

abbrev pub formats : List Format
formats = iso_with_zone ∷ iso_with_space ∷ iso_day ∷ email_with_zone ∷ short_month ∷ long_month ∷ []

-- `fromisoformat` and `strptime`, of a time without a zone as UTC; the regular expression, which gives the
-- number and the unit.
pub record Readers : Type 0 where
  pub from_iso : Text → Option ℕ
  pub strptime : Format → Text → Option ℕ
  pub ago : Text → Option (ℕ × TimeUnit)

-- raw[:-1] + "+00:00", if raw ends with "Z"
unfoldable pub spell_zone : Text → Text
spell_zone [] = []
spell_zone (c ∷ []) = if c == b'Z' then codes "+00:00" else c ∷ []
spell_zone (c ∷ d ∷ s) = c ∷ spell_zone (d ∷ s)

unfoldable pub or_next : Option ℕ → Option ℕ → Option ℕ
or_next none next = next
or_next (some found) next = some found

module _ (r : Readers) where
  -- The loop over the formats.
  unfoldable pub first_format : List Format → Text → Option ℕ
  first_format [] raw = none
  first_format (f ∷ fs) raw = or_next (r.strptime f raw) (first_format fs raw)

  unfoldable pub parse_iso_date : Text → Option ℕ
  parse_iso_date raw =
      let spelled = spell_zone (strip raw) in
      if is_empty raw then none else or_next (r.from_iso spelled) (first_format formats spelled)

  -- The loop over the texts of one source.
  unfoldable pub first_date : List Text → Option ℕ
  first_date [] = none
  first_date (raw ∷ raws) = or_next (parse_iso_date raw) (first_date raws)

  unfoldable pub before_now : ℕ → Option (ℕ × TimeUnit) → Result DateError (Option ℕ)
  before_now now none = ok none
  before_now now (some (amount, unit)) = before now (timedelta amount unit)

  unfoldable pub parse_relative_date : Text → ℕ → Result DateError (Option ℕ)
  parse_relative_date t now = before_now now (r.ago t)

-- The date of the content, with its source and its confidence.
unfoldable pub with_date : ExtractedContent → Source → ℕ → ℕ → ExtractedContent
with_date c source confidence published = record c {
  published_date = some published;
  date_source = some source;
  date_confidence = confidence;
}

unfoldable pub with_relative :
    ExtractedContent → Result DateError (Option ℕ) → Result DateError ExtractedContent
with_relative c (raise e) = raise e
with_relative c (ok none) = ok c
with_relative c (ok (some published)) = ok (with_date c relative 75 published)

-- The four steps for the date, from what the first three sources have.
unfoldable pub with_dates :
    ExtractedContent
    → Option ℕ
    → Option ℕ
    → Option ℕ
    → Result DateError (Option ℕ)
    → Result DateError ExtractedContent
with_dates c (some d) metas times rel = ok (with_date c json_ld 95 d)
with_dates c none (some d) times rel = ok (with_date c meta 90 d)
with_dates c none none (some d) rel = ok (with_date c time 85 d)
with_dates c none none none rel = with_relative c rel

unfoldable pub first_author : List Text → Option Text
first_author [] = none
first_author (a ∷ authors) = some a

unfoldable pub author_of : Extractor → Option Text
author_of s = if is_missing s.author then first_author s.json_ld_authors else s.author

unfoldable pub body_of : Extractor → Text → Text
body_of s fallback =
    let body = get_body_text s in
    if ltb (length body) 50 && not (is_empty fallback) then fallback else body

module _ (r : Readers) (now : ℕ) where
  -- `extract_full_text` from the state of the parser on.
  unfoldable pub content_of : Extractor → Text → Result DateError ExtractedContent
  content_of s fallback =
      let body = body_of s fallback in
      with_dates
        (record {
          title = s.title;
          body = body;
          published_date = none;
          date_source = none;
          date_confidence = 0;
          author = author_of s;
        })
        (first_date r s.json_ld_dates) (first_date r (map (λ (p : Text × Text). p.1) s.meta_dates))
        (first_date r s.time_tag_dates) (parse_relative_date r (take 1000 body) now)

  module _ (casefold : Text → Text) (loads : Text → Option Value) (str_of : Value → Text) where
    -- `extract_full_text`, on the calls that the library makes for the document.
    unfoldable pub extract_full_text : List Call → Text → Result DateError ExtractedContent
    extract_full_text calls fallback =
        content_of (feed casefold loads str_of calls new_extractor) fallback
