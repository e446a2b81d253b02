-- ===== src/Freshness/Dates.antt =====
-- `select_date` and `_parse_date` of src/freshness/policies.py, on instants as in Freshness.Policies.
-- What the standard library and the regular expressions read from a text is a parameter.
pub mod Markup
pub mod Tags
pub mod Priority
use ai_internship_demo_task.Prelude.{
  ℕ, ◌-◌, ◌*◌, ◌++◌, Bool, true, false, Option, none, some, List, [], ◌∷◌, String, ltb,
  if◌then◌else◌,
}
use ai_internship_demo_task.Prelude.Result.{Result, ok, raise}
use ai_internship_demo_task.Prelude.Text.{Text, strip, is_empty}
use ai_internship_demo_task.Freshness.Policies.{
  Source, json_ld, meta, time, source_specific, rss, visible, relative, date_confidence,
  DateEvidence,
}

-- What a candidate for the date is: None, a text, or a datetime already.
pub data DateValue : Type 0 where
  missing : DateValue
  written : Text → DateValue
  moment : ℕ → DateValue

-- `OverflowError` of a datetime before the first one
pub data DateError : Type 0 where
  overflow : DateError

pub data TimeUnit : Type 0 where
  minute hour day : TimeUnit

pub data Format : Type 0 where
  short_with_year long_with_year short_month_day long_month_day : Format

-- The readers outside the program: `fromisoformat` (after `Z` is replaced), `parsedate_to_datetime`,
-- the two regular expressions, the comparison with "yesterday" and `strptime`; `replace_year` puts the
-- year of the first instant into the second.
pub record Readers : Type 0 where
  pub from_iso : Text → Option ℕ
  pub from_email : Text → Option ℕ
  pub ago : Text → Option (ℕ × TimeUnit)
  pub is_yesterday : Text → Bool
  pub is_month_day : Text → Bool
  pub strptime : Format → Text → Option ℕ
  pub replace_year : ℕ → ℕ → Option ℕ

unfoldable pub timedelta : ℕ → TimeUnit → ℕ
timedelta amount minute = amount * 60000000
timedelta amount hour = amount * 3600000000
timedelta amount day = amount * 86400000000

-- `reference - delta`
unfoldable pub before : ℕ → ℕ → Result DateError (Option ℕ)
before reference delta =
    if ltb reference delta then raise overflow else ok (some (reference - delta))

abbrev pub lacks_year : Format → Bool
lacks_year short_month_day = true
lacks_year long_month_day = true
lacks_year _ = false

module _ (r : Readers) (reference : ℕ) where
  -- The body of the last loop for a text that `strptime` reads.
  unfoldable pub with_year : Format → ℕ → Option ℕ
  with_year format parsed =
      if lacks_year format then r.replace_year reference parsed else some parsed

  -- The last loop of `_parse_date`.
  unfoldable pub first_format : Text → List Format → Option ℕ
  first_format t [] = none
  first_format t (format ∷ formats) =
      let rest = first_format t formats in
      elim (r.strptime format t) [
        | none ↦ rest
        | some parsed ↦ elim (with_year format parsed) [ some found ↦ some found | none ↦ rest ]
      ]

  unfoldable pub formats_for : Text → List Format
  formats_for t =
      short_with_year
      ∷ long_with_year
      ∷ (if r.is_month_day t then short_month_day ∷ long_month_day ∷ [] else [])

  -- `_parse_date` from the relative dates on.
  unfoldable pub parse_informal : Text → Result DateError (Option ℕ)
  parse_informal t = elim (r.ago t) [
    | some (amount, unit) ↦ before reference (timedelta amount unit)
    | none ↦
        if r.is_yesterday t
        then before reference (timedelta 1 day)
        else ok (first_format t (formats_for t))
  ]

  unfoldable pub parse_text : Text → Result DateError (Option ℕ)
  parse_text t = elim (r.from_iso t) [
    | some found ↦ ok (some found)
    | none ↦ elim (r.from_email t) [ some found ↦ ok (some found) | none ↦ parse_informal t ]
  ]

  unfoldable pub parse_date : DateValue → Result DateError (Option ℕ)
  parse_date missing = ok none
  parse_date (written t) = if is_empty (strip t) then ok none else parse_text (strip t)
  parse_date (moment t) = ok (some t)

  -- The body of the loop of `select_date`; `next` is the rest of the loop.
  unfoldable pub choose :
      Source
      → Result DateError DateEvidence
      → Result DateError (Option ℕ)
      → Result DateError DateEvidence
  choose source next (raise e) = raise e
  choose source next (ok none) = next
  choose source next (ok (some found)) = ok (record {
    published_at = some found;
    source = some source;
    confidence = date_confidence source;
  })

  unfoldable pub select_from : List (Source × DateValue) → Result DateError DateEvidence
  select_from [] = ok (record { published_at = none; source = none; confidence = 0 })
  select_from ((source, value) ∷ rest) = choose source (select_from rest) (parse_date value)

abbrev pub value_of : Option Text → DateValue
value_of none = missing
value_of (some t) = written t
