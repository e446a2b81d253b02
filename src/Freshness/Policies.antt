-- ===== src/Freshness/Policies.antt =====
-- `evaluate_freshness` and the table of confidences of src/freshness/policies.py.
-- A datetime is an instant: the microseconds since 0001-01-01 in UTC, the earliest that `datetime`
-- holds, so that `_utc` is the identity and a difference below 0 is its `OverflowError`. Confidences are
-- hundredths.
pub mod Gate
use ai_internship_demo_task.Prelude.{
  ℕ, ◌-◌, ◌*◌, Bool, true, false, Option, none, some, List, [], ◌∷◌, String, ltb, if◌then◌else◌,
}
use ai_internship_demo_task.Prelude.Result.{Result, ok, raise}
use ai_internship_demo_task.Prelude.Int.{ℤ, sub_ℕ, is_negative, exceeds}

-- The sources of a date, the keys of `DATE_CONFIDENCE`.
pub data Source : Type 0 where
  json_ld meta time source_specific rss visible relative : Source

unfoldable pub date_confidence : Source → ℕ
date_confidence json_ld = 99
date_confidence meta = 95
date_confidence time = 90
date_confidence source_specific = 88
date_confidence rss = 85
date_confidence visible = 70
date_confidence relative = 60

pub record DateEvidence : Type 0 where
  pub published_at : Option ℕ
  pub source : Option Source
  pub confidence : ℕ

pub data Status : Type 0 where
  accept reject quarantine : Status

pub data Reason : Type 0 where
  date_unresolved low_confidence_date future_date stale_date fresh : Reason

pub record FreshnessDecision : Type 0 where
  pub status : Status
  pub published_at : Option ℕ
  pub source : Option Source
  pub confidence : ℕ
  -- in microseconds, where the code has hours
  pub age : Option ℤ
  pub reason : Reason

unfoldable pub hours : ℕ → ℕ
hours n = n * 3600000000

-- The decision on a resolved date; `settled` is the call of the constructor that its branches share.
abbrev pub settled : DateEvidence → ℕ → ℤ → Status → Reason → FreshnessDecision
settled evidence published age status reason = record {
  status = status;
  published_at = some published;
  source = evidence.source;
  confidence = evidence.confidence;
  age = some age;
  reason = reason;
}

abbrev pub unresolved : FreshnessDecision
unresolved = record {
  status = quarantine;
  published_at = none;
  source = none;
  confidence = 0;
  age = none;
  reason = date_unresolved;
}

unfoldable pub evaluate_resolved : ℕ → ℕ → ℕ → DateEvidence → ℕ → FreshnessDecision
evaluate_resolved now max_age_hours minimum evidence published =
    let age = sub_ℕ now published in
    if ltb evidence.confidence minimum
    then settled evidence published age quarantine low_confidence_date
    else if is_negative age
    then settled evidence published age reject future_date
    else if exceeds age (hours max_age_hours)
    then settled evidence published age reject stale_date
    else settled evidence published age accept fresh

unfoldable pub evaluate_at : ℕ → ℕ → ℕ → DateEvidence → Option ℕ → FreshnessDecision
evaluate_at now max_age_hours minimum evidence none = unresolved
evaluate_at now max_age_hours minimum evidence (some published) =
    evaluate_resolved now max_age_hours minimum evidence published

unfoldable pub evaluate_freshness : ℕ → ℕ → ℕ → DateEvidence → FreshnessDecision
unfolding evaluate_at
evaluate_freshness now max_age_hours minimum evidence =
    evaluate_at now max_age_hours minimum evidence evidence.published_at
