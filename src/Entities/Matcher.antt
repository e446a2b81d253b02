-- ===== src/Entities/Matcher.antt =====
-- `EntityMatcher` of src/entities/matcher.py. Confidences are fractions of `one`, the unit of the model; the
-- ratio of `SequenceMatcher` is a parameter. `sorted` and `max` compare identities by code points.
pub mod Thresholds
use ai_internship_demo_task.Prelude.{
  ℕ, ◌==◌, ◌&&◌, ◌||◌, Bool, true, false, Option, none, some, List, [], ◌∷◌, map, ltb, leb,
  if◌then◌else◌,
}
use ai_internship_demo_task.Prelude.Result.{Result, ok, raise}
use ai_internship_demo_task.Prelude.Text.{Text, strip, is_empty}
use ai_internship_demo_task.Entities.Aliases.{EntitySeed, AliasTable, resolve_exact}

pub data MatchStatus : Type 0 where
  auto_match review unresolved : MatchStatus

pub data Method : Type 0 where
  exact fuzzy no_method : Method

pub record MatchResult : Type 0 where
  pub raw_name : Text
  pub entity : Option EntitySeed
  pub method : Method
  pub confidence : ℕ
  pub status : MatchStatus

pub record EntityMatcher : Type 0 where
  pub aliases : AliasTable
  pub auto_threshold : ℕ
  pub review_threshold : ℕ

pub data ThresholdError : Type 0 where
  bad_thresholds : ThresholdError

-- a < b
unfoldable pub text_ltb : Text → Text → Bool
text_ltb a [] = false
text_ltb [] (d ∷ b) = true
text_ltb (c ∷ a) (d ∷ b) = if c == d then text_ltb a b else ltb c d

unfoldable pub insert_by_id : EntitySeed → List EntitySeed → List EntitySeed
insert_by_id e [] = e ∷ []
insert_by_id e (f ∷ fs) =
    if text_ltb f.entity_id e.entity_id then f ∷ insert_by_id e fs else e ∷ f ∷ fs

unfoldable pub sort_by_id : List EntitySeed → List EntitySeed
sort_by_id [] = []
sort_by_id (e ∷ es) = insert_by_id e (sort_by_id es)

-- Whether the key of the first pair is below that of the second.
unfoldable pub scores_below : ℕ × EntitySeed → ℕ × EntitySeed → Bool
scores_below (m, e) (n, f) = ltb m n || (m == n && text_ltb e.entity_id f.entity_id)

-- `max` of a list that starts with a pair.
unfoldable pub best : ℕ × EntitySeed → List (ℕ × EntitySeed) → ℕ × EntitySeed
best p [] = p
best p (q ∷ qs) = best (if scores_below p q then q else p) qs

unfoldable pub open_matcher : ℕ → AliasTable → ℕ → ℕ → Result ThresholdError EntityMatcher
open_matcher one table automatic reviewed =
    if leb reviewed automatic && leb automatic one
    then ok (record { aliases = table; auto_threshold = automatic; review_threshold = reviewed })
    else raise bad_thresholds

abbrev pub unmatched : Text → ℕ → MatchResult
unmatched raw confidence = record {
  raw_name = raw;
  entity = none;
  method = no_method;
  confidence = confidence;
  status = unresolved;
}

-- `_result`
abbrev pub matched : Text → EntitySeed → Method → ℕ → MatchStatus → MatchResult
matched raw e method confidence status = record {
  raw_name = raw;
  entity = some e;
  method = method;
  confidence = confidence;
  status = status;
}

-- The end of `match`, on the best candidate.
unfoldable pub judge : EntityMatcher → Text → ℕ × EntitySeed → MatchResult
judge m raw (confidence, e) =
    if leb m.auto_threshold confidence
    then matched raw e fuzzy confidence auto_match
    else if leb m.review_threshold confidence
    then matched raw e fuzzy confidence review
    else unmatched raw confidence

unfoldable pub judge_scored : EntityMatcher → Text → List (ℕ × EntitySeed) → MatchResult
judge_scored m raw [] = unmatched raw 0
judge_scored m raw (p ∷ ps) = judge m raw (best p ps)

module _ (one : ℕ) (normalize : Text → Text) (ratio : Text → Text → ℕ) where
  unfoldable pub scored : Text → AliasTable → List (ℕ × EntitySeed)
  scored raw table =
      map (λ (e : EntitySeed). (ratio (normalize raw) (normalize e.canonical_name), e))
        (sort_by_id (map (λ (p : Text × EntitySeed). p.1) table.entities))

  -- `match` from the exact resolution on.
  unfoldable pub match_found : EntityMatcher → Text → Option EntitySeed → MatchResult
  match_found m raw (some e) = matched raw e exact one auto_match
  match_found m raw none = judge_scored m raw (scored raw m.aliases)

  unfoldable pub match_name : EntityMatcher → Text → MatchResult
  match_name m raw =
      if is_empty (strip raw)
      then unmatched raw 0
      else match_found m raw (resolve_exact normalize raw m.aliases)
