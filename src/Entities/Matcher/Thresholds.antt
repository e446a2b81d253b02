-- ===== src/Entities/Matcher/Thresholds.antt =====
-- The status of a match and its confidence.
use ai_internship_demo_task.Prelude.{
  ℕ, ◌≤◌, ◌<◌, Option, none, some, List, [], ◌∷◌, arith, leb, Bool-cases, inl, inr, leb→le,
}
use ai_internship_demo_task.Prelude.Text.{Text, strip, is_empty}
use ai_internship_demo_task.Entities.Aliases.{EntitySeed, resolve_exact}
use ai_internship_demo_task.Entities.Matcher.{
  MatchStatus, auto_match, review, unresolved, MatchResult, EntityMatcher, judge, judge_scored,
  match_found, match_name, best, scored,
}

-- What a status says: an entity and a confidence that reaches the threshold of the status.
abbrev pub Justified : EntityMatcher → MatchStatus → Option EntitySeed → ℕ → Type 0
Justified m auto_match (some e) confidence = m.auto_threshold ≤ confidence
Justified m review (some e) confidence =
    (m.review_threshold ≤ confidence) × (confidence < m.auto_threshold)
Justified m unresolved none confidence = Unit
Justified m _ _ confidence = 1 ≤ 0

abbrev pub IsJustified : EntityMatcher → MatchResult → Type 0
IsJustified m r = Justified m r.status r.entity r.confidence

judge-IsJustified :
    (m : EntityMatcher) (raw : Text) (p : ℕ × EntitySeed) → IsJustified m (judge m raw p)
unfolding judge
judge-IsJustified m raw (confidence, e) = elim (Bool-cases (leb m.auto_threshold confidence)) [
  | inl h ↦ rw h (leb→le m.auto_threshold confidence h)
  | inr h ↦ elim (Bool-cases (leb m.review_threshold confidence)) [
    | inl k ↦ rw (h, k) (leb→le m.review_threshold confidence k, ground (arith, h))
    | inr k ↦ rw (h, k) tt
  ]
]

judge_scored-IsJustified :
    (m : EntityMatcher) (raw : Text) (ps : List (ℕ × EntitySeed))
    → IsJustified m (judge_scored m raw ps)
unfolding judge_scored
judge_scored-IsJustified m raw [] = tt
judge_scored-IsJustified m raw (p ∷ ps) = judge-IsJustified m raw (best p ps)

module _ (one : ℕ) (normalize : Text → Text) (ratio : Text → Text → ℕ) where
  match_found-IsJustified :
      (m : EntityMatcher) (raw : Text) (found : Option EntitySeed)
      → m.auto_threshold ≤ one
      → IsJustified m (match_found one normalize ratio m raw found)
  unfolding match_found
  match_found-IsJustified m raw (some e) h = h
  match_found-IsJustified m raw none h =
      judge_scored-IsJustified m raw (scored one normalize ratio raw m.aliases)

  -- With a threshold for automatic matches of at most 1, an automatic match has an entity and a
  -- confidence that reaches this threshold, a match for review has an entity and a confidence from the
  -- review threshold up to below the automatic one, and an unresolved name has no entity.
  pub match_name-IsJustified :
      (m : EntityMatcher) (raw : Text)
      → m.auto_threshold ≤ one
      → IsJustified m (match_name one normalize ratio m raw)
  unfolding match_name
  match_name-IsJustified m raw h = elim (Bool-cases (is_empty (strip raw))) [
    | inl e ↦ rw e tt
    | inr e ↦ rw e (match_found-IsJustified m raw (resolve_exact normalize raw m.aliases) h)
  ]
