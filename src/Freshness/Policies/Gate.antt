-- ===== src/Freshness/Policies/Gate.antt =====
-- When a record passes the freshness gate.
use ai_internship_demo_task.Prelude.{
  ℕ, ◌+◌, ◌≤◌, ◌<◌, true, Option, none, some, ◌≡◌, refl, arith, ◌↔◌, subst,
}
use ai_internship_demo_task.Prelude.Int.{sub_ℕ, is_negative, exceeds}
use ai_internship_demo_task.Freshness.Policies.{
  DateEvidence, accept, evaluate_resolved, evaluate_freshness, hours, evaluate_at,
}

-- The age is known, at least 0 and at most the limit, and the confidence is enough.
pub record Passes (now max_age_hours minimum confidence published : ℕ) : Type 0 where
  pub confident : minimum ≤ confidence
  pub past : published ≤ now
  pub recent : now ≤ published + hours max_age_hours

is_negative_sub : (a b : ℕ) → (is_negative (sub_ℕ a b) ≡ true) ↔ (a < b)
is_negative_sub a b = (λ h. ground arith, λ h. ground arith)

exceeds_sub : (a b m : ℕ) → b ≤ a → (exceeds (sub_ℕ a b) m ≡ true) ↔ (b + m < a)
exceeds_sub a b m h = (λ k. ground arith, λ k. ground arith)

pub evaluate_resolved_iff :
    (now max_age_hours minimum : ℕ) (evidence : DateEvidence) (published : ℕ)
    → ((evaluate_resolved now max_age_hours minimum evidence published).status ≡ accept)
      ↔ Passes now max_age_hours minimum evidence.confidence published
unfolding evaluate_resolved
evaluate_resolved_iff now max_age_hours minimum evidence published = (
  λ h. record { confident = ground arith; past = ground arith; recent = ground arith },
  λ h. ground (arith, h.confident, h.past, h.recent),
)

evaluate_at_iff :
    (now max_age_hours minimum : ℕ) (evidence : DateEvidence) (date : Option ℕ)
    → ((evaluate_at now max_age_hours minimum evidence date).status ≡ accept) ↔ (
        (published : ℕ) × (date ≡ some published)
        × Passes now max_age_hours minimum evidence.confidence published)
unfolding evaluate_at
evaluate_at_iff now max_age_hours minimum evidence none =
    (λ h. ground arith, λ (published, k, p). ground (arith, k))
evaluate_at_iff now max_age_hours minimum evidence (some published) =
    let resolved = evaluate_resolved_iff now max_age_hours minimum evidence published in
    (
      λ h. (published, refl, resolved.0 h),
      λ (other, k, p).
          let e : other ≡ published = cc in
          resolved.1 (subst (λ t. Passes now max_age_hours minimum evidence.confidence t) e p),
    )

-- With a limit and a least confidence, a record is accepted if and only if its date is resolved with at
-- least this confidence, is not in the future and is not older than the limit.
pub evaluate_freshness_iff :
    (now max_age_hours minimum : ℕ) (evidence : DateEvidence)
    → ((evaluate_freshness now max_age_hours minimum evidence).status ≡ accept) ↔ (
        (published : ℕ) × (evidence.published_at ≡ some published)
        × Passes now max_age_hours minimum evidence.confidence published)
unfolding evaluate_freshness
evaluate_freshness_iff now max_age_hours minimum evidence =
    evaluate_at_iff now max_age_hours minimum evidence evidence.published_at
