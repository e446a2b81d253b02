-- ===== src/Crawlers/Candidates.antt =====
-- The candidates that the source adapters give, of src/crawlers: news/base.py, jobs/base.py,
-- startup/base.py, product/base.py and research/models.py. Instants and confidences are those of
-- Freshness.Policies; a pricing model is its text.
use ai_internship_demo_task.Prelude.{ℕ, Bool, true, false, Option, none, some, List}
use ai_internship_demo_task.Prelude.Text.{Text}
use ai_internship_demo_task.Prelude.Json.{Fields}
use ai_internship_demo_task.Freshness.Policies.{Source}

pub record NewsCandidate : Type 0 where
  pub original_url : Text
  pub canonical_url : Text
  pub title : Text
  pub body : Text
  pub author : Option Text
  pub published_at : Option ℕ
  pub date_source : Option Source
  pub date_confidence : ℕ
  pub category : Text

pub record JobCandidate : Type 0 where
  pub original_url : Text
  pub canonical_url : Text
  pub company : Text
  pub title : Text
  pub description : Text
  pub published_at : Option ℕ
  pub date_source : Option Source
  pub date_confidence : ℕ
  pub is_remote : Bool
  pub role_family : Option Text

pub record StartupCandidate : Type 0 where
  pub original_url : Text
  pub canonical_url : Text
  pub entity_name : Text
  pub attributes : Fields

pub record ProductCandidate : Type 0 where
  pub original_url : Text
  pub canonical_url : Text
  pub product_name : Text
  pub startup_name : Text
  pub pricing_model : Text
  pub attributes : Fields

pub record ResearchPaperCandidate : Type 0 where
  pub original_url : Text
  pub canonical_url : Text
  pub paper_url : Text
  pub title : Text
  pub authors : List Text
  pub published_at : Option ℕ
  pub abstract : Option Text
  pub github_url : Option Text
  pub source_metadata : Fields

unfoldable pub needs_bibliographic_hydration : ResearchPaperCandidate → Bool
needs_bibliographic_hydration c = elim c.published_at [ none ↦ true | some _ ↦ false ]
