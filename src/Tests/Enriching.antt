-- ===== src/Tests/Enriching.antt =====
-- A startup and a product that a language model is asked about.
use ai_internship_demo_task.Prelude.{ℕ, ◌+◌, false, none, some, Option, [], ◌∷◌, ◌≡◌, refl, String}
use ai_internship_demo_task.Prelude.Result.{Result, ok, raise}
use ai_internship_demo_task.Prelude.Int.{pos}
use ai_internship_demo_task.Prelude.Text.{Text, codes}
use ai_internship_demo_task.Prelude.Json.{null, str, Elements, Fields, field, end, get}
use ai_internship_demo_task.Crawlers.Candidates.{StartupCandidate, ProductCandidate}
use ai_internship_demo_task.Extraction.CircuitBreaker.{closed}
use ai_internship_demo_task.Extraction.Orchestrator.{Failure, ExtractionResult}
use ai_internship_demo_task.Extraction.Orchestrator.State.{Orchestrator}
use ai_internship_demo_task.Extraction.Enrichment.{
  LlmStartupExtraction, LlmProductExtraction, CallError, other_exception, enrich_startup_with_llm,
  enrich_product_with_llm,
}
use ai_internship_demo_task.Extraction.Enrichment.Keeping.{
  KeepsStartup, enrich_startup_with_llm-Keeps, enrich_product_with_llm_uncaught,
}

abbrev pub answers : String → ℕ → Text → Result Failure ExtractionResult
answers name n prompt = ok (record {
  provider = name;
  model = "m";
  fields = field "headquarters" (str (codes "Paris")) end;
  raw_text = codes "{}";
  input_tokens = none;
  output_tokens = none;
})

abbrev pub clock : ℕ → ℕ
clock n = 1000 + n

abbrev pub no_repr : Elements → Text
no_repr vs = []

abbrev pub orchestrator : Orchestrator
orchestrator = record {
  provider_order = "groq" ∷ [];
  slots =
      (
        "groq",
        record {
          breaker = record {
            failure_threshold = 3;
            recovery_timeout = 60;
            state = closed;
            failures = 0;
            last_failure = 0;
            half_open_probe = false;
          };
          health = record { successes = 0; failures = 0; state = closed };
        },
      )
      ∷ [];
  chunk_target = 100;
  max_attempts = 2;
  calls = 0;
  readings = 0;
}

abbrev pub acme : StartupCandidate
acme = record {
  original_url = codes "https://acme.example";
  canonical_url = codes "https://acme.example";
  entity_name = codes "Acme";
  attributes = field "headquarters" (str (codes "Rome")) (field "employeeCount" null end);
}

abbrev pub of_startup : Fields → Option LlmStartupExtraction
of_startup fs = some (record {
  employee_count = some (pos 12);
  headquarters = some (codes "Paris");
  founded_year = none;
})

rome : get "headquarters" acme.attributes ≡ some (str (codes "Rome"))
unfolding get
rome = refl

enrich_startup_with_llm-Keeps_example :
    KeepsStartup "headquarters"
      (str (codes "Rome"))
      acme
      (enrich_startup_with_llm answers clock no_repr of_startup (some orchestrator) acme).0.0
enrich_startup_with_llm-Keeps_example =
    enrich_startup_with_llm-Keeps answers clock no_repr of_startup (some orchestrator) acme
      "headquarters" (str (codes "Rome")) rome (λ h. cc)

abbrev widget : ProductCandidate
widget = record {
  original_url = codes "https://acme.example/widget";
  canonical_url = codes "https://acme.example/widget";
  product_name = codes "Widget";
  startup_name = codes "Unknown";
  pricing_model = codes "FREEMIUM";
  attributes = end;
}

abbrev of_product : Fields → Option LlmProductExtraction
of_product fs = some (record { pricing_model = codes "PAID"; startup_name = some (codes "Acme") })

abbrev call_literal : Text → Result CallError Text
call_literal t = raise other_exception

enrich_product_with_llm_uncaught_example :
    (enrich_product_with_llm answers clock no_repr call_literal of_product
      (some orchestrator)
      widget).0
    ≡ (widget, false)
enrich_product_with_llm_uncaught_example =
    enrich_product_with_llm_uncaught answers clock no_repr call_literal of_product
      (some orchestrator) widget (λ t. refl)
