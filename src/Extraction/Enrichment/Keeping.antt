-- ===== src/Extraction/Enrichment/Keeping.antt =====
-- What an enrichment by a language model cannot change.
use ai_internship_demo_task.Prelude.{
  ℕ, ◌++◌, false, Option, none, some, String, ◌≡◌, refl, sym, ◌∙◌, ap, Bool-cases, inl, inr,
}
use ai_internship_demo_task.Prelude.Result.{Result, raise}
use ai_internship_demo_task.Prelude.Text.{Text, codes}
use ai_internship_demo_task.Prelude.Json.{
  Value, null, bool, num, str, arr, obj, Elements, Fields, get, put, get-put,
}
use text.Mathlib.Text.{◌==◌ as str_eq}
use text.Mathlib.TextEquality.{eq_iff}
use ai_internship_demo_task.Crawlers.Candidates.{StartupCandidate, ProductCandidate}
use ai_internship_demo_task.Extraction.Orchestrator.{Failure, ExtractionResult}
use ai_internship_demo_task.Extraction.Orchestrator.State.{Orchestrator}
use ai_internship_demo_task.Extraction.Enrichment.{
  LlmStartupExtraction, LlmProductExtraction, CallError, other_exception, fill, fill_found,
  with_startup, number, string, ask_if, description_of, enrich_startup_with_llm, with_product,
  with_pricing, pricing_of, enrich_product_with_llm,
}

-- What the second dict has of the first: every value that is not `None`.
abbrev pub Keeps : Fields → Fields → Type 0
Keeps fs gs = (k : String) (v : Value) → get k fs ≡ some v → ¬ (v ≡ null) → get k gs ≡ some v

some-injective : {v w : Value} → ◌≡◌ {A = Option Value} (some v) (some w) → v ≡ w
some-injective h = cc

none-ne-some : {v : Value} → ¬ (◌≡◌ {A = Option Value} none (some v))
none-ne-some h = cc

-- A key whose value is missing or `None` is not the key of any other value.
put-Keeps :
    (k : String) (w : Value) (fs : Fields)
    → ((v : Value) → get k fs ≡ some v → v ≡ null)
    → Keeps fs (put k w fs)
put-Keeps k w fs blank j v e ne = elim (Bool-cases (str_eq k j)) [
  | inl h ↦ absurd (ne (blank v (ap (λ (i : String). get i fs) ((eq_iff k j).0 h) ∙ e)))
  | inr h ↦ get-put k j w fs ∙ rw h e
]

fill_found-Keeps :
    (k : String) (w : Value) (found : Option Value) (fs : Fields)
    → get k fs ≡ found
    → Keeps fs (fill_found k w found fs)
unfolding fill_found
fill_found-Keeps k w none fs e j v h ne =
    put-Keeps k w fs (λ u g. absurd (none-ne-some (sym e ∙ g))) j v h ne
fill_found-Keeps k w (some null) fs e j v h ne =
    put-Keeps k w fs (λ u g. sym (some-injective (sym e ∙ g))) j v h ne
fill_found-Keeps k w (some (bool b)) fs e j v h ne = h
fill_found-Keeps k w (some (num n)) fs e j v h ne = h
fill_found-Keeps k w (some (str s)) fs e j v h ne = h
fill_found-Keeps k w (some (arr vs)) fs e j v h ne = h
fill_found-Keeps k w (some (obj gs)) fs e j v h ne = h

fill-Keeps : (k : String) (w : Option Value) (fs : Fields) → Keeps fs (fill k w fs)
unfolding fill
fill-Keeps k none fs j v h ne = h
fill-Keeps k (some w) fs j v h ne = fill_found-Keeps k w (get k fs) fs refl j v h ne

-- What stays of a startup, for a key `k` of its data with the value `v`.
abbrev pub KeepsStartup : String → Value → StartupCandidate → StartupCandidate → Type 0
KeepsStartup k v c d =
    (d.original_url ≡ c.original_url)
    × (d.canonical_url ≡ c.canonical_url)
    × (d.entity_name ≡ c.entity_name)
    × (get k d.attributes ≡ some v)

with_startup-Keeps :
    (c : StartupCandidate) (answer : Option LlmStartupExtraction) (k : String) (v : Value)
    → get k c.attributes ≡ some v
    → ¬ (v ≡ null)
    → KeepsStartup k v c (with_startup c answer).0
unfolding with_startup
with_startup-Keeps c none k v h ne = (refl, refl, refl, h)
with_startup-Keeps c (some e) k v h ne =
    let fs = fill "employeeCount" (number e.employee_count) c.attributes in
    let gs = fill "headquarters" (string e.headquarters) fs in
    (
      refl,
      refl,
      refl,
      fill-Keeps "foundedYear" (number e.founded_year) gs k v
          (fill-Keeps "headquarters" (string e.headquarters) fs k v
            (fill-Keeps "employeeCount" (number e.employee_count) c.attributes k v h ne) ne)
          ne,
    )

with_product-uncaught :
    (call_pricing : Text → Result CallError Text) (c : ProductCandidate)
    (answer : Option LlmProductExtraction)
    → ((t : Text) → call_pricing t ≡ raise other_exception)
    → with_product call_pricing c answer ≡ (c, false)
unfolding with_product pricing_of with_pricing
with_product-uncaught call_pricing c none h = refl
with_product-uncaught call_pricing c (some e) h = rw (h e.pricing_model) refl

module _ (reply : String → ℕ → Text → Result Failure ExtractionResult) (clock : ℕ → ℕ)
    (repr : Elements → Text) where
  -- Whatever the providers answer and the schema accepts: the startup that the enrichment returns has the same
  -- two URLs and the same name, and its data has, under every key, the value that was there if that was not
  -- `None`.
  pub enrich_startup_with_llm-Keeps :
      (validate : Fields → Option LlmStartupExtraction) (s : Option Orchestrator)
      (c : StartupCandidate) (k : String) (v : Value)
      → get k c.attributes ≡ some v
      → ¬ (v ≡ null)
      → KeepsStartup k v c (enrich_startup_with_llm reply clock repr validate s c).0.0
  unfolding enrich_startup_with_llm
  enrich_startup_with_llm-Keeps validate none c k v h ne = (refl, refl, refl, h)
  enrich_startup_with_llm-Keeps validate (some s) c k v h ne =
      with_startup-Keeps c
        (ask_if reply clock validate (description_of repr (get "description" c.attributes))
          (codes "Name: " ++ (c.entity_name ++ codes "\nDescription: ")) c.canonical_url s).0
        k v h ne

  -- If the call of `PricingModel` always raises an exception other than `ValueError`, as the call of a
  -- `typing.Literal` does, the enrichment of a product returns the candidate it was given and says that no
  -- model was used, whatever the providers answer.
  pub enrich_product_with_llm_uncaught :
      (call_pricing : Text → Result CallError Text)
      (validate : Fields → Option LlmProductExtraction) (s : Option Orchestrator)
      (c : ProductCandidate)
      → ((t : Text) → call_pricing t ≡ raise other_exception)
      → (enrich_product_with_llm reply clock repr call_pricing validate s c).0 ≡ (c, false)
  unfolding enrich_product_with_llm
  enrich_product_with_llm_uncaught call_pricing validate none c h = refl
  enrich_product_with_llm_uncaught call_pricing validate (some s) c h =
      with_product-uncaught call_pricing c
        (ask_if reply clock validate (description_of repr (get "description" c.attributes))
          (codes "Product: "
            ++ (c.product_name
                ++ (codes "\nStartup: " ++ (c.startup_name ++ codes "\nDescription: "))))
          c.canonical_url s).0
        h
