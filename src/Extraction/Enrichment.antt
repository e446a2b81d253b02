-- ===== src/Extraction/Enrichment.antt =====
-- The four enrichments of src/extraction/pipeline_extractor.py.
-- The orchestrator is that of Extraction.Orchestrator, with its parameters; the check of each answer by its
-- pydantic class is a parameter, and so are `repr` of a list and the call of `PricingModel`. A candidate's
-- `data` holds JSON values. The orchestrator that was used is returned beside each result.
pub mod Keeping
use ai_internship_demo_task.Prelude.{
  ℕ, zero, suc, ◌*◌, ◌||◌, ◌==◌, not, Bool, true, false, Option, none, some, List, [], ◌∷◌, ◌++◌,
  take, String, if◌then◌else◌,
}
use ai_internship_demo_task.Prelude.Eq.{same, nat_eq, list_eq}
use ai_internship_demo_task.Prelude.Result.{Result, ok, raise}
use ai_internship_demo_task.Prelude.Int.{ℤ, pos, int_eq}
use ai_internship_demo_task.Prelude.Text.{Text, codes, is_empty}
use ai_internship_demo_task.Prelude.Json.{
  Value, null, bool, num, str, arr, obj, Elements, no_elements, element, Fields, end, field, get,
  put,
}
use ai_internship_demo_task.Crawlers.Candidates.{
  JobCandidate, NewsCandidate, StartupCandidate, ProductCandidate,
}
use ai_internship_demo_task.Extraction.Orchestrator.{Failure, ExtractionResult, Error, extract}
use ai_internship_demo_task.Extraction.Orchestrator.State.{Orchestrator}

pub record LlmJobExtraction : Type 0 where
  pub company : Option Text
  pub is_remote : Bool
  pub role_family : Option Text

pub record LlmNewsExtraction : Type 0 where
  pub summary : Option Text
  pub category : Text
  pub primary_entity : Option Text

pub record LlmStartupExtraction : Type 0 where
  pub employee_count : Option ℤ
  pub headquarters : Option Text
  pub founded_year : Option ℤ

pub record LlmProductExtraction : Type 0 where
  pub pricing_model : Text
  pub startup_name : Option Text

-- What the call of a class raises.
pub data CallError : Type 0 where
  value_error other_exception : CallError

-- a or b, on a text that may be `None` and one that may not
unfoldable pub or_text : Option Text → Text → Text
or_text none b = b
or_text (some a) b = if is_empty a then b else a

-- a or b, on two texts that may be `None`
unfoldable pub or_option : Option Text → Option Text → Option Text
or_option none b = b
or_option (some a) b = if is_empty a then b else some a

unfoldable pub take_elements : ℕ → Elements → Elements
take_elements zero vs = no_elements
take_elements (suc n) no_elements = no_elements
take_elements (suc n) (element v vs) = element v (take_elements n vs)

-- `data["k"] = v` for a value that was extracted, where `data` has none or `None`
unfoldable pub fill_found : String → Value → Option Value → Fields → Fields
fill_found k v none fs = put k v fs
fill_found k v (some null) fs = put k v fs
fill_found k v (some _) fs = fs

unfoldable pub fill : String → Option Value → Fields → Fields
fill k none fs = fs
fill k (some v) fs = fill_found k v (get k fs) fs

unfoldable pub number : Option ℤ → Option Value
number none = none
number (some n) = some (num n)

unfoldable pub string : Option Text → Option Value
string none = none
string (some s) = some (str s)

-- The value of an extraction that did not raise.
unfoldable pub value_of :
    {V : Type 0} → Result Error (V × String × String) × Orchestrator → Option V × Orchestrator
value_of (ok (v, name, model), s) = (some v, s)
value_of (raise e, s) = (none, s)

unfoldable pub job_text : JobCandidate → Text
job_text c =
    codes "Title: "
    ++ (c.title
        ++ (codes "\nCompany: "
            ++ (c.company ++ (codes "\nDescription: " ++ take 2000 c.description))))

unfoldable pub news_text : NewsCandidate → Text
news_text c = codes "Title: " ++ (c.title ++ (codes "\nBody: " ++ take 2000 c.body))

unfoldable pub with_job : JobCandidate → Option LlmJobExtraction → JobCandidate
with_job c none = c
with_job c (some e) = record c {
  company = or_text e.company c.company;
  is_remote = e.is_remote || c.is_remote;
  role_family = or_option e.role_family c.role_family;
}

unfoldable pub with_news : NewsCandidate → Option LlmNewsExtraction → NewsCandidate
with_news c none = c
with_news c (some e) = record c { category = or_text (some e.category) c.category }

unfoldable pub with_startup :
    StartupCandidate → Option LlmStartupExtraction → StartupCandidate × Bool
with_startup c none = (c, false)
with_startup c (some e) = (
  record c {
    attributes = fill "foundedYear" (number e.founded_year) (
        fill "headquarters" (string e.headquarters)
          (fill "employeeCount" (number e.employee_count) c.attributes));
  },
  true,
)

-- `candidate.startup_name in ("Unknown", "", None)`
unfoldable pub is_unknown : Text → Bool
is_unknown name = same name (codes "Unknown") || is_empty name

unfoldable pub startup_name_of : Option Text → Text → Text
startup_name_of extracted name = if is_unknown name then or_text extracted name else name

-- The `try` around the call of `PricingModel`; `none` for an exception that it does not catch.
unfoldable pub pricing_of : Result CallError Text → Text → Option Text
pricing_of (ok pricing) old = some pricing
pricing_of (raise value_error) old = some old
pricing_of (raise other_exception) old = none

unfoldable pub with_pricing :
    ProductCandidate → LlmProductExtraction → Option Text → ProductCandidate × Bool
with_pricing c e none = (c, false)
with_pricing c e (some pricing) = (
  record c {
    startup_name = startup_name_of e.startup_name c.startup_name;
    pricing_model = pricing;
  },
  true,
)

module _ (repr : Elements → Text) where
  -- What the f-string has for `description[:2000]`, `description` being `data.get("description", "") or ""`;
  -- `none` where the slice raises
  unfoldable pub description_of : Option Value → Option Text
  description_of none = some []
  description_of (some null) = some []
  description_of (some (bool b)) = if b then none else some []
  description_of (some (num n)) = if int_eq n (pos 0) then some [] else none
  description_of (some (str s)) = some (take 2000 s)
  description_of (some (arr no_elements)) = some []
  description_of (some (arr (element v vs))) = some (repr (take_elements 2000 (element v vs)))
  description_of (some (obj end)) = some []
  description_of (some (obj (field k v fs))) = none

module _ (call_pricing : Text → Result CallError Text) where
  unfoldable pub with_product :
      ProductCandidate → Option LlmProductExtraction → ProductCandidate × Bool
  with_product c none = (c, false)
  with_product c (some e) =
      with_pricing c e (pricing_of (call_pricing e.pricing_model) c.pricing_model)

module _ (reply : String → ℕ → Text → Result Failure ExtractionResult) (clock : ℕ → ℕ) where
  -- `orchestrator.extract` with its exceptions caught; fuel of twice the chunk target is enough.
  unfoldable pub ask :
      {V : Type 0} → (Fields → Option V) → Text → Text → Orchestrator → Option V × Orchestrator
  ask validate text source s =
      value_of (extract reply clock validate (2 * s.chunk_target) text source s)

  -- The same from a text that may have raised before.
  unfoldable pub ask_if :
      {V : Type 0}
      → (Fields → Option V)
      → Option Text
      → Text
      → Text
      → Orchestrator
      → Option V × Orchestrator
  ask_if validate none prefix source s = (none, s)
  ask_if validate (some text) prefix source s = ask validate (prefix ++ text) source s

  unfoldable pub enrich_job_with_llm :
      (Fields → Option LlmJobExtraction)
      → Option Orchestrator
      → JobCandidate
      → JobCandidate × Option Orchestrator
  enrich_job_with_llm validate none c = (c, none)
  enrich_job_with_llm validate (some s) c =
      let (answer, s') = ask validate (job_text c) c.canonical_url s in (with_job c answer, some s')

  unfoldable pub enrich_news_with_llm :
      (Fields → Option LlmNewsExtraction)
      → Option Orchestrator
      → NewsCandidate
      → NewsCandidate × Option Orchestrator
  enrich_news_with_llm validate none c = (c, none)
  enrich_news_with_llm validate (some s) c =
      let (answer, s') = ask validate (news_text c) c.canonical_url s in
      (with_news c answer, some s')

  module _ (repr : Elements → Text) where
    unfoldable pub enrich_startup_with_llm :
        (Fields → Option LlmStartupExtraction)
        → Option Orchestrator
        → StartupCandidate
        → (StartupCandidate × Bool) × Option Orchestrator
    enrich_startup_with_llm validate none c = ((c, false), none)
    enrich_startup_with_llm validate (some s) c =
        let prefix = codes "Name: " ++ (c.entity_name ++ codes "\nDescription: ") in
        let text = description_of repr (get "description" c.attributes) in
        let (answer, s') = ask_if validate text prefix c.canonical_url s in
        (with_startup c answer, some s')

    unfoldable pub enrich_product_with_llm :
        (Text → Result CallError Text)
        → (Fields → Option LlmProductExtraction)
        → Option Orchestrator
        → ProductCandidate
        → (ProductCandidate × Bool) × Option Orchestrator
    enrich_product_with_llm call_pricing validate none c = ((c, false), none)
    enrich_product_with_llm call_pricing validate (some s) c =
        let prefix =
          codes "Product: "
          ++ (c.product_name
              ++ (codes "\nStartup: " ++ (c.startup_name ++ codes "\nDescription: "))) in
        let text = description_of repr (get "description" c.attributes) in
        let (answer, s') = ask_if validate text prefix c.canonical_url s in
        (with_product call_pricing c answer, some s')
