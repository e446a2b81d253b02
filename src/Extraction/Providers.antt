-- ===== src/Extraction/Providers.antt =====
-- The three providers of src/extraction/providers: groq.py, deepseek.py and gemini.py.
-- The HTTP client and the JSON parser are parameters: what the call of `client.post` comes to is an
-- `Outcome`, and `loads` is `none` where `json.loads` raises. The request's text and the client's
-- lifetime are not modelled.
pub mod Errors
pub mod Fences
use ai_internship_demo_task.Prelude.{
  ℕ, ◌||◌, ◌==◌, Bool, true, false, Option, none, some, List, [], ◌∷◌, ◌++◌, String, leb,
  if◌then◌else◌,
}
use ai_internship_demo_task.Prelude.Result.{Result, ok, raise}
use ai_internship_demo_task.Prelude.Eq.{same, nat_eq, list_eq, string_eq}
use ai_internship_demo_task.Prelude.Int.{ℤ}
use ai_internship_demo_task.Prelude.Text.{Text, codes, strip, is_empty}
use ai_internship_demo_task.Prelude.Json.{
  Value, null, bool, num, str, arr, obj, Elements, no_elements, element, Fields, get, bool_int,
}
use ai_internship_demo_task.Extraction.Orchestrator.{
  ExtractionResult, Failure, provider_error, other_error,
}

pub data Provider : Type 0 where
  groq deepseek gemini : Provider

abbrev pub name_of : Provider → String
name_of groq = "groq"
name_of deepseek = "deepseek"
name_of gemini = "gemini"

-- What `client.post` comes to: a timeout or a network error, another exception, or a response with its
-- status and its JSON body, `none` where `response.json()` raises.
pub data Outcome : Type 0 where
  unreachable : Outcome
  broken : Outcome
  reply : ℕ → Option Value → Outcome

-- value[key] and value[0], with `none` for each of the exceptions that the code catches
unfoldable pub at_key : String → Option Value → Option Value
at_key key (some (obj fields)) = get key fields
at_key key _ = none

unfoldable pub at_zero : Option Value → Option Value
at_zero (some (arr (element v vs))) = some v
at_zero (some (str (c ∷ s))) = some (str (c ∷ []))
at_zero _ = none

-- The place of the answer's text in a response.
unfoldable pub content_of : Provider → Option Value → Option Value
content_of groq v = at_key "content" (at_key "message" (at_zero (at_key "choices" v)))
content_of deepseek v = at_key "content" (at_key "message" (at_zero (at_key "choices" v)))
content_of gemini v =
    at_key "text" (at_zero (at_key "parts" (at_key "content" (at_zero (at_key "candidates" v)))))

-- text.removeprefix(prefix)
unfoldable pub strip_prefix : Text → Text → Option Text
strip_prefix [] s = some s
strip_prefix (p ∷ ps) [] = none
strip_prefix (p ∷ ps) (c ∷ s) = let rest = strip_prefix ps s in if p == c then rest else none

unfoldable pub remove_prefix : Text → Text → Text
remove_prefix p s = elim (strip_prefix p s) [ some rest ↦ rest | none ↦ s ]

-- text.removesuffix(suffix)
unfoldable pub remove_suffix : Text → Text → Text
remove_suffix p [] = []
remove_suffix p (c ∷ s) = let rest = c ∷ remove_suffix p s in if same (c ∷ s) p then [] else rest

abbrev pub fence : Text
fence = codes "```"

-- The first branch of `_parse_json_object`, on a stripped text.
unfoldable pub unfence : Text → Text
unfence s = elim (strip_prefix fence s) [
  | none ↦ s
  | some _ ↦ strip (remove_suffix fence (remove_prefix fence (remove_prefix (codes "```json") s)))
]

-- `_token_value`; a bool is an int.
unfoldable pub token_value : Option Value → String → Option ℤ
token_value usage key = elim (at_key key usage) [
  | some (num n) ↦ some n
  | some (bool b) ↦ some (bool_int b)
  | _ ↦ none
]

abbrev pub usage_key : Provider → String
usage_key gemini = "usageMetadata"
usage_key _ = "usage"

abbrev pub input_key : Provider → String
input_key gemini = "promptTokenCount"
input_key _ = "prompt_tokens"

abbrev pub output_key : Provider → String
output_key gemini = "candidatesTokenCount"
output_key _ = "completion_tokens"

-- `ProviderError` without a status, which is not retryable
abbrev pub invalid_response : Failure
invalid_response = provider_error none false

abbrev pub as_dict : Option Value → Option Fields
as_dict (some (obj fs)) = some fs
as_dict _ = none

module _ (loads : Text → Option Value) where
  -- `_parse_json_object`, with `none` for its `ValueError`
  unfoldable pub parse_json_object : Text → Option Fields
  parse_json_object value = as_dict (loads (unfence (strip value)))

  -- The `ExtractionResult` of `extract`, from the answer's text and its dict, `none` for a `ValueError`.
  unfoldable pub result_of :
      Provider → String → Option Value → Text → Option Fields → Result Failure ExtractionResult
  result_of p model payload raw_text none = raise invalid_response
  result_of p model payload raw_text (some fields) =
      let usage = at_key (usage_key p) payload in
      ok (record {
        provider = name_of p;
        model = model;
        fields = fields;
        raw_text = raw_text;
        input_tokens = token_value usage (input_key p);
        output_tokens = token_value usage (output_key p);
      })

  -- The end of `extract`, from the content of the answer. What is no text has no `strip`: that
  -- `AttributeError` is not among the exceptions that are caught.
  unfoldable pub read_content :
      Provider → String → Option Value → Option Value → Result Failure ExtractionResult
  read_content p model payload none = raise invalid_response
  read_content p model payload (some (str raw_text)) =
      result_of p model payload raw_text (parse_json_object raw_text)
  read_content p model payload (some null) = raise other_error
  read_content p model payload (some (bool _)) = raise other_error
  read_content p model payload (some (num _)) = raise other_error
  read_content p model payload (some (arr _)) = raise other_error
  read_content p model payload (some (obj _)) = raise other_error

  -- `extract` of each provider, from what the call of the service comes to.
  unfoldable pub read_outcome : Provider → String → Outcome → Result Failure ExtractionResult
  read_outcome p model unreachable = raise (provider_error none true)
  read_outcome p model broken = raise other_error
  read_outcome p model (reply status body) =
      if leb 400 status
      then raise (provider_error (some status) (status == 429 || leb 500 status))
      else read_content p model body (content_of p body)

  unfoldable pub groq_extract : String → Outcome → Result Failure ExtractionResult
  groq_extract = read_outcome groq

  unfoldable pub deepseek_extract : String → Outcome → Result Failure ExtractionResult
  deepseek_extract = read_outcome deepseek

  unfoldable pub gemini_extract : String → Outcome → Result Failure ExtractionResult
  gemini_extract = read_outcome gemini

-- The constructors' check of the settings.
unfoldable pub check_api_key : Text → Result (Unit {0}) (Unit {0})
check_api_key key = if is_empty key then raise tt else ok tt
