-- ===== src/Extraction/Providers/Errors.antt =====
-- Which outcomes of a provider let the orchestrator go on to the next one.
use ai_internship_demo_task.Prelude.{
  ◌||◌, ◌==◌, Bool, true, false, Option, none, some, String, leb, ◌≡◌, refl, arith, Bool-cases, inl,
  inr,
}
use ai_internship_demo_task.Prelude.Result.{Result, ok, raise}
use ai_internship_demo_task.Prelude.Text.{Text}
use ai_internship_demo_task.Prelude.Json.{Value, null, bool, num, str, arr, obj, Fields}
use ai_internship_demo_task.Extraction.Orchestrator.{
  ExtractionResult, Failure, failed, should_fallback,
}
use ai_internship_demo_task.Extraction.Providers.{
  Provider, Outcome, unreachable, broken, reply, read_outcome, read_content, result_of,
  parse_json_object, content_of,
}

-- The service was not reached, or refused for the payload, for the rate, or for a fault of its own.
unfoldable pub may_fall_back : Outcome → Bool
may_fall_back unreachable = true
may_fall_back broken = false
may_fall_back (reply status body) = status == 413 || status == 429 || leb 500 status

-- What the orchestrator makes of a result: `expected` is whether it is to try the next provider.
abbrev pub Verdict : Bool → Result Failure ExtractionResult → Type 0
Verdict expected (ok r) = expected ≡ false
Verdict expected (raise e) = should_fallback (failed e) ≡ expected

result_of-Verdict :
    (loads : Text → Option Value) (p : Provider) (model : String) (body : Option Value) (s : Text)
    (found : Option Fields)
    → Verdict false (result_of loads p model body s found)
unfolding result_of should_fallback
result_of-Verdict loads p model body s none = refl
result_of-Verdict loads p model body s (some fs) = refl

read_content-Verdict :
    (loads : Text → Option Value) (p : Provider) (model : String) (body content : Option Value)
    → Verdict false (read_content loads p model body content)
unfolding read_content should_fallback
read_content-Verdict loads p model body none = refl
read_content-Verdict loads p model body (some (str s)) =
    result_of-Verdict loads p model body s (parse_json_object loads s)
read_content-Verdict loads p model body (some null) = refl
read_content-Verdict loads p model body (some (bool b)) = refl
read_content-Verdict loads p model body (some (num n)) = refl
read_content-Verdict loads p model body (some (arr vs)) = refl
read_content-Verdict loads p model body (some (obj fs)) = refl

-- For each of the three providers and whatever the service answers: the result is an error that lets the
-- orchestrator try the next provider if the service was not reached or answered with status 413, 429 or
-- from 500 on, and otherwise it is a result or an error that ends the extraction.
pub read_outcome-Verdict :
    (loads : Text → Option Value) (p : Provider) (model : String) (o : Outcome)
    → Verdict (may_fall_back o) (read_outcome loads p model o)
unfolding read_outcome should_fallback may_fall_back
read_outcome-Verdict loads p model unreachable = refl
read_outcome-Verdict loads p model broken = refl
read_outcome-Verdict loads p model (reply status body) = elim (Bool-cases (leb 400 status)) [
  | inl h ↦ rw h (ground arith)
  | inr h ↦
      let e : may_fall_back (reply status body) ≡ false = ground (arith, h) in
      rw (h, e) (read_content-Verdict loads p model body (content_of p body))
]
