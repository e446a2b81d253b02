-- ===== src/Tests/Providing.antt =====
-- Answers of a provider: one with a status, and one in a fence.
use ai_internship_demo_task.Prelude.{none, some, Option, ◌≡◌, refl}
use ai_internship_demo_task.Prelude.Text.{Text, codes, strip, lstrip, rstrip, is_space}
use ai_internship_demo_task.Prelude.Json.{Value, obj, end}
use ai_internship_demo_task.Extraction.Providers.{
  groq, reply, read_outcome, parse_json_object, strip_prefix, fence,
}
use ai_internship_demo_task.Extraction.Providers.Errors.{
  Verdict, may_fall_back, read_outcome-Verdict,
}
use ai_internship_demo_task.Extraction.Providers.Fences.{fenced, parse_json_object-fenced}

abbrev loads : Text → Option Value
loads t = some (obj end)

read_outcome-Verdict_example :
    Verdict (may_fall_back (reply 503 none)) (read_outcome loads groq "llama" (reply 503 none))
read_outcome-Verdict_example = read_outcome-Verdict loads groq "llama" (reply 503 none)

not_fenced : strip_prefix fence (strip (codes " {} ")) ≡ none
unfolding strip lstrip rstrip is_space strip_prefix
not_fenced = refl

parse_json_object-fenced_example :
    parse_json_object loads (fenced (codes " {} ")) ≡ parse_json_object loads (codes " {} ")
parse_json_object-fenced_example = parse_json_object-fenced loads (codes " {} ") not_fenced
