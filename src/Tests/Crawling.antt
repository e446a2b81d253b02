-- ===== src/Tests/Crawling.antt =====
-- A page of the YC directory with one startup twice, and the batches of an archive.
use ai_internship_demo_task.Prelude.{ℕ, true, none, some, Option, List, [], ◌∷◌, ◌≡◌, refl, arith}
use ai_internship_demo_task.Prelude.Text.{Text, codes}
use ai_internship_demo_task.Prelude.Json.{
  Value, str, arr, obj, no_elements, element, Fields, field, end,
}
use ai_internship_demo_task.Crawlers.PapersWithCode.{Adapter, discover}
use ai_internship_demo_task.Crawlers.PapersWithCode.Batches.{Covers, discover-Covers}
use ai_internship_demo_task.Prelude.Dict.{lookup, insert}
use ai_internship_demo_task.Parsing.FullText.{Call, start_tag, end_tag, data_text}
use ai_internship_demo_task.Crawlers.YCombinator.Markup.{
  feed, new_parser, handle, handle_starttag, handle_data, handle_endtag, dict_of, is_json_ld,
  items_of, dicts_of, add_item,
}
use ai_internship_demo_task.Crawlers.YCombinator
use ai_internship_demo_task.Crawlers.YCombinator.Distinct.{AreDistinct, parse-AreDistinct}

abbrev some_text : Text → Option Text
some_text t = some t

abbrev plain : Text → Text
plain t = t

abbrev no_str : Value → Text
no_str v = codes "acme"

abbrev no_int : Text → Option ℕ
no_int t = none

abbrev acme : Fields
acme = field "name" (str (codes "Acme")) (field "website" (str (codes "https://acme.example")) end)

abbrev twice : Value
twice = obj (field "hits" (arr (element (obj acme) (element (obj acme) no_elements))) end)

abbrev item : Fields
item =
    field "@type" (str (codes "Organization"))
      (field "url" (str (codes "https://acme.example")) acme)

-- A script of JSON-LD with the startup and a dict without a type.
abbrev loads : Text → Option Value
loads t = some (arr (element (obj item) (element (obj acme) no_elements)))

abbrev calls : List Call
calls =
    start_tag "script" ((codes "type", some (codes "application/ld+json")) ∷ [])
    ∷ data_text (codes "[]")
    ∷ end_tag "script"
    ∷ []

gathered : (feed loads calls new_parser).items ≡ item ∷ acme ∷ []
unfolding feed handle handle_starttag handle_data handle_endtag dict_of is_json_ld items_of dicts_of
    add_item lookup insert
gathered = refl

parse-AreDistinct_example :
    AreDistinct some_text plain no_str no_int
      (YCombinator.parse some_text plain no_str no_int loads (some twice) calls)
parse-AreDistinct_example = parse-AreDistinct some_text plain no_str no_int loads (some twice) calls

abbrev adapter : Adapter
adapter = record { batch_size = 100; max_records = 250; require_official = true }

discover-Covers_example : Covers 100 0 250 (discover adapter)
discover-Covers_example = discover-Covers adapter (omega arith)
