-- ===== src/Tests/Logging.antt =====
-- A mapping log with one resolution.
use ai_internship_demo_task.Prelude.{none, some, Option, [], ◌∷◌, ◌≡◌, refl}
use ai_internship_demo_task.Prelude.Text.{
  Text, codes, is_line_break, strip, lstrip, rstrip, is_space,
}
use ai_internship_demo_task.Entities.Matcher.{MatchResult, unresolved, no_method}
use ai_internship_demo_task.Entities.MappingStore.{MappingEntry, read}
use ai_internship_demo_task.Entities.MappingStore.Log.{
  Resolution, entry, entries, IsClean, append_all, read-append_all,
}

abbrev unknown : MatchResult
unknown = record {
  raw_name = codes "akme";
  entity = none;
  method = no_method;
  confidence = 0;
  status = unresolved;
}

abbrev resolution : Resolution
resolution = (unknown, codes "ycombinator", none, codes "2026-01-02")

abbrev dumps : MappingEntry → Text
dumps e = codes "{}"

abbrev loads : Text → Option MappingEntry
loads t = some (entry resolution)

resolution-IsClean : IsClean dumps loads (entry resolution)
unfolding is_line_break strip lstrip rstrip is_space
resolution-IsClean = record { unbroken = (refl, (refl, tt)); visible = refl; read_back = refl }

read-append_all_example :
    read dumps loads (append_all dumps loads (resolution ∷ resolution ∷ []) none)
    ≡ some (entries (resolution ∷ resolution ∷ []))
read-append_all_example =
    read-append_all dumps loads (resolution ∷ resolution ∷ [])
      (resolution-IsClean, (resolution-IsClean, tt))
