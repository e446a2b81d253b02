-- ===== src/Entities/MappingStore.antt =====
-- `MappingStore` of src/entities/mapping_store.py: a file of JSON lines, to which each resolution is appended.
-- `dumps` is the JSON of an entry, `loads` the entry that a line is read as, `none` where `json.loads` or the
-- call of `MappingEntry` raises; instants are given as their text. Confidences are those of
-- Entities.Matcher.
pub mod Log
use ai_internship_demo_task.Prelude.{
  ℕ, Bool, true, false, Option, none, some, List, [], ◌∷◌, if◌then◌else◌,
}
use ai_internship_demo_task.Prelude.Text.{Text, codes, strip, splitlines, is_empty}
use ai_internship_demo_task.Storage.Local.{append_line}
use ai_internship_demo_task.Entities.Aliases.{EntitySeed}
use ai_internship_demo_task.Entities.Matcher.{
  MatchResult, MatchStatus, auto_match, review, unresolved, Method, exact, fuzzy, no_method,
}

pub record MappingEntry : Type 0 where
  pub raw_name : Text
  pub canonical_name : Option Text
  pub source : Text
  pub method : Text
  pub confidence : ℕ
  pub timestamp : Text
  pub record_id : Option Text
  pub status : Text

unfoldable pub canonical_name_of : Option EntitySeed → Option Text
canonical_name_of none = none
canonical_name_of (some e) = some e.canonical_name

unfoldable pub method_value : Method → Text
method_value exact = codes "exact"
method_value fuzzy = codes "fuzzy"
method_value no_method = codes "unresolved"

-- The values of `MatchStatus`.
unfoldable pub status_value : MatchStatus → Text
status_value auto_match = codes "AUTO_MATCH"
status_value review = codes "REVIEW"
status_value unresolved = codes "UNRESOLVED"

unfoldable pub entry_of : MatchResult → Text → Option Text → Text → MappingEntry
entry_of m source record_id timestamp = record {
  raw_name = m.raw_name;
  canonical_name = canonical_name_of m.entity;
  source = source;
  method = method_value m.method;
  confidence = m.confidence;
  timestamp = timestamp;
  record_id = record_id;
  status = status_value m.status;
}

-- entry ∷ rest, if both were read
unfoldable pub add_entry :
    Option MappingEntry → Option (List MappingEntry) → Option (List MappingEntry)
add_entry none rest = none
add_entry (some e) none = none
add_entry (some e) (some es) = some (e ∷ es)

module _ (dumps : MappingEntry → Text) (loads : Text → Option MappingEntry) where
  -- `append`, on the text of the file, if it exists.
  unfoldable pub append :
      MatchResult → Text → Option Text → Text → Option Text → MappingEntry × Option Text
  append m source record_id timestamp file =
      let entry = entry_of m source record_id timestamp in (entry, append_line (dumps entry) file)

  -- The loop over the lines; `none` where a line raises.
  unfoldable pub read_lines : List Text → Option (List MappingEntry)
  read_lines [] = some []
  read_lines (line ∷ lines) =
      let rest = read_lines lines in
      if is_empty (strip line) then rest else add_entry (loads line) rest

  unfoldable pub read : Option Text → Option (List MappingEntry)
  read none = some []
  read (some content) = read_lines (splitlines content)
