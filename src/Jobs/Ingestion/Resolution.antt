-- ===== src/Jobs/Ingestion/Resolution.antt =====
-- What `_resolve_candidate` of src/jobs/startup_ingestion.py and of product_ingestion.py share, and the fields
-- that both give every record. A confidence is in the unit of the matcher.
use ai_internship_demo_task.Prelude.{Bool, Option, none, some, List, [], ◌∷◌, String, if◌then◌else◌}
use ai_internship_demo_task.Prelude.Text.{Text, codes, is_empty}
use ai_internship_demo_task.Prelude.Int.{pos}
use ai_internship_demo_task.Prelude.Json.{
  Value, bool, num, str, arr, element, no_elements, Fields, field, end, get, put,
}
use ai_internship_demo_task.Schemas.Common.{CanonicalRecord}
use ai_internship_demo_task.Storage.Objects.{RawDocument}
use ai_internship_demo_task.Entities.Aliases.{EntitySeed}
use ai_internship_demo_task.Entities.Matcher.{
  MatchResult, MatchStatus, auto_match, review, unresolved,
}
use ai_internship_demo_task.Jobs.Ingestion.{Mapping}

-- `if match.canonical_entity_id is not None: data["canonicalEntityId"] = ...`
unfoldable pub put_entity_id : Option EntitySeed → Fields → Fields
put_entity_id none fs = fs
put_entity_id (some e) fs = put "canonicalEntityId" (str e.entity_id) fs

-- The copy of a candidate's data with what the match adds; `key` is the one for the raw name.
unfoldable pub resolved_data : String → Text → MatchResult → Fields → Fields
resolved_data key raw_name m fs =
    put_entity_id m.entity
      (put "resolutionConfidence" (num (pos m.confidence)) (put key (str raw_name) fs))

-- The canonical name on an automatic match, if it is not empty.
unfoldable pub resolved_name : MatchStatus → Option EntitySeed → Text → Text
resolved_name auto_match (some e) raw_name =
    if is_empty e.canonical_name then raw_name else e.canonical_name
resolved_name auto_match none raw_name = raw_name
resolved_name review entity raw_name = raw_name
resolved_name unresolved entity raw_name = raw_name

unfoldable pub set_found : Option Value → String → Value → Fields → Fields
set_found none k v fs = put k v fs
set_found (some old) k v fs = fs

-- payload.setdefault(k, v)
unfoldable pub set_default : String → Value → Fields → Fields
set_default k v fs = set_found (get k fs) k v fs

unfoldable pub method_of : Bool → Text
method_of llm_used = if llm_used then codes "llm_augmented" else codes "deterministic"

-- What `_build_record` gives every record; `name` is that of the source.
unfoldable pub base_of : Text → Text → Text → Text → RawDocument → Bool → CanonicalRecord
base_of record_id name original_url canonical_url raw llm_used = record {
  record_id = record_id;
  schema_version = codes "1.0";
  source = record { name = name; url = original_url; canonical_url = canonical_url };
  collected_at = raw.retrieved_at;
  provenance = record {
    retrieved_at = raw.retrieved_at;
    content_hash = raw.content_hash;
    raw_document_id = raw.raw_document_id;
    extraction_method = method_of llm_used;
    extraction_metadata =
        field "raw_document_ids" (arr (element (str raw.raw_document_id) no_elements))
          (field "llm_used" (bool llm_used) end);
    validation_status = codes "VALID";
  };
}

-- `_append_mapping`: what it appends for a raw name.
unfoldable pub append_mapping :
    Option (Text → MatchResult) → Bool → Text → Text → Text → List Mapping
append_mapping none has_store source_id record_id raw_name = []
append_mapping (some match_name) has_store source_id record_id raw_name =
    if has_store
    then record { result = match_name raw_name; source = source_id; record_id = record_id } ∷ []
    else []
