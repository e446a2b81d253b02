-- ===== src/Crawlers/YCombinator/Markup.antt =====
-- `_JsonLdParser` of src/crawlers/startup/ycombinator.py: the calls that `HTMLParser` makes on it, as steps of a
-- state machine that gathers the items of JSON-LD. The calls are those of Parsing.FullText; `loads` is `none`
-- where `json.loads` raises.
use ai_internship_demo_task.Prelude.{
  Bool, true, false, ◌&&◌, Option, some, List, [], ◌∷◌, ◌++◌, String, if◌then◌else◌,
}
use ai_internship_demo_task.Prelude.Eq.{same, string_eq, nat_eq, list_eq}
use ai_internship_demo_task.Prelude.Dict.{lookup, insert}
use ai_internship_demo_task.Prelude.Text.{Text, codes, concat}
use ai_internship_demo_task.Prelude.Json.{
  Value, arr, obj, Elements, no_elements, element, Fields, get,
}
use ai_internship_demo_task.Parsing.FullText.{Call, start_tag, end_tag, data_text}

pub record Parser : Type 0 where
  pub items : List Fields
  pub in_json_ld : Bool
  pub buffer : List Text

-- `__init__`
abbrev pub new_parser : Parser
new_parser = record { items = []; in_json_ld = false; buffer = [] }

-- dict(attrs)
unfoldable pub dict_of :
    List (Text × Option Text) → List (Text × Option Text) → List (Text × Option Text)
dict_of [] d = d
dict_of ((k, v) ∷ attrs) d = dict_of attrs (insert k v d)

unfoldable pub is_json_ld : Option (Option Text) → Bool
is_json_ld (some (some t)) = same t (codes "application/ld+json")
is_json_ld _ = false

unfoldable pub handle_starttag : String → List (Text × Option Text) → Parser → Parser
handle_starttag tag attrs s =
    if same tag "script" && is_json_ld (lookup (codes "type") (dict_of attrs []))
    then record s { in_json_ld = true; buffer = [] }
    else s

unfoldable pub handle_data : Text → Parser → Parser
handle_data text s = if s.in_json_ld then record s { buffer = s.buffer ++ text ∷ [] } else s

unfoldable pub add_item : Value → List Fields → List Fields
add_item (obj fs) items = fs ∷ items
add_item _ items = items

-- The values that are dicts.
unfoldable pub dicts_of : Elements → List Fields
dicts_of no_elements = []
dicts_of (element v vs) = add_item v (dicts_of vs)

-- The values of a dict, from what it has under `@graph`.
unfoldable pub graph_of : Option Value → Fields → List Fields
graph_of (some (arr vs)) fs = dicts_of vs
graph_of _ fs = fs ∷ []

unfoldable pub items_of : Option Value → List Fields
items_of (some (arr vs)) = dicts_of vs
items_of (some (obj fs)) = graph_of (get "@graph" fs) fs
items_of _ = []

module _ (loads : Text → Option Value) where
  unfoldable pub handle_endtag : String → Parser → Parser
  handle_endtag tag s =
      if same tag "script" && s.in_json_ld
      then record s { in_json_ld = false; items = s.items ++ items_of (loads (concat s.buffer)) }
      else s

  unfoldable pub handle : Call → Parser → Parser
  handle (start_tag tag attrs) s = handle_starttag tag attrs s
  handle (end_tag tag) s = handle_endtag tag s
  handle (data_text text) s = handle_data text s

  -- `feed`, on the calls that the library makes.
  unfoldable pub feed : List Call → Parser → Parser
  feed [] s = s
  feed (c ∷ cs) s = feed cs (handle c s)
