-- ===== src/Parsing/FullText/Json.antt =====
-- `_parse_json_ld` of src/parsing/full_text.py: the dates and the authors that it appends. `str` of a JSON
-- value is a parameter.
use ai_internship_demo_task.Prelude.{◌++◌, Option, none, some, List, [], ◌∷◌, if◌then◌else◌}
use ai_internship_demo_task.Prelude.Text.{Text, strip, is_empty}
use ai_internship_demo_task.Prelude.Json.{Value, str, arr, obj, Elements, no_elements, element, get}

pub record Found : Type 0 where
  pub dates : List Text
  pub authors : List Text

abbrev pub nothing : Found
nothing = record { dates = []; authors = [] }

unfoldable pub both : Found → Found → Found
both a b = record { dates = a.dates ++ b.dates; authors = a.authors ++ b.authors }

-- A value of one of the three keys.
unfoldable pub date_of : Option Value → List Text
date_of (some (str s)) = if is_empty (strip s) then [] else strip s ∷ []
date_of _ = []

module _ (str_of : Value → Text) where
  unfoldable pub name_found : Option Value → List Text
  name_found none = []
  name_found (some v) = str_of v ∷ []

  unfoldable pub authors_of : Option Value → List Text
  authors_of (some (obj fs)) = name_found (get "name" fs)
  authors_of (some (str s)) = s ∷ []
  authors_of _ = []

  unfoldable pub node_found : Value → Found
  node_found (obj fs) = record {
    dates =
        date_of (get "datePublished" fs)
        ++ (date_of (get "dateCreated" fs) ++ date_of (get "dateModified" fs));
    authors = authors_of (get "author" fs);
  }
  node_found _ = nothing

  -- The loop over the nodes.
  unfoldable pub nodes_found : Elements → Found
  nodes_found no_elements = nothing
  nodes_found (element v vs) = both (node_found v) (nodes_found vs)

  -- The nodes of an item, from what it has under `@graph`.
  unfoldable pub graph_found : Option Value → Value → Found
  graph_found (some (arr nodes)) item = nodes_found nodes
  graph_found _ item = node_found item

  unfoldable pub item_found : Value → Found
  item_found (obj fs) = graph_found (get "@graph" fs) (obj fs)
  item_found _ = nothing

  -- The loop over the items.
  unfoldable pub items_found : Elements → Found
  items_found no_elements = nothing
  items_found (element v vs) = both (item_found v) (items_found vs)

  -- From the parsed text.
  unfoldable pub json_ld_found : Option Value → Found
  json_ld_found none = nothing
  json_ld_found (some (arr items)) = items_found items
  json_ld_found (some item) = item_found item
