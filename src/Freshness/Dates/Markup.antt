-- ===== src/Freshness/Dates/Markup.antt =====
-- `_DateMarkupParser` of src/freshness/policies.py: the calls that `HTMLParser` makes on it, as steps of a
-- state machine, and the call of `select_date` on what it found.
-- Tags and the names of attributes are as the library gives them. `casefold` and the two regular
-- expressions are parameters.
use ai_internship_demo_task.Prelude.{
  ℕ, ◌++◌, Bool, true, false, ◌&&◌, Option, none, some, List, [], ◌∷◌, String, if◌then◌else◌,
}
use ai_internship_demo_task.Prelude.Result.{Result}
use ai_internship_demo_task.Prelude.Eq.{same, string_eq, nat_eq, list_eq}
use ai_internship_demo_task.Prelude.Dict.{lookup, insert, contains}
use ai_internship_demo_task.Prelude.Text.{Text, codes, strip, is_empty, join, concat}
use ai_internship_demo_task.Freshness.Policies.{
  Source, json_ld, meta, time, source_specific, rss, visible, relative, DateEvidence,
}
use ai_internship_demo_task.Freshness.Dates.{Readers, DateValue, DateError, select_from, value_of}

pub record Markup : Type 0 where
  pub in_json_ld : Option Text
  pub in_meta : Option Text
  pub in_time : Option Text
  pub in_source : Option Text
  pub in_visible : Option Text
  pub in_relative : Option Text
  pub script : Bool
  pub json_buffer : List Text
  pub visible_parts : List Text

abbrev pub empty : Markup
empty = record {
  in_json_ld = none;
  in_meta = none;
  in_time = none;
  in_source = none;
  in_visible = none;
  in_relative = none;
  script = false;
  json_buffer = [];
  visible_parts = [];
}

pub record Patterns : Type 0 where
  pub casefold : Text → Text
  -- `re.search` of a number of minutes, hours or days "ago"
  pub says_ago : Text → Bool
  -- the group of `re.search` of one of the three keys with a date
  pub published_in : Text → Option Text

-- What the library calls.
pub data Call : Type 0 where
  start_tag : String → List (String × Option Text) → Call
  data_text : Text → Call
  end_tag : String → Call

-- dict(attrs)
unfoldable pub dict_of :
    List (String × Option Text) → List (String × Option Text) → List (String × Option Text)
dict_of [] d = d
dict_of ((k, v) ∷ attrs) d = dict_of attrs (insert k v d)

-- attributes.get(name): a key without a value is None as well
unfoldable pub get_attribute : String → List (String × Option Text) → Option Text
get_attribute name d = elim (lookup name d) [ some v ↦ v | none ↦ none ]

-- a or b, where an empty text is false
unfoldable pub or_else : Option Text → Option Text → Option Text
or_else none b = b
or_else (some []) b = b
or_else (some (c ∷ s)) b = some (c ∷ s)

abbrev pub date_keys : List Text
date_keys =
    codes "article:published_time" ∷ codes "date" ∷ codes "pubdate" ∷ codes "datepublished" ∷ []

module _ (p : Patterns) where
  unfoldable pub is_date_key : Option Text → Bool
  is_date_key none = false
  is_date_key (some []) = false
  is_date_key (some (c ∷ s)) = contains date_keys (p.casefold (c ∷ s))

  unfoldable pub start_script : String → List (String × Option Text) → Markup → Markup
  start_script tag attributes m = elim (get_attribute "type" attributes) [
    | none ↦ m
    | some kind ↦
        if same tag "script" && same kind (codes "application/ld+json")
        then record m { script = true; json_buffer = [] }
        else m
  ]

  unfoldable pub start_meta : String → List (String × Option Text) → Markup → Markup
  start_meta tag attributes m =
      let key = or_else (get_attribute "property" attributes) (get_attribute "name" attributes) in
      if same tag "meta" && is_date_key key
      then record m { in_meta = get_attribute "content" attributes }
      else m

  unfoldable pub start_time : String → List (String × Option Text) → Markup → Markup
  start_time tag attributes m =
      if same tag "time" then record m { in_time = get_attribute "datetime" attributes } else m

  unfoldable pub handle_starttag : String → List (String × Option Text) → Markup → Markup
  handle_starttag tag attrs m =
      let attributes = dict_of attrs [] in
      start_time tag attributes (start_meta tag attributes (start_script tag attributes m))

  unfoldable pub handle_data : Text → Markup → Markup
  handle_data s m =
      if m.script
      then record m { json_buffer = m.json_buffer ++ s ∷ [] }
      else if is_empty (strip s)
      then m
      else if p.says_ago s
      then record m { in_relative = some (strip s) }
      else record m { visible_parts = m.visible_parts ++ strip s ∷ [] }

  -- The first test of `handle_endtag`.
  unfoldable pub end_script : String → Markup → Markup
  end_script tag m =
      if same tag "script" && m.script
      then elim (p.published_in (concat m.json_buffer)) [
        | some found ↦ record m { script = false; in_json_ld = some found }
        | none ↦ record m { script = false }
      ]
      else m

  unfoldable pub handle_endtag : String → Markup → Markup
  handle_endtag tag m =
      let m' = end_script tag m in
      record m' { in_visible = or_else (some (join (codes " ") m'.visible_parts)) none }

  unfoldable pub handle : Call → Markup → Markup
  handle (start_tag tag attrs) m = handle_starttag tag attrs m
  handle (data_text s) m = handle_data s m
  handle (end_tag tag) m = handle_endtag tag m

  -- `parser.feed(html)`, from the calls that the library makes.
  unfoldable pub feed : List Call → Markup → Markup
  feed [] m = m
  feed (call ∷ calls) m = feed calls (handle call m)

unfoldable pub candidates : Markup → DateValue → List (Source × DateValue)
candidates m rss_date =
    (json_ld, value_of m.in_json_ld)
    ∷ (meta, value_of m.in_meta)
    ∷ (time, value_of m.in_time)
    ∷ (source_specific, value_of m.in_source)
    ∷ (rss, rss_date)
    ∷ (visible, value_of m.in_visible)
    ∷ (relative, value_of m.in_relative)
    ∷ []

-- `select_date`, with the calls that the page makes; a page that is None makes none.
unfoldable pub select_date :
    Readers → Patterns → List Call → DateValue → ℕ → Result DateError DateEvidence
select_date r p calls rss_date reference =
    select_from r reference (candidates (feed p calls empty) rss_date)
