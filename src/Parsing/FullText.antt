-- ===== src/Parsing/FullText.antt =====
-- `_HTMLContentExtractor` of src/parsing/full_text.py: the calls that `HTMLParser` makes on it, as steps of a
-- state machine. Tags and attribute names are as the library gives them; an empty element written `<br/>` is
-- a start and an end. `casefold`, `json.loads` (`none` where it raises) and `str` of a JSON value are
-- parameters. The attribute `_current_tag` is never read and left out.
pub mod Json
pub mod Content
pub mod Frames
pub mod Regions
pub mod Buried
use ai_internship_demo_task.Prelude.{
  ℕ, ◌++◌, ◌&&◌, ◌||◌, Bool, true, false, not, Option, none, some, List, [], ◌∷◌, String, leb,
  length, if◌then◌else◌,
}
use ai_internship_demo_task.Prelude.Eq.{same, string_eq, nat_eq, list_eq}
use ai_internship_demo_task.Prelude.Dict.{lookup, insert, contains}
use ai_internship_demo_task.Prelude.Text.{Text, codes, strip, is_empty, join, concat}
use ai_internship_demo_task.Prelude.Json.{Value}
use ai_internship_demo_task.Freshness.Dedupe.{words_from}
use ai_internship_demo_task.Fetch.Client.{is_part}
use ai_internship_demo_task.Parsing.FullText.Json.{Found, json_ld_found}

abbrev pub date_meta_keys : List Text
date_meta_keys =
    codes "article:published_time"
    ∷ codes "og:published_time"
    ∷ codes "pubdate"
    ∷ codes "publishdate"
    ∷ codes "date"
    ∷ codes "dc.date"
    ∷ codes "dc.date.issued"
    ∷ codes "parsely-pub-date"
    ∷ codes "sailthru.date"
    ∷ []

abbrev pub boilerplate_tags : List String
boilerplate_tags =
    "script" ∷ "style" ∷ "nav" ∷ "header" ∷ "footer" ∷ "aside" ∷ "noscript" ∷ "svg" ∷ "form"
    ∷ "button" ∷ []

unfoldable pub is_boilerplate : String → Bool
is_boilerplate tag = contains boilerplate_tags tag

-- What the library calls.
pub data Call : Type 0 where
  start_tag : String → List (Text × Option Text) → Call
  end_tag : String → Call
  data_text : Text → Call

pub record Extractor : Type 0 where
  pub title : Option Text
  pub author : Option Text
  pub meta_dates : List (Text × Text)
  pub json_ld_dates : List Text
  pub json_ld_authors : List Text
  pub time_tag_dates : List Text
  -- the last tag first
  pub tag_stack : List String
  pub in_title : Bool
  pub in_json_ld : Bool
  pub json_ld_buffer : List Text
  pub article_buffer : List Text
  pub paragraph_buffer : List Text
  pub all_text_buffer : List Text
  pub in_article : Bool
  pub in_p : Bool

-- `__init__`
abbrev pub new_extractor : Extractor
new_extractor = record {
  title = none;
  author = none;
  meta_dates = [];
  json_ld_dates = [];
  json_ld_authors = [];
  time_tag_dates = [];
  tag_stack = [];
  in_title = false;
  in_json_ld = false;
  json_ld_buffer = [];
  article_buffer = [];
  paragraph_buffer = [];
  all_text_buffer = [];
  in_article = false;
  in_p = false;
}

-- `not value`, on a text that may be `None`
unfoldable pub is_missing : Option Text → Bool
is_missing none = true
is_missing (some s) = is_empty s

-- value or ""
unfoldable pub or_empty : Option Text → Text
or_empty none = []
or_empty (some s) = s

-- a or b
unfoldable pub or_else : Text → Text → Text
or_else a b = if is_empty a then b else a

-- " ".join(s.split())
unfoldable pub squeeze : Text → Text
squeeze s = join (codes " ") (words_from [] s)

-- What an end tag leaves of the stack.
unfoldable pub pop_tag : String → List String → List String
pop_tag tag [] = []
pop_tag tag (t ∷ stack) = if same t tag then stack else t ∷ stack

unfoldable pub any_boilerplate : List String → Bool
any_boilerplate [] = false
any_boilerplate (t ∷ stack) = is_boilerplate t || any_boilerplate stack

module _ (casefold : Text → Text) where
  -- {k.casefold(): (v or "") for k, v in attrs}, into a dict
  unfoldable pub attr_dict : List (Text × Option Text) → List (Text × Text) → List (Text × Text)
  attr_dict [] d = d
  attr_dict ((k, v) ∷ attrs) d = attr_dict attrs (insert (casefold k) (or_empty v) d)

  -- d.get(k, ""), which is also `d.get(k) or ""`
  unfoldable pub attribute : String → List (Text × Text) → Text
  attribute k d = or_empty (lookup (codes k) d)

  unfoldable pub start_script : String → List (Text × Text) → Extractor → Extractor
  start_script tag d s =
      if same tag "script" && same (attribute "type" d) (codes "application/ld+json")
      then record s { in_json_ld = true; json_ld_buffer = [] }
      else s

  unfoldable pub start_title : String → Extractor → Extractor
  start_title tag s =
      if same tag "title" && is_missing s.title then record s { in_title = true } else s

  -- The date and the author of a `meta` tag, from its key and its content.
  unfoldable pub meta_date : Text → Text → Extractor → Extractor
  meta_date prop content s =
      if contains date_meta_keys prop && not (is_empty content)
      then record s { meta_dates = s.meta_dates ++ (prop, strip content) ∷ [] }
      else s

  unfoldable pub meta_author : Text → Text → Extractor → Extractor
  meta_author prop content s =
      if (same prop (codes "author") || same prop (codes "article:author"))
        && not (is_empty content)
        && is_missing s.author
      then record s { author = some (strip content) }
      else s

  unfoldable pub start_meta : String → List (Text × Text) → Extractor → Extractor
  start_meta tag d s =
      let prop = casefold (or_else (attribute "property" d) (attribute "name" d)) in
      let content = attribute "content" d in
      if same tag "meta" then meta_author prop content (meta_date prop content s) else s

  unfoldable pub start_time : String → List (Text × Text) → Extractor → Extractor
  start_time tag d s =
      let found = or_else (attribute "datetime" d) (attribute "data-time" d) in
      if same tag "time" && not (is_empty found)
      then record s { time_tag_dates = s.time_tag_dates ++ strip found ∷ [] }
      else s

  unfoldable pub start_article : String → List (Text × Text) → Extractor → Extractor
  start_article tag d s =
      if same tag "article"
        || same tag "main"
        || is_part (codes "article") (casefold (attribute "class" d))
      then record s { in_article = true }
      else s

  unfoldable pub start_paragraph : String → Extractor → Extractor
  start_paragraph tag s = if same tag "p" then record s { in_p = true } else s

  unfoldable pub handle_starttag : String → List (Text × Option Text) → Extractor → Extractor
  handle_starttag tag attrs s =
      let d = attr_dict attrs [] in
      let s' = record s { tag_stack = tag ∷ s.tag_stack } in
      if is_boilerplate tag
      then start_script tag d s'
      else start_paragraph tag
          (start_article tag d (start_time tag d (start_meta tag d (start_title tag s'))))

  module _ (loads : Text → Option Value) (str_of : Value → Text) where
    -- `_parse_json_ld`
    unfoldable pub parse_json_ld : Text → Extractor → Extractor
    parse_json_ld raw s =
        let found = json_ld_found str_of (loads raw) in
        record s {
          json_ld_dates = s.json_ld_dates ++ found.dates;
          json_ld_authors = s.json_ld_authors ++ found.authors;
        }

    -- The end of `handle_endtag`.
    unfoldable pub end_region : String → Extractor → Extractor
    end_region tag s =
        if same tag "title"
        then record s { in_title = false }
        else if same tag "p"
        then record s { in_p = false; paragraph_buffer = s.paragraph_buffer ++ (10 ∷ []) ∷ [] }
        else if same tag "article" || same tag "main"
        then record s { in_article = false }
        else if same tag "script" && s.in_json_ld
        then parse_json_ld (concat s.json_ld_buffer) (record s { in_json_ld = false })
        else s

    unfoldable pub handle_endtag : String → Extractor → Extractor
    handle_endtag tag s = end_region tag (record s { tag_stack = pop_tag tag s.tag_stack })

  -- The end of `handle_data`, for a text that is part of the page.
  unfoldable pub add_text : Text → Extractor → Extractor
  add_text text s = record s {
    article_buffer = if s.in_article then s.article_buffer ++ text ∷ [] else s.article_buffer;
    paragraph_buffer = if s.in_p then s.paragraph_buffer ++ text ∷ [] else s.paragraph_buffer;
    all_text_buffer = s.all_text_buffer ++ text ∷ [];
  }

  unfoldable pub handle_data : Text → Extractor → Extractor
  handle_data text s =
      if is_empty (strip text)
      then s
      else if s.in_json_ld
      then record s { json_ld_buffer = s.json_ld_buffer ++ text ∷ [] }
      else if any_boilerplate s.tag_stack
      then s
      else if s.in_title && is_missing s.title
      then record s { title = some (squeeze text) }
      else add_text text s

  module _ (loads : Text → Option Value) (str_of : Value → Text) where
    unfoldable pub handle : Call → Extractor → Extractor
    handle (start_tag tag attrs) s = handle_starttag tag attrs s
    handle (end_tag tag) s = handle_endtag loads str_of tag s
    handle (data_text text) s = handle_data text s

    -- `feed`, on the calls that the library makes.
    unfoldable pub feed : List Call → Extractor → Extractor
    feed [] s = s
    feed (c ∷ cs) s = feed cs (handle c s)

unfoldable pub get_body_text : Extractor → Text
get_body_text s =
    let article = squeeze (concat s.article_buffer) in
    let paragraphs = squeeze (concat s.paragraph_buffer) in
    if leb 150 (length article)
    then article
    else if leb 150 (length paragraphs)
    then paragraphs
    else squeeze (concat s.all_text_buffer)
