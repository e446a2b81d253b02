-- ===== src/Crawlers/YCombinator.antt =====
-- `YCombinatorAdapter.parse` of src/crawlers/startup/ycombinator.py: the startups of a response, from its JSON or
-- from the JSON-LD of its HTML.
-- `canonicalize_url` (`none` where it raises), `str.lower`, `str` of a JSON value and `int` of four digits are
-- parameters, and so are the JSON of the body and the calls that `HTMLParser` makes for its HTML.
pub mod Items
pub mod Markup
pub mod Seen
pub mod Distinct
use ai_internship_demo_task.Prelude.{
  ℕ, zero, suc, ◌&&◌, ◌||◌, Bool, true, false, not, Option, none, some, List, [], ◌∷◌, ◌++◌, take,
  String, if◌then◌else◌,
}
use ai_internship_demo_task.Prelude.Eq.{same, nat_eq, list_eq}
use ai_internship_demo_task.Prelude.Dict.{contains}
use ai_internship_demo_task.Prelude.Result.{Result, ok, raise, ◌>>=◌}
use ai_internship_demo_task.Prelude.Int.{ℤ, pos, negsuc}
use ai_internship_demo_task.Prelude.Text.{Text, codes, strip, is_empty}
use ai_internship_demo_task.Prelude.Json.{
  Value, null, bool, num, str, arr, obj, Elements, no_elements, element, Fields, field, end, get,
}
use ai_internship_demo_task.Crawlers.Candidates.{StartupCandidate}
use ai_internship_demo_task.Parsing.FullText.{Call}
use ai_internship_demo_task.Crawlers.YCombinator.Markup.{feed, new_parser}
use ai_internship_demo_task.Crawlers.YCombinator.Items.{candidate_from_json_ld, is_truthy, Error}

-- `candidates` and `seen_urls`
pub record Found : Type 0 where
  pub candidates : List StartupCandidate
  pub seen : List Text

-- Whether a loop went on to its end, or an exception ended it.
pub data Ending : Type 0 where
  completed interrupted : Ending

-- a or b, where a missing key is `None`
unfoldable pub or_value : Option Value → Option Value → Option Value
or_value none b = b
or_value (some a) b = if is_truthy a then some a else b

-- int(team_size), if it is a number that is not negative
unfoldable pub team_size_of : Option Value → Value
team_size_of (some (num (pos n))) = num (pos n)
team_size_of (some (bool true)) = num (pos 1)
team_size_of (some (bool false)) = num (pos 0)
team_size_of _ = null

-- `value or None`
unfoldable pub or_null : Option Value → Value
or_null none = null
or_null (some v) = if is_truthy v then v else null

unfoldable pub take_elements : ℕ → Elements → Elements
take_elements zero vs = no_elements
take_elements (suc n) no_elements = no_elements
take_elements (suc n) (element v vs) = element v (take_elements n vs)

-- `desc[:10000] if desc else None`; `none` where the slice raises
unfoldable pub slice_of : Option Value → Option Value
slice_of none = some null
slice_of (some (str s)) = some (if is_empty s then null else str (take 10000 s))
slice_of (some (arr no_elements)) = some null
slice_of (some (arr (element v vs))) = some (arr (take_elements 10000 (element v vs)))
slice_of (some v) = if is_truthy v then none else some null

unfoldable pub hit_candidate : Fields → Text → Text → Text → Value → StartupCandidate
hit_candidate hit name website canonical desc = record {
  original_url = website;
  canonical_url = canonical;
  entity_name = strip name;
  attributes = field "description" desc (
      field "headquarters" (or_null (get "all_locations" hit)) (
        field "website" (str website) (
          field "employeeCount" (team_size_of (get "team_size" hit))
            (field "rawEntityName" (str (strip name)) end))));
}

unfoldable pub push : StartupCandidate → Found → Found
push c s = record s { candidates = s.candidates ++ c ∷ [] }

unfoldable pub see : Text → Found → Found
see url s = record s { seen = url ∷ s.seen }

-- The end of the loop's body, from the description on.
unfoldable pub add_hit : Fields → Text → Text → Text → Option Value → Found → Ending × Found
add_hit hit name website canonical none s = (interrupted, s)
add_hit hit name website canonical (some desc) s =
    (completed, push (hit_candidate hit name website canonical desc) s)

-- From the canonical URL on.
unfoldable pub with_canonical : Fields → Text → Text → Option Text → Found → Ending × Found
with_canonical hit name website none s = (completed, s)
with_canonical hit name website (some canonical) s =
    if contains s.seen canonical
    then (completed, s)
    else add_hit hit name website canonical
        (slice_of (or_value (get "long_description" hit) (get "one_liner" hit))) (see canonical s)

unfoldable pub or_default : Option Value → Value → Value
or_default none d = d
or_default (some v) d = v

unfoldable pub then_loop : Ending × Found → (Found → Ending × Found) → Ending × Found
then_loop (completed, s) f = f s
then_loop (interrupted, s) f = (interrupted, s)

module _ (canonicalize_url : Text → Option Text) (lower : Text → Text) (str_of : Value → Text)
    (int_of : Text → Option ℕ) where
  -- The URL that a hit without a website gets.
  unfoldable pub company_url : Fields → Text → Text
  company_url hit name =
      codes "https://www.ycombinator.com/companies/"
      ++ str_of (or_default (get "slug" hit) (str (lower name)))

  -- From the website on: what is no text is refused by `canonicalize_url`.
  unfoldable pub with_website : Fields → Text → Option Value → Found → Ending × Found
  with_website hit name (some (str website)) s =
      let url = if is_empty website then company_url hit name else website in
      with_canonical hit name url (canonicalize_url url) s
  with_website hit name (some v) s =
      if is_truthy v
      then (completed, s)
      else with_canonical hit name (company_url hit name) (canonicalize_url (company_url hit name))
          s
  with_website hit name none s =
      with_canonical hit name (company_url hit name) (canonicalize_url (company_url hit name)) s

  unfoldable pub with_name : Fields → Option Value → Found → Ending × Found
  with_name hit (some (str name)) s =
      if is_empty name then (completed, s) else with_website hit name (get "website" hit) s
  with_name hit _ s = (completed, s)

  -- The body of the first loop; a hit that is no dict has no `get`.
  unfoldable pub process_hit : Value → Found → Ending × Found
  process_hit (obj hit) s = with_name hit (get "name" hit) s
  process_hit _ s = (interrupted, s)

  unfoldable pub process_hits : Elements → Found → Ending × Found
  process_hits no_elements s = (completed, s)
  process_hits (element v vs) s = then_loop (process_hit v s) (process_hits vs)

  -- The value under `hits`: what is not iterable raises; a text or a dict has items that are no dicts.
  unfoldable pub hits_of : Option Value → Found → Ending × Found
  hits_of none s = (completed, s)
  hits_of (some (arr hits)) s = process_hits hits s
  hits_of (some (str [])) s = (completed, s)
  hits_of (some (obj end)) s = (completed, s)
  hits_of (some _) s = (interrupted, s)

  unfoldable pub parse_payload : Option Value → Found → Ending × Found
  parse_payload (some (obj fs)) s = hits_of (get "hits" fs) s
  parse_payload _ s = (completed, s)

  -- The body of the second loop, from the candidate on.
  unfoldable pub add_candidate : Option StartupCandidate → Found → Found
  add_candidate none s = s
  add_candidate (some c) s =
      if contains s.seen c.canonical_url then s else push c (see c.canonical_url s)

  unfoldable pub add_result : Result Error (Option StartupCandidate) → Found → Result Error Found
  add_result (raise e) s = raise e
  add_result (ok c) s = ok (add_candidate c s)

  unfoldable pub process_items : List Fields → Found → Result Error Found
  process_items [] s = ok s
  process_items (item ∷ items) s =
      add_result (candidate_from_json_ld canonicalize_url int_of item) s >>= process_items items

  -- The return within the `try`, if the hits gave candidates and no exception came.
  unfoldable pub parse_rest : List Fields → Ending × Found → Result Error Found
  parse_rest items (completed, s) = if is_empty s.candidates then process_items items s else ok s
  parse_rest items (interrupted, s) = process_items items s

  -- `parse`, on the JSON of the body and the calls that `HTMLParser` makes for it.
  unfoldable pub parse :
      (Text → Option Value) → Option Value → List Call → Result Error (List StartupCandidate)
  parse loads payload calls =
      parse_rest (feed loads calls new_parser).items
        (parse_payload payload (record { candidates = []; seen = [] }))
      >>= λ s. ok s.candidates
