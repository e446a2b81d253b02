-- ===== src/Tests/Parsing.antt =====
-- A page with an image in its header, and one with a menu.
use ai_internship_demo_task.Prelude.{none, true, false, Option, All, List, [], ◌∷◌, ◌≡◌, refl}
use ai_internship_demo_task.Prelude.Dict.{contains}
use ai_internship_demo_task.Prelude.Text.{Text, codes}
use ai_internship_demo_task.Prelude.Json.{Value}
use ai_internship_demo_task.Parsing.FullText.{
  Call, start_tag, end_tag, data_text, Extractor, new_extractor, feed, is_boilerplate,
  any_boilerplate,
}
use ai_internship_demo_task.Parsing.FullText.Frames.{IsSameText}
use ai_internship_demo_task.Parsing.FullText.Buried.{is_buried, is_end_of, feed_buried}
use ai_internship_demo_task.Parsing.FullText.Regions.{
  Skips, calls_of, tag_node, text_node, node, no_nodes, Nodes, skip_boilerplate,
}

abbrev plain : Text → Text
plain t = t

abbrev no_loads : Text → Option Value
no_loads t = none

abbrev no_str : Value → Text
no_str v = []

-- After `<header><img>`.
abbrev in_header : Extractor
in_header = record new_extractor { tag_stack = "img" ∷ "header" ∷ [] }

abbrev page : List Call
page = end_tag "header" ∷ start_tag "p" [] ∷ data_text (codes "News.") ∷ end_tag "p" ∷ []

img_is_buried : is_buried "img" in_header.tag_stack ≡ true
unfolding is_buried any_boilerplate is_boilerplate contains
img_is_buried = refl

img_stays_open : All (λ (c : Call). is_end_of "img" c ≡ false) page
unfolding is_end_of
img_stays_open = (refl, (refl, (refl, (refl, tt))))

feed_buried_example : IsSameText in_header (feed plain no_loads no_str page in_header)
feed_buried_example =
    feed_buried plain no_loads no_str "img" page in_header img_is_buried img_stays_open

nav_is_boilerplate : is_boilerplate "nav" ≡ true
unfolding is_boilerplate contains
nav_is_boilerplate = refl

abbrev menu : Nodes
menu = node (tag_node "a" [] (node (text_node (codes "Home")) no_nodes)) no_nodes

skip_boilerplate_example :
    Skips plain no_loads no_str
      (calls_of (tag_node "nav" [] menu) (data_text (codes "News.") ∷ []))
      (data_text (codes "News.") ∷ [])
      new_extractor
skip_boilerplate_example =
    skip_boilerplate plain no_loads no_str "nav" [] menu (data_text (codes "News.") ∷ [])
      new_extractor nav_is_boilerplate
