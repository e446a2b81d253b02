-- ===== src/Parsing/FullText/Regions.antt =====
-- What the extractor makes of well nested markup.
use ai_internship_demo_task.Prelude.{true, Option, List, ◌∷◌, String, ◌≡◌, refl, ap, ◌∙◌, arith}
use ai_internship_demo_task.Prelude.Eq.{string_eq}
use ai_internship_demo_task.Prelude.Dict.{same_refl}
use ai_internship_demo_task.Prelude.Text.{Text}
use ai_internship_demo_task.Prelude.Json.{Value}
use ai_internship_demo_task.Parsing.FullText.{
  Call, start_tag, end_tag, data_text, Extractor, handle, feed, handle_starttag, handle_endtag,
  handle_data, pop_tag, any_boilerplate, is_boilerplate,
}
use ai_internship_demo_task.Parsing.FullText.Frames.{
  IsFramed, IsFramed-refl, IsSameText-trans, handle_starttag-IsFramed, handle_data-IsFramed,
  handle_endtag-IsFramed,
}

-- Markup in which each tag is closed.
mutual
  pub data Node : Type 0 where
    text_node : Text → Node
    tag_node : String → List (Text × Option Text) → Nodes → Node

  pub data Nodes : Type 0 where
    no_nodes : Nodes
    node : Node → Nodes → Nodes

-- The calls for it, before those of what follows.
abbrev mutual
  pub calls_of : Node → List Call → List Call
  calls_of (text_node t) rest = data_text t ∷ rest
  calls_of (tag_node tag attrs ns) rest = start_tag tag attrs ∷ calls_of_all ns (end_tag tag ∷ rest)

  pub calls_of_all : Nodes → List Call → List Call
  calls_of_all no_nodes rest = rest
  calls_of_all (node n ns) rest = calls_of n (calls_of_all ns rest)

pop_tag-top : (tag : String) (stack : List String) → pop_tag tag (tag ∷ stack) ≡ stack
unfolding pop_tag
pop_tag-top tag stack = rw (same_refl tag) refl

boilerplate_push :
    (tag : String) (stack : List String)
    → any_boilerplate stack ≡ true
    → any_boilerplate (tag ∷ stack) ≡ true
unfolding any_boilerplate
boilerplate_push tag stack h = ground (arith, h)

boilerplate_top :
    (tag : String) (stack : List String)
    → is_boilerplate tag ≡ true
    → any_boilerplate (tag ∷ stack) ≡ true
unfolding any_boilerplate
boilerplate_top tag stack h = ground (arith, h)

module _ (casefold : Text → Text) (loads : Text → Option Value) (str_of : Value → Text) where
  -- The extractor comes past the first calls with the same title, text and stack.
  abbrev pub Skips : List Call → List Call → Extractor → Type 0
  Skips calls rest s =
      (t : Extractor) × (feed casefold loads str_of calls s ≡ feed casefold loads str_of rest t)
      × IsFramed s t

  skip_data :
      (text : Text) (rest : List Call) (s : Extractor)
      → any_boilerplate s.tag_stack ≡ true
      → Skips (data_text text ∷ rest) rest s
  unfolding feed handle
  skip_data text rest s h =
      (handle_data casefold text s, refl, handle_data-IsFramed casefold text s h)

  -- An element is passed over if what it holds is.
  skip_element :
      (tag : String) (attrs : List (Text × Option Text)) (inner rest : List Call) (s : Extractor)
      → Skips inner (end_tag tag ∷ rest) (handle_starttag casefold tag attrs s)
      → Skips (start_tag tag attrs ∷ inner) rest s
  unfolding feed handle
  skip_element tag attrs inner rest s (t, e, f) =
      let p = handle_starttag-IsFramed casefold tag attrs s in
      let q = handle_endtag-IsFramed casefold loads str_of tag t in
      (
        handle_endtag casefold loads str_of tag t,
        e,
        record {
          text = record {
            titles = q.text.titles ∙ (f.text.titles ∙ p.text.titles);
            articles = q.text.articles ∙ (f.text.articles ∙ p.text.articles);
            texts = q.text.texts ∙ (f.text.texts ∙ p.text.texts);
            paragraphs = q.text.paragraphs ∙ (f.text.paragraphs ∙ p.text.paragraphs);
          };
          stack = q.stack ∙ (ap (pop_tag tag) (f.stack ∙ p.stack) ∙ pop_tag-top tag s.tag_stack);
        },
      )

  mutual
    skip_node :
        (n : Node) (rest : List Call) (s : Extractor)
        → any_boilerplate s.tag_stack ≡ true
        → Skips (calls_of n rest) rest s
    skip_node (text_node text) rest s h = skip_data text rest s h
    skip_node (tag_node tag attrs ns) rest s h =
        skip_element tag attrs (calls_of_all ns (end_tag tag ∷ rest)) rest s (
          skip_nodes ns (end_tag tag ∷ rest) (handle_starttag casefold tag attrs s) (
            ap any_boilerplate (handle_starttag-IsFramed casefold tag attrs s).stack
            ∙ boilerplate_push tag s.tag_stack h))

    skip_nodes :
        (ns : Nodes) (rest : List Call) (s : Extractor)
        → any_boilerplate s.tag_stack ≡ true
        → Skips (calls_of_all ns rest) rest s
    skip_nodes no_nodes rest s h = (s, refl, IsFramed-refl s)
    skip_nodes (node n ns) rest s h =
        let (t, e, f) = skip_node n (calls_of_all ns rest) s h in
        let (u, e', f') = skip_nodes ns rest t (ap any_boilerplate f.stack ∙ h) in
        (
          u,
          e ∙ e',
          record { text = IsSameText-trans s t u f.text f'.text; stack = f'.stack ∙ f.stack },
        )

  -- An element of boilerplate in which every tag is closed, however deep, is passed over: the extractor goes on
  -- with what follows from a state with the same title, the same texts of the article and of the page, the same text
  -- of the paragraphs but for white space, and the same stack of tags.
  pub skip_boilerplate :
      (tag : String) (attrs : List (Text × Option Text)) (ns : Nodes) (rest : List Call)
      (s : Extractor)
      → is_boilerplate tag ≡ true
      → Skips (calls_of (tag_node tag attrs ns) rest) rest s
  skip_boilerplate tag attrs ns rest s h =
      skip_element tag attrs (calls_of_all ns (end_tag tag ∷ rest)) rest s (
        skip_nodes ns (end_tag tag ∷ rest) (handle_starttag casefold tag attrs s) (
          ap any_boilerplate (handle_starttag-IsFramed casefold tag attrs s).stack
          ∙ boilerplate_top tag s.tag_stack h))
