-- ===== src/Parsing/FullText/Buried.antt =====
-- What becomes of the text after a tag that is opened inside boilerplate and never closed.
use ai_internship_demo_task.Prelude.{
  ◌&&◌, ◌||◌, Bool, true, false, Option, List, [], ◌∷◌, String, ◌≡◌, ap, ◌∙◌, arith, All,
}
use ai_internship_demo_task.Prelude.Eq.{same, string_eq}
use ai_internship_demo_task.Prelude.Text.{Text}
use ai_internship_demo_task.Prelude.Json.{Value}
use ai_internship_demo_task.Parsing.FullText.{
  Call, start_tag, end_tag, data_text, Extractor, handle, feed, pop_tag, any_boilerplate,
}
use ai_internship_demo_task.Parsing.FullText.Frames.{
  IsSameText, IsFramed-refl, IsSameText-trans, handle_starttag-IsFramed, handle_data-IsFramed,
  handle_endtag-IsFramed,
}

-- The tag stands on the stack above a tag of boilerplate.
unfoldable pub is_buried : String → List String → Bool
is_buried tag [] = false
is_buried tag (t ∷ stack) = (same t tag && any_boilerplate stack) || is_buried tag stack

unfoldable pub is_end_of : String → Call → Bool
is_end_of tag (end_tag t) = same t tag
is_end_of tag _ = false

-- A tag that is buried keeps all text out.
is_buried-any_boilerplate :
    (tag : String) (stack : List String) → is_buried tag stack ≡ true → any_boilerplate stack ≡ true
unfolding is_buried any_boilerplate
is_buried-any_boilerplate tag [] h = absurd (cc)
is_buried-any_boilerplate tag (t ∷ stack) h = ground (arith, h, is_buried-any_boilerplate tag stack)

-- An end tag of another name leaves it buried.
is_buried-pop_tag :
    (tag other : String) (stack : List String)
    → same other tag ≡ false
    → is_buried tag stack ≡ true
    → is_buried tag (pop_tag other stack) ≡ true
unfolding is_buried pop_tag
is_buried-pop_tag tag other [] ne h = h
is_buried-pop_tag tag other (t ∷ stack) ne h = ground (arith, h, ne, string_eq.beq_iff t other)

module _ (casefold : Text → Text) (loads : Text → Option Value) (str_of : Value → Text) where
  buried_push :
      (tag other : String) (stack : List String)
      → is_buried tag stack ≡ true
      → is_buried tag (other ∷ stack) ≡ true
  unfolding is_buried
  buried_push tag other stack h = ground (arith, h)

  -- One call, when a tag is buried that it does not close.
  handle-buried :
      (tag : String) (c : Call) (s : Extractor)
      → is_buried tag s.tag_stack ≡ true
      → is_end_of tag c ≡ false
      → IsSameText s (handle casefold loads str_of c s)
        × (is_buried tag (handle casefold loads str_of c s).tag_stack ≡ true)
  unfolding handle is_end_of
  handle-buried tag (start_tag other attrs) s h ne =
      let p = handle_starttag-IsFramed casefold other attrs s in
      (
        record {
          titles = p.text.titles;
          articles = p.text.articles;
          texts = p.text.texts;
          paragraphs = p.text.paragraphs;
        },
        ap (is_buried tag) p.stack ∙ buried_push tag other s.tag_stack h,
      )
  handle-buried tag (end_tag other) s h ne =
      let p = handle_endtag-IsFramed casefold loads str_of other s in
      (
        record {
          titles = p.text.titles;
          articles = p.text.articles;
          texts = p.text.texts;
          paragraphs = p.text.paragraphs;
        },
        ap (is_buried tag) p.stack ∙ is_buried-pop_tag tag other s.tag_stack ne h,
      )
  handle-buried tag (data_text text) s h ne =
      let p = handle_data-IsFramed casefold text s (is_buried-any_boilerplate tag s.tag_stack h) in
      (p.text, ap (is_buried tag) p.stack ∙ h)

  -- Once a tag stands on the stack above a tag of boilerplate, no call adds to the title, to the texts of
  -- the article and of the page or, but for white space, to the text of the paragraphs, until a tag of this
  -- name is closed. For a void element such as `img` within `header`, which
  -- has no end tag, the text of the whole rest of the page is dropped.
  pub feed_buried :
      (tag : String) (calls : List Call) (s : Extractor)
      → is_buried tag s.tag_stack ≡ true
      → All (λ (c : Call). is_end_of tag c ≡ false) calls
      → IsSameText s (feed casefold loads str_of calls s)
  unfolding feed
  feed_buried tag [] s h never = (IsFramed-refl s).text
  feed_buried tag (c ∷ calls) s h never =
      let (same_so_far, still) = handle-buried tag c s h never.0 in
      IsSameText-trans s (handle casefold loads str_of c s) _ same_so_far
        (feed_buried tag calls (handle casefold loads str_of c s) still never.1)
