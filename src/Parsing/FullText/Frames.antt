-- ===== src/Parsing/FullText/Frames.antt =====
-- What the handlers of the extractor leave as it is.
use ai_internship_demo_task.Prelude.{
  ◌++◌, ◌&&◌, ◌||◌, Bool, true, false, Option, some, List, [], ◌∷◌, String, ◌≡◌, refl, ◌∙◌,
  append-nil, if◌then◌else◌,
}
use ai_internship_demo_task.Prelude.Eq.{same, string_eq}
use ai_internship_demo_task.Prelude.Text.{
  Text, is_space, is_empty, strip, concat, concat-append, dense, dense-append,
}
use ai_internship_demo_task.Prelude.Json.{Value}
use ai_internship_demo_task.Parsing.FullText.{
  Extractor, handle_starttag, handle_endtag, handle_data, pop_tag, attr_dict, attribute, or_else,
  any_boilerplate, is_boilerplate, start_script, start_title, start_meta, meta_date, meta_author,
  start_time, start_article, start_paragraph, end_region, parse_json_ld,
}

-- Two states with the same title and the same text in each buffer from which the body is made: the buffers
-- of the article and of the whole page to the letter, that of the paragraphs up to white space, since
-- each end tag of a paragraph adds a line break to it.
pub record IsSameText (s t : Extractor) : Type 0 where
  pub titles : t.title ≡ s.title
  pub articles : t.article_buffer ≡ s.article_buffer
  pub texts : t.all_text_buffer ≡ s.all_text_buffer
  pub paragraphs : dense (concat t.paragraph_buffer) ≡ dense (concat s.paragraph_buffer)

-- The same with the same stack.
pub record IsFramed (s t : Extractor) : Type 0 where
  pub text : IsSameText s t
  pub stack : t.tag_stack ≡ s.tag_stack

framed :
    {s t : Extractor}
    → t.title ≡ s.title
    → t.article_buffer ≡ s.article_buffer
    → t.all_text_buffer ≡ s.all_text_buffer
    → dense (concat t.paragraph_buffer) ≡ dense (concat s.paragraph_buffer)
    → t.tag_stack ≡ s.tag_stack
    → IsFramed s t
framed p q r d e = record {
  text = record { titles = p; articles = q; texts = r; paragraphs = d };
  stack = e;
}

pub IsFramed-refl : (s : Extractor) → IsFramed s s
IsFramed-refl s = framed refl refl refl refl refl

pub IsSameText-trans : (s t u : Extractor) → IsSameText s t → IsSameText t u → IsSameText s u
IsSameText-trans s t u p q = record {
  titles = q.titles ∙ p.titles;
  articles = q.articles ∙ p.articles;
  texts = q.texts ∙ p.texts;
  paragraphs = q.paragraphs ∙ p.paragraphs;
}

IsFramed-trans : (s t u : Extractor) → IsFramed s t → IsFramed t u → IsFramed s u
IsFramed-trans s t u p q = record {
  text = IsSameText-trans s t u p.text q.text;
  stack = q.stack ∙ p.stack;
}

if-IsFramed :
    (b : Bool) (s t u : Extractor) → IsFramed s t → IsFramed s u → IsFramed s (if b then t else u)
if-IsFramed true s t u p q = p
if-IsFramed false s t u p q = q

-- A line break in the buffer of the paragraphs is white space.
dense-line_break :
    (buffer : List Text) → dense (concat (buffer ++ (10 ∷ []) ∷ [])) ≡ dense (concat buffer)
unfolding dense is_space
dense-line_break buffer = simp (concat-append, dense-append, append-nil)

module _ (casefold : Text → Text) where
  start_script-IsFramed :
      (tag : String) (d : List (Text × Text)) (s : Extractor)
      → IsFramed s (start_script casefold tag d s)
  unfolding start_script
  start_script-IsFramed tag d s =
      if-IsFramed _ s (record s { in_json_ld = true; json_ld_buffer = [] }) s
        (framed refl refl refl refl refl) (IsFramed-refl s)

  start_title-IsFramed : (tag : String) (s : Extractor) → IsFramed s (start_title casefold tag s)
  unfolding start_title
  start_title-IsFramed tag s =
      if-IsFramed _ s (record s { in_title = true }) s (framed refl refl refl refl refl)
        (IsFramed-refl s)

  meta_date-IsFramed :
      (prop content : Text) (s : Extractor) → IsFramed s (meta_date casefold prop content s)
  unfolding meta_date
  meta_date-IsFramed prop content s =
      if-IsFramed _ s (record s { meta_dates = s.meta_dates ++ (prop, strip content) ∷ [] }) s
        (framed refl refl refl refl refl) (IsFramed-refl s)

  meta_author-IsFramed :
      (prop content : Text) (s : Extractor) → IsFramed s (meta_author casefold prop content s)
  unfolding meta_author
  meta_author-IsFramed prop content s =
      if-IsFramed _ s (record s { author = some (strip content) }) s
        (framed refl refl refl refl refl) (IsFramed-refl s)

  start_meta-IsFramed :
      (tag : String) (d : List (Text × Text)) (s : Extractor)
      → IsFramed s (start_meta casefold tag d s)
  unfolding start_meta
  start_meta-IsFramed tag d s =
      if-IsFramed _ s _ s
        (IsFramed-trans s _ _ (meta_date-IsFramed _ _ s) (meta_author-IsFramed _ _ _))
        (IsFramed-refl s)

  start_time-IsFramed :
      (tag : String) (d : List (Text × Text)) (s : Extractor)
      → IsFramed s (start_time casefold tag d s)
  unfolding start_time
  start_time-IsFramed tag d s =
      if-IsFramed _ s
        (record s {
          time_tag_dates =
              s.time_tag_dates
              ++ strip
                  (or_else (attribute casefold "datetime" d) (attribute casefold "data-time" d))
                ∷ [];
        })
        s (framed refl refl refl refl refl) (IsFramed-refl s)

  start_article-IsFramed :
      (tag : String) (d : List (Text × Text)) (s : Extractor)
      → IsFramed s (start_article casefold tag d s)
  unfolding start_article
  start_article-IsFramed tag d s =
      if-IsFramed _ s (record s { in_article = true }) s (framed refl refl refl refl refl)
        (IsFramed-refl s)

  start_paragraph-IsFramed :
      (tag : String) (s : Extractor) → IsFramed s (start_paragraph casefold tag s)
  unfolding start_paragraph
  start_paragraph-IsFramed tag s =
      if-IsFramed _ s (record s { in_p = true }) s (framed refl refl refl refl refl)
        (IsFramed-refl s)

  -- A start tag is pushed and changes no text.
  pub handle_starttag-IsFramed :
      (tag : String) (attrs : List (Text × Option Text)) (s : Extractor)
      → IsFramed (record s { tag_stack = tag ∷ s.tag_stack }) (handle_starttag casefold tag attrs s)
  unfolding handle_starttag
  handle_starttag-IsFramed tag attrs s =
      let d = attr_dict casefold attrs [] in
      let s1 : Extractor = record s { tag_stack = tag ∷ s.tag_stack } in
      let s2 = start_title casefold tag s1 in
      let s3 = start_meta casefold tag d s2 in
      let s4 = start_time casefold tag d s3 in
      let s5 = start_article casefold tag d s4 in
      if-IsFramed (is_boilerplate tag) s1 (start_script casefold tag d s1)
        (start_paragraph casefold tag s5) (start_script-IsFramed tag d s1)
        (IsFramed-trans s1 s2 _ (start_title-IsFramed tag s1) (
          IsFramed-trans s2 s3 _ (start_meta-IsFramed tag d s2) (
            IsFramed-trans s3 s4 _ (start_time-IsFramed tag d s3) (
              IsFramed-trans s4 s5 _ (start_article-IsFramed tag d s4)
                (start_paragraph-IsFramed tag s5)))))

  -- Data changes no text while boilerplate is on the stack.
  pub handle_data-IsFramed :
      (text : Text) (s : Extractor)
      → any_boilerplate s.tag_stack ≡ true
      → IsFramed s (handle_data casefold text s)
  unfolding handle_data
  handle_data-IsFramed text s h = rw h (
      if-IsFramed (is_empty (strip text)) s s _ (IsFramed-refl s) (
        if-IsFramed s.in_json_ld s (record s { json_ld_buffer = s.json_ld_buffer ++ text ∷ [] }) s
          (framed refl refl refl refl refl) (IsFramed-refl s)))

  module _ (loads : Text → Option Value) (str_of : Value → Text) where
    -- An end tag pops its tag and changes no text.
    pub handle_endtag-IsFramed :
        (tag : String) (s : Extractor)
        → IsFramed
            (record s { tag_stack = pop_tag tag s.tag_stack })
            (handle_endtag casefold loads str_of tag s)
    unfolding handle_endtag end_region parse_json_ld
    handle_endtag-IsFramed tag s =
        let s1 : Extractor = record s { tag_stack = pop_tag tag s.tag_stack } in
        if-IsFramed (same tag "title") s1 (record s1 { in_title = false }) _
          (framed refl refl refl refl refl)
          (if-IsFramed (same tag "p") s1
            (record s1 { in_p = false; paragraph_buffer = s1.paragraph_buffer ++ (10 ∷ []) ∷ [] }) _
            (framed refl refl refl (dense-line_break s.paragraph_buffer) refl)
            (if-IsFramed (same tag "article" || same tag "main") s1
              (record s1 { in_article = false }) _ (framed refl refl refl refl refl)
              (if-IsFramed (same tag "script" && s1.in_json_ld) s1
                (parse_json_ld casefold loads str_of (concat s1.json_ld_buffer)
                  (record s1 { in_json_ld = false }))
                s1 (framed refl refl refl refl refl) (IsFramed-refl s1))))
