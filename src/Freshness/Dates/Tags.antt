-- ===== src/Freshness/Dates/Tags.antt =====
-- Which dates of the tags of a page the parser of the dates is left with.
use ai_internship_demo_task.Prelude.{
  ◌&&◌, Option, none, some, List, [], ◌∷◌, String, ◌≡◌, refl, ap, ◌∙◌, arith, if◌then◌else◌,
  Bool-cases, Option-cases, inl, inr,
}
use ai_internship_demo_task.Prelude.Eq.{same, string_eq, list_eq, nat_eq}
use ai_internship_demo_task.Prelude.Text.{Text, codes, strip, is_empty, concat}
use ai_internship_demo_task.Freshness.Dates.Markup.{
  Markup, Patterns, Call, start_tag, data_text, end_tag, get_attribute, dict_of, or_else,
  is_date_key, start_script, start_meta, start_time, handle_starttag, handle_data, end_script,
  handle_endtag, handle, feed,
}

-- What a call says of a date: nothing, or a text that may be missing.
abbrev pub Says : Type 0
Says = Call → Option (Option Text)

-- What the last of the calls that say something says.
unfoldable pub last_said : Says → List Call → Option (Option Text)
last_said says [] = none
last_said says (call ∷ calls) = elim (last_said says calls) [
  | some date ↦ some date
  | none ↦ says call
]

abbrev pub said_or : Option (Option Text) → Option Text → Option Text
said_or none known = known
said_or (some date) known = date

-- A `meta` tag whose property, or else whose name, is one of the keys of a date says its content.
unfoldable pub meta_says : Patterns → Says
meta_says p (start_tag tag attrs) =
    let attributes = dict_of attrs [] in
    let key = or_else (get_attribute "property" attributes) (get_attribute "name" attributes) in
    if same tag "meta" && is_date_key p key then some (get_attribute "content" attributes) else none
meta_says p (data_text s) = none
meta_says p (end_tag tag) = none

-- A `time` tag says its `datetime`.
unfoldable pub time_says : Says
time_says (start_tag tag attrs) =
    if same tag "time" then some (get_attribute "datetime" (dict_of attrs [])) else none
time_says (data_text s) = none
time_says (end_tag tag) = none

-- The two fields of a state.
abbrev pub tag_dates : Markup → Option Text × Option Text
tag_dates m = (m.in_meta, m.in_time)

module _ (p : Patterns) where
  start_script-tag_dates :
      (tag : String) (d : List (String × Option Text)) (m : Markup)
      → tag_dates (start_script p tag d m) ≡ tag_dates m
  unfolding start_script
  start_script-tag_dates tag d m = elim (Option-cases (get_attribute "type" d)) [
    | inl e ↦ rw (start_script, e) refl
    | inr (kind, e) ↦
        rw (start_script, e)
          (elim (Bool-cases (same tag "script" && same kind (codes "application/ld+json"))) [
            | inl f ↦ rw f refl
            | inr f ↦ rw f refl
          ])
  ]

  handle_data-tag_dates : (s : Text) (m : Markup) → tag_dates (handle_data p s m) ≡ tag_dates m
  unfolding handle_data
  handle_data-tag_dates s m = elim (Bool-cases m.script) [
    | inl e ↦ rw e refl
    | inr e ↦ rw e (elim (Bool-cases (is_empty (strip s))) [
      | inl f ↦ rw f refl
      | inr f ↦ rw f (elim (Bool-cases (p.says_ago s)) [ inl g ↦ rw g refl | inr g ↦ rw g refl ])
    ])
  ]

  end_script-tag_dates : (tag : String) (m : Markup) → tag_dates (end_script p tag m) ≡ tag_dates m
  unfolding end_script
  end_script-tag_dates tag m = elim (Bool-cases (same tag "script" && m.script)) [
    | inl e ↦ rw e (elim (Option-cases (p.published_in (concat m.json_buffer))) [
      | inl f ↦ rw f refl
      | inr (found, f) ↦ rw f refl
    ])
    | inr e ↦ rw e refl
  ]

  handle_starttag-tag_dates :
      (tag : String) (attrs : List (String × Option Text)) (m : Markup)
      → tag_dates (handle_starttag p tag attrs m) ≡ (
        said_or (meta_says p (start_tag tag attrs)) m.in_meta,
        said_or (time_says (start_tag tag attrs)) m.in_time,
      )
  unfolding handle_starttag start_meta start_time meta_says time_says
  handle_starttag-tag_dates tag attrs m =
      let e = start_script-tag_dates tag (dict_of attrs []) m in ground (arith, e)

  handle-tag_dates :
      (call : Call) (m : Markup)
      → tag_dates (handle p call m)
        ≡ (said_or (meta_says p call) m.in_meta, said_or (time_says call) m.in_time)
  unfolding handle handle_endtag meta_says time_says
  handle-tag_dates (start_tag tag attrs) m = handle_starttag-tag_dates tag attrs m
  handle-tag_dates (data_text s) m = handle_data-tag_dates s m
  handle-tag_dates (end_tag tag) m = end_script-tag_dates tag m

  said_or-later :
      (later now : Option (Option Text)) (known : Option Text)
      → said_or later (said_or now known)
        ≡ said_or (elim later [ some date ↦ some date | none ↦ now ]) known
  said_or-later none now known = refl
  said_or-later (some date) now known = refl

  -- The parser is left with what the last `meta` tag with a date and the last `time` tag say.
  pub feed-tag_dates :
      (calls : List Call) (m : Markup)
      → tag_dates (feed p calls m) ≡ (
        said_or (last_said (meta_says p) calls) m.in_meta,
        said_or (last_said time_says calls) m.in_time,
      )
  unfolding feed last_said
  feed-tag_dates [] m = refl
  feed-tag_dates (call ∷ calls) m =
      let step = handle-tag_dates call m in
      feed-tag_dates calls (handle p call m)
      ∙ ap
          (λ (d : Option Text × Option Text).
            (said_or (last_said (meta_says p) calls) d.0, said_or (last_said time_says calls) d.1))
          step
      ∙ rw
          (
            said_or-later (last_said (meta_says p) calls) (meta_says p call) m.in_meta,
            said_or-later (last_said time_says calls) (time_says call) m.in_time,
          )
          refl
