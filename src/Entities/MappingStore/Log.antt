-- ===== src/Entities/MappingStore/Log.antt =====
-- What the mapping log is read back as.
use ai_internship_demo_task.Prelude.{
  ℕ, false, Option, none, some, List, [], ◌∷◌, ◌++◌, ◌≡◌, refl, sym, ap, ◌∙◌, All, append-nil,
  append_assoc,
}
use ai_internship_demo_task.Prelude.Text.{Text, is_line_break, splitlines, strip, is_empty}
use ai_internship_demo_task.Storage.Local.{append_line}
use ai_internship_demo_task.Storage.Local.Lines.{lines_from-line, text_of, text_of-snoc}
use ai_internship_demo_task.Storage.Local.Reading.{no_text}
use ai_internship_demo_task.Entities.Matcher.{MatchResult}
use ai_internship_demo_task.Entities.MappingStore.{
  MappingEntry, entry_of, add_entry, append, read_lines, read,
}

-- A resolution that is appended: its match, its source, its record and its instant.
abbrev pub Resolution : Type 0
Resolution = MatchResult × Text × Option Text × Text

abbrev pub entry : Resolution → MappingEntry
entry (m, source, record_id, timestamp) = entry_of m source record_id timestamp

abbrev pub entries : List Resolution → List MappingEntry
entries [] = []
entries (r ∷ rs) = entry r ∷ entries rs

-- The JSON of an entry is one line that is not blank, and is read back as the entry.
pub record IsClean (dumps : MappingEntry → Text) (loads : Text → Option MappingEntry)
    (e : MappingEntry) : Type 0 where
  pub unbroken : All (λ (c : ℕ). is_line_break c ≡ false) (dumps e)
  pub visible : is_empty (strip (dumps e)) ≡ false
  pub read_back : loads (dumps e) ≡ some e

module _ (dumps : MappingEntry → Text) (loads : Text → Option MappingEntry) where
  -- The file after the resolutions, one after the other.
  unfoldable pub append_all : List Resolution → Option Text → Option Text
  append_all [] file = file
  append_all ((m, source, record_id, timestamp) ∷ rs) file =
      append_all rs (append dumps loads m source record_id timestamp file).1

  read_lines-text_of :
      (es : List MappingEntry)
      → All (IsClean dumps loads) es
      → read_lines dumps loads (splitlines (text_of dumps es)) ≡ some es
  unfolding splitlines read_lines add_entry
  read_lines-text_of [] h = refl
  read_lines-text_of (e ∷ es) h =
      rw
        (
          lines_from-line [] (dumps e) (text_of dumps es) h.0.unbroken,
          h.0.visible,
          h.0.read_back,
          read_lines-text_of es h.1,
        )
        refl

  abbrev content_of : Option Text → Text
  content_of none = []
  content_of (some s) = s

  append_line-content :
      (line : Text) (file : Option Text)
      → append_line line file ≡ some (content_of file ++ (line ++ 10 ∷ []))
  unfolding append_line
  append_line-content line none = refl
  append_line-content line (some s) = refl

  -- The file has the lines of the entries `es`, and none if there are none.
  append_all-content :
      (rs : List Resolution) (es : List MappingEntry) (file : Option Text)
      → content_of file ≡ text_of dumps es
      → content_of (append_all rs file) ≡ text_of dumps (es ++ entries rs)
  unfolding append_all append
  append_all-content [] es file h = h ∙ ap (text_of dumps) (sym (append-nil es))
  append_all-content ((m, source, record_id, timestamp) ∷ rs) es file h =
      let e = entry_of m source record_id timestamp in
      append_all-content rs (es ++ e ∷ []) (append_line (dumps e) file) (
        ap content_of (append_line-content (dumps e) file)
        ∙ (ap (λ (s : Text). s ++ (dumps e ++ 10 ∷ [])) h ∙ sym (text_of-snoc dumps es e)))
      ∙ ap (text_of dumps) (append_assoc es (e ∷ []) (entries rs))

  read-content :
      (es : List MappingEntry) (file : Option Text)
      → content_of file ≡ text_of dumps es
      → All (IsClean dumps loads) es
      → read dumps loads file ≡ some es
  unfolding read
  read-content es (some s) h k = rw h (read_lines-text_of es k)
  read-content [] none h k = refl
  read-content (e ∷ es) none h k = absurd (no_text (dumps e) (text_of dumps es) h)

  -- The log that began without a file is read back as the entries of all resolutions, in their order, none of
  -- them overwritten, if the JSON of each is one line that is not blank and is read back as the entry.
  pub read-append_all :
      (rs : List Resolution)
      → All (IsClean dumps loads) (entries rs)
      → read dumps loads (append_all rs none) ≡ some (entries rs)
  read-append_all rs h =
      read-content (entries rs) (append_all rs none) (append_all-content rs [] none refl) h
