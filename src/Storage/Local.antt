-- ===== src/Storage/Local.antt =====
-- `LocalIntelligenceRepository` of src/storage/local.py: a dict of payloads for each of the six tabs, and
-- a file of JSON lines for each, to which a write appends.
-- `dumps` and `loads` are the JSON printer and parser of the standard library, `loads` with `none` where
-- it raises; a file is its text. A record is its tab, its identity and its payload.
pub mod Upserts
pub mod Lines
pub mod Reading
use ai_internship_demo_task.Prelude.{
  ℕ, ◌==◌, Bool, true, false, Option, none, some, List, [], ◌∷◌, ◌++◌, map, String, if◌then◌else◌,
}
use ai_internship_demo_task.Prelude.Eq.{Eq, list_eq, nat_eq}
use ai_internship_demo_task.Prelude.Dict.{lookup, insert}
use ai_internship_demo_task.Prelude.Text.{Text, codes, strip, splitlines, is_empty}
use ai_internship_demo_task.Prelude.Json.{Value}

-- `REQUIRED_TABS` of src/export/sheets.py
pub data Tab : Type 0 where
  startups products research_papers jobs news entity_mapping_log : Tab

-- The kinds of record that the upserts take.
pub data Kind : Type 0 where
  startup product research_paper job_record news_record : Kind

unfoldable pub tab_of : Kind → Tab
tab_of startup = startups
tab_of product = products
tab_of research_paper = research_papers
tab_of job_record = jobs
tab_of news_record = news

-- One tab: what is in memory, and the text of its file, if it exists.
pub record Table : Type 0 where
  pub records : List (Text × Value)
  pub file : Option Text

-- `self._records` and the files under the root.
abbrev pub Repository : Type 0
Repository = Tab → Table

pub record PersistenceResult : Type 0 where
  pub record_id : Text
  pub inserted : Bool

unfoldable pub duplicate_prevented : PersistenceResult → Bool
duplicate_prevented r = if r.inserted then false else true

-- The constructor: the dicts are empty, the files are what they were.
unfoldable pub open_repository : (Tab → Option Text) → Repository
open_repository files t = record { records = []; file = files t }

abbrev pub tab_number : Tab → ℕ
tab_number startups = 0
tab_number products = 1
tab_number research_papers = 2
tab_number jobs = 3
tab_number news = 4
tab_number entity_mapping_log = 5

unfoldable pub put_table : Tab → Table → Repository → Repository
put_table t table s u = if tab_number t == tab_number u then table else s u

-- The text of a file after one more line.
unfoldable pub append_line : Text → Option Text → Option Text
append_line line none = some (line ++ 10 ∷ [])
append_line line (some content) = some (content ++ (line ++ 10 ∷ []))

module _ (dumps : Value → Text) (loads : Text → Option Value) where
  unfoldable pub append_to_disk : Value → Table → Table
  append_to_disk item table = record table { file = append_line (dumps item) table.file }

  -- The body of each upsert on its tab, from what the tab holds under the identity.
  unfoldable pub upsert_found : Option Value → Text → Value → Table → Bool × Table
  upsert_found (some old) record_id payload table = (false, table)
  upsert_found none record_id payload table = (
    true,
    append_to_disk payload (record table { records = insert record_id payload table.records }),
  )

  -- `upsert`, `upsert_startup`, `upsert_product`, `upsert_news` and `upsert_job`.
  unfoldable pub upsert : Kind → Text → Value → Repository → PersistenceResult × Repository
  upsert kind record_id payload s =
      let tab = tab_of kind in
      let (is_new, table) =
        upsert_found (lookup record_id (s tab).records) record_id payload (s tab) in
      (record { record_id = record_id; inserted = is_new }, put_table tab table s)

  -- `upsert_mapping`, on the name, the source and the entry that it builds.
  unfoldable pub upsert_mapping : Text → Text → Value → Repository → Repository
  upsert_mapping raw_name source entry s =
      let table = s entity_mapping_log in
      let key = raw_name ++ (b':' ∷ source) in
      put_table entity_mapping_log
        (append_to_disk entry (record table { records = insert key entry table.records })) s

  -- The loop over the lines of a file.
  unfoldable pub items_of : List Text → List Value
  items_of [] = []
  items_of (line ∷ lines) =
      let rest = items_of lines in
      if is_empty (strip line)
      then rest
      else elim (loads line) [ some item ↦ item ∷ rest | none ↦ rest ]

  unfoldable pub backfill : List Value → Option Text → List Value
  backfill [] none = []
  backfill [] (some content) = items_of (splitlines content)
  backfill (item ∷ items) _ = item ∷ items

  -- `read_tabs` at one tab.
  unfoldable pub read_tab : Tab → Repository → List Value
  read_tab t s = backfill (map (λ (p : Text × Value). p.1) (s t).records) (s t).file
