-- ===== src/Storage/Local/Reading.antt =====
-- What is read back from the files of a repository.
use ai_internship_demo_task.Prelude.{
  ◌==◌, Bool, true, not, Option, none, some, List, [], ◌∷◌, ◌++◌, map, ◌≡◌, refl, ap, ◌∙◌, sym,
  arith, All, Bool-cases, inl, inr,
}
use ai_internship_demo_task.Prelude.Eq.{same, list_eq, nat_eq}
use ai_internship_demo_task.Prelude.Dict.{lookup, insert}
use ai_internship_demo_task.Prelude.Text.{Text}
use ai_internship_demo_task.Prelude.Json.{Value}
use ai_internship_demo_task.Storage.Local.{
  Kind, startup, product, research_paper, job_record, news_record, Tab, startups, products,
  research_papers, jobs, news, entity_mapping_log, tab_number, tab_of, Repository, Table,
  open_repository, upsert, upsert_found, upsert_mapping, put_table, append_line, append_to_disk,
  backfill, read_tab,
}
use ai_internship_demo_task.Storage.Local.Lines.{Clean, text_of, items_of-text_of, text_of-snoc}

abbrev pub payloads : Table → List Value
payloads table = map (λ (p : Text × Value). p.1) table.records

abbrev pub content_of : Option Text → Text
content_of none = []
content_of (some s) = s

-- The file holds a line for each payload in memory, in order.
abbrev pub IsSynced : (Value → Text) → Table → Type 0
IsSynced dumps table = content_of table.file ≡ text_of dumps (payloads table)

insert-snoc :
    (key : Text) (v : Value) (records : List (Text × Value))
    → lookup key records ≡ none
    → map (λ (p : Text × Value). p.1) (insert key v records)
      ≡ map (λ (p : Text × Value). p.1) records ++ v ∷ []
unfolding lookup insert
insert-snoc key v [] h = refl
insert-snoc key v ((j, w) ∷ records) h = elim (Bool-cases (same j key)) [
  | inl e ↦ absurd (ground (arith, h, e))
  | inr e ↦ rw e (ap (◌∷◌ w) (insert-snoc key v records (rw e at h)))
]

append_line-content :
    (line : Text) (file : Option Text)
    → content_of (append_line line file) ≡ content_of file ++ (line ++ 10 ∷ [])
unfolding append_line
append_line-content line none = refl
append_line-content line (some s) = refl

upsert_found-IsSynced :
    (dumps : Value → Text) (loads : Text → Option Value) (found : Option Value) (key : Text)
    (v : Value) (table : Table)
    → lookup key table.records ≡ found
    → IsSynced dumps table
    → IsSynced dumps (upsert_found dumps loads found key v table).1
unfolding upsert_found append_to_disk
upsert_found-IsSynced dumps loads (some old) key v table e h = h
upsert_found-IsSynced dumps loads none key v table e h =
    append_line-content (dumps v) table.file
    ∙ (ap (λ (s : Text). s ++ (dumps v ++ 10 ∷ [])) h
        ∙ (sym (text_of-snoc dumps (payloads table) v)
            ∙ ap (text_of dumps) (sym (insert-snoc key v table.records e))))

-- The tabs of records: each but the log of mappings.
unfoldable pub is_of_records : Tab → Bool
is_of_records t = not (tab_number t == tab_number entity_mapping_log)

tab_of-is_of_records : (kind : Kind) → is_of_records (tab_of kind) ≡ true
unfolding is_of_records tab_of
tab_of-is_of_records startup = refl
tab_of-is_of_records product = refl
tab_of-is_of_records research_paper = refl
tab_of-is_of_records job_record = refl
tab_of-is_of_records news_record = refl

put_table-IsSynced :
    (dumps : Value → Text) (t : Tab) (table : Table) (s : Repository)
    → IsSynced dumps table
    → ((u : Tab) → is_of_records u ≡ true → IsSynced dumps (s u))
    → (u : Tab) → is_of_records u ≡ true
    → IsSynced dumps (put_table t table s u)
unfolding put_table
put_table-IsSynced dumps t table s h k u p = elim (Bool-cases (tab_number t == tab_number u)) [
  | inl e ↦ rw e h
  | inr e ↦ rw e (k u p)
]

-- A call that writes: an upsert, with the kind of record, its identity and its payload, or
-- `upsert_mapping`.
pub data Write : Type 0 where
  record_write : Kind → Text → Value → Write
  mapping_write : Text → Text → Value → Write

unfoldable pub write_all :
    (Value → Text) → (Text → Option Value) → List Write → Repository → Repository
write_all dumps loads [] s = s
write_all dumps loads (record_write kind key v ∷ ws) s =
    write_all dumps loads ws (upsert dumps loads kind key v s).1
write_all dumps loads (mapping_write raw_name source entry ∷ ws) s =
    write_all dumps loads ws (upsert_mapping dumps loads raw_name source entry s)

-- A mapping is written to no tab of records.
upsert_mapping-other :
    (dumps : Value → Text) (loads : Text → Option Value) (raw_name source : Text) (entry : Value)
    (s : Repository) (u : Tab)
    → is_of_records u ≡ true
    → upsert_mapping dumps loads raw_name source entry s u ≡ s u
unfolding upsert_mapping put_table is_of_records
upsert_mapping-other dumps loads raw_name source entry s startups p = refl
upsert_mapping-other dumps loads raw_name source entry s products p = refl
upsert_mapping-other dumps loads raw_name source entry s research_papers p = refl
upsert_mapping-other dumps loads raw_name source entry s jobs p = refl
upsert_mapping-other dumps loads raw_name source entry s news p = refl
upsert_mapping-other dumps loads raw_name source entry s entity_mapping_log p = absurd (cc)

write_all-IsSynced :
    (dumps : Value → Text) (loads : Text → Option Value) (ws : List Write) (s : Repository)
    → ((t : Tab) → is_of_records t ≡ true → IsSynced dumps (s t))
    → (t : Tab) → is_of_records t ≡ true
    → IsSynced dumps (write_all dumps loads ws s t)
unfolding write_all upsert
write_all-IsSynced dumps loads [] s h t p = h t p
write_all-IsSynced dumps loads (record_write kind key v ∷ ws) s h t p =
    let table = s (tab_of kind) in
    let found = lookup key table.records in
    write_all-IsSynced dumps loads ws (upsert dumps loads kind key v s).1
      (put_table-IsSynced dumps (tab_of kind) (upsert_found dumps loads found key v table).1 s
        (upsert_found-IsSynced dumps loads found key v table refl
          (h (tab_of kind) (tab_of-is_of_records kind)))
        h)
      t p
write_all-IsSynced dumps loads (mapping_write raw_name source entry ∷ ws) s h t p =
    write_all-IsSynced dumps loads ws (upsert_mapping dumps loads raw_name source entry s)
      (λ u q. rw (upsert_mapping-other dumps loads raw_name source entry s u q) (h u q)) t p

pub no_text : (s rest : Text) → ¬ ([] ≡ s ++ (10 ∷ rest))
no_text [] rest e = absurd (cc)
no_text (c ∷ s) rest e = absurd (cc)

backfill-file :
    (dumps : Value → Text) (loads : Text → Option Value) (vs : List Value) (file : Option Text)
    → content_of file ≡ text_of dumps vs
    → All (Clean dumps loads) vs
    → backfill dumps loads [] file ≡ vs
unfolding backfill
backfill-file dumps loads [] none e h = refl
backfill-file dumps loads (v ∷ vs) none e h = absurd (no_text (dumps v) (text_of dumps vs) e)
backfill-file dumps loads vs (some s) e h = rw e (items_of-text_of dumps loads vs h)

backfill-memory :
    (dumps : Value → Text) (loads : Text → Option Value) (vs : List Value) (file : Option Text)
    → content_of file ≡ text_of dumps vs
    → All (Clean dumps loads) vs
    → backfill dumps loads vs file ≡ vs
unfolding backfill
backfill-memory dumps loads [] file e h = backfill-file dumps loads [] file e h
backfill-memory dumps loads (v ∷ vs) file e h = refl

-- After any sequence of upserts and mappings written by a repository that began without files, a repository
-- that is opened on its files reads from each tab but the log of mappings the items that the first one
-- reads, if the JSON text of each payload of the tab is one line that is not blank and is read back as the
-- payload. The log of mappings is left out because a key written again is one item in memory and another
-- line in the file.
pub read_tab-reopened :
    (dumps : Value → Text) (loads : Text → Option Value) (ws : List Write) (t : Tab)
    → is_of_records t ≡ true
    → All (Clean dumps loads) (payloads (write_all dumps loads ws (open_repository (λ u. none)) t))
    → read_tab dumps loads t
        (open_repository (λ u. (write_all dumps loads ws (open_repository (λ x. none)) u).file))
      ≡ read_tab dumps loads t (write_all dumps loads ws (open_repository (λ u. none)))
unfolding read_tab open_repository
read_tab-reopened dumps loads ws t p h =
    let table = write_all dumps loads ws (open_repository (λ u. none)) t in
    let synced =
      write_all-IsSynced dumps loads ws (open_repository (λ u. none)) (λ u q. refl) t p in
    backfill-file dumps loads (payloads table) table.file synced h
    ∙ sym (backfill-memory dumps loads (payloads table) table.file synced h)
