-- ===== src/Tests/Storing.antt =====
-- A repository with two records, written to its files and read back.
use ai_internship_demo_task.Prelude.{true, Option, none, some, List, [], ◌∷◌, ◌≡◌, refl, All}
use ai_internship_demo_task.Prelude.Text.{
  Text, codes, is_line_break, strip, lstrip, rstrip, is_space,
}
use ai_internship_demo_task.Prelude.Dict.{lookup, insert}
use ai_internship_demo_task.Prelude.Eq.{list_eq, nat_eq}
use ai_internship_demo_task.Prelude.Json.{Value, obj, end}
use ai_internship_demo_task.Storage.Local.{
  startup, job_record, startups, Tab, open_repository, upsert, upsert_mapping, upsert_found,
  put_table, tab_of, append_to_disk, read_tab,
}
use ai_internship_demo_task.Storage.Local.Lines.{Clean}
use ai_internship_demo_task.Storage.Local.Reading.{
  Write, record_write, mapping_write, is_of_records, write_all, payloads, read_tab-reopened,
}

-- A JSON library that knows the empty dict.
abbrev dumps : Value → Text
dumps v = codes "{}"

abbrev loads : Text → Option Value
loads t = some (obj end)

abbrev no_files : Tab → Option Text
no_files t = none

abbrev writes : List Write
writes =
    record_write startup (codes "a") (obj end)
    ∷ record_write job_record (codes "b") (obj end)
    ∷ mapping_write (codes "Acme") (codes "yc") (obj end)
    ∷ record_write startup (codes "a") (obj end)
    ∷ mapping_write (codes "Acme") (codes "yc") (obj end)
    ∷ record_write startup (codes "c") (obj end)
    ∷ []

empty_dict_Clean : Clean dumps loads (obj end)
unfolding is_line_break strip lstrip rstrip is_space
empty_dict_Clean = record { unbroken = (refl, (refl, tt)); visible = refl; read_back = refl }

two_startups :
    payloads (write_all dumps loads writes (open_repository no_files) startups)
    ≡ obj end ∷ obj end ∷ []
unfolding write_all upsert upsert_mapping upsert_found put_table tab_of append_to_disk lookup insert
    open_repository
two_startups = refl

startups_is_of_records : is_of_records startups ≡ true
unfolding is_of_records
startups_is_of_records = refl

startups-Clean :
    All
      (Clean dumps loads)
      (payloads (write_all dumps loads writes (open_repository no_files) startups))
startups-Clean = rw two_startups (empty_dict_Clean, (empty_dict_Clean, tt))

read_tab-reopened_example :
    read_tab dumps loads startups
      (open_repository (λ u. (write_all dumps loads writes (open_repository no_files) u).file))
    ≡ read_tab dumps loads startups (write_all dumps loads writes (open_repository no_files))
read_tab-reopened_example =
    read_tab-reopened dumps loads writes startups startups_is_of_records startups-Clean
