-- ===== src/Tests/Merging.antt =====
-- The merge of two chunks' facts.
use ai_internship_demo_task.Prelude.{none, [], ◌∷◌, ◌≡◌, refl}
use ai_internship_demo_task.Prelude.Text.{codes}
use ai_internship_demo_task.Prelude.Json.{
  null, str, arr, obj, no_elements, element, Fields, end, field, get, put, eq_value,
}
use ai_internship_demo_task.Extraction.Merge.{
  is_blank, has_item, push_item, merge_items, merge_value, merge_extractions,
}
use ai_internship_demo_task.Extraction.Merge.Laws.{IsDict, combine_all, merge_extractions-get}

abbrev first : Fields
first = field "name" null (field "tags" (arr (element (str (codes "ai")) no_elements)) end)

abbrev second : Fields
second =
    field "name" (str (codes "Acme")) (
      field "tags" (arr (element (str (codes "ai")) (element (str (codes "b2b")) no_elements))) end)

merged :
    merge_extractions (obj first ∷ obj second ∷ [])
    ≡ obj (
        field "name" (str (codes "Acme")) (
          field "tags"
            (arr (element (str (codes "ai")) (element (str (codes "b2b")) no_elements)))
            end))
unfolding merge_extractions merge_value is_blank has_item push_item merge_items get put eq_value
merged = refl

second-IsDict : IsDict second
unfolding get
second-IsDict = (refl, (refl, tt))

first-IsDict : IsDict first
unfolding get
first-IsDict = (refl, (refl, tt))

merge_extractions-get_example :
    (result : Fields) × (merge_extractions (obj first ∷ obj second ∷ []) ≡ obj result)
    × (get "name" result ≡ combine_all "name" none (first ∷ second ∷ []))
merge_extractions-get_example =
    merge_extractions-get "name" (first ∷ second ∷ []) (first-IsDict, (second-IsDict, tt))
