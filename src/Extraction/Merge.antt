-- ===== src/Extraction/Merge.antt =====
-- src/extraction/merge.py: the merge of the structured outputs of a document's chunks. Values here
-- are never changed in place, so `deepcopy` is the value itself.
pub mod Laws
use ai_internship_demo_task.Prelude.{
  Bool, true, false, List, [], ◌∷◌, Option, none, some, if◌then◌else◌,
}
use ai_internship_demo_task.Prelude.Json.{
  Value, null, bool, num, str, arr, obj, Elements, no_elements, element, Fields, end, field, get,
  put, eq_value,
}

-- `value is None or value == {} or value == []`
unfoldable pub is_blank : Value → Bool
is_blank null = true
is_blank (arr no_elements) = true
is_blank (obj end) = true
is_blank _ = false

-- `value in items`
unfoldable pub has_item : Elements → Value → Bool
has_item no_elements v = false
has_item (element x xs) v = if eq_value x v then true else has_item xs v

unfoldable pub push_item : Elements → Value → Elements
push_item no_elements v = element v no_elements
push_item (element x xs) v = element x (push_item xs v)

-- The loop of the case of two lists.
unfoldable pub merge_items : Elements → Elements → Elements
merge_items result no_elements = result
merge_items result (element v vs) =
    merge_items (if has_item result v then result else push_item result v) vs

unfoldable mutual
  -- `_merge_value`, by recursion on the right value.
  pub merge_value : Value → Value → Value
  merge_value left null = if is_blank left then null else left
  merge_value left (bool b) = if is_blank left then bool b else left
  merge_value left (num n) = if is_blank left then num n else left
  merge_value left (str s) = if is_blank left then str s else left
  merge_value left (arr right) =
      if is_blank left
      then arr right
      else if is_blank (arr right)
      then left
      else elim left [ arr xs ↦ arr (merge_items xs right) | other ↦ other ]
  merge_value left (obj right) =
      if is_blank left
      then obj right
      else if is_blank (obj right)
      then left
      else elim left [ obj result ↦ obj (merge_fields result right) | other ↦ other ]

  -- The loop of the case of two dicts.
  pub merge_fields : Fields → Fields → Fields
  merge_fields result end = result
  merge_fields result (field key value rest) =
      merge_fields
        (put key (elim (get key result) [ some old ↦ merge_value old value | none ↦ value ]) result)
        rest

unfoldable pub merge_from : Value → List Value → Value
merge_from merged [] = merged
merge_from merged (value ∷ values) = merge_from (merge_value merged value) values

unfoldable pub merge_extractions : List Value → Value
unfolding merge_from
merge_extractions values = merge_from (obj end) values
