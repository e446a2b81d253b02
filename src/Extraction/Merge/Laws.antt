-- ===== src/Extraction/Merge/Laws.antt =====
-- What a merge keeps, key by key.
use ai_internship_demo_task.Prelude.{
  List, [], ◌∷◌, Option, none, some, if◌then◌else◌, ◌≡◌, refl, sym, ap, ◌∙◌, arith, String, map,
  All, Option-cases, inl, inr,
}
use text.Mathlib.Text.{◌==◌ as str_eq}
use text.Mathlib.TextEquality.{eq_iff}
use ai_internship_demo_task.Prelude.Json.{Value, obj, Fields, end, field, get, put, get-put}
use ai_internship_demo_task.Extraction.Merge.{
  is_blank, merge_value, merge_fields, merge_from, merge_extractions,
}

-- No key stands twice, as in every dict.
abbrev pub IsDict : Fields → Type 0
IsDict end = Unit
IsDict (field k v fs) = (get k fs ≡ none) × IsDict fs

-- What a merge holds at a key, from what the two sides hold there.
unfoldable pub combine : Option Value → Option Value → Option Value
combine none new = new
combine (some old) none = some old
combine (some old) (some new) = some (merge_value old new)

merge_at : Option Value → Value → Value
merge_at none v = v
merge_at (some old) v = merge_value old v

merge_fields-field :
    (key : String) (v : Value) (result rest : Fields)
    → merge_fields result (field key v rest)
      ≡ merge_fields (put key (merge_at (get key result) v) result) rest
unfolding merge_fields merge_at
merge_fields-field key v result rest = elim (Option-cases (get key result)) [
  | inl p ↦ rw (p, merge_fields, merge_at)
  | inr (old, p) ↦ rw (p, merge_fields, merge_at)
]

combine-some : (o : Option Value) (v : Value) → combine o (some v) ≡ some (merge_at o v)
unfolding combine merge_at
combine-some none v = refl
combine-some (some old) v = refl

combine-none : (o : Option Value) → combine o none ≡ o
unfolding combine
combine-none none = refl
combine-none (some old) = refl

get-end : (k : String) → get k end ≡ none
unfolding get
get-end k = refl

get-field :
    (k j : String) (v : Value) (fs : Fields)
    → get k (field j v fs) ≡ (if str_eq j k then some v else get k fs)
unfolding get
get-field k j v fs = refl

merge_fields-end : (fs : Fields) → merge_fields fs end ≡ fs
unfolding merge_fields
merge_fields-end fs = refl

-- At every key the merged dict holds the combination of what the two dicts hold.
pub get-merge_fields :
    (k : String) (result right : Fields)
    → IsDict right
    → get k (merge_fields result right) ≡ combine (get k result) (get k right)
get-merge_fields k result end d = rw (merge_fields-end, get-end, combine-none)
get-merge_fields k result (field j v rest) d = rw (merge_fields-field j v result rest) (
    get-merge_fields k (put j (merge_at (get j result) v) result) rest d.1
    ∙ ground (
      arith,
      get-put j k (merge_at (get j result) v) result,
      get-field k j v rest,
      combine-some (get k result) v,
      combine-none (some (merge_at (get k result) v)),
      eq_iff j k,
      d.0,
    ))

-- The dict that two dicts merge to.
unfoldable pub merge_dicts : Fields → Fields → Fields
merge_dicts end right = right
merge_dicts left end = left
merge_dicts left right = merge_fields left right

merge_value-obj :
    (left right : Fields) → merge_value (obj left) (obj right) ≡ obj (merge_dicts left right)
unfolding merge_value is_blank merge_dicts
merge_value-obj end right = refl
merge_value-obj (field j v left) end = refl
merge_value-obj (field j v left) (field i w right) = refl

get-merge_dicts :
    (k : String) (left right : Fields)
    → IsDict right
    → get k (merge_dicts left right) ≡ combine (get k left) (get k right)
unfolding merge_dicts
get-merge_dicts k end right d = rw get-end (unfold combine in refl)
get-merge_dicts k (field j v left) end d = rw get-end (sym (combine-none _))
get-merge_dicts k (field j v left) (field i w right) d =
    get-merge_fields k (field j v left) (field i w right) d

-- What several dicts hold at a key, combined from the left.
unfoldable pub combine_all : String → Option Value → List Fields → Option Value
combine_all k o [] = o
combine_all k o (fs ∷ rest) = combine_all k (combine o (get k fs)) rest

merge_from-get :
    (k : String) (fss : List Fields) (merged : Fields)
    → All IsDict fss
    → (result : Fields) × (merge_from (obj merged) (map obj fss) ≡ obj result)
      × (get k result ≡ combine_all k (get k merged) fss)
unfolding merge_from combine_all
merge_from-get k [] merged d = (merged, refl, refl)
merge_from-get k (fs ∷ fss) merged d =
    let (result, e, g) = merge_from-get k fss (merge_dicts merged fs) d.1 in
    (
      result,
      ap (λ (v : Value). merge_from v (map obj fss)) (merge_value-obj merged fs) ∙ e,
      g ∙ ap (λ (o : Option Value). combine_all k o fss) (get-merge_dicts k merged fs d.0),
    )

-- The merge of the dicts that the chunks gave is a dict, which holds at every key the combination,
-- from the first chunk to the last, of what the chunks hold there.
pub merge_extractions-get :
    (k : String) (fss : List Fields)
    → All IsDict fss
    → (result : Fields) × (merge_extractions (map obj fss) ≡ obj result)
      × (get k result ≡ combine_all k none fss)
unfolding merge_extractions get
merge_extractions-get k fss d = merge_from-get k fss end d
