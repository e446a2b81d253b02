-- ===== src/Storage/Local/Upserts.antt =====
-- What the upserts keep.
use ai_internship_demo_task.Prelude.{
  ℕ, zero, suc, true, false, ◌==◌, Option, none, some, ◌≡◌, refl, ap, ◌∙◌, sym, arith, Option-cases,
  Bool-cases, inl, inr, List,
}
use ai_internship_demo_task.Prelude.Eq.{same, list_eq, nat_eq}
use ai_internship_demo_task.Prelude.Dict.{lookup, insert, lookup-insert, same_refl}
use ai_internship_demo_task.Prelude.Text.{Text}
use ai_internship_demo_task.Prelude.Json.{Value}
use ai_internship_demo_task.Storage.Local.{
  Kind, Tab, startups, products, research_papers, jobs, news, entity_mapping_log, tab_of,
  tab_number, Repository, Table, upsert, upsert_found, put_table, append_to_disk,
}

put_table_at : (t : Tab) (table : Table) (s : Repository) → put_table t table s t ≡ table
unfolding put_table
put_table_at t table s = rw (same_refl (tab_number t)) refl

abbrev tab_at : ℕ → Tab
tab_at zero = startups
tab_at (suc zero) = products
tab_at (suc (suc zero)) = research_papers
tab_at (suc (suc (suc zero))) = jobs
tab_at (suc (suc (suc (suc zero)))) = news
tab_at _ = entity_mapping_log

tab_at-tab_number : (t : Tab) → tab_at (tab_number t) ≡ t
tab_at-tab_number startups = refl
tab_at-tab_number products = refl
tab_at-tab_number research_papers = refl
tab_at-tab_number jobs = refl
tab_at-tab_number news = refl
tab_at-tab_number entity_mapping_log = refl

tab_number-injective : (t u : Tab) → tab_number t ≡ tab_number u → t ≡ u
tab_number-injective t u h = sym (tab_at-tab_number t) ∙ (ap tab_at h ∙ tab_at-tab_number u)

put_table_same : (t : Tab) (s : Repository) (u : Tab) → put_table t (s t) s u ≡ s u
unfolding put_table
put_table_same t s u = elim (Bool-cases (tab_number t == tab_number u)) [
  | inl e ↦ rw e (ap s (tab_number-injective t u (ground (arith, e))))
  | inr e ↦ rw e refl
]

-- An upsert of an identity that its tab does not hold inserts it.
pub upsert_new :
    (dumps : Value → Text) (loads : Text → Option Value) (kind : Kind) (record_id : Text)
    (payload : Value) (s : Repository)
    → lookup record_id (s (tab_of kind)).records ≡ none
    → ((upsert dumps loads kind record_id payload s).0.inserted ≡ true)
      × (lookup record_id ((upsert dumps loads kind record_id payload s).1 (tab_of kind)).records
          ≡ some payload)
unfolding upsert upsert_found append_to_disk
upsert_new dumps loads kind record_id payload s e =
    rw (e, put_table_at (tab_of kind) _ s)
      (
        refl,
        lookup-insert record_id record_id payload (s (tab_of kind)).records
            ∙ rw (same_refl record_id) refl,
      )

pub upsert_old :
    (dumps : Value → Text) (loads : Text → Option Value) (kind : Kind) (record_id : Text)
    (payload old : Value) (s : Repository)
    → lookup record_id (s (tab_of kind)).records ≡ some old
    → ((upsert dumps loads kind record_id payload s).0.inserted ≡ false)
      × ((t : Tab) → (upsert dumps loads kind record_id payload s).1 t ≡ s t)
unfolding upsert upsert_found
upsert_old dumps loads kind record_id payload old s e =
    rw e (refl, λ t. put_table_same (tab_of kind) s t)

-- After an upsert, an upsert of the same kind and identity inserts nothing, whatever its payload, and
-- changes neither a tab in memory nor a file.
pub upsert-upsert :
    (dumps : Value → Text) (loads : Text → Option Value) (kind : Kind) (record_id : Text)
    (payload later : Value) (s : Repository)
    → ((upsert dumps loads kind record_id later
          (upsert dumps loads kind record_id payload s).1).0.inserted
        ≡ false)
      × ((t : Tab)
          → (upsert dumps loads kind record_id later
                (upsert dumps loads kind record_id payload s).1).1
              t
            ≡ (upsert dumps loads kind record_id payload s).1 t)
upsert-upsert dumps loads kind record_id payload later s =
    elim (Option-cases (lookup record_id (s (tab_of kind)).records)) [
      | inl e ↦
          upsert_old dumps loads kind record_id later payload
            (upsert dumps loads kind record_id payload s).1
            (upsert_new dumps loads kind record_id payload s e).1
      | inr (old, e) ↦
          upsert_old dumps loads kind record_id later old
            (upsert dumps loads kind record_id payload s).1
            (ap (λ (table : Table). lookup record_id table.records)
                ((upsert_old dumps loads kind record_id payload old s e).1 (tab_of kind))
              ∙ e)
    ]

-- The tab of a kind has a record under the identity.
abbrev pub IsHeld : Kind → Text → Repository → Type 0
IsHeld kind record_id s = (old : Value) × (lookup record_id (s (tab_of kind)).records ≡ some old)

upsert_new-records :
    (dumps : Value → Text) (loads : Text → Option Value) (kind : Kind) (record_id : Text)
    (payload : Value) (s : Repository)
    → lookup record_id (s (tab_of kind)).records ≡ none
    → ((upsert dumps loads kind record_id payload s).1 (tab_of kind)).records
      ≡ insert record_id payload (s (tab_of kind)).records
unfolding upsert upsert_found append_to_disk
upsert_new-records dumps loads kind record_id payload s e =
    rw (e, put_table_at (tab_of kind) _ s) refl

-- An upsert leaves a record under its identity.
pub upsert-IsHeld :
    (dumps : Value → Text) (loads : Text → Option Value) (kind : Kind) (record_id : Text)
    (payload : Value) (s : Repository)
    → IsHeld kind record_id (upsert dumps loads kind record_id payload s).1
upsert-IsHeld dumps loads kind record_id payload s =
    elim (Option-cases (lookup record_id (s (tab_of kind)).records)) [
      | inl e ↦ (payload, (upsert_new dumps loads kind record_id payload s e).1)
      | inr (old, e) ↦ (
        old,
        ap (λ (table : Table). lookup record_id table.records)
              ((upsert_old dumps loads kind record_id payload old s e).1 (tab_of kind))
            ∙ e,
      )
    ]

-- An upsert takes no record away.
pub upsert-keeps :
    (dumps : Value → Text) (loads : Text → Option Value) (kind : Kind) (record_id : Text)
    (payload : Value) (s : Repository) (other : Text)
    → IsHeld kind other s
    → IsHeld kind other (upsert dumps loads kind record_id payload s).1
upsert-keeps dumps loads kind record_id payload s other (v, h) =
    elim (Option-cases (lookup record_id (s (tab_of kind)).records)) [
      | inr (old, e) ↦ (
        v,
        ap (λ (table : Table). lookup other table.records)
              ((upsert_old dumps loads kind record_id payload old s e).1 (tab_of kind))
            ∙ h,
      )
      | inl e ↦
          let step =
            ap (λ (m : List (Text × Value)). lookup other m)
              (upsert_new-records dumps loads kind record_id payload s e)
            ∙ lookup-insert record_id other payload (s (tab_of kind)).records in
          elim (Bool-cases (same record_id other)) [
            | inl f ↦ (payload, step ∙ rw f refl)
            | inr f ↦ (v, step ∙ rw f h)
          ]
    ]
