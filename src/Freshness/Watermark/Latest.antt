-- ===== src/Freshness/Watermark/Latest.antt =====
-- A watermark is the latest of the dates that its source was advanced to.
use ai_internship_demo_task.Prelude.{
  ℕ, max, true, Option, none, some, List, [], ◌∷◌, String, ◌≡◌, refl, ap, ◌∙◌, sym, arith, leb,
  if◌then◌else◌, Bool-cases, inl, inr,
}
use ai_internship_demo_task.Prelude.Eq.{string_eq, same}
use ai_internship_demo_task.Prelude.Dict.{lookup, insert, lookup-insert}
use ai_internship_demo_task.Freshness.Watermark.{
  WatermarkStore, get_watermark, persist, advance_from, advance, advance_all,
}

-- The later of a date, if there is one, and another.
abbrev pub later : Option ℕ → ℕ → Option ℕ
later none value = some value
later (some current) value = some (max current value)

-- The latest date of a source among a list, from a first one on.
abbrev pub latest : String → Option ℕ → List (String × ℕ) → Option ℕ
latest source_id first [] = first
latest source_id first ((name, value) ∷ rest) =
    latest source_id (if same name source_id then later first value else first) rest

max_of_leb : (a b : ℕ) → leb a b ≡ true → b ≡ max b a
max_of_leb a b h = ground arith

-- What the write of a value under a name does to a lookup, where the value is the later one.
lookup-later :
    (name source_id : String) (value : ℕ) (values : List (String × ℕ)) (current : Option ℕ)
    → lookup name values ≡ current
    → later current value ≡ some value
    → lookup source_id (insert name value values) ≡ (
        if same name source_id
        then later (lookup source_id values) value
        else lookup source_id values)
lookup-later name source_id value values current e h = elim (Bool-cases (same name source_id)) [
  | inl k ↦
      let p : name ≡ source_id = (string_eq.beq_iff name source_id).0 k in
      let q : lookup source_id values ≡ current =
        ap (λ (n : String). lookup n values) (sym p) ∙ e in
      lookup-insert name source_id value values ∙ rw (k, q) (sym h)
  | inr k ↦ lookup-insert name source_id value values ∙ rw k refl
]

advance_from-get :
    (iso : ℕ → String) (current : Option ℕ) (name : String) (value : ℕ) (s : WatermarkStore)
    (source_id : String)
    → lookup name s.values ≡ current
    → get_watermark source_id (advance_from iso current name value s) ≡ (
        if same name source_id
        then later (get_watermark source_id s) value
        else get_watermark source_id s)
unfolding get_watermark advance_from persist
advance_from-get iso none name value s source_id e =
    lookup-later name source_id value s.values none e refl
advance_from-get iso (some current) name value s source_id e =
    elim (Bool-cases (leb value current)) [
      | inl k ↦ rw k (elim (Bool-cases (same name source_id)) [
        | inl j ↦
            let p : name ≡ source_id = (string_eq.beq_iff name source_id).0 j in
            let q : lookup source_id s.values ≡ some current =
              ap (λ (n : String). lookup n s.values) (sym p) ∙ e in
            rw (j, q) (ap some (max_of_leb value current k))
        | inr j ↦ rw j refl
      ])
      | inr k ↦
          rw k
            (lookup-later name source_id value s.values (some current) e (ap some (ground arith)))
    ]

-- After any advances, the watermark of a source is the latest among its watermark before, if there was
-- one, and the dates that it was advanced to.
pub advance_all-get :
    (iso : ℕ → String) (calls : List (String × ℕ)) (s : WatermarkStore) (source_id : String)
    → get_watermark source_id (advance_all iso calls s)
      ≡ latest source_id (get_watermark source_id s) calls
unfolding advance_all advance
advance_all-get iso [] s source_id = refl
advance_all-get iso ((name, value) ∷ rest) s source_id =
    advance_all-get iso rest (advance iso name value s) source_id
    ∙ ap (λ (o : Option ℕ). latest source_id o rest)
        (advance_from-get iso (lookup name s.values) name value s source_id refl)
