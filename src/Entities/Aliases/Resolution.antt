-- ===== src/Entities/Aliases/Resolution.antt =====
-- A name that was added is resolved to its entity.
use ai_internship_demo_task.Prelude.{
  false, Option, none, some, List, [], ◌∷◌, ◌≡◌, refl, ap, subst, ◌∙◌, sym, All, All-imp,
  Bool-cases, inl, inr,
}
use ai_internship_demo_task.Prelude.Result.{Result, ok, raise}
use ai_internship_demo_task.Prelude.Eq.{same, list_eq, nat_eq}
use ai_internship_demo_task.Prelude.Dict.{lookup, insert, lookup-insert, same_refl}
use ai_internship_demo_task.Prelude.Text.{Text, strip, is_empty}
use ai_internship_demo_task.Entities.Aliases.{
  EntitySeed, AliasTable, SeedError, add_found, add_alias, add_aliases, add, resolve_found,
  resolve_exact,
}

-- A name under which the table has the entity, where the run did not raise.
abbrev pub Knows : Text → Text → Result SeedError (Unit {0}) × AliasTable → Type 0
Knows key entity_id (raise e, t) = Unit
Knows key entity_id (ok u, t) = lookup key t.aliases ≡ some entity_id

All-any {ℓ κ} : {A : Type ℓ} {P : A → Type κ} (xs : List A) → ((a : A) → P a) → All P xs
All-any [] f = tt
All-any (x ∷ xs) f = (f x, All-any xs f)

insert-keeps :
    (key name entity_id : Text) (m : List (Text × Text))
    → lookup key m ≡ some entity_id
    → lookup key (insert name entity_id m) ≡ some entity_id
insert-keeps key name entity_id m h = elim (Bool-cases (same name key)) [
  | inl e ↦ lookup-insert name key entity_id m ∙ rw e refl
  | inr e ↦ lookup-insert name key entity_id m ∙ rw e h
]

insert-there :
    (key entity_id : Text) (m : List (Text × Text))
    → lookup key (insert key entity_id m) ≡ some entity_id
insert-there key entity_id m = lookup-insert key key entity_id m ∙ rw (same_refl key) refl

insert-lookup :
    (id : Text) (entity : EntitySeed) (m : List (Text × EntitySeed))
    → lookup id (insert id entity m) ≡ some entity
insert-lookup id entity m = lookup-insert id id entity m ∙ rw (same_refl id) refl

ok_is_no_raise :
    {e : SeedError} {t t' : AliasTable}
    → ¬ (◌≡◌ {A = Result SeedError (Unit {0}) × AliasTable} (raise e, t) (ok tt, t'))
ok_is_no_raise h = absurd (cc)

module _ (normalize : Text → Text) where
  add_found-keeps :
      (found : Option Text) (value name key entity_id : Text) (t : AliasTable)
      → lookup key t.aliases ≡ some entity_id
      → Knows key entity_id (add_found normalize found value name entity_id t)
  unfolding add_found
  add_found-keeps none value name key entity_id t h = insert-keeps key name entity_id t.aliases h
  add_found-keeps (some existing) value name key entity_id t h =
      elim (Bool-cases (same existing entity_id)) [
        | inl e ↦ rw e (insert-keeps key name entity_id t.aliases h)
        | inr e ↦ rw e tt
      ]

  add_found-there :
      (found : Option Text) (value key entity_id : Text) (t : AliasTable)
      → Knows key entity_id (add_found normalize found value key entity_id t)
  unfolding add_found
  add_found-there none value key entity_id t = insert-there key entity_id t.aliases
  add_found-there (some existing) value key entity_id t =
      elim (Bool-cases (same existing entity_id)) [
        | inl e ↦ rw e (insert-there key entity_id t.aliases)
        | inr e ↦ rw e tt
      ]

  add_alias-keeps :
      (value key entity_id : Text) (t : AliasTable)
      → lookup key t.aliases ≡ some entity_id
      → Knows key entity_id (add_alias normalize entity_id value t)
  unfolding add_alias
  add_alias-keeps value key entity_id t h = elim (Bool-cases (is_empty (normalize value))) [
    | inl e ↦ rw e h
    | inr e ↦ rw e (
        add_found-keeps (lookup (normalize value) t.aliases) value (normalize value) key entity_id t
          h)
  ]

  add_aliases-keeps :
      (key entity_id : Text) (values : List Text) (m : Result SeedError (Unit {0}) × AliasTable)
      → Knows key entity_id m
      → Knows key entity_id (add_aliases normalize entity_id values m)
  unfolding add_aliases
  add_aliases-keeps key entity_id values (raise e, t) h = tt
  add_aliases-keeps key entity_id [] (ok u, t) h = h
  add_aliases-keeps key entity_id (value ∷ values) (ok u, t) h =
      add_aliases-keeps key entity_id values (add_alias normalize entity_id value t)
        (add_alias-keeps value key entity_id t h)

  add_alias-there :
      (value entity_id : Text) (t : AliasTable)
      → is_empty (normalize value) ≡ false
      → Knows (normalize value) entity_id (add_alias normalize entity_id value t)
  unfolding add_alias
  add_alias-there value entity_id t e =
      rw e
        (add_found-there (lookup (normalize value) t.aliases) value (normalize value) entity_id t)

  add_aliases-All :
      (entity_id : Text) (values : List Text) (m : Result SeedError (Unit {0}) × AliasTable)
      → All
          (λ (v : Text).
            is_empty (normalize v) ≡ false
            → Knows (normalize v) entity_id (add_aliases normalize entity_id values m))
          values
  unfolding add_aliases
  add_aliases-All entity_id [] m = tt
  add_aliases-All entity_id (value ∷ values) (raise e, t) = (λ h. tt, All-any values (λ v h. tt))
  add_aliases-All entity_id (value ∷ values) (ok u, t) = (
    λ h.
        add_aliases-keeps (normalize value) entity_id values (add_alias normalize entity_id value t)
          (add_alias-there value entity_id t h),
    add_aliases-All entity_id values (add_alias normalize entity_id value t),
  )

  add_found-entities :
      (found : Option Text) (value key entity_id : Text) (t : AliasTable)
      → (add_found normalize found value key entity_id t).1.entities ≡ t.entities
  unfolding add_found
  add_found-entities none value key entity_id t = refl
  add_found-entities (some existing) value key entity_id t =
      elim (Bool-cases (same existing entity_id)) [ inl e ↦ rw e refl | inr e ↦ rw e refl ]

  add_alias-entities :
      (value entity_id : Text) (t : AliasTable)
      → (add_alias normalize entity_id value t).1.entities ≡ t.entities
  unfolding add_alias
  add_alias-entities value entity_id t = elim (Bool-cases (is_empty (normalize value))) [
    | inl e ↦ rw e refl
    | inr e ↦ rw e (
        add_found-entities (lookup (normalize value) t.aliases) value (normalize value) entity_id t)
  ]

  add_aliases-entities :
      (entity_id : Text) (values : List Text) (m : Result SeedError (Unit {0}) × AliasTable)
      → (add_aliases normalize entity_id values m).1.entities ≡ m.1.entities
  unfolding add_aliases
  add_aliases-entities entity_id values (raise e, t) = refl
  add_aliases-entities entity_id [] (ok u, t) = refl
  add_aliases-entities entity_id (value ∷ values) (ok u, t) =
      add_aliases-entities entity_id values (add_alias normalize entity_id value t)
      ∙ add_alias-entities value entity_id t

  add-ok :
      (entity : EntitySeed) (t t' : AliasTable)
      → add normalize entity t ≡ (ok tt, t')
      → (add_aliases normalize entity.entity_id
            (entity.canonical_name ∷ entity.aliases)
            (ok tt, record t { entities = insert entity.entity_id entity t.entities })
          ≡ (ok tt, t'))
        × (is_empty entity.entity_id ≡ false)
  unfolding add
  add-ok entity t t' e = elim (Bool-cases (is_empty entity.entity_id)) [
    | inl a ↦ absurd (ok_is_no_raise (rw a at e))
    | inr a ↦ elim (Bool-cases (is_empty (strip entity.canonical_name))) [
      | inl b ↦ absurd (ok_is_no_raise (rw (a, b) at e))
      | inr b ↦ (rw (a, b) at e, a)
    ]
  ]

  -- The value is a name of the entity in what the run returns.
  abbrev KnownUnder : Text → List Text → Result SeedError (Unit {0}) × AliasTable → Type 0
  KnownUnder id values m =
      All (λ (v : Text). is_empty (normalize v) ≡ false → Knows (normalize v) id m) values

  resolve_exact-known :
      (v id : Text) (entity : EntitySeed) (t : AliasTable)
      → lookup (normalize v) t.aliases ≡ some id
      → is_empty id ≡ false
      → lookup id t.entities ≡ some entity
      → resolve_exact normalize v t ≡ some entity
  unfolding resolve_exact resolve_found
  resolve_exact-known v id entity t h k l = rw (h, k, l) refl

  -- After a call of `add` that does not raise, the entity's name and each of its aliases is resolved to
  -- the entity, if the normal form is not empty.
  pub add-resolve_exact :
      (entity : EntitySeed) (t t' : AliasTable)
      → add normalize entity t ≡ (ok tt, t')
      → All
          (λ (v : Text).
            is_empty (normalize v) ≡ false → resolve_exact normalize v t' ≡ some entity)
          (entity.canonical_name ∷ entity.aliases)
  add-resolve_exact entity t t' e =
      let id = entity.entity_id in
      let values = entity.canonical_name ∷ entity.aliases in
      let start = record t { entities = insert id entity t.entities } in
      let (p, q) = add-ok entity t t' e in
      let known = subst (KnownUnder id values) p (add_aliases-All id values (ok tt, start)) in
      let entities : t'.entities ≡ insert id entity t.entities =
        sym (ap (λ (m : Result SeedError (Unit {0}) × AliasTable). m.1.entities) p)
        ∙ add_aliases-entities id values (ok tt, start) in
      All-imp
        (λ v h k.
          resolve_exact-known v id entity t' (h k) q
            (ap (lookup id) entities ∙ insert-lookup id entity t.entities))
        values known
