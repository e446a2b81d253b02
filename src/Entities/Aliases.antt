-- ===== src/Entities/Aliases.antt =====
-- `AliasTable` of src/entities/aliases.py over a normal form of names, which Entities.Normalizer gives. A
-- raise keeps what was written before it.
pub mod Resolution
use ai_internship_demo_task.Prelude.{
  ℕ, ◌||◌, not, Bool, true, false, Option, none, some, List, [], ◌∷◌, if◌then◌else◌,
}
use ai_internship_demo_task.Prelude.Result.{Result, ok, raise}
use ai_internship_demo_task.Prelude.Eq.{same, list_eq, nat_eq}
use ai_internship_demo_task.Prelude.Dict.{lookup, insert}
use ai_internship_demo_task.Prelude.Text.{Text, strip, is_empty}

pub record EntitySeed : Type 0 where
  pub entity_id : Text
  pub canonical_name : Text
  pub aliases : List Text

pub record AliasTable : Type 0 where
  pub entities : List (Text × EntitySeed)
  pub aliases : List (Text × Text)

pub data SeedError : Type 0 where
  id_and_name_required : SeedError
  maps_to_multiple : Text → SeedError

module _ (normalize : Text → Text) where
  -- The body of the loop of `add` for a key that is not empty.
  unfoldable pub add_found :
      Option Text → Text → Text → Text → AliasTable → Result SeedError (Unit {0}) × AliasTable
  add_found none value key entity_id t =
      (ok tt, record t { aliases = insert key entity_id t.aliases })
  add_found (some existing) value key entity_id t =
      if same existing entity_id
      then (ok tt, record t { aliases = insert key entity_id t.aliases })
      else (raise (maps_to_multiple value), t)

  unfoldable pub add_alias : Text → Text → AliasTable → Result SeedError (Unit {0}) × AliasTable
  add_alias entity_id value t =
      let key = normalize value in
      if is_empty key then (ok tt, t) else add_found (lookup key t.aliases) value key entity_id t

  -- The loop of `add`.
  unfoldable pub add_aliases :
      Text
      → List Text
      → Result SeedError (Unit {0}) × AliasTable
      → Result SeedError (Unit {0}) × AliasTable
  add_aliases entity_id values (raise e, t) = (raise e, t)
  add_aliases entity_id [] (ok u, t) = (ok u, t)
  add_aliases entity_id (value ∷ values) (ok u, t) =
      add_aliases entity_id values (add_alias entity_id value t)

  unfoldable pub add : EntitySeed → AliasTable → Result SeedError (Unit {0}) × AliasTable
  add entity t =
      if is_empty entity.entity_id || is_empty (strip entity.canonical_name)
      then (raise id_and_name_required, t)
      else add_aliases entity.entity_id (entity.canonical_name ∷ entity.aliases)
          (ok tt, record t { entities = insert entity.entity_id entity t.entities })

  unfoldable pub resolve_found : Option Text → AliasTable → Option EntitySeed
  resolve_found none t = none
  resolve_found (some entity_id) t =
      if is_empty entity_id then none else lookup entity_id t.entities

  unfoldable pub resolve_exact : Text → AliasTable → Option EntitySeed
  resolve_exact value t = resolve_found (lookup (normalize value) t.aliases) t
