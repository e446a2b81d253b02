-- ===== src/Tests/Resolving.antt =====
-- A table with one company, under its name and an alias.
use ai_internship_demo_task.Prelude.{[], ◌∷◌, ◌≡◌, refl, arith}
use ai_internship_demo_task.Prelude.Result.{ok}
use ai_internship_demo_task.Prelude.Text.{Text, codes, strip, lstrip, rstrip, is_space}
use ai_internship_demo_task.Prelude.Dict.{lookup, insert}
use ai_internship_demo_task.Prelude.Eq.{list_eq, nat_eq}
use ai_internship_demo_task.Entities.Aliases.{
  EntitySeed, AliasTable, add, add_aliases, add_alias, add_found,
}
use ai_internship_demo_task.Entities.Matcher.{EntityMatcher, match_name}
use ai_internship_demo_task.Entities.Matcher.Thresholds.{IsJustified, match_name-IsJustified}

abbrev plain : Text → Text
plain t = t

abbrev acme : EntitySeed
acme = record { entity_id = codes "e1"; canonical_name = codes "acme"; aliases = codes "ac" ∷ [] }

abbrev no_entities : AliasTable
no_entities = record { entities = []; aliases = [] }

abbrev one_entity : AliasTable
one_entity = record {
  entities = (codes "e1", acme) ∷ [];
  aliases = (codes "acme", codes "e1") ∷ (codes "ac", codes "e1") ∷ [];
}

adds_acme : add plain acme no_entities ≡ (ok tt, one_entity)
unfolding add add_aliases add_alias add_found lookup insert strip lstrip rstrip is_space
adds_acme = refl

abbrev matcher : EntityMatcher
matcher = record { aliases = one_entity; auto_threshold = 95; review_threshold = 80 }

match_name-IsJustified_example :
    IsJustified matcher (match_name 100 plain (λ a b. 85) matcher (codes "akme"))
match_name-IsJustified_example =
    match_name-IsJustified 100 plain (λ a b. 85) matcher (codes "akme") (omega arith)
