-- ===== src/Entities/Normalizer.antt =====
-- `normalize_entity_name` of src/entities/normalizer.py. NFKD with case folding and without the combining
-- characters is one parameter, `isalnum` the other.
use ai_internship_demo_task.Prelude.{ℕ, ◌==◌, ◌&&◌, Bool, List, [], ◌∷◌, ◌++◌, if◌then◌else◌}
use ai_internship_demo_task.Prelude.Eq.{list_eq, nat_eq}
use ai_internship_demo_task.Prelude.Dict.{contains}
use ai_internship_demo_task.Prelude.Text.{Text, codes, concat, is_empty}
use ai_internship_demo_task.Freshness.Dedupe.{words_from}

abbrev pub legal_suffixes : List Text
legal_suffixes =
    codes "inc"
    ∷ codes "incorporated"
    ∷ codes "llc"
    ∷ codes "ltd"
    ∷ codes "limited"
    ∷ codes "corp"
    ∷ codes "corporation"
    ∷ codes "co"
    ∷ codes "company"
    ∷ codes "plc"
    ∷ codes "gmbh"
    ∷ []

-- The words without the legal suffixes at their end.
unfoldable pub pop_suffixes : List Text → List Text
pop_suffixes [] = []
pop_suffixes (w ∷ ws) =
    let rest = pop_suffixes ws in
    if is_empty rest && contains legal_suffixes w then [] else w ∷ rest

-- text.replace("&", " and ")
unfoldable pub spell_ampersands : Text → Text
spell_ampersands [] = []
spell_ampersands (c ∷ s) =
    let rest = spell_ampersands s in if c == b'&' then codes " and " ++ rest else c ∷ rest

module _ (fold : Text → Text) (isalnum : ℕ → Bool) where
  unfoldable pub blank_others : Text → Text
  blank_others [] = []
  blank_others (c ∷ s) = (if isalnum c then c else b' ') ∷ blank_others s

  unfoldable pub normalize_entity_name : Text → Text
  normalize_entity_name value =
      concat (pop_suffixes (words_from [] (blank_others (spell_ampersands (fold value)))))
