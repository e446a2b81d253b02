-- ===== src/Tests/Exporting.antt =====
-- Two rows with different keys.
use ai_internship_demo_task.Prelude.{List, [], ◌∷◌, ◌≡◌, refl}
use ai_internship_demo_task.Prelude.Eq.{list_eq, nat_eq}
use ai_internship_demo_task.Prelude.Dict.{contains, lookup}
use ai_internship_demo_task.Prelude.Text.{codes}
use ai_internship_demo_task.Export.Tables.{Row, add_keys, collect, matrix, matrix_of, cell_of}

abbrev two_rows : List Row
two_rows = ((codes "a", codes "1") ∷ []) ∷ ((codes "b", codes "2") ∷ []) ∷ []

two_columns :
    matrix two_rows
    ≡ (codes "a" ∷ codes "b" ∷ []) ∷ (codes "1" ∷ [] ∷ []) ∷ ([] ∷ codes "2" ∷ []) ∷ []
unfolding matrix matrix_of collect add_keys contains lookup cell_of
two_columns = refl
