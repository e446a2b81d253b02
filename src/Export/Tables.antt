-- ===== src/Export/Tables.antt =====
-- The headers and the matrix of a table, from src/export/csv.py and src/export/sheets.py. A row is a dict
-- of cells that are texts already.
pub mod Shape
use ai_internship_demo_task.Prelude.{ℕ, Option, none, some, List, [], ◌∷◌, ◌++◌, map, if◌then◌else◌}
use ai_internship_demo_task.Prelude.Eq.{list_eq, nat_eq}
use ai_internship_demo_task.Prelude.Dict.{contains, lookup}
use ai_internship_demo_task.Prelude.Text.{Text, codes}

abbrev pub Row : Type 0
Row = List (Text × Text)

-- The inner loop of `_headers`, over the keys of a row.
unfoldable pub add_keys : Row → List Text → List Text
add_keys [] headers = headers
add_keys ((key, cell) ∷ row) headers =
    add_keys row (if contains headers key then headers else headers ++ key ∷ [])

-- The two loops that `_headers` and `_matrix` share.
unfoldable pub collect : List Row → List Text → List Text
collect [] headers = headers
collect (row ∷ rows) headers = collect rows (add_keys row headers)

-- headers or ["record"]
unfoldable pub or_record : List Text → List Text
or_record [] = codes "record" ∷ []
or_record (h ∷ hs) = h ∷ hs

-- `_headers` of csv.py
unfoldable pub headers_of : List Row → List Text
headers_of rows = or_record (collect rows [])

-- row.get(header, "")
unfoldable pub cell_of : Row → Text → Text
cell_of row header = elim (lookup header row) [ none ↦ [] | some cell ↦ cell ]

-- The end of `_matrix`, on the headers.
unfoldable pub matrix_of : List Text → List Row → List (List Text)
matrix_of [] rows = (codes "record" ∷ []) ∷ []
matrix_of (h ∷ hs) rows = (h ∷ hs) ∷ map (λ (row : Row). map (cell_of row) (h ∷ hs)) rows

-- `_matrix` of sheets.py
unfoldable pub matrix : List Row → List (List Text)
matrix rows = matrix_of (collect rows []) rows
