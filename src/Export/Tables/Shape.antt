-- ===== src/Export/Tables/Shape.antt =====
-- The columns of a table, and its width.
use ai_internship_demo_task.Prelude.{
  Bool, true, false, ◌||◌, List, [], ◌∷◌, ◌++◌, map, ◌≡◌, refl, ap, ◌∙◌, sym, arith, length, All,
  if◌then◌else◌, Bool-cases, inl, inr,
}
use ai_internship_demo_task.Prelude.Eq.{same, list_eq, nat_eq}
use ai_internship_demo_task.Prelude.Dict.{contains, contains-append}
use ai_internship_demo_task.Prelude.Text.{Text}
use ai_internship_demo_task.Export.Tables.{Row, add_keys, collect, cell_of, matrix_of, matrix}

-- Whether a row, or one of the rows, has the key.
abbrev pub has_key : Row → Text → Bool
has_key [] k = false
has_key ((key, cell) ∷ row) k = same key k || has_key row k

abbrev pub some_has_key : List Row → Text → Bool
some_has_key [] k = false
some_has_key (row ∷ rows) k = has_key row k || some_has_key rows k

or_assoc : (a b c : Bool) → ((a || b) || c) ≡ (a || (b || c))
or_assoc true b c = refl
or_assoc false b c = refl

or_false_right : (a : Bool) → (a || false) ≡ a
or_false_right true = refl
or_false_right false = refl

contains-one : (x k : Text) → contains (x ∷ []) k ≡ same x k
unfolding contains
contains-one x k = or_false_right (same x k)

contains-push :
    (headers : List Text) (key k : Text)
    → contains (if contains headers key then headers else headers ++ key ∷ []) k
      ≡ (contains headers k || same key k)
contains-push headers key k = elim (Bool-cases (contains headers key)) [
  | inl h ↦ rw h (elim (Bool-cases (same key k)) [
    | inl e ↦
        let p : contains headers k ≡ true =
          ap (contains headers) (sym ((list_eq.beq_iff key k).0 e)) ∙ h in
        rw p refl
    | inr e ↦ rw e (sym (or_false_right (contains headers k)))
  ])
  | inr h ↦ rw h (
      contains-append headers (key ∷ []) k
      ∙ ap (λ (b : Bool). contains headers k || b) (contains-one key k))
]

contains-add_keys :
    (row : Row) (headers : List Text) (k : Text)
    → contains (add_keys row headers) k ≡ (contains headers k || has_key row k)
unfolding add_keys
contains-add_keys [] headers k = sym (or_false_right (contains headers k))
contains-add_keys ((key, cell) ∷ row) headers k =
    contains-add_keys row (if contains headers key then headers else headers ++ key ∷ []) k
    ∙ (ap (λ (b : Bool). b || has_key row k) (contains-push headers key k)
        ∙ or_assoc (contains headers k) (same key k) (has_key row k))

contains-collect :
    (rows : List Row) (headers : List Text) (k : Text)
    → contains (collect rows headers) k ≡ (contains headers k || some_has_key rows k)
unfolding collect
contains-collect [] headers k = sym (or_false_right (contains headers k))
contains-collect (row ∷ rows) headers k =
    contains-collect rows (add_keys row headers) k
    ∙ (ap (λ (b : Bool). b || some_has_key rows k) (contains-add_keys row headers k)
        ∙ or_assoc (contains headers k) (has_key row k) (some_has_key rows k))

length-map : {A B : Type 0} (f : A → B) (xs : List A) → length (map f xs) ≡ length xs
length-map f [] = refl
length-map f (x ∷ xs) = omega (arith, length-map f xs)

rows-width :
    (hs : List Text) (rows : List Row)
    → All (λ (r : List Text). length r ≡ length hs) (map (λ (row : Row). map (cell_of row) hs) rows)
rows-width hs [] = tt
rows-width hs (row ∷ rows) = (length-map (cell_of row) hs, rows-width hs rows)

-- The rows of a matrix have one width.
abbrev pub IsRectangular : List (List Text) → Type 0
IsRectangular [] = Unit
IsRectangular (r ∷ rs) = All (λ (s : List Text). length s ≡ length r) rs

matrix_of-IsRectangular : (hs : List Text) (rows : List Row) → IsRectangular (matrix_of hs rows)
unfolding matrix_of
matrix_of-IsRectangular [] rows = tt
matrix_of-IsRectangular (h ∷ hs) rows = rows-width (h ∷ hs) rows

-- The columns that are collected from the rows are exactly the keys of the rows, and the rows of the
-- matrix, with that of the headers, all have one width.
pub matrix_shape :
    (rows : List Row)
    → ((k : Text) → contains (collect rows []) k ≡ some_has_key rows k)
      × IsRectangular (matrix rows)
unfolding matrix contains
matrix_shape rows =
    (λ k. contains-collect rows [] k, matrix_of-IsRectangular (collect rows []) rows)
