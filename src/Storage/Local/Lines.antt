-- ===== src/Storage/Local/Lines.antt =====
-- The lines of a repository's files and the values that they are read back as.
use ai_internship_demo_task.Prelude.{
  ℕ, true, false, Option, some, List, [], ◌∷◌, ◌++◌, ◌≡◌, refl, ap, ◌∙◌, sym, All, append_assoc,
  append-nil,
}
use ai_internship_demo_task.Prelude.Eq.{list_eq, nat_eq}
use ai_internship_demo_task.Prelude.Text.{
  Text, is_line_break, lines_from, splitlines, strip, is_empty,
}
use ai_internship_demo_task.Prelude.Json.{Value}
use ai_internship_demo_task.Storage.Local.{items_of}

abbrev Unbroken : Text → Type 0
Unbroken s = All (λ (c : ℕ). is_line_break c ≡ false) s

feed_breaks : is_line_break 10 ≡ true
unfolding is_line_break
feed_breaks = refl

pub lines_from-line :
    (before line rest : Text)
    → Unbroken line
    → lines_from false before (line ++ (10 ∷ rest)) ≡ (before ++ line) ∷ lines_from false [] rest
unfolding lines_from
lines_from-line [] [] rest h = rw feed_breaks refl
lines_from-line (b ∷ before) [] rest h =
    rw feed_breaks (ap (λ (l : Text). l ∷ lines_from false [] rest) (sym (append-nil (b ∷ before))))
lines_from-line [] (c ∷ line) rest h = rw h.0 (lines_from-line (c ∷ []) line rest h.1)
lines_from-line (b ∷ before) (c ∷ line) rest h = rw h.0 (
    lines_from-line (b ∷ (before ++ c ∷ [])) line rest h.1
    ∙ ap (λ (l : Text). (b ∷ l) ∷ lines_from false [] rest) (append_assoc before (c ∷ []) line))

-- The JSON text of a value is one line that is not blank, and is read back as the value.
pub record Clean (dumps : Value → Text) (loads : Text → Option Value) (v : Value) : Type 0 where
  pub unbroken : All (λ (c : ℕ). is_line_break c ≡ false) (dumps v)
  pub visible : is_empty (strip (dumps v)) ≡ false
  pub read_back : loads (dumps v) ≡ some v

abbrev pub text_of : {A : Type 0} → (A → Text) → List A → Text
text_of dumps [] = []
text_of dumps (v ∷ vs) = dumps v ++ (10 ∷ text_of dumps vs)

-- The lines that a file gets are read back as the values that they were written for.
pub items_of-text_of :
    (dumps : Value → Text) (loads : Text → Option Value) (vs : List Value)
    → All (Clean dumps loads) vs
    → items_of dumps loads (splitlines (text_of dumps vs)) ≡ vs
unfolding splitlines items_of
items_of-text_of dumps loads [] h = refl
items_of-text_of dumps loads (v ∷ vs) h =
    rw (lines_from-line [] (dumps v) (text_of dumps vs) h.0.unbroken, h.0.visible, h.0.read_back)
      (ap (◌∷◌ v) (items_of-text_of dumps loads vs h.1))

pub text_of-snoc :
    {A : Type 0} (dumps : A → Text) (vs : List A) (v : A)
    → text_of dumps (vs ++ v ∷ []) ≡ text_of dumps vs ++ (dumps v ++ 10 ∷ [])
text_of-snoc dumps [] v = refl
text_of-snoc dumps (w ∷ vs) v =
    ap (λ (s : Text). dumps w ++ (10 ∷ s)) (text_of-snoc dumps vs v)
    ∙ sym (append_assoc (dumps w) (10 ∷ text_of dumps vs) (dumps v ++ 10 ∷ []))
