-- ===== src/Prelude/Text.antt =====
-- Python's `str` as a list of code points, with the methods that the program calls.
use mathlib.Core.Bool.{Bool, true, false, ◌&&◌, ◌||◌}
use mathlib.Core.List.{List, [], ◌∷◌, ◌++◌, append_assoc, append-nil}
use mathlib.Core.Path.{◌≡◌, refl, sym, ap, ◌∙◌}
use native.Mathlib.Omega.{arith}
use Prim.Native.Char.{code}
use Prim.Native.String.{String}
use Prim.Native.Nat.{ℕ, zero, suc, ◌+◌, ◌*◌, ◌/◌, ◌%◌}
use ai_internship_demo_task.Prelude.Tests.{ltb, leb, ◌==◌, if◌then◌else◌}
use ai_internship_demo_task.Prelude.Lists.{length, length-append}

abbrev pub Text : Type 0
Text = List ℕ

-- The code points of a quoted text.
abbrev pub codes : String → Text
codes String.[] = []
codes (String.◌∷◌ c s) = code c ∷ codes s

-- `str.isspace` on one character, which is also what `\s` matches.
unfoldable pub is_space : ℕ → Bool
is_space c =
    (leb 9 c && leb c 13)
    || (leb 28 c && leb c 32)
    || c == 133
    || c == 160
    || c == 0x1680
    || (leb 0x2000 c && leb c 0x200a)
    || c == 0x2028
    || c == 0x2029
    || c == 0x202f
    || c == 0x205f
    || c == 0x3000

-- The characters at which `str.splitlines` breaks.
unfoldable pub is_line_break : ℕ → Bool
is_line_break c =
    (leb 10 c && leb c 13) || (leb 28 c && leb c 30) || c == 133 || c == 0x2028 || c == 0x2029

unfoldable pub lstrip : Text → Text
lstrip [] = []
lstrip (c ∷ s) = if is_space c then lstrip s else c ∷ s

abbrev pub is_empty {ℓ} : {A : Type ℓ} → List A → Bool
is_empty [] = true
is_empty (_ ∷ _) = false

unfoldable pub rstrip : Text → Text
rstrip [] = []
rstrip (c ∷ s) = let rest = rstrip s in if is_space c && is_empty rest then [] else c ∷ rest

unfoldable pub strip : Text → Text
unfolding lstrip rstrip
strip s = rstrip (lstrip s)

-- `splitlines` with the line read so far; after a carriage return a line feed is passed over.
unfoldable pub lines_from : Bool → Text → Text → List Text
lines_from after_cr [] [] = []
lines_from after_cr (c ∷ line) [] = (c ∷ line) ∷ []
lines_from after_cr line (c ∷ s) =
    let skipped = lines_from false line s in
    let broken = line ∷ lines_from (c == 13) [] s in
    let read = lines_from false (line ++ c ∷ []) s in
    if after_cr && c == 10 then skipped else if is_line_break c then broken else read

unfoldable pub splitlines : Text → List Text
unfolding lines_from is_line_break
splitlines s = lines_from false [] s

-- sep.join(parts)
unfoldable pub join : Text → List Text → Text
join sep [] = []
join sep (p ∷ []) = p
join sep (p ∷ q ∷ ps) = p ++ (sep ++ join sep (q ∷ ps))

-- str(n), with fuel above the number of digits.
unfoldable pub decimal_fuel : ℕ → ℕ → Text → Text
decimal_fuel zero n acc = acc
decimal_fuel (suc f) n acc =
    let acc' = (n % 10 + 48) ∷ acc in
    let more = decimal_fuel f (n / 10) acc' in if ltb n 10 then acc' else more

unfoldable pub decimal : ℕ → Text
unfolding decimal_fuel
decimal n = decimal_fuel (suc n) n []

-- The characters that are no white space.
unfoldable pub dense : Text → Text
dense [] = []
dense (c ∷ s) = if is_space c then dense s else c ∷ dense s

pub dense-append : (s t : Text) → dense (s ++ t) ≡ dense s ++ dense t
unfolding dense
dense-append [] t = refl
dense-append (c ∷ s) t = ground (arith, dense-append s t)

pub dense-lstrip : (s : Text) → dense (lstrip s) ≡ dense s
unfolding dense lstrip
dense-lstrip [] = refl
dense-lstrip (c ∷ s) = ground (arith, dense-lstrip s)

pub dense-rstrip : (s : Text) → dense (rstrip s) ≡ dense s
unfolding dense rstrip
dense-rstrip [] = refl
dense-rstrip (c ∷ s) = ground (arith, dense-rstrip s)

pub dense-strip : (s : Text) → dense (strip s) ≡ dense s
unfolding strip
dense-strip s = dense-rstrip (lstrip s) ∙ dense-lstrip s

abbrev pub concat {ℓ} : {A : Type ℓ} → List (List A) → List A
concat [] = []
concat (s ∷ ss) = s ++ concat ss

pub concat-append {ℓ} :
    {A : Type ℓ} (ss ts : List (List A)) → concat (ss ++ ts) ≡ concat ss ++ concat ts
concat-append [] ts = refl
concat-append (s ∷ ss) ts = ap (◌++◌ s) (concat-append ss ts) ∙ sym (append_assoc s _ _)

-- A join by white space keeps all other characters, in order.
pub dense-join :
    (sep : Text) → dense sep ≡ [] → (ps : List Text) → dense (join sep ps) ≡ dense (concat ps)
unfolding join
dense-join sep blank [] = refl
dense-join sep blank (p ∷ []) = rw append-nil
dense-join sep blank (p ∷ q ∷ ps) = simp (dense-append, blank, dense-join sep blank (q ∷ ps))

-- The length of a join of `n + 1` parts.
abbrev pub total_length : List Text → ℕ
total_length [] = 0
total_length (p ∷ ps) = length p + total_length ps

pub length-join :
    (sep p : Text) (ps : List Text)
    → length (join sep (p ∷ ps)) ≡ total_length (p ∷ ps) + length ps * length sep
unfolding join
length-join sep p [] = omega arith
length-join sep p (q ∷ ps) = omega (
  arith,
  length-append p (sep ++ join sep (q ∷ ps)),
  length-append sep (join sep (q ∷ ps)),
  length-join sep q ps,
)
