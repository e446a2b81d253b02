-- ===== src/Prelude/Json.antt =====
-- JSON values as Python holds them: `dict` keeps its keys in the order of insertion. Numbers are
-- integers; the program computes with no others in such values.
use mathlib.Core.Bool.{Bool, true, false, ◌&&◌}
use mathlib.Core.Option.{Option, none, some}
use Prim.Native.Nat.{ℕ, suc}
use Prim.Native.String.{String}
use text.Mathlib.Text.{◌==◌ as str_eq}
use text.Mathlib.TextEquality.{eq_iff}
use mathlib.Core.Path.{◌≡◌, refl}
use native.Mathlib.Omega.{arith}
use ai_internship_demo_task.Prelude.Tests.{◌==◌, if◌then◌else◌}
use ai_internship_demo_task.Prelude.Eq.{same, nat_eq, list_eq}
use ai_internship_demo_task.Prelude.Text.{Text}
use ai_internship_demo_task.Prelude.Int.{ℤ, pos, int_eq}

mutual
  pub data Value : Type 0 where
    null : Value
    bool : Bool → Value
    num : ℤ → Value
    str : Text → Value
    arr : Elements → Value
    obj : Fields → Value

  pub data Elements : Type 0 where
    no_elements : Elements
    element : Value → Elements → Elements

  pub data Fields : Type 0 where
    end : Fields
    field : String → Value → Fields → Fields

-- d.get(k), with `none` for a missing key
unfoldable pub get : String → Fields → Option Value
get k end = none
get k (field j v fs) = if str_eq j k then some v else get k fs

-- d[k] = v
unfoldable pub put : String → Value → Fields → Fields
put k v end = field k v end
put k v (field j w fs) = if str_eq j k then field j v fs else field j w (put k v fs)

pub get-put :
    (k j : String) (v : Value) (fs : Fields)
    → get j (put k v fs) ≡ (if str_eq k j then some v else get j fs)
unfolding get put
get-put k j v end = refl
get-put k j v (field i w fs) = ground (arith, eq_iff k j, eq_iff i k, eq_iff i j, get-put k j v fs)

abbrev pub field_count : Fields → ℕ
field_count end = 0
field_count (field k v fs) = suc (field_count fs)

abbrev pub bool_int : Bool → ℤ
bool_int true = pos 1
bool_int false = pos 0

-- `==`: a bool is the number 0 or 1, and the order of a dict's keys does not count.
unfoldable mutual
  pub eq_value : Value → Value → Bool
  eq_value null null = true
  eq_value (bool a) (bool b) = int_eq (bool_int a) (bool_int b)
  eq_value (bool a) (num n) = int_eq (bool_int a) n
  eq_value (num n) (bool b) = int_eq n (bool_int b)
  eq_value (num n) (num m) = int_eq n m
  eq_value (str s) (str t) = same s t
  eq_value (arr xs) (arr ys) = eq_items xs ys
  eq_value (obj fs) (obj gs) = (field_count fs == field_count gs) && in_fields fs gs
  eq_value _ _ = false

  pub eq_items : Elements → Elements → Bool
  eq_items no_elements no_elements = true
  eq_items (element x xs) (element y ys) = eq_value x y && eq_items xs ys
  eq_items _ _ = false

  pub in_fields : Fields → Fields → Bool
  in_fields end gs = true
  in_fields (field k v fs) gs = elim (get k gs) [
    | none ↦ false
    | some w ↦ eq_value v w && in_fields fs gs
  ]
