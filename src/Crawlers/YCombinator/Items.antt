-- ===== src/Crawlers/YCombinator/Items.antt =====
-- The candidate of an item of JSON-LD, of src/crawlers/startup/ycombinator.py.
use ai_internship_demo_task.Prelude.{
  ℕ, ◌&&◌, Bool, true, false, not, Option, none, some, List, [], ◌∷◌, leb, length, take, String,
  if◌then◌else◌,
}
use ai_internship_demo_task.Prelude.Eq.{nat_eq, list_eq}
use ai_internship_demo_task.Prelude.Dict.{contains}
use ai_internship_demo_task.Prelude.Result.{Result, ok, raise}
use ai_internship_demo_task.Prelude.Int.{pos, int_eq}
use ai_internship_demo_task.Prelude.Text.{Text, codes, strip, is_empty, join}
use ai_internship_demo_task.Prelude.Json.{
  Value, null, bool, num, str, arr, obj, no_elements, element, Fields, field, end, get,
}
use ai_internship_demo_task.Crawlers.Candidates.{StartupCandidate}

-- bool(value)
unfoldable pub is_truthy : Value → Bool
is_truthy null = false
is_truthy (bool b) = b
is_truthy (num n) = not (int_eq n (pos 0))
is_truthy (str s) = not (is_empty s)
is_truthy (arr no_elements) = false
is_truthy (arr (element v vs)) = true
is_truthy (obj end) = false
is_truthy (obj (field k v fs)) = true

-- The stripped text, if it is one and not blank.
unfoldable pub string : Option Value → Option Text
string (some (str s)) = if is_empty (strip s) then none else some (strip s)
string _ = none

abbrev pub organization_types : List Text
organization_types = codes "Organization" ∷ codes "Corporation" ∷ codes "LocalBusiness" ∷ []

unfoldable pub add_part : Option Text → List Text → List Text
add_part none parts = parts
add_part (some part) parts = part ∷ parts

unfoldable pub or_none : Text → Option Text
or_none s = if is_empty s then none else some s

-- `_address_text`
unfoldable pub address_text : Option Value → Option Text
address_text (some (str s)) = or_none (strip s)
address_text (some (obj fs)) = or_none (
    join (codes ", ") (
      add_part (string (get "streetAddress" fs)) (
        add_part (string (get "addressLocality" fs)) (
          add_part (string (get "addressRegion" fs))
            (add_part (string (get "addressCountry" fs)) [])))))
address_text _ = none

-- An int that is not negative; a bool is an int.
unfoldable pub count_of : Option Value → Option Value
count_of (some (num (pos n))) = some (num (pos n))
count_of (some (bool b)) = some (bool b)
count_of _ = none

unfoldable pub or_count : Option Value → Option Value → Option Value
or_count none b = b
or_count (some a) b = some a

-- `_employee_count`
unfoldable pub employee_count : Option Value → Option Value
employee_count (some (obj fs)) = or_count (count_of (get "value" fs)) (count_of (get "minValue" fs))
employee_count v = count_of v

unfoldable pub in_range : ℕ → Option ℕ
in_range n = if leb 1800 n && leb n 2100 then some n else none

unfoldable pub year_of : Option ℕ → Option ℕ
year_of none = none
year_of (some n) = in_range n

module _ (int_of : Text → Option ℕ) where
  -- `_year`; `int_of` is the number of four digits, `none` for a text that is none
  unfoldable pub year : Option Value → Option ℕ
  year (some (num (pos n))) = in_range n
  year (some (str s)) = if leb 4 (length s) then year_of (int_of (take 4 s)) else none
  year _ = none

-- A key of `data`, unless its value is `None`.
unfoldable pub add_text : String → Option Text → Fields → Fields
add_text k none fs = fs
add_text k (some s) fs = field k (str s) fs

unfoldable pub add_number : String → Option ℕ → Fields → Fields
add_number k none fs = fs
add_number k (some n) fs = field k (num (pos n)) fs

unfoldable pub add_value : String → Option Value → Fields → Fields
add_value k none fs = fs
add_value k (some v) fs = field k v fs

-- Whether a value is in the set of types; a list or a dict has no hash, a `TypeError`.
pub data Membership : Type 0 where
  member stranger unhashable : Membership

unfoldable pub membership : Option Value → Membership
membership (some (str t)) = if contains organization_types t then member else stranger
membership (some (arr vs)) = unhashable
membership (some (obj fs)) = unhashable
membership _ = stranger

-- The `TypeError`.
pub data Error : Type 0 where
  type_error : Error

module _ (canonicalize_url : Text → Option Text) (int_of : Text → Option ℕ) where
  unfoldable pub candidate_of : Fields → Text → Text → Option Text → Option StartupCandidate
  candidate_of item name url none = none
  candidate_of item name url (some canonical) = some (record {
    original_url = url;
    canonical_url = canonical;
    entity_name = name;
    attributes = add_text "description" (string (get "description" item)) (
        add_text "headquarters" (address_text (get "address" item)) (
          add_text "website" (string (get "sameAs" item)) (
            add_number "foundedYear" (year int_of (get "foundingDate" item)) (
              add_value "employeeCount" (employee_count (get "numberOfEmployees" item))
                (field "rawEntityName" (str name) end)))));
  })

  -- From the name and the URL.
  unfoldable pub candidate_with : Fields → Option Text → Option Value → Option StartupCandidate
  candidate_with item (some name) (some (str url)) =
      candidate_of item name url (canonicalize_url url)
  candidate_with item _ _ = none

  unfoldable pub candidate_typed : Membership → Fields → Result Error (Option StartupCandidate)
  candidate_typed member item = ok (candidate_with item (string (get "name" item)) (get "url" item))
  candidate_typed stranger item = ok none
  candidate_typed unhashable item = raise type_error

  -- `_candidate_from_json_ld`
  unfoldable pub candidate_from_json_ld : Fields → Result Error (Option StartupCandidate)
  candidate_from_json_ld item = candidate_typed (membership (get "@type" item)) item
