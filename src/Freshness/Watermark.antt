-- ===== src/Freshness/Watermark.antt =====
-- `WatermarkStore` of src/freshness/watermark.py. A datetime is an instant, as in Freshness.Policies. The
-- file is what the store wrote last: the dict that `json.dumps` puts into it, with texts for the dates.
-- `isoformat` and `fromisoformat` are parameters.
pub mod Latest
use ai_internship_demo_task.Prelude.{
  ℕ, Option, none, some, List, [], ◌∷◌, map, String, leb, if◌then◌else◌,
}
use ai_internship_demo_task.Prelude.Result.{Result, ok, raise}
use ai_internship_demo_task.Prelude.Eq.{string_eq}
use ai_internship_demo_task.Prelude.Dict.{lookup, insert}

pub record WatermarkStore : Type 0 where
  pub values : List (String × ℕ)
  pub file : Option (List (String × String))

abbrev pub empty : WatermarkStore
empty = record { values = []; file = none }

-- `ValueError` of `fromisoformat`
pub data LoadError : Type 0 where
  bad_date : LoadError

unfoldable pub get_watermark : String → WatermarkStore → Option ℕ
get_watermark source_id s = lookup source_id s.values

module _ (isoformat : ℕ → String) where
  -- The payload that `_persist` writes.
  unfoldable pub payload_of : List (String × ℕ) → List (String × String)
  payload_of [] = []
  payload_of ((source_id, value) ∷ values) = (source_id, isoformat value) ∷ payload_of values

  unfoldable pub persist : WatermarkStore → WatermarkStore
  persist s = record s { file = some (payload_of s.values) }

  -- `advance`, from the current value.
  unfoldable pub advance_from : Option ℕ → String → ℕ → WatermarkStore → WatermarkStore
  advance_from none source_id value s =
      persist (record s { values = insert source_id value s.values })
  advance_from (some current) source_id value s =
      if leb value current
      then s
      else persist (record s { values = insert source_id value s.values })

  unfoldable pub advance : String → ℕ → WatermarkStore → WatermarkStore
  advance source_id value s = advance_from (lookup source_id s.values) source_id value s

  unfoldable pub advance_all : List (String × ℕ) → WatermarkStore → WatermarkStore
  advance_all [] s = s
  advance_all ((source_id, value) ∷ rest) s = advance_all rest (advance source_id value s)

module _ (fromisoformat : String → Option ℕ) where
  -- The loop of `_load`.
  unfoldable pub load_from :
      List (String × String) → List (String × ℕ) → Result LoadError (List (String × ℕ))
  load_from [] values = ok values
  load_from ((source_id, value) ∷ payload) values = elim (fromisoformat value) [
    | none ↦ raise bad_date
    | some found ↦ load_from payload (insert source_id found values)
  ]

  -- The constructor on a path whose file has this payload, if it exists.
  unfoldable pub open_store : Option (List (String × String)) → Result LoadError WatermarkStore
  open_store none = ok empty
  open_store (some payload) = elim (load_from payload []) [
    | ok values ↦ ok (record { values = values; file = some payload })
    | raise e ↦ raise e
  ]
