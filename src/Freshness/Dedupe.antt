-- ===== src/Freshness/Dedupe.antt =====
-- `DedupeIndex` and `RedisDedupeIndex` of src/freshness/dedupe.py, with the identities of
-- src/parsing/identity.py. A set is a list of its members; the sorting of the file forgets their order.
-- `canonicalize_url` (`none` where it raises), SHA-256 and `casefold` are parameters. The Redis database
-- is the set of its keys, and the script is one step, as Redis runs it.
pub mod Claims
pub mod Distributed
use ai_internship_demo_task.Prelude.{
  ℕ, Bool, true, false, ◌||◌, ◌==◌, Option, none, some, List, [], ◌∷◌, ◌++◌, if◌then◌else◌,
}
use ai_internship_demo_task.Prelude.Result.{Result, ok, raise}
use ai_internship_demo_task.Prelude.Eq.{nat_eq, list_eq}
use ai_internship_demo_task.Prelude.Dict.{contains}
use ai_internship_demo_task.Prelude.Text.{Text, codes, is_space, is_empty, join}

pub record DedupeIndex : Type 0 where
  pub source_ids_by_url : List Text
  pub content_hashes : List Text
  -- whether there is a path, and what the file at it holds
  pub has_path : Bool
  pub file : Option (List Text × List Text)

-- s.add(x)
unfoldable pub set_add : Text → List Text → List Text
set_add x s = if contains s x then s else x ∷ s

-- s.update(xs)
unfoldable pub set_update : List Text → List Text → List Text
set_update [] s = s
set_update (x ∷ xs) s = set_update xs (set_add x s)

-- The constructor, from what the file at the path holds, if there is one.
unfoldable pub open_index : Bool → Option (List Text × List Text) → DedupeIndex
open_index has_path none = record {
  source_ids_by_url = [];
  content_hashes = [];
  has_path = has_path;
  file = none;
}
open_index has_path (some (urls, hashes)) = record {
  source_ids_by_url = set_update urls [];
  content_hashes = set_update hashes [];
  has_path = has_path;
  file = some (urls, hashes);
}

unfoldable pub persist : DedupeIndex → DedupeIndex
persist i =
    if i.has_path then record i { file = some (i.source_ids_by_url, i.content_hashes) } else i

-- `check_and_add` from the two keys on.
unfoldable pub claim : Text → Text → DedupeIndex → Bool × DedupeIndex
unfolding persist
claim url_key hash_key i =
    if contains i.source_ids_by_url url_key || contains i.content_hashes hash_key
    then (false, i)
    else (
      true,
      persist (record i {
        source_ids_by_url = set_add url_key i.source_ids_by_url;
        content_hashes = set_add hash_key i.content_hashes;
      }),
    )

-- s.split(), with the word that is being read
unfoldable pub words_from : Text → Text → List Text
words_from word [] = if is_empty word then [] else word ∷ []
words_from word (c ∷ s) =
    let ended = words_from [] s in
    let read = words_from (word ++ c ∷ []) s in
    if is_space c then (if is_empty word then ended else word ∷ ended) else read

-- `EXISTS` twice, then `SET` twice: the answer of the script and the database after it.
unfoldable pub claim_script : Text → Text → List Text → ℕ × List Text
claim_script key1 key2 db =
    if contains db key1 || contains db key2 then (0, db) else (1, set_add key2 (set_add key1 db))

unfoldable pub url_name : Text → Text → Text
url_name namespace id = namespace ++ (codes ":url:" ++ id)

unfoldable pub content_name : Text → Text → Text
content_name namespace id = namespace ++ (codes ":content:" ++ id)

-- `RedisDedupeIndex.check_and_add` from the two identities on.
unfoldable pub claim_redis : Text → Text → Text → List Text → Bool × List Text
claim_redis namespace url_id hash_id db =
    let (claimed, db') =
      claim_script (url_name namespace url_id) (content_name namespace hash_id) db in
    (claimed == 1, db')

module _ (sha256 casefold : Text → Text) (canonicalize_url : Text → Option Text) where
  unfoldable pub deterministic_record_id : Text → Text → Text
  deterministic_record_id source_id canonical_url = sha256 (source_id ++ (0x1f ∷ canonical_url))

  unfoldable pub normalize_content : Text → Text
  normalize_content content = casefold (join (codes " ") (words_from [] content))

  unfoldable pub content_key : Text → Text
  content_key content = sha256 (normalize_content content)

  -- `none` where `canonicalize_url` raises
  unfoldable pub check_and_add : Text → Text → Text → DedupeIndex → Option (Bool × DedupeIndex)
  check_and_add source_id url content i = elim (canonicalize_url url) [
    | none ↦ none
    | some canonical ↦
        some (claim (deterministic_record_id source_id canonical) (content_key content) i)
  ]

  unfoldable pub check_and_add_redis :
      Text → Text → Text → Text → List Text → Option (Bool × List Text)
  check_and_add_redis namespace source_id url content db = elim (canonicalize_url url) [
    | none ↦ none
    | some canonical ↦ some (
        claim_redis namespace (deterministic_record_id source_id canonical) (content_key content)
          db)
  ]
