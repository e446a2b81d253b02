-- ===== src/Storage/Objects.antt =====
-- `LocalRawStore` of src/storage/object_store.py: the files under its root, each with its bytes.
-- SHA-256, `canonicalize_url` (`none` where it raises), the day of an instant as a path, the media type in
-- lower letters, the JSON of the metadata and the process identifier are parameters. A write that is not
-- disturbed puts its temporary file in place by a rename, so it is one step here; a temporary file that is
-- there when it begins was left by a process of the same identifier. Other errors of the file system are
-- not modelled.
pub mod Writing
pub mod Evidence
use ai_internship_demo_task.Prelude.{
  ℕ, Bool, true, false, Option, none, some, List, [], ◌∷◌, ◌++◌, if◌then◌else◌,
}
use ai_internship_demo_task.Prelude.Eq.{same, nat_eq, list_eq}
use ai_internship_demo_task.Prelude.Dict.{lookup, insert}
use ai_internship_demo_task.Prelude.Text.{Text, codes}
use ai_internship_demo_task.Fetch.Client.{RawResponse}

pub record RawDocument : Type 0 where
  pub raw_document_id : Text
  pub source_id : Text
  pub original_url : Text
  pub canonical_url : Text
  pub content_hash : Text
  pub retrieved_at : ℕ
  pub status_code : ℕ
  pub headers : List (Text × Text)
  pub storage_key : Text
  pub content_type : Option Text

abbrev pub Files : Type 0
Files = List (Text × Text)

abbrev pub extensions : List (Text × Text)
extensions =
    (codes "application/atom+xml", codes ".xml")
    ∷ (codes "application/xml", codes ".xml")
    ∷ (codes "text/xml", codes ".xml")
    ∷ (codes "application/json", codes ".json")
    ∷ (codes "text/html", codes ".html")
    ∷ []

-- destination.with_suffix(f"{destination.suffix}.tmp-{os.getpid()}"), where the path has a suffix
unfoldable pub temporary_of : Text → Text → Text
temporary_of pid path = path ++ (codes ".tmp-" ++ pid)

unfoldable pub unlink : Text → Files → Files
unlink path [] = []
unlink path ((k, content) ∷ files) =
    let rest = unlink path files in if same k path then rest else (k, content) ∷ rest

-- `_persist_sync`, from what stands at the destination and at the temporary file. A temporary file that
-- is there raises `FileExistsError`: nothing is written, and the `finally` removes it.
unfoldable pub write_new : Option Text → Option Text → Text → Text → Text → Files → Files
write_new (some old) left temporary path payload files = files
write_new none none temporary path payload files = insert path payload files
write_new none (some left) temporary path payload files = unlink temporary files

unfoldable pub persist_sync : Text → Text → Text → Files → Files
persist_sync pid path payload files =
    let temporary = temporary_of pid path in
    write_new (lookup path files) (lookup temporary files) temporary path payload files

module _ (sha256 : Text → Text) (canonicalize_url : Text → Option Text) (day_path : ℕ → Text)
    (media_type : Option Text → Text) (metadata : RawDocument → Text) (pid : Text) where
  -- `deterministic_raw_document_id`
  unfoldable pub deterministic_raw_document_id : Text → Text → Text → Text
  deterministic_raw_document_id source_id canonical_url hash_value =
      sha256 (source_id ++ (0x1f ∷ (canonical_url ++ (0x1f ∷ hash_value))))

  -- `_extension_for`
  unfoldable pub extension_for : Option Text → Text
  extension_for content_type = elim (lookup (media_type content_type) extensions) [
    | some e ↦ e
    | none ↦ codes ".bin"
  ]

  unfoldable pub relative_directory : Text → RawResponse → Text
  relative_directory source_id r = source_id ++ (b'/' ∷ (day_path r.retrieved_at ++ (b'/' ∷ [])))

  -- The `RawDocument` of `put`, with its canonical URL.
  unfoldable pub document_of : Text → RawResponse → Text → RawDocument
  document_of source_id r canonical_url =
      let hash_value = sha256 r.body in
      let content_type = lookup (codes "content-type") r.headers in
      record {
        raw_document_id = deterministic_raw_document_id source_id canonical_url hash_value;
        source_id = source_id;
        original_url = r.request_url;
        canonical_url = canonical_url;
        content_hash = hash_value;
        retrieved_at = r.retrieved_at;
        status_code = r.status_code;
        headers = r.headers;
        storage_key = relative_directory source_id r ++ (hash_value ++ extension_for content_type);
        content_type = content_type;
      }

  unfoldable pub metadata_path : Text → RawResponse → Text
  metadata_path source_id r =
      relative_directory source_id r ++ (sha256 r.body ++ codes ".metadata.json")

  -- The two writes of `put`.
  unfoldable pub store_document : Text → RawResponse → RawDocument → Files → Files
  store_document source_id r document files =
      persist_sync pid (metadata_path source_id r) (metadata document)
        (persist_sync pid document.storage_key r.body files)

  -- `put` from the canonical URL on.
  unfoldable pub put_found : Option Text → Text → RawResponse → Files → Option (RawDocument × Files)
  put_found none source_id r files = none
  put_found (some canonical_url) source_id r files =
      let document = document_of source_id r canonical_url in
      some (document, store_document source_id r document files)

  -- `put`; `none` where `canonicalize_url` raises
  unfoldable pub put : Text → RawResponse → Files → Option (RawDocument × Files)
  put source_id r files = put_found (canonicalize_url r.response_url) source_id r files

-- `read_bytes`; `none` where the file is missing
unfoldable pub read_bytes : RawDocument → Files → Option Text
read_bytes document files = lookup document.storage_key files
