-- ===== src/Storage/Objects/Evidence.antt =====
-- What the raw store keeps.
use ai_internship_demo_task.Prelude.{
  ℕ, ◌≤◌, ◌<◌, Option, none, some, List, All, [], ◌∷◌, ◌++◌, ◌≡◌, ◌≢◌, ap, sym, ◌∙◌, arith, length,
  length-append, Bool-cases, Option-cases, inl, inr,
}
use ai_internship_demo_task.Prelude.Eq.{same, nat_eq, list_eq}
use ai_internship_demo_task.Prelude.Dict.{lookup}
use ai_internship_demo_task.Prelude.Text.{Text, codes}
use ai_internship_demo_task.Fetch.Client.{RawResponse}
use ai_internship_demo_task.Storage.Objects.{
  extensions, RawDocument, Files, temporary_of, persist_sync, extension_for, put, put_found,
  store_document, document_of, metadata_path, relative_directory, read_bytes,
}
use ai_internship_demo_task.Storage.Objects.Writing.{
  ExtendsBut, written, persist_sync-other, persist_sync-there, persist_sync-ExtendsBut,
}

lookup-short :
    (key found : Text) (table : List (Text × Text))
    → All (λ (p : Text × Text). length p.1 ≤ 5) table
    → lookup key table ≡ some found
    → length found ≤ 5
unfolding lookup
lookup-short key found [] h e = absurd (cc)
lookup-short key found ((k, v) ∷ table) h e = elim (Bool-cases (same k key)) [
  | inl f ↦
      let p : ◌≡◌ {A = Option Text} (some v) (some found) = rw f at e in
      let q : v ≡ found = cc in rw (sym q) h.0
  | inr f ↦ lookup-short key found table h.1 (rw f at e)
]

module _ (sha256 : Text → Text) (canonicalize_url : Text → Option Text) (day_path : ℕ → Text)
    (media_type : Option Text → Text) (metadata : RawDocument → Text) (pid : Text) where
  extension_for-short :
      (content_type : Option Text)
      → length (extension_for sha256 canonicalize_url day_path media_type metadata pid content_type)
        ≤ 5
  unfolding extension_for
  extension_for-short content_type =
      elim (Option-cases (lookup (media_type content_type) extensions)) [
        | inl e ↦ rw (extension_for, e) (omega arith)
        | inr (found, e) ↦
            rw (extension_for, e)
              (lookup-short (media_type content_type) found extensions
                (omega arith, (omega arith, (omega arith, (omega arith, (omega arith, tt))))) e)
      ]

  abbrev metadata_at : Text → RawResponse → Text
  metadata_at source_id r =
      metadata_path sha256 canonicalize_url day_path media_type metadata pid source_id r

  abbrev key_of : Text → RawResponse → Text → Text
  key_of source_id r canonical_url =
      (document_of sha256 canonicalize_url day_path media_type metadata pid source_id r
        canonical_url).storage_key

  -- The name of a document's file is shorter than that of its metadata.
  key_of-short :
      (source_id : Text) (r : RawResponse) (canonical_url : Text)
      → length (key_of source_id r canonical_url) < length (metadata_at source_id r)
  unfolding document_of metadata_path
  key_of-short source_id r canonical_url =
      let dir =
        relative_directory sha256 canonicalize_url day_path media_type metadata pid source_id r in
      let content_type = lookup (codes "content-type") r.headers in
      let extension =
        extension_for sha256 canonicalize_url day_path media_type metadata pid content_type in
      omega (
        arith,
        extension_for-short content_type,
        length-append dir (sha256 r.body ++ extension),
        length-append (sha256 r.body) extension,
        length-append dir (sha256 r.body ++ codes ".metadata.json"),
        length-append (sha256 r.body) (codes ".metadata.json"),
      )

  metadata_at-ne :
      (source_id : Text) (r : RawResponse) (canonical_url : Text)
      → metadata_at source_id r ≢ key_of source_id r canonical_url
  metadata_at-ne source_id r canonical_url e =
      absurd (omega (arith, key_of-short source_id r canonical_url, ap (λ (t : Text). length t) e))

  temporary_of-metadata_at-ne :
      (source_id : Text) (r : RawResponse) (canonical_url : Text)
      → temporary_of pid (metadata_at source_id r) ≢ key_of source_id r canonical_url
  unfolding temporary_of
  temporary_of-metadata_at-ne source_id r canonical_url e = absurd (
      omega (
        arith,
        key_of-short source_id r canonical_url,
        length-append (metadata_at source_id r) (codes ".tmp-" ++ pid),
        ap (λ (t : Text). length t) e,
      ))

  -- What `put` gives, if it does not raise: the files that were there stay, but for the two temporary ones,
  -- and the document's file holds what a write leaves there.
  abbrev pub IsStored : Text → RawResponse → Files → Option (RawDocument × Files) → Type 0
  IsStored source_id r files none = Unit
  IsStored source_id r files (some (document, files')) =
      ExtendsBut (temporary_of pid document.storage_key)
        (temporary_of pid (metadata_at source_id r)) files files'
      × (read_bytes document files'
          ≡ written (read_bytes document files)
              (lookup (temporary_of pid document.storage_key) files) r.body)

  put_found-IsStored :
      (found : Option Text) (source_id : Text) (r : RawResponse) (files : Files)
      → IsStored source_id r files (
          put_found sha256 canonicalize_url day_path media_type metadata pid found source_id r
            files)
  unfolding put_found read_bytes store_document
  put_found-IsStored none source_id r files = tt
  put_found-IsStored (some canonical_url) source_id r files =
      let document =
        document_of sha256 canonicalize_url day_path media_type metadata pid source_id r
          canonical_url in
      let key = document.storage_key in
      let first = persist_sync pid key r.body files in
      (
        λ path content t u h.
            persist_sync-ExtendsBut pid (metadata_at source_id r) (metadata document) path content
              first u (persist_sync-ExtendsBut pid key r.body path content files t h),
        persist_sync-other pid (metadata_at source_id r) (metadata document) key first
              (temporary_of-metadata_at-ne source_id r canonical_url)
              (metadata_at-ne source_id r canonical_url)
            ∙ persist_sync-there pid key r.body files,
      )

  -- Storing a response changes no file that is there already, but for two temporary files of the process. In
  -- the file of the document that is returned stands what stood there before; if it did not exist, the
  -- body of the response, unless a temporary file of this process for it was left over: then the document
  -- is returned although it has no file.
  pub put-IsStored :
      (source_id : Text) (r : RawResponse) (files : Files)
      → IsStored source_id r files
          (put sha256 canonicalize_url day_path media_type metadata pid source_id r files)
  unfolding put
  put-IsStored source_id r files =
      put_found-IsStored (canonicalize_url r.response_url) source_id r files
