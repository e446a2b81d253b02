-- ===== src/Schemas/Common.antt =====
-- src/schemas/common.py: the fields that every canonical record has, with the checks of their classes. That
-- a text is an absolute HTTP URL is a parameter, pydantic's `AnyHttpUrl`. Instants have a time zone, so the
-- two checks for one have no branch.
use ai_internship_demo_task.Prelude.{ℕ, ◌==◌, ◌&&◌, ◌||◌, Bool, true, [], ◌∷◌, length, leb, not}
use ai_internship_demo_task.Prelude.Eq.{same, nat_eq, list_eq}
use ai_internship_demo_task.Prelude.Text.{Text, codes, is_empty}
use ai_internship_demo_task.Prelude.Json.{Fields}

pub record SourceReference : Type 0 where
  pub name : Text
  pub url : Text
  pub canonical_url : Text

pub record Provenance : Type 0 where
  pub retrieved_at : ℕ
  pub content_hash : Text
  pub raw_document_id : Text
  pub extraction_method : Text
  pub extraction_metadata : Fields
  pub validation_status : Text

pub record CanonicalRecord : Type 0 where
  pub record_id : Text
  pub schema_version : Text
  pub source : SourceReference
  pub collected_at : ℕ
  pub provenance : Provenance

-- [a-f0-9]
unfoldable pub is_hex : ℕ → Bool
is_hex c = (leb b'a' c && leb c b'f') || (leb b'0' c && leb c b'9')

unfoldable pub all_hex : Text → Bool
all_hex [] = true
all_hex (c ∷ s) = is_hex c && all_hex s

-- `SHA256_RE.fullmatch`
unfoldable pub is_sha256 : Text → Bool
is_sha256 s = (length s == 64) && all_hex s

unfoldable pub provenance_ok : Provenance → Bool
provenance_ok p =
    is_sha256 p.content_hash
    && not (is_empty p.raw_document_id)
    && same p.extraction_method (codes "deterministic")
    && same p.validation_status (codes "VALID")

module _ (is_http_url : Text → Bool) where
  unfoldable pub source_ok : SourceReference → Bool
  source_ok s =
      not (is_empty s.name)
      && leb (length s.name) 200
      && is_http_url s.url
      && is_http_url s.canonical_url

  unfoldable pub canonical_ok : CanonicalRecord → Bool
  canonical_ok r =
      not (is_empty r.record_id)
      && same r.schema_version (codes "1.0")
      && source_ok r.source
      && provenance_ok r.provenance
