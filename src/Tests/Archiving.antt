-- ===== src/Tests/Archiving.antt =====
-- A response that is put into an empty raw store.
use ai_internship_demo_task.Prelude.{ℕ, some, [], ◌∷◌, Option}
use ai_internship_demo_task.Prelude.Text.{Text, codes}
use ai_internship_demo_task.Fetch.Client.{RawResponse}
use ai_internship_demo_task.Storage.Objects.{RawDocument, put}
use ai_internship_demo_task.Storage.Objects.Evidence.{IsStored, put-IsStored}

abbrev pub plain : Text → Text
plain t = t

abbrev pub canonicalize_url : Text → Option Text
canonicalize_url url = some url

abbrev pub day_path : ℕ → Text
day_path t = codes "2026/01/02"

abbrev pub media_type : Option Text → Text
media_type t = codes "text/html"

abbrev pub metadata : RawDocument → Text
metadata d = d.original_url

abbrev pub page : RawResponse
page = record {
  request_url = codes "https://example.org";
  response_url = codes "https://example.org/";
  status_code = 200;
  headers = (codes "content-type", codes "text/html") ∷ [];
  body = codes "Hello";
  retrieved_at = 17;
  attempts = 1;
}

put-IsStored_example :
    IsStored plain canonicalize_url day_path media_type metadata
      (codes "7")
      (codes "news")
      page
      []
      (put plain canonicalize_url day_path media_type metadata (codes "7") (codes "news") page [])
put-IsStored_example =
    put-IsStored plain canonicalize_url day_path media_type metadata (codes "7") (codes "news") page
      []
