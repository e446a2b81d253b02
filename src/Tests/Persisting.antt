-- ===== src/Tests/Persisting.antt =====
-- A news candidate of the last day, persisted.
use ai_internship_demo_task.Prelude.{[], none, some, ◌≡◌, refl}
use ai_internship_demo_task.Freshness.Policies.{
  DateEvidence, meta, accept, evaluate_freshness, evaluate_at, evaluate_resolved, hours,
}
use ai_internship_demo_task.Prelude.Text.{codes}
use ai_internship_demo_task.Storage.Objects.{RawDocument}
use ai_internship_demo_task.Crawlers.Candidates.{NewsCandidate}

abbrev dated_item : DateEvidence
dated_item = record { published_at = some 7200000000; source = some meta; confidence = 95 }

abbrev item : NewsCandidate
item = record {
  original_url = (codes "http://a.example/x?utm_source=y");
  canonical_url = (codes "https://a.example/x");
  title = (codes "Title");
  body = (codes "Body");
  author = none;
  published_at = some 7200000000;
  date_source = some meta;
  date_confidence = 95;
  category = (codes "AI");
}

abbrev raw_page : RawDocument
raw_page = record {
  raw_document_id = (codes "r1");
  source_id = (codes "news");
  content_hash = (codes "h1");
  retrieved_at = 90000000000;
  original_url = codes "http://a.example/x";
  canonical_url = codes "https://a.example/x";
  status_code = 200;
  headers = [];
  storage_key = codes "k";
  content_type = none;
}

item_accepted : (evaluate_freshness 90000000000 24 75 dated_item).status ≡ accept
unfolding evaluate_freshness evaluate_at evaluate_resolved hours
item_accepted = refl
