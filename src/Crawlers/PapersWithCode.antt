-- ===== src/Crawlers/PapersWithCode.antt =====
-- `PapersWithCodeAdapter` of src/crawlers/research/papers_with_code.py: the batches of the archive that are
-- fetched, and the candidates of a batch.
-- `json.loads` and the two forms of a URL are parameters, with `none` where they raise; an endpoint is its
-- offset and its length.
pub mod Batches
use ai_internship_demo_task.Prelude.{
  ℕ, zero, suc, ◌+◌, ◌-◌, ◌==◌, min, Bool, true, false, not, ◌&&◌, Option, none, some, List, [],
  ◌∷◌, ◌++◌, ltb, leb, String, if◌then◌else◌,
}
use ai_internship_demo_task.Prelude.Result.{Result, ok, raise}
use ai_internship_demo_task.Prelude.Int.{pos, int_eq}
use ai_internship_demo_task.Prelude.Text.{Text, codes, join, is_empty}
use ai_internship_demo_task.Prelude.Json.{
  Value, null, bool, num, str, arr, obj, Elements, no_elements, element, Fields, field, end, get,
}
use ai_internship_demo_task.Freshness.Dedupe.{words_from}
use ai_internship_demo_task.Crawlers.Candidates.{ResearchPaperCandidate}

-- An offset and a length, which the endpoint is made of.
abbrev pub Batch : Type 0
Batch = ℕ × ℕ

pub data Error : Type 0 where
  -- `ValueError` of the constructor
  not_positive : Error
  -- `PapersWithCodeParseError`
  parse_error : Error

pub record Adapter : Type 0 where
  pub batch_size : ℕ
  pub max_records : ℕ
  pub require_official : Bool

unfoldable pub open_adapter : ℕ → ℕ → Bool → Result Error Adapter
open_adapter batch_size max_records require_official =
    if leb 1 batch_size && leb 1 max_records
    then ok (record {
      batch_size = batch_size;
      max_records = max_records;
      require_official = require_official;
    })
    else raise not_positive

-- The loop of `discover` over `range(offset, max_records, batch_size)`, on fuel.
unfoldable pub batches_from : ℕ → ℕ → ℕ → ℕ → List Batch
batches_from zero batch_size max_records offset = []
batches_from (suc fuel) batch_size max_records offset =
    let rest = batches_from fuel batch_size max_records (offset + batch_size) in
    if ltb offset max_records then (offset, min batch_size (max_records - offset)) ∷ rest else []

unfoldable pub discover : Adapter → List Batch
discover a = batches_from a.max_records a.batch_size a.max_records 0

-- `normalized or None`
unfoldable pub or_none : Text → Option Text
or_none s = if is_empty s then none else some s

-- `_non_empty_string`
unfoldable pub non_empty_string : Option Value → Option Text
non_empty_string (some (str s)) = or_none (join (codes " ") (words_from [] s))
non_empty_string _ = none

-- `value is True`
unfoldable pub is_true : Option Value → Bool
is_true (some (bool b)) = b
is_true _ = false

-- bool(value)
unfoldable pub truth : Option Value → Bool
truth none = false
truth (some null) = false
truth (some (bool b)) = b
truth (some (num n)) = not (int_eq n (pos 0))
truth (some (str s)) = not (is_empty s)
truth (some (arr no_elements)) = false
truth (some (arr (element v vs))) = true
truth (some (obj end)) = false
truth (some (obj (field k v fs))) = true

unfoldable pub text_or_null : Option Text → Value
text_or_null none = null
text_or_null (some s) = str s

-- The texts of a row that a candidate needs.
pub record RowTexts : Type 0 where
  pub paper_page : Text
  pub paper_url_abs : Text
  pub repository_url : Text
  pub title : Text
  pub arxiv_id : Text

-- `all` of the five texts
unfoldable pub all_texts :
    Option Text → Option Text → Option Text → Option Text → Option Text → Option RowTexts
all_texts (some page) (some abs) (some repo) (some title) (some id) = some (record {
  paper_page = page;
  paper_url_abs = abs;
  repository_url = repo;
  title = title;
  arxiv_id = id;
})
all_texts _ _ _ _ _ = none

module _ (canonicalize_arxiv_url canonicalize_url : Text → Option Text) where
  -- The candidate of a row with its two canonical URLs, if both are given.
  unfoldable pub candidate_of :
      Fields → RowTexts → Option Text → Option Text → Option ResearchPaperCandidate
  candidate_of row t (some paper_url) (some canonical_url) = some (record {
    original_url = t.paper_page;
    canonical_url = canonical_url;
    paper_url = paper_url;
    title = t.title;
    authors = [];
    published_at = none;
    abstract = none;
    github_url = some t.repository_url;
    source_metadata = field "parser" (str (codes "papers_with_code_archive_rows_v1")) (
        field "paper_arxiv_id" (str t.arxiv_id) (
          field "implementation_is_official" (bool (truth (get "is_official" row))) (
            field "implementation_mentioned_in_paper" (bool (truth (get "mentioned_in_paper" row)))
              (field "implementation_mentioned_in_github"
                (bool (truth (get "mentioned_in_github" row)))
                (field "implementation_framework"
                  (text_or_null (non_empty_string (get "framework" row))) end)))));
  })
  candidate_of row t (some paper_url) none = none
  candidate_of row t none canonical_url = none

  unfoldable pub candidate_with : Fields → Option RowTexts → Option ResearchPaperCandidate
  candidate_with row none = none
  candidate_with row (some t) =
      candidate_of row t (canonicalize_arxiv_url t.paper_url_abs) (canonicalize_url t.paper_page)

  unfoldable pub candidate_from_row : Bool → Fields → Option ResearchPaperCandidate
  candidate_from_row require_official row =
      let texts =
        all_texts (non_empty_string (get "paper_url" row))
          (non_empty_string (get "paper_url_abs" row)) (non_empty_string (get "repo_url" row))
          (non_empty_string (get "paper_title" row))
          (non_empty_string (get "paper_arxiv_id" row)) in
      if require_official && not (is_true (get "is_official" row))
      then none
      else candidate_with row texts

  unfoldable pub add_candidate :
      Option ResearchPaperCandidate → List ResearchPaperCandidate → List ResearchPaperCandidate
  add_candidate none cs = cs
  add_candidate (some c) cs = c ∷ cs

  unfoldable pub row_of : Bool → Option Value → Option ResearchPaperCandidate
  row_of require_official (some (obj row)) = candidate_from_row require_official row
  row_of require_official _ = none

  unfoldable pub wrapped_row : Bool → Value → Option ResearchPaperCandidate
  wrapped_row require_official (obj fs) = row_of require_official (get "row" fs)
  wrapped_row require_official _ = none

  -- The loop of `parse`.
  unfoldable pub rows_from : Bool → Elements → List ResearchPaperCandidate
  rows_from require_official no_elements = []
  rows_from require_official (element v vs) =
      add_candidate (wrapped_row require_official v) (rows_from require_official vs)

  unfoldable pub parse_rows : Adapter → Option Value → Result Error (List ResearchPaperCandidate)
  parse_rows a (some (arr rows)) = ok (rows_from a.require_official rows)
  parse_rows a _ = raise parse_error

  unfoldable pub parse_document :
      Adapter → Option Value → Result Error (List ResearchPaperCandidate)
  parse_document a (some (obj fs)) = parse_rows a (get "rows" fs)
  parse_document a _ = raise parse_error

  unfoldable pub parse :
      (Text → Option Value) → Adapter → Text → Result Error (List ResearchPaperCandidate)
  parse loads a body = parse_document a (loads body)
