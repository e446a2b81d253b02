-- ===== src/Tests/Fetching.antt =====
-- A fetch of a page that succeeds at the second attempt.
use ai_internship_demo_task.Prelude.{ℕ, ◌==◌, none, [], ◌≡◌, refl, arith, if◌then◌else◌}
use ai_internship_demo_task.Prelude.Result.{ok}
use ai_internship_demo_task.Prelude.Text.{Text, codes}
use ai_internship_demo_task.Fetch.Retry.{Failure, retry_async, retry_from}
use ai_internship_demo_task.Fetch.Client.{
  RawResponse, Response, Reply, response, unreachable, fetch, fetch_once, read_response,
  is_http_url, is_retryable,
}
use ai_internship_demo_task.Fetch.Client.Outcomes.{IsAnswer, fetch-IsAnswer}

abbrev urlsplit : Text → Text × Text
urlsplit url = (codes "https", codes "example.org")

abbrev delay : ℕ → Failure → ℕ
delay n e = 2

abbrev page : ℕ → Response
page status = record {
  status = status;
  url = codes "https://example.org/";
  headers = [];
  content = codes "Hello";
  retry_after = none;
  at = 17;
}

abbrev replies : ℕ → Reply
replies n = if n == 1 then unreachable else response (page 200)

abbrev answer : RawResponse
answer = record {
  request_url = codes "https://example.org";
  response_url = codes "https://example.org/";
  status_code = 200;
  headers = [];
  body = codes "Hello";
  retrieved_at = 17;
  attempts = 2;
}

fetched : (fetch urlsplit delay 3 replies (codes "https://example.org")).0 ≡ ok answer
unfolding fetch retry_async retry_from fetch_once read_response is_http_url is_retryable
fetched = refl

fetch-IsAnswer_example : IsAnswer replies (codes "https://example.org") 3 answer
fetch-IsAnswer_example =
    fetch-IsAnswer urlsplit delay 3 replies (codes "https://example.org") answer (omega arith)
      fetched
