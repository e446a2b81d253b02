-- ===== src/Fetch/Client.antt =====
-- `AsyncHttpClient` of src/fetch/http_client.py over `retry_async`, and the test for the browser of
-- src/fetch/playwright_client.py.
-- What httpx does with the request of an attempt is a parameter, a `Reply`; `urlsplit` gives the scheme and
-- the netloc. The semaphore and the rate limiter, when there is one, only delay an attempt, and the logging
-- is left out.
pub mod Outcomes
use ai_internship_demo_task.Prelude.{
  ℕ, ◌+◌, ◌==◌, ◌&&◌, ◌||◌, not, Bool, true, false, Option, none, some, List, [], ◌∷◌, String, leb,
  ltb, length, take, if◌then◌else◌,
}
use ai_internship_demo_task.Prelude.Result.{Result, ok, raise}
use ai_internship_demo_task.Prelude.Eq.{same, nat_eq, list_eq}
use ai_internship_demo_task.Prelude.Dict.{contains}
use ai_internship_demo_task.Prelude.Text.{Text, codes, is_empty}
use ai_internship_demo_task.Fetch.Retry
use ai_internship_demo_task.Fetch.Retry.{Failure, retryable, other, retry_async}

pub record RawResponse : Type 0 where
  pub request_url : Text
  pub response_url : Text
  pub status_code : ℕ
  pub headers : List (Text × Text)
  pub body : Text
  pub retrieved_at : ℕ
  pub attempts : ℕ

pub record Response : Type 0 where
  pub status : ℕ
  pub url : Text
  pub headers : List (Text × Text)
  pub content : Text
  -- the header `Retry-After`
  pub retry_after : Option String
  -- the reading of the clock after it
  pub at : ℕ

-- A timeout or a network error, another exception, or a response.
pub data Reply : Type 0 where
  unreachable : Reply
  broken : Reply
  response : Response → Reply

-- `HttpStatusError.is_transient`
unfoldable pub is_transient : ℕ → Bool
is_transient status = status == 429 || (leb 500 status && leb status 599)

-- `_fetch_once` from the response on. A `RuntimeError` has the status as its kind, another exception 0.
unfoldable pub read_response : Text → ℕ → Response → Result Failure RawResponse
read_response url attempt r =
    if leb 400 r.status
    then if is_transient r.status then raise (retryable r.retry_after) else raise (other r.status)
    else ok (record {
      request_url = url;
      response_url = r.url;
      status_code = r.status;
      headers = r.headers;
      body = r.content;
      retrieved_at = r.at;
      attempts = attempt;
    })

unfoldable pub fetch_once : Text → ℕ → Reply → Result Failure RawResponse
fetch_once url attempt unreachable = raise (retryable none)
fetch_once url attempt broken = raise (other 0)
fetch_once url attempt (response r) = read_response url attempt r

-- `_is_retryable`
unfoldable pub is_retryable : Failure → Bool
is_retryable (retryable header) = true
is_retryable (other kind) = false

pub data FetchError : Type 0 where
  invalid_url : FetchError
  gave_up : Retry.Error → FetchError

-- `_validate_http_url`, on the scheme and the netloc of the URL
unfoldable pub is_http_url : Text → Text → Bool
is_http_url scheme netloc =
    (same scheme (codes "http") || same scheme (codes "https")) && not (is_empty netloc)

abbrev pub as_fetch_error : {A : Type 0} → Result Retry.Error A → Result FetchError A
as_fetch_error (ok a) = ok a
as_fetch_error (raise e) = raise (gave_up e)

module _ (urlsplit : Text → Text × Text) (delay : ℕ → Failure → ℕ) where
  -- `fetch`, with the pauses that it makes; `reply n` is what comes of attempt `n`.
  unfoldable pub fetch : ℕ → (ℕ → Reply) → Text → Result FetchError RawResponse × List ℕ
  fetch max_attempts reply url =
      let run =
        retry_async (λ attempt. fetch_once url attempt (reply attempt)) is_retryable delay
          max_attempts in
      if is_http_url (urlsplit url).0 (urlsplit url).1
      then (as_fetch_error run.0, run.1)
      else (raise invalid_url, [])

abbrev pub antibot_status_codes : List ℕ
antibot_status_codes = 403 ∷ 503 ∷ []

abbrev pub challenge_markers : List Text
challenge_markers =
    codes "cf-browser-verification"
    ∷ codes "challenge-platform"
    ∷ codes "just a moment"
    ∷ codes "checking your browser"
    ∷ codes "ddos protection by"
    ∷ codes "attention required"
    ∷ codes "datadome"
    ∷ []

-- bytes.lower(), on one byte
unfoldable pub lower : ℕ → ℕ
lower c = if leb b'A' c && leb c b'Z' then c + 32 else c

unfoldable pub lower_all : Text → Text
lower_all [] = []
lower_all (c ∷ s) = lower c ∷ lower_all s

unfoldable pub starts_with : Text → Text → Bool
starts_with [] s = true
starts_with (p ∷ ps) [] = false
starts_with (p ∷ ps) (c ∷ s) = p == c && starts_with ps s

-- part in s
unfoldable pub is_part : Text → Text → Bool
is_part part [] = is_empty part
is_part part (c ∷ s) = starts_with part (c ∷ s) || is_part part s

unfoldable pub any_part : List Text → Text → Bool
any_part [] s = false
any_part (p ∷ ps) s = is_part p s || any_part ps s

unfoldable pub should_use_browser_fallback : ℕ → Text → Bool
should_use_browser_fallback status body =
    if contains antibot_status_codes status
    then true
    else if ltb (length body) 150
    then true
    else any_part challenge_markers (lower_all (take 4096 body))
