-- ===== src/Fetch/Client/Outcomes.antt =====
-- What a fetch comes to.
use ai_internship_demo_task.Prelude.{
  ℕ, ◌≤◌, ◌<◌, ◌≢◌, ◌||◌, Bool, true, false, List, [], ◌≡◌, refl, ap, subst, sym, ◌∙◌, arith, leb,
  Bool-cases, inl, inr,
}
use ai_internship_demo_task.Prelude.Result.{Result, ok, raise, ok-injective}
use ai_internship_demo_task.Prelude.Eq.{nat_eq}
use ai_internship_demo_task.Prelude.Dict.{contains}
use ai_internship_demo_task.Prelude.Text.{Text}
use ai_internship_demo_task.Fetch.Retry
use ai_internship_demo_task.Fetch.Retry.{Failure, retryable, other, raised, retry_async, retry_from}
use ai_internship_demo_task.Fetch.Retry.Runs.{
  outcome, pauses, settles, retry_async-ends, retry_async-settled,
}
use ai_internship_demo_task.Fetch.Client.{
  RawResponse, Response, Reply, unreachable, broken, response, is_transient, read_response,
  fetch_once, is_retryable, FetchError, invalid_url, gave_up, is_http_url, as_fetch_error, fetch,
  antibot_status_codes,
}

-- The result of a fetch carries the contents of a response.
pub record IsReadFrom (p : Response) (r : RawResponse) : Type 0 where
  pub addresses : r.response_url ≡ p.url
  pub statuses : r.status_code ≡ p.status
  pub fields : r.headers ≡ p.headers
  pub bodies : r.body ≡ p.content
  pub clocks : r.retrieved_at ≡ p.at

-- The result of a fetch is the response to one of its attempts at this URL: the attempt that it counts was
-- answered, it carries what came in this answer, and the status is below 400, so it is none of those for
-- which the browser would be used.
pub record IsAnswer (reply : ℕ → Reply) (url : Text) (max_attempts : ℕ) (r : RawResponse)
    : Type 0 where
  pub asked : r.request_url ≡ url
  pub answered : (p : Response) × (reply r.attempts ≡ response p) × IsReadFrom p r
  pub successful : r.status_code < 400
  pub counted : (1 ≤ r.attempts) × (r.attempts ≤ max_attempts)
  pub no_challenge : contains antibot_status_codes r.status_code ≡ false

abbrev Answers : (ℕ → Reply) → Text → ℕ → Result Failure RawResponse → Type 0
Answers reply url max_attempts (ok a) = IsAnswer reply url max_attempts a
Answers reply url max_attempts (raise e) = Unit

no_antibot : (status : ℕ) → status < 400 → contains antibot_status_codes status ≡ false
unfolding contains
no_antibot status h = ground arith

fetch_once-Answers :
    (reply : ℕ → Reply) (url : Text) (attempt max_attempts : ℕ) (r : Reply)
    → reply attempt ≡ r
    → 1 ≤ attempt
    → attempt ≤ max_attempts
    → Answers reply url max_attempts (fetch_once url attempt r)
unfolding fetch_once read_response
fetch_once-Answers reply url attempt max_attempts unreachable e h k = tt
fetch_once-Answers reply url attempt max_attempts broken e h k = tt
fetch_once-Answers reply url attempt max_attempts (response r) e h k =
    elim (Bool-cases (leb 400 r.status)) [
      | inl f ↦
          rw f (elim (Bool-cases (is_transient r.status)) [ inl t ↦ rw t tt | inr t ↦ rw t tt ])
      | inr f ↦
          let low : r.status < 400 = ground (arith, f) in
          rw f (record {
            asked = refl;
            answered = (
              r,
              e,
              record {
                addresses = refl;
                statuses = refl;
                fields = refl;
                bodies = refl;
                clocks = refl;
              },
            );
            successful = low;
            counted = (h, k);
            no_challenge = no_antibot r.status low;
          })
    ]

permanent_reply :
    (url : Text) (attempt : ℕ) (r : Response)
    → 400 ≤ r.status
    → r.status < 500
    → r.status ≢ 429
    → fetch_once url attempt (response r) ≡ raise (other r.status)
unfolding fetch_once read_response is_transient
permanent_reply url attempt r low high ne = ground (arith, low, high, ne)

refused : {a : RawResponse} → ¬ (◌≡◌ {A = Result FetchError RawResponse} (raise invalid_url) (ok a))
refused h = cc

or_true_right : (b : Bool) → (b || true) ≡ true
or_true_right true = refl
or_true_right false = refl

module _ (urlsplit : Text → Text × Text) (delay : ℕ → Failure → ℕ) where
  IsAnswer-of :
      (operation : ℕ → Result Failure RawResponse) (reply : ℕ → Reply) (url : Text)
      (max_attempts : ℕ) (r : Result Failure RawResponse) (a : RawResponse)
      → Answers reply url max_attempts r
      → as_fetch_error (outcome operation is_retryable delay r) ≡ ok a
      → IsAnswer reply url max_attempts a
  unfolding outcome
  IsAnswer-of operation reply url max_attempts (ok b) a h e =
      subst (IsAnswer reply url max_attempts) (ok-injective e) h
  IsAnswer-of operation reply url max_attempts (raise f) a h e = absurd (cc)

  other_settles :
      (operation : ℕ → Result Failure RawResponse) (max_attempts attempt kind : ℕ)
      → settles operation is_retryable delay max_attempts attempt (raise (other kind)) ≡ true
  unfolding settles is_retryable
  other_settles operation max_attempts attempt kind = or_true_right (leb max_attempts attempt)

  outcome-other :
      (operation : ℕ → Result Failure RawResponse) (kind : ℕ)
      → outcome operation is_retryable delay (raise (other kind)) ≡ raise (raised (other kind))
  unfolding outcome
  outcome-other operation kind = refl

  no_pauses :
      (operation : ℕ → Result Failure RawResponse) → pauses operation is_retryable delay 1 0 ≡ []
  unfolding pauses
  no_pauses operation = refl

  -- With at least one attempt allowed: what a fetch returns is the response to the attempt that it counts,
  -- one of at most as many as are allowed, with the final URL, the status, the headers, the body and the
  -- time of this response; it is for the URL that was asked for, and its status is below 400. In particular
  -- its status is none of those for which the browser would be used.
  pub fetch-IsAnswer :
      (max_attempts : ℕ) (reply : ℕ → Reply) (url : Text) (a : RawResponse)
      → 1 ≤ max_attempts
      → (fetch urlsplit delay max_attempts reply url).0 ≡ ok a
      → IsAnswer reply url max_attempts a
  unfolding fetch
  fetch-IsAnswer max_attempts reply url a h e =
      elim (Bool-cases (is_http_url (urlsplit url).0 (urlsplit url).1)) [
        | inl v ↦
            let operation : ℕ → Result Failure RawResponse =
              λ attempt. fetch_once url attempt (reply attempt) in
            let (n, last, p, short, run) =
              retry_async-ends operation is_retryable delay max_attempts h in
            IsAnswer-of operation reply url max_attempts (operation last) a
              (fetch_once-Answers reply url last max_attempts (reply last) refl (omega arith)
                (omega arith))
              (ap (λ (m : Result Retry.Error RawResponse × List ℕ). as_fetch_error m.0) (sym run)
                ∙ (rw v at e))
        | inr v ↦ absurd (refused (rw v at e))
      ]

  -- With at least one attempt allowed, a first answer to an HTTP URL with a status from 400 to 499, other
  -- than 429, ends the fetch with that status, without a pause or a second attempt.
  pub fetch-permanent :
      (max_attempts : ℕ) (reply : ℕ → Reply) (url : Text) (r : Response)
      → is_http_url (urlsplit url).0 (urlsplit url).1 ≡ true
      → 1 ≤ max_attempts
      → reply 1 ≡ response r
      → 400 ≤ r.status
      → r.status < 500
      → r.status ≢ 429
      → fetch urlsplit delay max_attempts reply url
        ≡ (raise (gave_up (raised (other r.status))), [])
  unfolding fetch
  fetch-permanent max_attempts reply url r v h e low high ne =
      let operation : ℕ → Result Failure RawResponse =
        λ attempt. fetch_once url attempt (reply attempt) in
      let first : operation 1 ≡ raise (other r.status) =
        ap (fetch_once url 1) e ∙ permanent_reply url 1 r low high ne in
      let run =
        retry_async-settled operation is_retryable delay max_attempts 0 (omega arith)
          (λ i a b. absurd (omega (arith, a, b)))
          (ap (settles operation is_retryable delay max_attempts 1) first
            ∙ other_settles operation max_attempts 1 r.status) in
      let ends : retry_async operation is_retryable delay max_attempts
          ≡ (raise (raised (other r.status)), []) =
        run ∙ rw (first, outcome-other operation r.status, no_pauses operation) refl in
      rw v (ap (λ (m : Result Retry.Error RawResponse × List ℕ). (as_fetch_error m.0, m.1)) ends)
