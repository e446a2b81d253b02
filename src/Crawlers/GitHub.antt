-- ===== src/Crawlers/GitHub.antt =====
-- `GitHubClient` of src/crawlers/research/github.py: the forms of a repository's URL, the reading of an answer,
-- and the cache that several callers share.
-- `urlsplit` (`none` where it or its port raises) and `str.lower` are parameters. A caller of
-- `get_repository` runs from one `await` that waits to the next in one step: its call, and what it does
-- when the task it waits for has ended. `outcome n` is what the `n`-th task comes to, `none` for an
-- exception; the callers that wait are woken in any order.
pub mod SingleFlight
use ai_internship_demo_task.Prelude.{
  ℕ, zero, suc, ◌+◌, ◌==◌, ◌&&◌, ◌||◌, Bool, true, false, not, Option, none, some, List, [], ◌∷◌,
  ◌++◌, length, ltb, leb, String, if◌then◌else◌,
}
use ai_internship_demo_task.Prelude.Eq.{same, nat_eq, list_eq}
use ai_internship_demo_task.Prelude.Int.{ℤ, pos, negsuc, is_negative}
use ai_internship_demo_task.Prelude.Dict.{lookup, insert}
use ai_internship_demo_task.Prelude.Text.{Text, codes, is_empty}
use ai_internship_demo_task.Prelude.Json.{Value, null, bool, num, str, arr, obj, Fields, get}
use ai_internship_demo_task.Extraction.Providers.{remove_suffix}
use ai_internship_demo_task.Fetch.Client.{RawResponse}

pub record GitHubRepository : Type 0 where
  pub normalized_url : Text
  pub full_name : Text
  pub stars : ℕ
  pub fetched_at : ℕ
  pub raw_response : RawResponse

-- What `urlsplit` gives.
pub record SplitUrl : Type 0 where
  pub scheme : Text
  pub hostname : Option Text
  pub username : Option Text
  pub password : Option Text
  pub port : Option ℕ
  pub path : Text

-- [component for component in path.split("/") if component], with the component that is being read
unfoldable pub components_from : Text → Text → List Text
components_from part [] = if is_empty part then [] else part ∷ []
components_from part (c ∷ s) =
    let ended = components_from [] s in
    let read = components_from (part ++ c ∷ []) s in
    if c == b'/' then (if is_empty part then ended else part ∷ ended) else read

unfoldable pub is_github_host : Option Text → Bool
is_github_host none = false
is_github_host (some h) = same h (codes "github.com") || same h (codes "www.github.com")

unfoldable pub is_web_port : Option ℕ → Bool
is_web_port none = true
is_web_port (some p) = p == 80 || p == 443

abbrev pub is_none : Option Text → Bool
is_none none = true
is_none (some s) = false

unfoldable pub is_public_url : SplitUrl → Bool
is_public_url u =
    (same u.scheme (codes "http") || same u.scheme (codes "https"))
    && is_github_host u.hostname
    && is_none u.username
    && is_none u.password
    && is_web_port u.port

-- The owner and the repository, if there are just two components.
unfoldable pub two_components : List Text → Option (Text × Text)
two_components (owner ∷ repository ∷ []) = some (owner, repository)
two_components _ = none

module _ (urlsplit : Text → Option SplitUrl) (lower : Text → Text) where
  -- The end of `normalize_github_repository_url`.
  unfoldable pub url_of : Option (Text × Text) → Option Text
  url_of none = none
  url_of (some (owner, repository)) =
      let name = remove_suffix (codes ".git") repository in
      if is_empty owner || is_empty name
      then none
      else some (codes "https://github.com/" ++ (lower owner ++ (b'/' ∷ lower name)))

  unfoldable pub normalize_split : Option SplitUrl → Option Text
  normalize_split none = none
  normalize_split (some u) =
      if is_public_url u then url_of (two_components (components_from [] u.path)) else none

  -- `none` for each `ValueError`
  unfoldable pub normalize_github_repository_url : Text → Option Text
  normalize_github_repository_url url = normalize_split (urlsplit url)

  unfoldable pub owner_of_split : Option SplitUrl → Option (Text × Text)
  owner_of_split none = none
  owner_of_split (some u) = two_components (components_from [] u.path)

  unfoldable pub github_owner_and_repository : Text → Option (Text × Text)
  github_owner_and_repository url = owner_of_split (urlsplit url)

-- The number of stars; a bool is an int.
unfoldable pub stars_of : Option Value → Option ℕ
stars_of (some (num (pos n))) = some n
stars_of (some (bool true)) = some 1
stars_of (some (bool false)) = some 0
stars_of _ = none

unfoldable pub name_of : Option Value → Option Text
name_of (some (str s)) = if is_empty s then none else some s
name_of _ = none

unfoldable pub repository_of : Text → RawResponse → Option ℕ → Option Text → Option GitHubRepository
repository_of url r (some stars) (some name) = some (record {
  normalized_url = url;
  full_name = name;
  stars = stars;
  fetched_at = r.retrieved_at;
  raw_response = r;
})
repository_of url r (some stars) none = none
repository_of url r none name = none

-- `_fetch_repository` from the response on, `loads` having read its body; `none` for the error.
unfoldable pub read_repository : Text → RawResponse → Option Value → Option GitHubRepository
read_repository url r (some (obj fs)) =
    repository_of url r (stars_of (get "stargazers_count" fs)) (name_of (get "full_name" fs))
read_repository url r _ = none

-- A caller that waits for a task.
pub record Waiter : Type 0 where
  pub url : Text
  pub task : ℕ

pub record Client : Type 0 where
  pub cache : List (Text × GitHubRepository)
  pub in_flight : List (Text × ℕ)
  -- the URLs of the tasks that were created, the last first; a task's number is that of those before it
  pub tasks : List Text
  pub waiters : List Waiter

-- `__init__`
abbrev pub new_client : Client
new_client = record { cache = []; in_flight = []; tasks = []; waiters = [] }

-- d.pop(k, None)
unfoldable pub pop_key : Text → List (Text × ℕ) → List (Text × ℕ)
pop_key k [] = []
pop_key k ((j, n) ∷ d) = if same j k then d else (j, n) ∷ pop_key k d

-- `asyncio.create_task`, and the wait for it.
unfoldable pub start_task : Text → Client → Client
start_task url s =
    let n = length s.tasks in
    record s {
      in_flight = insert url n s.in_flight;
      tasks = url ∷ s.tasks;
      waiters = record { url = url; task = n } ∷ s.waiters;
    }

unfoldable pub join_task : Option ℕ → Text → Client → Client
join_task none url s = start_task url s
join_task (some n) url s = record s { waiters = record { url = url; task = n } ∷ s.waiters }

unfoldable pub call_cached : Option GitHubRepository → Text → Client → Client
call_cached (some m) url s = s
call_cached none url s = join_task (lookup url s.in_flight) url s

-- `get_repository` up to the wait, on the normal form of the URL.
unfoldable pub call : Text → Client → Client
call url s = call_cached (lookup url s.cache) url s

-- The end of `get_repository` for a caller, from what its task came to.
unfoldable pub finish : Option GitHubRepository → Text → Client → Client
finish none url s = record s { in_flight = pop_key url s.in_flight }
finish (some m) url s = record s {
  cache = insert url m s.cache;
  in_flight = pop_key url s.in_flight;
}

abbrev pub put_back : Waiter → Option (Waiter × List Waiter) → Option (Waiter × List Waiter)
put_back w none = none
put_back w (some (v, vs)) = some (v, w ∷ vs)

-- The waiter at a position, and the others.
unfoldable pub take_waiter : ℕ → List Waiter → Option (Waiter × List Waiter)
take_waiter n [] = none
take_waiter zero (w ∷ ws) = some (w, ws)
take_waiter (suc n) (w ∷ ws) = put_back w (take_waiter n ws)

pub data Action : Type 0 where
  called : Text → Action
  -- the waiter at a position goes on
  woken : ℕ → Action

module _ (outcome : ℕ → Option GitHubRepository) where
  unfoldable pub wake : Option (Waiter × List Waiter) → Client → Client
  wake none s = s
  wake (some (w, ws)) s = finish (outcome w.task) w.url (record s { waiters = ws })

  unfoldable pub step : Action → Client → Client
  step (called url) s = call url s
  step (woken n) s = wake (take_waiter n s.waiters) s

  unfoldable pub run : List Action → Client → Client
  run [] s = s
  run (a ∷ actions) s = run actions (step a s)
