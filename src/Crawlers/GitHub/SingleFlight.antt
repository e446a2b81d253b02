-- ===== src/Crawlers/GitHub/SingleFlight.antt =====
-- How often the repository of a URL is fetched.
use ai_internship_demo_task.Prelude.{
  ℕ, suc, ◌≤◌, false, Option, none, some, List, [], ◌∷◌, ◌≡◌, refl, sym, ap, ◌∙◌, arith, length,
  if◌then◌else◌, Bool-cases, inl, inr,
}
use ai_internship_demo_task.Prelude.Eq.{same, nat_eq, list_eq}
use ai_internship_demo_task.Prelude.Dict.{lookup, lookup-insert}
use ai_internship_demo_task.Prelude.Text.{Text}
use ai_internship_demo_task.Crawlers.GitHub.{
  GitHubRepository, Client, new_client, Waiter, Action, called, woken, pop_key, start_task,
  join_task, call_cached, call, finish, take_waiter, wake, step, run,
}

-- The number of tasks that were created for a URL.
abbrev pub task_count : Text → List Text → ℕ
task_count url [] = 0
task_count url (t ∷ ts) = if same t url then suc (task_count url ts) else task_count url ts

-- A URL that is neither cached nor in flight has had no task, and any other at most one.
abbrev Known : Option GitHubRepository → Option ℕ → ℕ → Type 0
Known none none n = n ≡ 0
Known none (some task) n = n ≤ 1
Known (some m) flight n = n ≤ 1

abbrev IsKnown : Text → Client → Type 0
IsKnown url s = Known (lookup url s.cache) (lookup url s.in_flight) (task_count url s.tasks)

Known-le : (c : Option GitHubRepository) (f : Option ℕ) (n : ℕ) → Known c f n → n ≤ 1
Known-le none none n h = omega (arith, h)
Known-le none (some task) n h = h
Known-le (some m) f n h = h

lookup-pop_key :
    (k j : Text) (d : List (Text × ℕ)) → same k j ≡ false → lookup j (pop_key k d) ≡ lookup j d
unfolding lookup pop_key
lookup-pop_key k j [] ne = refl
lookup-pop_key k j ((i, n) ∷ d) ne = elim (Bool-cases (same i k)) [
  | inl e ↦
      let q : i ≡ k = (list_eq.beq_iff i k).0 e in
      let ne' : same i j ≡ false = ap (λ (t : Text). same t j) q ∙ ne in rw (e, ne') refl
  | inr e ↦
      rw e (elim (Bool-cases (same i j)) [
        | inl f ↦ rw f refl
        | inr f ↦ rw f (lookup-pop_key k j d ne)
      ])
]

start_task-IsKnown :
    (url u : Text) (s : Client)
    → lookup u s.cache ≡ none
    → lookup u s.in_flight ≡ none
    → IsKnown url s
    → IsKnown url (start_task u s)
unfolding start_task
start_task-IsKnown url u s c f h = elim (Bool-cases (same u url)) [
  | inl e ↦
      let q : u ≡ url = (list_eq.beq_iff u url).0 e in
      let c' : lookup url s.cache ≡ none = ap (λ (t : Text). lookup t s.cache) (sym q) ∙ c in
      let f' : lookup url s.in_flight ≡ none =
        ap (λ (t : Text). lookup t s.in_flight) (sym q) ∙ f in
      let zero_tasks : task_count url s.tasks ≡ 0 = rw (c', f') at h in
      rw (c', lookup-insert u url (length s.tasks) s.in_flight, e) (omega (arith, zero_tasks))
  | inr e ↦ rw (lookup-insert u url (length s.tasks) s.in_flight, e) h
]

join_task-IsKnown :
    (url u : Text) (s : Client) (found : Option ℕ)
    → lookup u s.cache ≡ none
    → lookup u s.in_flight ≡ found
    → IsKnown url s
    → IsKnown url (join_task found u s)
unfolding join_task
join_task-IsKnown url u s none c f h = start_task-IsKnown url u s c f h
join_task-IsKnown url u s (some n) c f h = h

call_cached-IsKnown :
    (url u : Text) (s : Client) (found : Option GitHubRepository)
    → lookup u s.cache ≡ found
    → IsKnown url s
    → IsKnown url (call_cached found u s)
unfolding call_cached
call_cached-IsKnown url u s (some m) c h = h
call_cached-IsKnown url u s none c h = join_task-IsKnown url u s (lookup u s.in_flight) c refl h

finish-IsKnown :
    (url u : Text) (m : GitHubRepository) (s : Client)
    → IsKnown url s
    → IsKnown url (finish (some m) u s)
unfolding finish
finish-IsKnown url u m s h = elim (Bool-cases (same u url)) [
  | inl e ↦
      rw (lookup-insert u url m s.cache, e)
        (Known-le (lookup url s.cache) (lookup url s.in_flight) (task_count url s.tasks) h)
  | inr e ↦ rw (lookup-insert u url m s.cache, e, lookup-pop_key u url s.in_flight e) h
]

module _ (outcome : ℕ → GitHubRepository) where
  wake-IsKnown :
      (url : Text) (found : Option (Waiter × List Waiter)) (s : Client)
      → IsKnown url s
      → IsKnown url (wake (λ n. some (outcome n)) found s)
  unfolding wake
  wake-IsKnown url none s h = h
  wake-IsKnown url (some (w, ws)) s h =
      finish-IsKnown url w.url (outcome w.task) (record s { waiters = ws }) h

  run-IsKnown :
      (url : Text) (actions : List Action) (s : Client)
      → IsKnown url s
      → IsKnown url (run (λ n. some (outcome n)) actions s)
  unfolding run step call
  run-IsKnown url [] s h = h
  run-IsKnown url (called u ∷ actions) s h =
      run-IsKnown url actions (call u s) (call_cached-IsKnown url u s (lookup u s.cache) refl h)
  run-IsKnown url (woken n ∷ actions) s h =
      run-IsKnown url actions (wake (λ n. some (outcome n)) (take_waiter n s.waiters) s)
        (wake-IsKnown url (take_waiter n s.waiters) s h)

  -- If every task succeeds, the repository of a URL is fetched at most once in the life of the client, in
  -- whatever order callers come and are woken.
  pub run_single_flight :
      (url : Text) (actions : List Action)
      → task_count url (run (λ n. some (outcome n)) actions new_client).tasks ≤ 1
  unfolding lookup
  run_single_flight url actions =
      let s = run (λ n. some (outcome n)) actions new_client in
      Known-le (lookup url s.cache) (lookup url s.in_flight) (task_count url s.tasks)
        (run-IsKnown url actions new_client refl)
