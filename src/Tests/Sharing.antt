-- ===== src/Tests/Sharing.antt =====
-- Callers of the GitHub client that ask for the same repository.
use ai_internship_demo_task.Prelude.{◌≤◌, none, some, List, [], ◌∷◌, ◌≡◌, refl}
use ai_internship_demo_task.Prelude.Eq.{list_eq, nat_eq}
use ai_internship_demo_task.Prelude.Dict.{lookup, insert}
use ai_internship_demo_task.Prelude.Text.{Text, codes}
use ai_internship_demo_task.Crawlers.GitHub.{
  new_client, Action, called, woken, pop_key, start_task, join_task, call_cached, call, finish,
  take_waiter, wake, step, run,
}
use ai_internship_demo_task.Crawlers.GitHub.SingleFlight.{task_count, run_single_flight}
use ai_internship_demo_task.Tests.Importing.{repository}

abbrev url : Text
url = codes "https://github.com/acme/widget"

abbrev actions : List Action
actions = called url ∷ called url ∷ woken 0 ∷ called url ∷ woken 0 ∷ []

run_single_flight_example : task_count url (run (λ n. some repository) actions new_client).tasks ≤ 1
run_single_flight_example = run_single_flight (λ n. repository) url actions

-- When the first task fails, the second of its waiters takes the entry of the new task out of the dict: the
-- next caller starts another task beside it.
two_tasks_at_once :
    (run
      (λ n. none)
      (called url ∷ called url ∷ woken 0 ∷ called url ∷ woken 1 ∷ called url ∷ [])
      new_client).waiters
    ≡ record { url = url; task = 2 } ∷ record { url = url; task = 1 } ∷ []
unfolding run step call call_cached join_task start_task wake take_waiter finish pop_key lookup
    insert
two_tasks_at_once = refl
