-- ===== src/Tests/Breaker.antt =====
-- The circuit breaker with a threshold of two failures and a recovery time of 60 ticks.
use ai_internship_demo_task.Prelude.{
  Bool, true, false, List, [], ◌∷◌, ◌≡◌, refl, arith, All, length,
}
use ai_internship_demo_task.Prelude.Result.{ok}
use ai_internship_demo_task.Extraction.CircuitBreaker.{
  closed, open_state, Breaker, init, ask, failure, run,
}
use ai_internship_demo_task.Extraction.CircuitBreaker.Invariant.{IsValid, init-IsValid, run-IsValid}
use ai_internship_demo_task.Extraction.CircuitBreaker.Admission.{answers, answers_one_probe}
use ai_internship_demo_task.Extraction.CircuitBreaker.History.{
  Report, succeeded, failed, tell, trailing_failures, expected_state, tell-init,
}

abbrev fresh : Breaker
fresh = record {
  failure_threshold = 2;
  recovery_timeout = 60;
  state = closed;
  failures = 0;
  last_failure = 0;
  half_open_probe = false;
}

abbrev pub tripped : Breaker
tripped = record fresh { state = open_state; failures = 2; last_failure = 9 }

init-fresh : init 2 60 ≡ ok fresh
unfolding init
init-fresh = refl

trips : run fresh (failure 5 5 ∷ failure 9 9 ∷ []) ≡ tripped
unfolding run
trips = refl

reopens : (run tripped (ask 70 ∷ failure 71 71 ∷ [])).state ≡ open_state
unfolding run
reopens = refl

tripped-IsValid : IsValid tripped
unfolding run
tripped-IsValid = run-IsValid (failure 5 5 ∷ failure 9 9 ∷ []) (init-IsValid 2 60 init-fresh)

run-IsValid_example : IsValid (run fresh (failure 5 5 ∷ failure 9 9 ∷ ask 70 ∷ []))
run-IsValid_example =
    run-IsValid (failure 5 5 ∷ failure 9 9 ∷ ask 70 ∷ []) (init-IsValid 2 60 init-fresh)

answers_one_probe_example :
    (rest : List Bool) × (answers tripped (69 ∷ 70 ∷ 500 ∷ []) ≡ true ∷ rest)
    × (length rest ≡ 2)
    × All (λ a. a ≡ false) rest
answers_one_probe_example = answers_one_probe 69 (70 ∷ 500 ∷ []) tripped refl (omega arith)

abbrev reports : List Report
reports = failed 1 1 ∷ succeeded ∷ failed 5 5 ∷ failed 9 9 ∷ []

tell-init_example :
    ((tell fresh reports).state ≡ expected_state 2 (trailing_failures 0 reports))
    × ((tell fresh reports).failures ≡ trailing_failures 0 reports)
tell-init_example = tell-init 2 60 reports fresh init-fresh
