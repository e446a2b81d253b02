-- ===== src/Tests/Working.antt =====
-- The worker on one job that fails at every attempt and one that succeeds.
use ai_internship_demo_task.Prelude.{
  ℕ, ◌+◌, ◌*◌, ◌≤◌, ◌<◌, String, false, none, some, [], ◌∷◌, ◌≡◌, refl, arith,
}
use ai_internship_demo_task.Prelude.Json.{Fields, end}
use ai_internship_demo_task.Jobs.Queue.{
  JobType, discover_source, fetch_url, parse_document, extract_entity, resolve_entity, fetch_github,
  export_record, Job, QueueMessage, Queue, empty, enqueue, receive, receive_from, ack, sleep, retry,
  dead_letter,
}
use ai_internship_demo_task.Jobs.Worker.{
  TaskHandler, Worker, handler_for, delay_after, handle_failure, process_outcome, process_with,
  process, enqueue_all, run_received, run_once, run_rounds,
}
use ai_internship_demo_task.Jobs.Worker.Enqueued.{
  tries_left, total, total_jobs, enqueued, next_attempt,
}
use ai_internship_demo_task.Jobs.Worker.Steps.{Handles, process-Handles}
use ai_internship_demo_task.Jobs.Worker.Draining.{Drains, IsDwindling, run_rounds-Drains}
use ai_internship_demo_task.Jobs.Worker.Retries.{GivesUp, run_rounds-GivesUp, backoff}

program : Unit {0}
unfolding enqueue receive receive_from ack sleep retry dead_letter handler_for delay_after
    handle_failure process_with process run_received run_once run_rounds tries_left total total_jobs
    enqueued process_outcome enqueue_all backoff
program = tt

abbrev fails : TaskHandler
fails receipt payload = (some "ValueError", [])

abbrev works : TaskHandler
works receipt payload = (none, [])

abbrev next_job : Job
next_job = record { job_type = parse_document; payload = end; job_id = "c"; attempts = 0 }

-- A handler that leaves the rest to another job.
abbrev passes_on : TaskHandler
passes_on receipt payload = (none, next_job ∷ [])

abbrev worker : Worker
worker = record {
  registry = (fetch_url, fails) ∷ (parse_document, works) ∷ [];
  limit = 2;
  base_delay = 5;
  max_delay = 8;
}

abbrev job : Job
job = record { job_type = fetch_url; payload = end; job_id = "a"; attempts = 0 }

abbrev message : QueueMessage
message = record { receipt = 0; job = job }

abbrev one : Queue
one = record empty { waiting = message ∷ []; receipts = 1 }

abbrev two : Queue
two = record empty {
  waiting =
      message
      ∷ record { receipt = 1; job = record job { job_type = parse_document; job_id = "b" } }
      ∷ [];
  receipts = 2;
}

counts :
    (run_rounds worker 4 two).0
    ≡ record { processed = 1; retried = 2; dead_lettered = 1; idle = false }
unfolding program
counts = refl

pauses : (run_rounds worker 4 two).1.slept ≡ 5 ∷ 8 ∷ []
unfolding program
pauses = refl

abbrev chain : Worker
chain = record worker { registry = (fetch_url, passes_on) ∷ (parse_document, fails) ∷ [] }

abbrev weight_of : ℕ → JobType → ℕ
weight_of tries fetch_url = 4 * tries
weight_of tries _ = tries

abbrev weight : Job → ℕ
weight j = weight_of (tries_left chain j) j.job_type

message_of : ℕ → Fields → String → ℕ → JobType → QueueMessage
message_of receipt payload id n t = record {
  receipt = receipt;
  job = record { job_type = t; payload = payload; job_id = id; attempts = n };
}

chain_done_at :
    (receipt : ℕ) (payload : Fields) (id : String) (n : ℕ) (t : JobType)
    → let m = message_of receipt payload id n t in
      total_jobs weight (enqueued chain m) < weight m.job
unfolding message_of tries_left total_jobs enqueued handler_for
chain_done_at receipt payload id n discover_source = omega arith
chain_done_at receipt payload id n fetch_url = omega arith
chain_done_at receipt payload id n parse_document = omega arith
chain_done_at receipt payload id n extract_entity = omega arith
chain_done_at receipt payload id n resolve_entity = omega arith
chain_done_at receipt payload id n fetch_github = omega arith
chain_done_at receipt payload id n export_record = omega arith

chain_more_at :
    (receipt : ℕ) (payload : Fields) (id : String) (n : ℕ) (t : JobType)
    → n < 2
    → let m = message_of receipt payload id n t in
      total_jobs weight (enqueued chain m) + weight (next_attempt m.job) < weight m.job
unfolding message_of tries_left total_jobs enqueued handler_for next_attempt
chain_more_at receipt payload id n discover_source h = omega arith
chain_more_at receipt payload id n fetch_url h = omega arith
chain_more_at receipt payload id n parse_document h = omega arith
chain_more_at receipt payload id n extract_entity h = omega arith
chain_more_at receipt payload id n resolve_entity h = omega arith
chain_more_at receipt payload id n fetch_github h = omega arith
chain_more_at receipt payload id n export_record h = omega arith

chain-IsDwindling : IsDwindling chain weight
unfolding message_of
chain-IsDwindling = record {
  done = λ m. chain_done_at m.receipt m.job.payload m.job.job_id m.job.attempts m.job.job_type;
  more = λ m h. chain_more_at m.receipt m.job.payload m.job.job_id m.job.attempts m.job.job_type h;
}

few : total weight two.waiting ≤ 15
unfolding program
few = omega arith

run_rounds-Drains_example : Drains two (run_rounds chain 15 two)
run_rounds-Drains_example = run_rounds-Drains chain weight chain-IsDwindling 15 two few

process-Handles_example :
    Handles chain message (enqueued chain message) empty (process chain message empty)
process-Handles_example = process-Handles chain message empty

failing : handler_for worker.registry fetch_url ≡ some fails
unfolding program
failing = refl

run_rounds-GivesUp_example : GivesUp worker "ValueError" message 2 one (run_rounds worker 3 one)
run_rounds-GivesUp_example =
    run_rounds-GivesUp worker fails "ValueError" 2 message one failing (λ receipt. refl)
      (omega arith) refl
