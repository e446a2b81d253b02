-- ===== src/Jobs/Worker.antt =====
-- `JobWorker` of src/jobs/workers.py and `TaskRegistry` of src/jobs/tasks.py. A handler is a
-- parameter of the registry: what it does with a message depends on the receipt too, which is never
-- given twice, so that two runs of one job may differ. It gives `none` for a return and the
-- exception's name for a raise, and the jobs that it enqueued into the worker's queue by then.
pub mod Enqueued
pub mod Steps
pub mod Draining
pub mod Retries
use ai_internship_demo_task.Prelude.{
  ℕ, zero, suc, ◌+◌, ◌*◌, ◌^◌, min, Bool, true, false, Option, none, some, List, [], ◌∷◌, ◌++◌,
  String, ltb, leb, if◌then◌else◌,
}
use ai_internship_demo_task.Prelude.Result.{Result, ok, raise}
use ai_internship_demo_task.Prelude.Json.{Fields}
use ai_internship_demo_task.Jobs.Queue.{
  JobType, Job, QueueMessage, Reason, unknown_job_type, max_retries, Queue, enqueue, receive, ack,
  retry, dead_letter,
}
use mathlib.Core.Logic.{ite}

unfoldable pub JobType-discrete : Discrete JobType
JobType-discrete = hlevel

abbrev pub TaskHandler : Type 0
TaskHandler = ℕ → Fields → Option String × List Job

abbrev pub TaskRegistry : Type 0
TaskRegistry = List (JobType × TaskHandler)

pub data RegistryError : Type 0 where
  already_registered : JobType → RegistryError

unfoldable pub handler_for : TaskRegistry → JobType → Option TaskHandler
unfolding JobType-discrete
handler_for [] t = none
handler_for ((j, h) ∷ r) t = ite (JobType-discrete j t) (some h) (handler_for r t)

unfoldable pub register : JobType → TaskHandler → TaskRegistry → Result RegistryError TaskRegistry
register t h r = elim (handler_for r t) [
  | some _ ↦ raise (already_registered t)
  | none ↦ ok (r ++ (t, h) ∷ [])
]

pub record WorkerResult : Type 0 where
  pub processed : ℕ
  pub retried : ℕ
  pub dead_lettered : ℕ
  pub idle : Bool

abbrev pub nothing : WorkerResult
nothing = record { processed = 0; retried = 0; dead_lettered = 0; idle = false }

pub record Worker : Type 0 where
  pub registry : TaskRegistry
  pub limit : ℕ
  pub base_delay : ℕ
  pub max_delay : ℕ

unfoldable pub delay_after : Worker → ℕ → ℕ
delay_after w attempts = min w.max_delay (w.base_delay * 2 ^ attempts)

-- The `except` branch of `_process`.
unfoldable pub handle_failure : Worker → QueueMessage → String → Queue → WorkerResult × Queue
handle_failure w message name q =
    if leb w.limit message.job.attempts
    then (record nothing { dead_lettered = 1 }, (dead_letter message (max_retries name) q).1)
    else (record nothing { retried = 1 }, (retry message (delay_after w message.job.attempts) q).1)

unfoldable pub enqueue_all : List Job → Queue → Queue
enqueue_all [] q = q
enqueue_all (job ∷ jobs) q = enqueue_all jobs (enqueue job q).1

-- The `try` statement of `_process` and what follows it, from how the handler ended.
unfoldable pub process_outcome :
    Worker → QueueMessage → Option String → Queue → WorkerResult × Queue
process_outcome w message (some name) q = handle_failure w message name q
process_outcome w message none q = (record nothing { processed = 1 }, ack message q)

-- `_process` from the handler that the registry gives.
unfoldable pub process_with :
    Worker → QueueMessage → Option TaskHandler → Queue → WorkerResult × Queue
process_with w message none q =
    (record nothing { dead_lettered = 1 }, (dead_letter message unknown_job_type q).1)
process_with w message (some handler) q =
    let (outcome, jobs) = handler message.receipt message.job.payload in
    process_outcome w message outcome (enqueue_all jobs q)

unfoldable pub process : Worker → QueueMessage → Queue → WorkerResult × Queue
process w message q = process_with w message (handler_for w.registry message.job.job_type) q

-- `run_once` from what the queue's `receive` gives.
unfoldable pub run_received : Worker → Option QueueMessage × Queue → WorkerResult × Queue
run_received w (none, q) = (record nothing { idle = true }, q)
run_received w (some message, q) = process w message q

unfoldable pub run_once : Worker → Queue → WorkerResult × Queue
run_once w q = run_received w (receive q)

-- The first `n` rounds of `run_forever`: the queue, and the counts of all rounds.
unfoldable pub run_rounds : Worker → ℕ → Queue → WorkerResult × Queue
run_rounds w zero q = (nothing, q)
run_rounds w (suc n) q =
    let (r, q1) = run_once w q in
    let (t, q2) = run_rounds w n q1 in
    (
      record {
        processed = r.processed + t.processed;
        retried = r.retried + t.retried;
        dead_lettered = r.dead_lettered + t.dead_lettered;
        idle = t.idle;
      },
      q2,
    )
