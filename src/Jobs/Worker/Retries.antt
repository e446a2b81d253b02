-- ===== src/Jobs/Worker/Retries.antt =====
-- How often, and with which pauses, the worker tries a job that keeps failing.
use ai_internship_demo_task.Prelude.{
  ℕ, zero, suc, ◌+◌, ◌≤◌, ◌<◌, some, List, [], ◌∷◌, ◌++◌, ◌≡◌, refl, sym, ap, ◌∙◌, arith, String,
  append-nil, append_assoc, ltb, if◌then◌else◌, Bool-cases, inl, inr, le→leb, lt→leb_false,
}
use ai_internship_demo_task.Jobs.Queue.{
  QueueMessage, max_retries, Queue, sleep, enqueue, ack, retry, dead_letter,
}
use ai_internship_demo_task.Jobs.Worker.{
  Worker, WorkerResult, TaskHandler, nothing, delay_after, handler_for, handle_failure,
  process_outcome, process_with, process, enqueue_all, run_once, run_rounds,
}
use ai_internship_demo_task.Jobs.Worker.Enqueued.{again}
use ai_internship_demo_task.Jobs.Worker.Steps.{retry_lem}
use ai_internship_demo_task.Jobs.Worker.Draining.{run_once-busy}

-- A pause, if it is one.
abbrev pub pause : ℕ → List ℕ
pause d = if ltb 0 d then d ∷ [] else []

-- The pauses after failures of attempts `a`, `a + 1`, and so on, `k` of them.
unfoldable pub backoff : Worker → ℕ → ℕ → List ℕ
backoff w a zero = []
backoff w a (suc k) = pause (delay_after w a) ++ backoff w (a + 1) k

slept-retry : (m : QueueMessage) (d : ℕ) (q : Queue) → (retry m d q).1.slept ≡ q.slept ++ pause d
unfolding retry enqueue ack sleep
slept-retry m d q = elim (Bool-cases (ltb 0 d)) [ inl e ↦ rw e | inr e ↦ rw e (sym (append-nil _)) ]

process-failing :
    (w : Worker) (h : TaskHandler) (name : String) (m : QueueMessage) (q : Queue)
    → handler_for w.registry m.job.job_type ≡ some h
    → h m.receipt m.job.payload ≡ (some name, [])
    → process w m q ≡ handle_failure w m name q
unfolding process process_with process_outcome enqueue_all
process-failing w h name m q found fails = rw (found, process_with, fails)

-- What becomes of a failing job after `k` more retries.
pub record GivesUp (w : Worker) (name : String) (m : QueueMessage) (k : ℕ) (q : Queue)
    (r : WorkerResult × Queue) : Type 0 where
  pub retried : r.0.retried ≡ k
  pub dead : r.0.dead_lettered ≡ 1
  pub unprocessed : r.0.processed ≡ 0
  pub empty : r.1.waiting ≡ []
  pub slept : r.1.slept ≡ q.slept ++ backoff w m.job.attempts k
  pub last : QueueMessage
  pub buried : r.1.dead_letters ≡ q.dead_letters ++ (last, max_retries name) ∷ []
  pub same_job : last.job.job_id ≡ m.job.job_id
  pub attempts : last.job.attempts ≡ w.limit

module _ (w : Worker) (h : TaskHandler) (name : String) (m : QueueMessage) (q : Queue) where
  abbrev rest : Queue
  rest = record q { waiting = [] }

  failing_round :
      handler_for w.registry m.job.job_type ≡ some h
      → h m.receipt m.job.payload ≡ (some name, [])
      → q.waiting ≡ m ∷ []
      → run_once w q ≡ handle_failure w m name rest
  failing_round found fails e =
      run_once-busy w q m [] e ∙ process-failing w h name m rest found fails

handle_failure_last :
    (w : Worker) (name : String) (m : QueueMessage) (q : Queue)
    → w.limit ≤ m.job.attempts
    → handle_failure w m name q
      ≡ (record nothing { dead_lettered = 1 }, (dead_letter m (max_retries name) q).1)
unfolding handle_failure
handle_failure_last w name m q e = rw (le→leb w.limit m.job.attempts e)

handle_failure_again :
    (w : Worker) (name : String) (m : QueueMessage) (q : Queue)
    → m.job.attempts < w.limit
    → handle_failure w m name q
      ≡ (record nothing { retried = 1 }, (retry m (delay_after w m.job.attempts) q).1)
unfolding handle_failure
handle_failure_again w name m q e = rw (lt→leb_false w.limit m.job.attempts e)

-- A job whose handler fails at every attempt and enqueues nothing, alone in the queue with `k` retries left, is tried `k + 1`
-- times, with the pauses of the exponential backoff between, and then set aside as dead, with its
-- attempts at the limit.
pub run_rounds-GivesUp :
    (w : Worker) (h : TaskHandler) (name : String) (k : ℕ) (m : QueueMessage) (q : Queue)
    → handler_for w.registry m.job.job_type ≡ some h
    → ((receipt : ℕ) → h receipt m.job.payload ≡ (some name, []))
    → m.job.attempts + k ≡ w.limit
    → q.waiting ≡ m ∷ []
    → GivesUp w name m k q (run_rounds w (suc k) q)
unfolding run_rounds backoff again
run_rounds-GivesUp w h name zero m q found fails limit e =
    rw
      (
        failing_round w h name m q found (fails m.receipt) e,
        handle_failure_last w name m (record q { waiting = [] }) (omega arith),
      )
      (unfold dead_letter ack in
        record {
          retried = refl;
          dead = refl;
          unprocessed = refl;
          empty = refl;
          slept = sym (append-nil _);
          last = m;
          buried = refl;
          same_job = refl;
          attempts = omega arith;
        })
run_rounds-GivesUp w h name (suc k) m q found fails limit e =
    let q0 : Queue = record q { waiting = [] } in
    let d = delay_after w m.job.attempts in
    let q1 = (retry m d q0).1 in
    let moved = retry_lem m d q0 in
    let later =
      run_rounds-GivesUp w h name k (again m q0.receipts) q1 found fails (omega arith) moved.0 in
    rw
      (
        failing_round w h name m q found (fails m.receipt) e,
        handle_failure_again w name m q0 (omega arith),
      )
      (record {
        retried = omega (arith, later.retried);
        dead = omega (arith, later.dead);
        unprocessed = omega (arith, later.unprocessed);
        empty = later.empty;
        slept =
            later.slept
            ∙ ap (λ (l : List ℕ). l ++ backoff w (m.job.attempts + 1) k) (slept-retry m d q0)
            ∙ append_assoc q.slept _ _;
        last = later.last;
        buried = later.buried ∙ ap (λ l. l ++ (later.last, max_retries name) ∷ []) moved.2;
        same_job = later.same_job;
        attempts = later.attempts;
      })
